-- ===== src/Ec2/Rendering.antt =====
-- ec2system/cloudconfig.go: what is rendered, and what a merge keeps.
use mathlib.Core.List.{append_assoc, append-nil}
use bigmachine.Prelude.{◌≡◌, refl, sym, List, [], ◌∷◌, ◌++◌, Text, codes, if◌then◌else◌, map, arith}
use bigmachine.Ec2.{
  CloudFile, CloudUnit, ubuntu, CloudConfig, is_blank, merge, append_file, append_run_cmd,
  unit_file, unit_cmd, render_unit, render_units, has_none, rendered,
}

-- The files of the units that have a content.
unfoldable pub unit_files : (Text → Text → Text) → List CloudUnit → List CloudFile
unit_files join [] = []
unit_files join (u ∷ us) =
    let rest = unit_files join us in if is_blank u.content then rest else unit_file join u ∷ rest

render_units-lists :
    (join : Text → Text → Text) (us : List CloudUnit) (c : CloudConfig)
    → ((render_units join us c).run_cmd ≡ c.run_cmd ++ map unit_cmd us)
      × ((render_units join us c).write_files ≡ c.write_files ++ unit_files join us)
unfolding render_units unit_files render_unit append_file append_run_cmd
render_units-lists join [] c = (sym (append-nil c.run_cmd), sym (append-nil c.write_files))
render_units-lists join (u ∷ us) c =
    let rest = render_units-lists join us (render_unit join u c) in
    (
      ground (arith, rest.0, append_assoc c.run_cmd (unit_cmd u ∷ []) (map unit_cmd us)),
      ground
          (arith, rest.1, append_assoc c.write_files (unit_file join u ∷ []) (unit_files join us)),
    )

-- Outside Flatcar, the rendered commands are those of the configuration, a daemon-reload if there
-- are units, and one command for each unit in order; each unit with a content has its file, after
-- the configuration's files.
pub rendered-ubuntu :
    (join : Text → Text → Text) (c : CloudConfig)
    → c.flavor ≡ ubuntu
    → ((rendered join c).run_cmd
        ≡ (c.run_cmd ++ (if has_none c.units then [] else codes "systemctl daemon-reload" ∷ []))
          ++ map unit_cmd c.units)
      × ((rendered join c).write_files ≡ c.write_files ++ unit_files join c.units)
unfolding rendered append_run_cmd
rendered-ubuntu join c h =
    let reloaded =
      if has_none c.units then c else append_run_cmd (codes "systemctl daemon-reload") c in
    let lists = render_units-lists join c.units reloaded in
    (ground (arith, h, lists.0, append-nil c.run_cmd), ground (arith, h, lists.1))

-- Merge keeps the order of three merges, whichever two are merged first, and it loses the run
-- commands and the mounts of the configuration that is merged into another.
pub merge_assoc :
    (c d e : CloudConfig)
    → (merge (merge c d) e ≡ merge c (merge d e))
      × ((merge c d).run_cmd ≡ c.run_cmd)
      × ((merge c d).mounts ≡ c.mounts)
unfolding merge
merge_assoc c d e = (
  ground (
    arith,
    append_assoc c.write_files d.write_files e.write_files,
    append_assoc c.units d.units e.units,
    append_assoc c.ssh_authorized_keys d.ssh_authorized_keys e.ssh_authorized_keys,
  ),
  refl,
  refl,
)
