-- ===== src/Ec2/Trust.antt =====
-- ec2system/ec2machine.go with internal/authority: the authority that a driver hands to its instances.
use mathlib.Core.Path.{subst}
use bigmachine.Prelude.{
  ℕ, ◌≡◌, refl, ap, ◌∙◌, Bool, true, Option, none, some, List, [], ◌∷◌, ◌++◌, Text, codes,
  if◌then◌else◌, text_eq, arith,
}
use bigmachine.Errors.{Errors}
use bigmachine.Machine.Retry.{Result, ok}
use bigmachine.Authority.{Crypto, Authority, new, contents}
use bigmachine.Authority.RoundTrips.{Laws, new-contents}
use bigmachine.Ec2.{CloudFile, CloudConfig, append_file, append_unit}
use bigmachine.Ec2.Devices.{System, data_devices}
use bigmachine.Ec2.Boot.{
  Execute, cloud_config, with_boot, boot_texts, boot_config, base_config, with_data, ◌>>=◌,
}

-- authorityPath.
abbrev pub authority_path : Text
authority_path = codes "/tmp/bigmachine.pem"

-- What a path holds once files are written in their order.
unfoldable pub written : Text → List CloudFile → Option Text
written path [] = none
written path (f ∷ fs) =
    let rest = written path fs in
    elim rest [ some t ↦ some t | none ↦ if text_eq f.path path then some f.content else none ]

written-append :
    (path : Text) (fs : List CloudFile) (f : CloudFile)
    → text_eq f.path path ≡ true
    → written path (fs ++ f ∷ []) ≡ some f.content
unfolding written
written-append path [] f h = ground (arith, h)
written-append path (g ∷ fs) f h = ground (arith, written-append path fs f h)

-- The configuration, if there is one, writes the authority's file.
abbrev Writes : System → Option CloudConfig → Type 0
Writes s none = Unit {0}
Writes s (some c) = written authority_path c.write_files ≡ some s.authority

>>=-Writes :
    {A : Type 0} (s : System) (o : Option A) (f : A → Option CloudConfig)
    → ((a : A) → Writes s (f a))
    → Writes s (o >>= f)
>>=-Writes s none f h = tt
>>=-Writes s (some a) f h = h a

with_boot-Writes :
    (execute : Execute) (immortal : Bool) (s : System) (c : CloudConfig)
    → Writes s (with_boot execute immortal s c)
unfolding with_boot boot_config append_file append_unit
with_boot-Writes execute immortal s c =
    >>=-Writes s (boot_texts execute immortal s)
      (λ (sysctl, script, update, boot). some (boot_config sysctl script update boot s c))
      (λ t. written-append authority_path _ _ refl)

pub cloud_config-written :
    (execute : Execute) (immortal : Bool) (s : System) (c : CloudConfig)
    → cloud_config execute immortal s ≡ some c
    → written authority_path c.write_files ≡ some s.authority
unfolding cloud_config
cloud_config-written execute immortal s c h = subst (Writes s) h (
    >>=-Writes s (with_data execute (data_devices s) (base_config s))
      (λ x. with_boot execute immortal s x) (λ x. with_boot-Writes execute immortal s x))

module _ (E : Errors) (C : Crypto E.Err) (laws : Laws E C) where
  open E use {Err}
  open C use {Key, Files, read_file}

  -- The driver and its instances have one authority: what Init's New gives the driver, New gives an
  -- instance that boots with the cloud configuration of the driver's System, on a file system that
  -- holds the files of that configuration, whatever the instance's clock and its random numbers.
  pub new-cloud_config :
      (filename : Text) (made made' : Result Err Key) (now now' : ℕ) (files files' there : Files)
      (a : Authority E C) (execute : Execute) (immortal : Bool) (s : System) (c : CloudConfig)
      → new E C filename made now files ≡ (some (ok a), files')
      → s.authority ≡ contents E C a
      → cloud_config execute immortal s ≡ some c
      → ((t : Text)
          → written authority_path c.write_files ≡ some t
          → read_file there authority_path ≡ ok t)
      → new E C authority_path made' now' there ≡ (some (ok a), there)
  new-cloud_config filename made made' now now' files files' there a execute immortal s c hn hs hc
        hr =
      new-contents E C laws filename authority_path made made' now now' files files' there a hn
        (λ e. ground (arith, e))
        (hr (contents E C a) (cloud_config-written execute immortal s c hc ∙ ap some hs))
