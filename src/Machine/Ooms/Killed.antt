-- ===== src/Machine/Ooms/Killed.antt =====
-- machine.go: which lines of the kernel's log make tryMonitorOOMs fail a machine.
use bigmachine.Prelude.{
  ℕ, ◌≡◌, refl, ap, ◌∙◌, true, inl, inr, some, List, [], ◌∷◌, ◌++◌, Text, codes, if◌then◌else◌,
  arith, has_prefix, All, Bool-cases,
}
use bigmachine.Errors.{Errors, Laws, oom}
use bigmachine.Machine.States.{stopped}
use bigmachine.Machine.{Machine, set_error}
use bigmachine.Machine.Waiting.{Op, interfere}
use bigmachine.Machine.Retry.{ok}
use bigmachine.Machine.Ooms.{decimal, contains_text, kill_text, oom_error, scan_log, monitor_ooms}

-- A line that holds a text.
pub record Holds (look line : Text) : Type 0 where
  pub before : Text
  pub after : Text
  pub split : line ≡ before ++ (look ++ after)

prefix-split : (t p : Text) → has_prefix t p ≡ true → (u : Text) × (t ≡ p ++ u)
unfolding has_prefix
prefix-split t [] h = (t, refl)
prefix-split [] (p ∷ ps) h = absurd (ground (arith, h))
prefix-split (c ∷ t) (p ∷ ps) h =
    let (u, e) = prefix-split t ps (ground (arith, h)) in
    let same : c ≡ p = ground (arith, h) in (u, cc (same, e))

contains_text-Holds : (line look : Text) → contains_text line look ≡ true → Holds look line
unfolding contains_text
contains_text-Holds [] look h =
    let (u, e) = prefix-split [] look h in record { before = []; after = u; split = e }
contains_text-Holds (c ∷ t) look h = elim (Bool-cases (has_prefix (c ∷ t) look)) [
  | inl p ↦ let (u, e) = prefix-split (c ∷ t) look p in record { before = []; after = u; split = e }
  | inr p ↦
      let rest = contains_text-Holds t look (ground (arith, h, p)) in
      record { before = c ∷ rest.before; after = rest.after; split = ap (λ x. c ∷ x) rest.split }
]

has_prefix_self : (p u : Text) → has_prefix (p ++ u) p ≡ true
unfolding has_prefix
has_prefix_self [] u = refl
has_prefix_self (c ∷ p) u = ground (arith, has_prefix_self p u)

contains_text_found :
    (before look after : Text) → contains_text (before ++ (look ++ after)) look ≡ true
unfolding contains_text
contains_text_found [] look after = at_front (look ++ after) (has_prefix_self look after)
  where
    at_front : (t : Text) → has_prefix t look ≡ true → contains_text t look ≡ true
    at_front [] h = h
    at_front (c ∷ t) h = ground (arith, h)
contains_text_found (c ∷ before) look after = ground (arith, contains_text_found before look after)

module _ (E : Errors) where
  open E use {Err, is_kind}

  scan_log-append :
      (look : Text) (xs ys : List (List (Op Err) × Text)) (m : Machine Err)
      → scan_log E look (xs ++ ys) m ≡ scan_log E look ys (scan_log E look xs m)
  unfolding scan_log
  scan_log-append look [] ys m = refl
  scan_log-append look ((ops, line) ∷ xs) ys m = scan_log-append look xs ys _

  -- What the other goroutines do over the lines.
  abbrev pub others : List (List (Op Err) × Text) → Machine Err → Machine Err
  others [] m = m
  others ((ops, line) ∷ lines) m = others lines (interfere ops m)

  scan_log-others :
      (look : Text) (lines : List (List (Op Err) × Text)) (m : Machine Err)
      → All (λ l. Holds look l.1 → ⊥) lines
      → scan_log E look lines m ≡ others lines m
  unfolding scan_log
  scan_log-others look [] m h = refl
  scan_log-others look ((ops, line) ∷ lines) m h = elim (Bool-cases (contains_text line look)) [
    | inl e ↦ absurd (h.0 (contains_text-Holds line look e))
    | inr e ↦ rw e (scan_log-others look lines (interfere ops m) h.1)
  ]

  -- Once the monitor reads, after any other lines, a line with the kernel's words for the kill of a
  -- process and then the digits of the machine's own, which need not end there, the machine is stopped
  -- with an error of the kind OOM.
  pub monitor_ooms-killed :
      Laws E
      → (pid : ℕ) (lines : List (List (Op Err) × Text)) (ops : List (Op Err)) (line : Text)
        (m : Machine Err)
      → Holds (codes "Out of memory: Kill process " ++ decimal pid) line
      → let last = monitor_ooms E (ok pid) (ok (lines ++ (ops, line) ∷ [])) m in
        (last.state ≡ stopped) × ((e : Err) × (last.error ≡ some e) × (is_kind oom e ≡ true))
  unfolding monitor_ooms
  monitor_ooms-killed laws pid lines ops line m h =
      let look = kill_text ++ decimal pid in
      let m' = interfere ops (scan_log E look lines m) in
      let found : contains_text line look ≡ true =
        ap (λ t. contains_text t look) h.split ∙ contains_text_found h.before look h.after in
      let whole : scan_log E look (lines ++ (ops, line) ∷ []) m ≡ set_error (oom_error E) m' =
        scan_log-append look lines ((ops, line) ∷ []) m
        ∙ (unfold scan_log in ap (λ b. if b then set_error (oom_error E) m' else m') found) in
      (
        ap (λ x. x.state) whole ∙ (unfold set_error in refl),
        (
          oom_error E,
          ap (λ x. x.error) whole ∙ (unfold set_error in refl),
          laws.is_kind-make oom oom _ refl,
        ),
      )

  -- While no line holds the kernel's words with the digits of the machine's process, the monitor does
  -- nothing to the machine: only the other goroutines do.
  pub monitor_ooms-others :
      (pid : ℕ) (lines : List (List (Op Err) × Text)) (m : Machine Err)
      → All (λ l. Holds (codes "Out of memory: Kill process " ++ decimal pid) l.1 → ⊥) lines
      → monitor_ooms E (ok pid) (ok lines) m ≡ others lines m
  unfolding monitor_ooms
  monitor_ooms-others pid lines m h = scan_log-others (kill_text ++ decimal pid) lines m h
