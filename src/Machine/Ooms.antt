-- ===== src/Machine/Ooms.antt =====
-- machine.go: tryMonitorOOMs, which fails a machine when the kernel's log tells that its process was
-- killed.
pub mod Killed
use mathlib.Core.List.{append_assoc}
use bigmachine.Prelude.{
  ℕ, zero, suc, ◌+◌, ◌-◌, ◌*◌, ◌/◌, ◌%◌, ◌<◌, ◌≡◌, refl, ap, has_prefix, ◌∙◌, sym, Bool, true, ◌||◌,
  List, [], ◌∷◌, ◌++◌, Text, codes, if◌then◌else◌, ltb, arith, Bool-cases, inl, inr,
}
use bigmachine.Errors.{Errors, kind, message, oom}
use bigmachine.Machine.{Machine, set_error}
use bigmachine.Machine.Waiting.{Op, interfere}
use bigmachine.Machine.Retry.{Result, ok, err}

-- %d of a number; the fuel is more than the number.
unfoldable pub decimal_of : ℕ → ℕ → Text
decimal_of zero n = []
decimal_of (suc fuel) n =
    let front = decimal_of fuel (n / 10) in
    if ltb n 10 then (48 + n) ∷ [] else front ++ (48 + n % 10) ∷ []

unfoldable pub decimal : ℕ → Text
unfolding decimal_of
decimal n = decimal_of (suc n) n

abbrev value_from : ℕ → Text → ℕ
value_from v [] = v
value_from v (c ∷ t) = value_from (10 * v + (c - 48)) t

value_from-append :
    (v : ℕ) (t : Text) (c : ℕ) → value_from v (t ++ c ∷ []) ≡ 10 * value_from v t + (c - 48)
value_from-append v [] c = refl
value_from-append v (d ∷ t) c = value_from-append (10 * v + (d - 48)) t c

decimal_of-value : (fuel n : ℕ) → n < fuel → value_from 0 (decimal_of fuel n) ≡ n
unfolding decimal_of
decimal_of-value zero n h = absurd (omega arith)
decimal_of-value (suc fuel) n h = elim (Bool-cases (ltb n 10)) [
  | inl e ↦ rw e (omega arith)
  | inr e ↦ rw e (
      value_from-append 0 (decimal_of fuel (n / 10)) (48 + n % 10)
      ∙ let bound : n / 10 < fuel = ground arith in
        omega (arith, decimal_of-value fuel (n / 10) bound))
]

-- The text that is printed for a number is that number: the fuel is enough.
pub decimal-value : (n : ℕ) → value_from 0 (decimal n) ≡ n
unfolding decimal
decimal-value n = decimal_of-value (suc n) n (omega arith)

-- strings.Contains.
unfoldable pub contains_text : Text → Text → Bool
unfolding has_prefix
contains_text [] look = has_prefix [] look
contains_text (c ∷ t) look = let rest = contains_text t look in has_prefix (c ∷ t) look || rest

abbrev pub kill_text : Text
kill_text = codes "Out of memory: Kill process "

module _ (E : Errors) where
  open E use {Err, make}

  abbrev pub oom_error : Err
  oom_error = make (kind oom ∷ message (codes "bigmachine process killed by the kernel") ∷ [])

  -- The scan of the log: each line with what other goroutines do before it comes.
  unfoldable pub scan_log : Text → List (List (Op Err) × Text) → Machine Err → Machine Err
  unfolding contains_text
  scan_log look [] m = m
  scan_log look ((ops, line) ∷ lines) m =
      let m' = interfere ops m in
      scan_log look lines (if contains_text line look then set_error oom_error m' else m')

  -- tryMonitorOOMs: what retryCall gives of Supervisor.Getpid, and system.Read. An error of either, or
  -- of the scan, is only logged.
  unfoldable pub monitor_ooms :
      Result Err ℕ → Result Err (List (List (Op Err) × Text)) → Machine Err → Machine Err
  unfolding scan_log
  monitor_ooms (err e) lines m = m
  monitor_ooms (ok pid) (err e) m = m
  monitor_ooms (ok pid) (ok lines) m = scan_log (kill_text ++ decimal pid) lines m

  has_prefix-append : (p t u : Text) → has_prefix t (p ++ u) ≡ true → has_prefix t p ≡ true
  unfolding has_prefix
  has_prefix-append [] t u h = refl
  has_prefix-append (c ∷ p) [] u h = h
  has_prefix-append (c ∷ p) (d ∷ t) u h = ground (arith, has_prefix-append p t u)

  contains_text-append : (p t u : Text) → contains_text t (p ++ u) ≡ true → contains_text t p ≡ true
  unfolding contains_text
  contains_text-append p [] u h = has_prefix-append p [] u h
  contains_text-append p (c ∷ t) u h =
      ground (arith, has_prefix-append p (c ∷ t) u, contains_text-append p t u)

  -- The monitor also fails a machine for the end of another process: a line that tells of a process
  -- whose number only begins with the digits of the machine's is taken for its own.
  pub monitor_ooms_prefix :
      (pid other : ℕ) (digits line : Text) (m : Machine Err)
      → decimal other ≡ decimal pid ++ digits
      → contains_text line (kill_text ++ decimal other) ≡ true
      → monitor_ooms (ok pid) (ok (([], line) ∷ [])) m ≡ set_error oom_error m
  unfolding monitor_ooms scan_log interfere
  monitor_ooms_prefix pid other digits line m hd hl =
      let found : contains_text line (kill_text ++ decimal pid) ≡ true =
        contains_text-append (kill_text ++ decimal pid) line digits
          (rw (append_assoc kill_text (decimal pid) digits, sym hd) hl) in
      ap (λ b. if b then set_error oom_error m else m) found
