-- ===== src/Machine/Latencies.antt =====
-- machine.go: the ring buffer of keepalive reply times.
use bigmachine.Prelude.{
  ℕ, zero, suc, ◌+◌, ◌-◌, ◌%◌, ◌<◌, ◌≤◌, ◌≡◌, refl, ◌∙◌, sym, inl, inr, List, [], ◌∷◌,
  if◌then◌else◌, ltb, length, get_or, set, take, drop, map, length-set, get_or-set_self,
  get_or-set_ne, arith, Bool-cases, ltb→lt,
}
use native.Mathlib.Nat.{mod-eq_of_lt}
use bigmachine.Machine.{
  Machine, num_keepalive_reply_times, record_keepalive, collect_times, keepalive_reply_times,
}

-- A reply: time.Since(callStart), time.Now(), and the reply's Next.
pub record Sample : Type 0 where
  pub elapsed : ℕ
  pub now : ℕ
  pub next : ℕ

abbrev pub latencies : List Sample → List ℕ
latencies = map λ x. x.elapsed

-- The machine after a history of replies, the latest first.
unfoldable pub recorded : {Err : Type 0} → List Sample → Machine Err → Machine Err
recorded [] m = m
recorded (x ∷ xs) m = record_keepalive x.elapsed x.now x.next (recorded xs m)

-- The buffer holds the latest ten entries of a history.
record Holds (hist : List ℕ) (num : ℕ) (times : List ℕ) : Type 0 where
  counted : num ≡ length hist
  sized : length times ≡ num_keepalive_reply_times
  latest : (j : ℕ) → j < 10 → j < num → get_or times ((num - j - 1) % 10) 0 ≡ get_or hist j 0

Holds-cons :
    (d : ℕ) (hist : List ℕ) (num : ℕ) (times : List ℕ)
    → Holds hist num times
    → Holds (d ∷ hist) (suc num) (set times (num % 10) d)
Holds-cons d hist num times h = record {
  counted = omega (arith, h.counted);
  sized = length-set times (num % 10) d ∙ h.sized;
  latest = at;
}
  where
    at :
        (j : ℕ)
        → j < 10
        → j < suc num
        → get_or (set times (num % 10) d) ((suc num - j - 1) % 10) 0 ≡ get_or (d ∷ hist) j 0
    at zero p q =
        let e : (suc num - 0 - 1) % 10 ≡ num % 10 = omega arith in
        rw e (get_or-set_self times (num % 10) d 0 (omega (arith, h.sized)))
    at (suc j) p q =
        let e : (suc num - suc j - 1) % 10 ≡ (num - j - 1) % 10 = omega arith in
        rw e (
          get_or-set_ne times (num % 10) _ d 0 (omega arith)
          ∙ h.latest j (omega arith) (omega arith))

drop-cons : (i : ℕ) (xs : List ℕ) → i < length xs → drop i xs ≡ get_or xs i 0 ∷ drop (suc i) xs
drop-cons i [] h = absurd (omega arith)
drop-cons zero (x ∷ xs) h = refl
drop-cons (suc i) (x ∷ xs) h = drop-cons i xs (omega arith)

collect_times-take :
    (rounds i n num : ℕ) (times hist : List ℕ)
    → i + rounds ≡ n
    → n ≤ length hist
    → ((j : ℕ) → j < n → get_or times ((num - j - 1) % n) 0 ≡ get_or hist j 0)
    → collect_times rounds i n num times ≡ take rounds (drop i hist)
unfolding collect_times
collect_times-take zero i n num times hist e l h = refl
collect_times-take (suc r) i n num times hist e l h = rw (
  drop-cons i hist (omega arith),
  h i (omega arith),
  collect_times-take r (suc i) n num times hist (omega arith) l h,
)

take_all : (n : ℕ) (xs : List ℕ) → length xs ≤ n → take n xs ≡ take (length xs) xs
take_all zero [] h = refl
take_all (suc n) [] h = refl
take_all zero (x ∷ xs) h = absurd (omega arith)
take_all (suc n) (x ∷ xs) h = rw (take_all n xs (omega arith))

-- With fewer than ten replies so far, the index needs no wrap-around.
young_index : (num j : ℕ) → num < 10 → j < num → (num - j - 1) % num ≡ (num - j - 1) % 10
young_index num j h k = mod-eq_of_lt {m = num} (omega arith) ∙ omega arith

Holds-collect :
    (hist : List ℕ) (num : ℕ) (times : List ℕ)
    → Holds hist num times
    → (let n = if ltb num (length times) then num else length times in
        collect_times n 0 n num times)
      ≡ take 10 hist
Holds-collect hist num times h = elim (Bool-cases (ltb num 10)) [
  | inl e ↦
      rw (h.sized, e, if◌then◌else◌)
        (collect_times-take num 0 num num times hist (omega arith) (omega (arith, h.counted))
            (λ j p.
              rw (young_index num j (ltb→lt _ _ e) p) (h.latest j (omega (arith, ltb→lt _ _ e)) p))
          ∙ rw h.counted (sym (take_all 10 hist (omega (arith, h.counted, ltb→lt _ _ e)))))
  | inr e ↦
      rw (h.sized, e, if◌then◌else◌)
        (collect_times-take 10 0 10 num times hist refl (ground (arith, h.counted))
          (λ j p. h.latest j p (ground arith)))
]

recorded-Holds :
    {Err : Type 0} (hist : List Sample) (m : Machine Err)
    → m.num_keepalive ≡ 0
    → length m.keepalive_reply_times ≡ num_keepalive_reply_times
    → let m' = recorded hist m in Holds (latencies hist) m'.num_keepalive m'.keepalive_reply_times
unfolding recorded record_keepalive
recorded-Holds [] m z l = record { counted = z; sized = l; latest = λ j p q. absurd (omega arith) }
recorded-Holds (x ∷ hist) m z l =
    let h = recorded-Holds hist m z l in rw h.sized (Holds-cons x.elapsed (latencies hist) _ _ h)

-- KeepaliveReplyTimes returns the latencies of the latest replies, at most ten, the latest first,
-- after any history of replies on a machine that starts with no reply and a buffer of ten.
pub keepalive_reply_times-recorded :
    {Err : Type 0} (hist : List Sample) (m : Machine Err)
    → m.num_keepalive ≡ 0
    → length m.keepalive_reply_times ≡ num_keepalive_reply_times
    → keepalive_reply_times (recorded hist m) ≡ take 10 (latencies hist)
unfolding keepalive_reply_times
keepalive_reply_times-recorded hist m z l =
    Holds-collect (latencies hist) _ _ (recorded-Holds hist m z l)
