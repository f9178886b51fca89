-- ===== src/Streams/Tee/Keeping.antt =====
-- internal/tee/writer.go: what a target that keeps up is given.
use bigmachine.Streams.Tee.Writers.{
  Routine, selecting, copying, returned, Entry, Step, tee, canceled, written, received, quit,
  copy_ended, new_entry, cancel, write_entry, receive, quit_entry, end_copy, run, forwarded, hand,
  total,
}
use bigmachine.Streams.Tee.Isolation.{own, run_own, run-new}
use bigmachine.Streams.Tee.Entries.{entry, quit_entry-total, quit_entry-managed}
use bigmachine.Streams.Tee.{text_of, write}
use mathlib.Core.List.{append_assoc, append-nil}
use bigmachine.Prelude.{
  ℕ, ◌+◌, ◌-◌, ◌≤◌, ◌≡◌, refl, sym, ap, ◌∙◌, Bool, true, false, Option, none, some, List, [], ◌∷◌,
  ◌++◌, Text, if◌then◌else◌, ◌==◌, ==_iff, if_elim, length, length-append, get_or, All, arith,
}

-- A step that does not end the forwarding to a target.
abbrev pub Keeps : ℕ → Step → Type 0
Keeps i tee = Unit
Keeps i (canceled j) = ¬ (j ≡ i)
Keeps i (written p) = Unit
Keeps i (received j) = Unit
Keeps i (quit j) = Unit
Keeps i (copy_ended j none) = Unit
Keeps i (copy_ended j (some n)) = ¬ (j ≡ i)

abbrev waiting : Entry → ℕ
waiting e = length (text_of e.target.pending)

-- A managed target after a step that gives it no bytes: it has the same ones, and no more of them are in
-- its buffer.
record Same (e' e : Entry) : Type 0 where
  totals : total e' ≡ total e
  managed : e'.managed ≡ e.managed
  fits : waiting e' ≤ waiting e

Same-refl : (e : Entry) → Same e e
Same-refl e = record { totals = refl; managed = refl; fits = omega arith }

Same-if : (b : Bool) (f : Entry → Entry) (e : Entry) → Same (f e) e → Same (if b then f e else e) e
Same-if true f e s = s
Same-if false f e s = Same-refl e

receive-Same :
    (r : Routine) (o : Option Text) (c : Text) (m d : Bool)
    → Same (receive (entry r o c m d)) (entry r o c m d)
unfolding receive
receive-Same selecting none c m d = Same-refl (entry selecting none c m d)
receive-Same selecting (some t) c m d = record {
  totals = ap (λ l. c ++ l) (append-nil t);
  managed = refl;
  fits = omega arith;
}
receive-Same (copying t) o c m d = Same-refl (entry (copying t) o c m d)
receive-Same returned o c m d = Same-refl (entry returned o c m d)

quit_entry-Same : (e : Entry) → Same (quit_entry e) e
unfolding quit_entry
quit_entry-Same e = record {
  totals = quit_entry-total e;
  managed = quit_entry-managed e;
  fits = ground arith;
}

end_copy-Same :
    (r : Routine) (o : Option Text) (c : Text) (m d : Bool)
    → Same (end_copy none (entry r o c m d)) (entry r o c m d)
unfolding end_copy
end_copy-Same selecting o c m d = Same-refl (entry selecting o c m d)
end_copy-Same (copying t) o c m d = record {
  totals = append_assoc c t (text_of o);
  managed = refl;
  fits = omega arith;
}
end_copy-Same returned o c m d = Same-refl (entry returned o c m d)

write-total :
    (size : ℕ) (p : Text) (e : Entry)
    → waiting e + length p ≤ size
    → let e' = record e { target = write size p e.target } in
      (total e' ≡ total e ++ p) × (waiting e' ≡ waiting e + length p)
unfolding write
write-total size p e h =
    let b = text_of e.target.pending in
    let g = hand e.routine in
    let c = e.target.copied in
    let none_dropped : length b + length p - size ≡ 0 = omega (arith, h) in
    (
      rw none_dropped
          (ap (λ l. c ++ l) (sym (append_assoc g b p)) ∙ sym (append_assoc c (g ++ b) p)),
      rw none_dropped (length-append b p),
    )

-- A step that keeps a target.
record Kept (e' e : Entry) (given : Text) : Type 0 where
  totals : total e' ≡ total e ++ given
  managed : e'.managed ≡ true
  fits : waiting e' ≤ waiting e + length given

Same-Kept : (e' e : Entry) → e.managed ≡ true → Same e' e → Kept e' e []
Same-Kept e' e m s = record {
  totals = s.totals ∙ sym (append-nil (total e));
  managed = s.managed ∙ m;
  fits = omega (arith, s.fits);
}

abbrev given : Step → Text
given tee = []
given (canceled j) = []
given (written p) = p
given (received j) = []
given (quit j) = []
given (copy_ended j f) = []

if_other : {A : Type 0} (j i : ℕ) (x y : A) → ¬ (j ≡ i) → (if j == i then x else y) ≡ y
if_other j i x y k =
    if_elim (λ z. z ≡ y) (j == i) x y (λ h. absurd (k ((==_iff j i).0 h))) (λ h. refl)

own-Kept :
    (size : ℕ) (s : Step) (i : ℕ) (e : Entry)
    → Keeps i s
    → e.managed ≡ true
    → waiting e + length (given s) ≤ size
    → Kept (own size s i e) e (given s)
unfolding own write_entry
own-Kept size tee i e k m h = Same-Kept e e m (Same-refl e)
own-Kept size (canceled j) i e k m h =
    rw (if_other j i (cancel e) e k) (Same-Kept e e m (Same-refl e))
own-Kept size (written p) i e k m h =
    let (totals, fits) = write-total size p e h in
    rw m (record { totals = totals; managed = refl; fits = omega (arith, fits) })
own-Kept size (received j) i e k m h = Same-Kept (own size (received j) i e) e m (
    Same-if (j == i) receive e
      (receive-Same e.routine e.target.pending e.target.copied e.managed e.done))
own-Kept size (quit j) i e k m h =
    Same-Kept (own size (quit j) i e) e m (Same-if (j == i) quit_entry e (quit_entry-Same e))
own-Kept size (copy_ended j none) i e k m h = Same-Kept (own size (copy_ended j none) i e) e m (
    Same-if (j == i) (end_copy none) e
      (end_copy-Same e.routine e.target.pending e.target.copied e.managed e.done))
own-Kept size (copy_ended j (some n)) i e k m h =
    rw (if_other j i (end_copy (some n) e) e k) (Same-Kept e e m (Same-refl e))

forwarded-given :
    (i : ℕ) (s : Step) (ss : List Step)
    → Keeps i s
    → forwarded i (s ∷ ss) ≡ given s ++ forwarded i ss
unfolding forwarded
forwarded-given i tee ss k = refl
forwarded-given i (canceled j) ss k = if_other j i [] (forwarded i ss) k
forwarded-given i (written p) ss k = refl
forwarded-given i (received j) ss k = refl
forwarded-given i (quit j) ss k = refl
forwarded-given i (copy_ended j f) ss k = refl

run_own-total :
    (size : ℕ) (ss : List Step) (i : ℕ) (e : Entry)
    → All (Keeps i) ss
    → e.managed ≡ true
    → waiting e + length (forwarded i ss) ≤ size
    → total (run_own size ss i e) ≡ total e ++ forwarded i ss
unfolding run_own forwarded
run_own-total size [] i e k m h = sym (append-nil (total e))
run_own-total size (s ∷ ss) i e k m h =
    let g = given s in
    let f = forwarded i ss in
    let split = forwarded-given i s ss k.0 in
    let len : length (forwarded i (s ∷ ss)) ≡ length g + length f =
      ap length split ∙ length-append g f in
    let kept = own-Kept size s i e k.0 m (omega (arith, h, len)) in
    run_own-total size ss i (own size s i e) k.1 kept.managed (omega (arith, h, len, kept.fits))
    ∙ ap (λ t. t ++ f) kept.totals
    ∙ append_assoc (total e) g f
    ∙ ap (λ t. total e ++ t) (sym split)

-- As long as a target's function is not called and its copies do not fail, nothing that is written after
-- its Tee is lost, if all of that fits its buffer: it is given, is being given, or waits in the
-- buffer, in the order in which it was written, whatever the steps of the other targets.
pub run-total :
    (size : ℕ) (before after : List Step)
    → let i = length (run size before []) in
      All (Keeps i) after
      → length (forwarded i after) ≤ size
      → total (get_or (run size (before ++ tee ∷ after) []) i new_entry) ≡ forwarded i after
run-total size before after k h =
    let i = length (run size before []) in
    ap total (run-new size before after)
    ∙ run_own-total size after i new_entry k refl (omega (arith, h))
