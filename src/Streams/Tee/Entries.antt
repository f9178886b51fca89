-- ===== src/Streams/Tee/Entries.antt =====
-- internal/tee/writer.go: what an operation or a step does to one target.
use mathlib.Core.List.{append_assoc, append-nil}
use mathlib.Core.List.Sublistᴰ
use mathlib.Core.List.{Sublistᴰ}
use mathlib.Core.Path.{subst}
use bigmachine.Prelude.{
  ℕ, zero, suc, ◌+◌, ◌-◌, ◌≡◌, refl, sym, ap, ◌∙◌, Bool, true, false, Option, none, some, [], ◌∷◌,
  ◌++◌, Text, length, take, drop, arith,
}
use bigmachine.Streams.Tee.{text_of, write}
use bigmachine.Streams.Tee.Writers.{
  Routine, selecting, copying, returned, Entry, cancel, write_entry, receive, quit_entry, end_copy,
  hand, total,
}

pub drop-Sublist : (n : ℕ) (xs : Text) → Sublistᴰ (drop n xs) xs
drop-Sublist zero xs = Sublistᴰ.refl xs
drop-Sublist (suc n) [] = Sublistᴰ.slnil
drop-Sublist (suc n) (x ∷ xs) = Sublistᴰ.cons (drop-Sublist n xs)

pub take-Sublist : (n : ℕ) (xs : Text) → Sublistᴰ (take n xs) xs
take-Sublist zero xs = Sublistᴰ.nil-sublist xs
take-Sublist (suc n) [] = Sublistᴰ.slnil
take-Sublist (suc n) (x ∷ xs) = Sublistᴰ.cons-cons refl (take-Sublist n xs)

pub prefix-Sublist : (xs ys : Text) → Sublistᴰ xs (xs ++ ys)
prefix-Sublist [] ys = Sublistᴰ.nil-sublist ys
prefix-Sublist (x ∷ xs) ys = Sublistᴰ.cons-cons refl (prefix-Sublist xs ys)

pub Sublist-eq : (xs ys zs : Text) → ys ≡ zs → Sublistᴰ xs ys → Sublistᴰ xs zs
Sublist-eq xs ys zs h s = subst (λ l. Sublistᴰ xs l) h s

-- An entry by its parts, so that the lemmas split on them.
abbrev pub entry : Routine → Option Text → Text → Bool → Bool → Entry
entry r o c m d = record {
  target = record { pending = o; copied = c };
  routine = r;
  managed = m;
  done = d;
}

pub write-Sublist :
    (size : ℕ) (p : Text) (r : Routine) (o : Option Text) (c : Text) (d : Bool)
    → Sublistᴰ (total (write_entry size p (entry r o c true d))) (total (entry r o c true d) ++ p)
unfolding write_entry write
write-Sublist size p r o c d =
    let b = text_of o in
    let k = length b + length p - size in
    let h = hand r in
    Sublist-eq (c ++ (h ++ (drop k b ++ p))) (c ++ (h ++ (b ++ p))) ((c ++ (h ++ b)) ++ p)
      (ap (λ l. c ++ l) (sym (append_assoc h b p)) ∙ sym (append_assoc c (h ++ b) p))
      (Sublistᴰ.append (Sublistᴰ.refl c)
        (Sublistᴰ.append (Sublistᴰ.refl h) (Sublistᴰ.append (drop-Sublist k b) (Sublistᴰ.refl p))))

pub receive-Sublist :
    (r : Routine) (o : Option Text) (c : Text) (m d : Bool)
    → Sublistᴰ (total (receive (entry r o c m d))) (total (entry r o c m d))
unfolding receive
receive-Sublist selecting none c m d = Sublistᴰ.refl (c ++ [])
receive-Sublist selecting (some t) c m d =
    Sublist-eq (c ++ (t ++ [])) (c ++ (t ++ [])) (c ++ t) (ap (λ l. c ++ l) (append-nil t))
      (Sublistᴰ.refl (c ++ (t ++ [])))
receive-Sublist (copying t) o c m d = Sublistᴰ.refl (c ++ (t ++ text_of o))
receive-Sublist returned o c m d = Sublistᴰ.refl (c ++ text_of o)

pub receive-managed :
    (r : Routine) (o : Option Text) (c : Text) (m d : Bool)
    → (receive (entry r o c m d)).managed ≡ m
unfolding receive
receive-managed selecting none c m d = refl
receive-managed selecting (some t) c m d = refl
receive-managed (copying t) o c m d = refl
receive-managed returned o c m d = refl

pub quit_entry-total : (e : Entry) → total (quit_entry e) ≡ total e
unfolding quit_entry
quit_entry-total e = ground arith

pub quit_entry-managed : (e : Entry) → (quit_entry e).managed ≡ e.managed
unfolding quit_entry
quit_entry-managed e = ground arith

pub end_copy-Sublist :
    (f : Option ℕ) (r : Routine) (o : Option Text) (c : Text) (m d : Bool)
    → Sublistᴰ (total (end_copy f (entry r o c m d))) (total (entry r o c m d))
unfolding end_copy cancel
end_copy-Sublist f selecting o c m d = Sublistᴰ.refl (c ++ text_of o)
end_copy-Sublist none (copying t) o c m d =
    let b = text_of o in
    Sublist-eq ((c ++ t) ++ b) ((c ++ t) ++ b) (c ++ (t ++ b)) (append_assoc c t b)
      (Sublistᴰ.refl ((c ++ t) ++ b))
end_copy-Sublist (some n) (copying t) o c m d =
    let b = text_of o in
    Sublist-eq ((c ++ take n t) ++ b) ((c ++ t) ++ b) (c ++ (t ++ b)) (append_assoc c t b)
      (Sublistᴰ.append (Sublistᴰ.append (Sublistᴰ.refl c) (take-Sublist n t)) (Sublistᴰ.refl b))
end_copy-Sublist f returned o c m d = Sublistᴰ.refl (c ++ text_of o)

pub end_copy-managed :
    (f : Option ℕ) (r : Routine) (o : Option Text) (c : Text) (d : Bool)
    → (end_copy f (entry r o c false d)).managed ≡ false
unfolding end_copy cancel
end_copy-managed f selecting o c d = refl
end_copy-managed none (copying t) o c d = refl
end_copy-managed (some n) (copying t) o c d = refl
end_copy-managed f returned o c d = refl
