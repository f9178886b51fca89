-- ===== src/Streams/Tee/Forwarding.antt =====
-- internal/tee/writer.go: what a target is given in any sequence of steps.
use mathlib.Core.List.{append_assoc}
use mathlib.Core.List.Sublistᴰ
use mathlib.Core.List.{Sublistᴰ}
use mathlib.Core.Path.{subst}
use mathlib.Core.Bool.{true≢false}
use bigmachine.Prelude.{
  ℕ, ◌≡◌, refl, sym, ap, ◌∙◌, Bool, true, false, Option, List, [], ◌∷◌, ◌++◌, Text, if◌then◌else◌,
  ◌==◌, length, get_or,
}
use bigmachine.Streams.Tee.{text_of}
use bigmachine.Streams.Tee.Writers.{
  Routine, Entry, Step, tee, canceled, written, received, quit, copy_ended, new_entry, cancel,
  write_entry, receive, quit_entry, end_copy, perform, run, forwarded, hand, total,
}
use bigmachine.Streams.Tee.Entries.{
  prefix-Sublist, Sublist-eq, entry, write-Sublist, receive-Sublist, receive-managed,
  quit_entry-total, quit_entry-managed, end_copy-Sublist, end_copy-managed,
}
use bigmachine.Streams.Tee.Isolation.{run-new, own, run_own, run-new}

-- What the steps still offer to a target.
room : Bool → ℕ → List Step → Text
room m i ss = if m then forwarded i ss else []

-- Two entries, the first with less.
less-Sublist :
    (i : ℕ) (ss : List Step) (e' e : Entry)
    → Sublistᴰ (total e') (total e)
    → (e.managed ≡ false → e'.managed ≡ false)
    → Sublistᴰ (total e' ++ room e'.managed i ss) (total e ++ room e.managed i ss)
unfolding room
less-Sublist i ss e' e h m = Sublistᴰ.append h (within e'.managed e.managed m)
  where
    within :
        (b' b : Bool)
        → (b ≡ false → b' ≡ false)
        → Sublistᴰ (if b' then forwarded i ss else []) (if b then forwarded i ss else [])
    within false b h = Sublistᴰ.nil-sublist (if b then forwarded i ss else [])
    within true true h = Sublistᴰ.refl (forwarded i ss)
    within true false h = absurd (true≢false (h refl))

own_if-Sublist :
    (b : Bool) (f : Entry → Entry) (i : ℕ) (ss : List Step) (e : Entry)
    → Sublistᴰ (total (f e)) (total e)
    → (e.managed ≡ false → (f e).managed ≡ false)
    → let e' = if b then f e else e in
      Sublistᴰ (total e' ++ room e'.managed i ss) (total e ++ room e.managed i ss)
own_if-Sublist true f i ss e h m = less-Sublist i ss (f e) e h m
own_if-Sublist false f i ss e h m = Sublistᴰ.refl (total e ++ room e.managed i ss)

canceled-Sublist :
    (b m : Bool) (t : Text) (r : Routine) (o : Option Text) (c : Text) (d : Bool)
    → let e = entry r o c m d in
      let e' = if b then cancel e else e in
      let rest : Text = if b then [] else t in
      Sublistᴰ (total e' ++ (if e'.managed then t else [])) (total e ++ (if m then rest else []))
unfolding cancel
canceled-Sublist true true t r o c d = Sublistᴰ.refl (total (entry r o c true d) ++ [])
canceled-Sublist true false t r o c d = Sublistᴰ.refl (total (entry r o c false d) ++ [])
canceled-Sublist false m t r o c d =
    Sublistᴰ.refl (total (entry r o c m d) ++ (if m then t else []))

own-Sublist :
    (size : ℕ) (s : Step) (ss : List Step) (i : ℕ) (r : Routine) (o : Option Text) (c : Text)
    (m d : Bool)
    → let e = entry r o c m d in
      Sublistᴰ
        (total (own size s i e) ++ room (own size s i e).managed i ss)
        (total e ++ room m i (s ∷ ss))
unfolding own room forwarded write_entry
own-Sublist size tee ss i r o c m d = Sublistᴰ.refl (total (entry r o c m d) ++ room m i ss)
own-Sublist size (canceled j) ss i r o c m d = canceled-Sublist (j == i) m (forwarded i ss) r o c d
own-Sublist size (written p) ss i r o c true d =
    let e = entry r o c true d in
    let e' = write_entry size p e in
    let f = forwarded i ss in
    Sublist-eq (total e' ++ f) ((total e ++ p) ++ f) (total e ++ (p ++ f))
      (append_assoc (total e) p f)
      (Sublistᴰ.append (write-Sublist size p r o c d) (Sublistᴰ.refl f))
own-Sublist size (written p) ss i r o c false d = Sublistᴰ.refl (total (entry r o c false d) ++ [])
own-Sublist size (received j) ss i r o c m d =
    own_if-Sublist (j == i) receive i ss (entry r o c m d) (receive-Sublist r o c m d)
      (λ h. receive-managed r o c m d ∙ h)
own-Sublist size (quit j) ss i r o c m d =
    own_if-Sublist (j == i) quit_entry i ss (entry r o c m d)
      (Sublist-eq (total (quit_entry (entry r o c m d))) (total (quit_entry (entry r o c m d)))
        (total (entry r o c m d)) (quit_entry-total (entry r o c m d))
        (Sublistᴰ.refl (total (quit_entry (entry r o c m d)))))
      (λ h. quit_entry-managed (entry r o c m d) ∙ h)
own-Sublist size (copy_ended j f) ss i r o c true d =
    own_if-Sublist (j == i) (end_copy f) i ss (entry r o c true d) (end_copy-Sublist f r o c true d)
      (λ h. absurd (true≢false h))
own-Sublist size (copy_ended j f) ss i r o c false d =
    own_if-Sublist (j == i) (end_copy f) i ss (entry r o c false d)
      (end_copy-Sublist f r o c false d) (λ h. end_copy-managed f r o c d)

run_own-Sublist :
    (size : ℕ) (ss : List Step) (i : ℕ) (e : Entry)
    → Sublistᴰ (run_own size ss i e).target.copied (total e ++ room e.managed i ss)
unfolding run_own room
run_own-Sublist size [] i e =
    let t = e.target.copied in
    let u = hand e.routine ++ text_of e.target.pending in
    let v = room e.managed i [] in
    Sublist-eq t (t ++ (u ++ v)) ((t ++ u) ++ v) (sym (append_assoc t u v))
      (prefix-Sublist t (u ++ v))
run_own-Sublist size (s ∷ ss) i e =
    Sublistᴰ.trans (run_own-Sublist size ss i (own size s i e))
      (own-Sublist size s ss i e.routine e.target.pending e.target.copied e.managed e.done)

-- Whatever the steps of the Writer and of the goroutines, in any order, and whatever becomes of the
-- copies: what a target of Tee is given is a part, in order and without repetition, of what is
-- written after that Tee and before the first call of the function that it returned.
pub run-Sublist :
    (size : ℕ) (before after : List Step)
    → let es = run size before [] in
      Sublistᴰ
        (get_or (run size (before ++ tee ∷ after) []) (length es) new_entry).target.copied
        (forwarded (length es) after)
unfolding run perform forwarded room
run-Sublist size before after =
    let i = length (run size before []) in
    subst (λ l. Sublistᴰ l (forwarded i after))
      (sym (ap (λ e. e.target.copied) (run-new size before after)))
      (run_own-Sublist size after i new_entry)
