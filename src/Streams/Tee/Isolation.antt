-- ===== src/Streams/Tee/Isolation.antt =====
-- internal/tee/writer.go: what a sequence of steps makes of one target.

use bigmachine.Prelude.{
  get_or-append, get_or_end, get_or-map, length-map, ℕ, zero, suc, ◌≤◌, ◌<◌, ◌≡◌, refl, ap, ◌∙◌,
  List, [], ◌∷◌, ◌++◌, if◌then◌else◌, ◌==◌, length, length-append, get_or, arith,
}
use bigmachine.Streams.Tee.Writers.{
  Entry, Step, tee, canceled, written, received, quit, copy_ended, new_entry, cancel, write_entry,
  receive, quit_entry, end_copy, at_target, perform, run,
}

-- What a step does to one target.
unfoldable pub own : ℕ → Step → ℕ → Entry → Entry
own size tee i e = e
own size (canceled j) i e = if j == i then cancel e else e
own size (written p) i e = write_entry size p e
own size (received j) i e = if j == i then receive e else e
own size (quit j) i e = if j == i then quit_entry e else e
own size (copy_ended j f) i e = if j == i then end_copy f e else e

unfoldable pub run_own : ℕ → List Step → ℕ → Entry → Entry
run_own size [] i e = e
run_own size (s ∷ ss) i e = run_own size ss i (own size s i e)

pub get_or-at_target :
    (j : ℕ) (f : Entry → Entry) (es : List Entry) (i : ℕ)
    → i < length es
    → get_or (at_target j f es) i new_entry
      ≡ (if j == i then f (get_or es i new_entry) else get_or es i new_entry)
get_or-at_target j f [] i h = absurd (omega arith)
get_or-at_target zero f (e ∷ es) zero h = ground arith
get_or-at_target zero f (e ∷ es) (suc i) h = ground arith
get_or-at_target (suc j) f (e ∷ es) zero h = ground arith
get_or-at_target (suc j) f (e ∷ es) (suc i) h =
    let rest = get_or-at_target j f es i (omega arith) in ground (arith, rest)

pub length-at_target :
    (j : ℕ) (f : Entry → Entry) (es : List Entry) → length (at_target j f es) ≡ length es
length-at_target j f [] = refl
length-at_target zero f (e ∷ es) = refl
length-at_target (suc j) f (e ∷ es) = ap suc (length-at_target j f es)

pub length-perform :
    (size : ℕ) (s : Step) (es : List Entry) → length es ≤ length (perform size s es)
unfolding perform
length-perform size tee es = omega (arith, length-append es (new_entry ∷ []))
length-perform size (canceled j) es = omega (arith, length-at_target j cancel es)
length-perform size (written p) es = omega (arith, length-map (write_entry size p) es)
length-perform size (received j) es = omega (arith, length-at_target j receive es)
length-perform size (quit j) es = omega (arith, length-at_target j quit_entry es)
length-perform size (copy_ended j f) es = omega (arith, length-at_target j (end_copy f) es)

pub perform-own :
    (size : ℕ) (s : Step) (es : List Entry) (i : ℕ)
    → i < length es
    → get_or (perform size s es) i new_entry ≡ own size s i (get_or es i new_entry)
unfolding perform own
perform-own size tee es i h = get_or-append es (new_entry ∷ []) i new_entry h
perform-own size (canceled j) es i h = get_or-at_target j cancel es i h
perform-own size (written p) es i h = get_or-map (write_entry size p) es i new_entry new_entry h
perform-own size (received j) es i h = get_or-at_target j receive es i h
perform-own size (quit j) es i h = get_or-at_target j quit_entry es i h
perform-own size (copy_ended j f) es i h = get_or-at_target j (end_copy f) es i h

-- What the steps make of a target depends on no other target.
pub run-own :
    (size : ℕ) (ss : List Step) (es : List Entry) (i : ℕ)
    → i < length es
    → get_or (run size ss es) i new_entry ≡ run_own size ss i (get_or es i new_entry)
unfolding run run_own
run-own size [] es i h = refl
run-own size (s ∷ ss) es i h =
    run-own size ss (perform size s es) i (omega (arith, length-perform size s es))
    ∙ ap (run_own size ss i) (perform-own size s es i h)

pub run-append :
    (size : ℕ) (ss ts : List Step) (es : List Entry)
    → run size (ss ++ ts) es ≡ run size ts (run size ss es)
unfolding run
run-append size [] ts es = refl
run-append size (s ∷ ss) ts es = run-append size ss ts (perform size s es)

-- A target that is made after some steps, once others have followed.
pub run-new :
    (size : ℕ) (before after : List Step)
    → let es = run size before [] in
      get_or (run size (before ++ tee ∷ after) []) (length es) new_entry
      ≡ run_own size after (length es) new_entry
unfolding run perform
run-new size before after =
    let es = run size before [] in
    let i = length es in
    let fs = es ++ new_entry ∷ [] in
    let inside : i < length fs = omega (arith, length-append es (new_entry ∷ [])) in
    ap (λ l. get_or l i new_entry) (run-append size before (tee ∷ after) [])
    ∙ run-own size after fs i inside
    ∙ ap (run_own size after i) (get_or_end es new_entry new_entry)
