-- ===== src/Streams/Tee/Writers.antt =====
-- internal/tee/writer.go: a Writer with all its targets, their goroutines and their cancellation.
--
-- A target is known by its place in the order of the calls of Tee. A step is an operation of the
-- Writer or one step of a target's goroutine; a step that the goroutine is not ready for changes
-- nothing. A Write is one step: no goroutine takes the buffer while Write holds it.

use bigmachine.Prelude.{
  ℕ, zero, suc, Bool, true, false, Option, none, some, List, [], ◌∷◌, ◌++◌, map, Text,
  if◌then◌else◌, ◌==◌, take,
}
use bigmachine.Streams.Tee.{Target, text_of, write}

-- Where the goroutine of a target is: at its select, in io.Copy with the buffer that it received,
-- or at its end.
pub data Routine : Type 0 where
  selecting : Routine
  copying : Text → Routine
  returned : Routine

-- A target, whether its channel is a key of the map, and whether `done` is closed.
pub record Entry : Type 0 where
  pub target : Target
  pub routine : Routine
  pub managed : Bool
  pub done : Bool

pub data Step : Type 0 where
  tee : Step
  canceled : (target : ℕ) → Step
  written : Text → Step
  received : (target : ℕ) → Step
  quit : (target : ℕ) → Step
  copy_ended : (target : ℕ) → (failed_after : Option ℕ) → Step

-- Store, and the start of the goroutine.
abbrev pub new_entry : Entry
new_entry = record {
  target = record { pending = none; copied = [] };
  routine = selecting;
  managed = true;
  done = false;
}

-- The function that Tee returns: `once` makes a second call do nothing, as here.
unfoldable pub cancel : Entry → Entry
cancel e = record e { managed = false; done = true }

-- Write, at one key of the map.
unfoldable pub write_entry : ℕ → Text → Entry → Entry
write_entry size p e = if e.managed then record e { target = write size p e.target } else e

-- `case buf := <-c`.
unfoldable pub receive : Entry → Entry
receive e = elim e.routine [
  | selecting ↦ elim e.target.pending [
    | none ↦ e
    | some t ↦ record e { routine = copying t; target = record e.target { pending = none } }
  ]
  | copying t ↦ e
  | returned ↦ e
]

-- `case <-done`.
unfoldable pub quit_entry : Entry → Entry
quit_entry e = elim e.routine [
  | selecting ↦ if e.done then record e { routine = returned } else e
  | copying t ↦ e
  | returned ↦ e
]

-- The end of io.Copy: all is copied, or an error after some bytes cancels the target.
unfoldable pub end_copy : Option ℕ → Entry → Entry
unfolding cancel
end_copy failed_after e = elim e.routine [
  | selecting ↦ e
  | copying t ↦ elim failed_after [
    | none ↦ record e {
      routine = selecting;
      target = record e.target { copied = e.target.copied ++ t };
    }
    | some n ↦ record (cancel e) {
      routine = returned;
      target = record e.target { copied = e.target.copied ++ take n t };
    }
  ]
  | returned ↦ e
]

abbrev pub at_target : ℕ → (Entry → Entry) → List Entry → List Entry
at_target i f [] = []
at_target zero f (e ∷ es) = f e ∷ es
at_target (suc i) f (e ∷ es) = e ∷ at_target i f es

unfoldable pub perform : ℕ → Step → List Entry → List Entry
perform size tee es = es ++ new_entry ∷ []
perform size (canceled i) es = at_target i cancel es
perform size (written p) es = map (write_entry size p) es
perform size (received i) es = at_target i receive es
perform size (quit i) es = at_target i quit_entry es
perform size (copy_ended i failed_after) es = at_target i (end_copy failed_after) es

unfoldable pub run : ℕ → List Step → List Entry → List Entry
unfolding perform
run size [] es = es
run size (s ∷ ss) es = run size ss (perform size s es)

-- What is written before a target is canceled.
unfoldable pub forwarded : ℕ → List Step → Text
forwarded i [] = []
forwarded i (tee ∷ ss) = forwarded i ss
forwarded i (canceled j ∷ ss) = let rest = forwarded i ss in if j == i then [] else rest
forwarded i (written p ∷ ss) = p ++ forwarded i ss
forwarded i (received j ∷ ss) = forwarded i ss
forwarded i (quit j ∷ ss) = forwarded i ss
forwarded i (copy_ended j failed_after ∷ ss) = forwarded i ss

abbrev pub hand : Routine → Text
hand selecting = []
hand (copying t) = t
hand returned = []

-- What a target was given and what it may still be given.
abbrev pub total : Entry → Text
total e = e.target.copied ++ (hand e.routine ++ text_of e.target.pending)
