-- ===== src/Machine/Tails.antt =====
-- machine.go: the tail of a machine's log in Machine.loop, whose end a shutdown waits for.
use bigmachine.Prelude.{
  ◌≡◌, refl, Bool, true, List, [], ◌∷◌, ◌++◌, Text, if◌then◌else◌, has_suffix, text_eq_refl, arith,
}

-- The tail of a machine's log: the lines that are copied, up to one that ends in the marker or to a
-- write that fails. After either, and after the last line, the channel is closed.
unfoldable pub copy_tail : Text → List (Text × Bool) → List Text
copy_tail marker [] = []
copy_tail marker ((line, written) ∷ lines) =
    let rest = copy_tail marker lines in
    if has_suffix line marker then [] else (if written then line ∷ rest else [])

has_suffix-append : (front marker : Text) → has_suffix (front ++ marker) marker ≡ true
unfolding has_suffix
has_suffix-append [] [] = refl
has_suffix-append [] (c ∷ marker) = ground (arith, text_eq_refl (c ∷ marker))
has_suffix-append (c ∷ front) marker = ground (arith, has_suffix-append front marker)

-- The tail ends at the line that Supervisor.Shutdown prints, which ends in the marker, whatever its
-- logger writes before: nothing that follows is copied, and no such line is.
pub copy_tail-marker :
    (marker front : Text) (written : Bool) (lines rest : List (Text × Bool))
    → copy_tail marker (lines ++ (front ++ marker, written) ∷ rest) ≡ copy_tail marker lines
unfolding copy_tail
copy_tail-marker marker front written [] rest = rw (has_suffix-append front marker) refl
copy_tail-marker marker front written ((line, w) ∷ lines) rest =
    rw (copy_tail-marker marker front written lines rest) refl
