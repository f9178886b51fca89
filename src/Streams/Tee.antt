-- ===== src/Streams/Tee.antt =====
-- internal/tee/writer.go: the buffer that each target of a Writer has.
--
-- The channel of a target holds at most one buffer; `none` is the empty channel. The bound is a
-- parameter, bufferSize in the program.
pub mod Writers
pub mod Entries
pub mod Isolation
pub mod Forwarding
pub mod Keeping
use mathlib.Core.List.{append_assoc, append-nil}
use bigmachine.Prelude.{
  ℕ, zero, suc, ◌+◌, ◌-◌, ◌≤◌, ◌<◌, ◌≡◌, refl, sym, ap, ◌∙◌, Option, none, some, List, [], ◌∷◌,
  ◌++◌, Text, length, drop, length-append, length-drop, arith, All,
}

abbrev pub buffer_size : ℕ
buffer_size = 524288

-- A target: its channel, and what its goroutine has copied to it.
pub record Target : Type 0 where
  pub pending : Option Text
  pub copied : Text

abbrev pub text_of : Option Text → Text
text_of none = []
text_of (some t) = t

-- Write, to one target: `buf.Next(n)` takes at most what there is.
unfoldable pub write : ℕ → Text → Target → Target
write size p t =
    let buf = text_of t.pending in
    let n = length buf + length p - size in record t { pending = some (drop n buf ++ p) }

-- A round of the target's goroutine, whose io.Copy succeeds.
unfoldable pub copy : Target → Target
copy t = record t { pending = none; copied = t.copied ++ text_of t.pending }

-- Writes without a round of the goroutine between them.
unfoldable pub write_all : ℕ → List Text → Target → Target
unfolding write
write_all size [] t = t
write_all size (p ∷ ps) t = write_all size ps (write size p t)

abbrev pub joined : List Text → Text
joined [] = []
joined (p ∷ ps) = p ++ joined ps

-- The last bytes of a text.
abbrev pub last_bytes : ℕ → Text → Text
last_bytes size t = drop (length t - size) t

drop-append : (n : ℕ) (xs ys : Text) → n ≤ length xs → drop n (xs ++ ys) ≡ drop n xs ++ ys
drop-append zero xs ys h = refl
drop-append (suc n) [] ys h = absurd (omega arith)
drop-append (suc n) (x ∷ xs) ys h = drop-append n xs ys (omega arith)

drop_nil : (n : ℕ) → drop {A = ℕ} n [] ≡ []
drop_nil zero = refl
drop_nil (suc n) = refl

drop-drop : (m n : ℕ) (xs : Text) → drop m (drop n xs) ≡ drop (n + m) xs
drop-drop m zero xs = let e : m ≡ 0 + m = omega arith in ap (λ k. drop k xs) e
drop-drop m (suc n) [] = drop_nil m ∙ sym (drop_nil (suc n + m))
drop-drop m (suc n) (x ∷ xs) =
    let e : suc (n + m) ≡ suc n + m = omega arith in drop-drop m n xs ∙ ap (λ k. drop k (x ∷ xs)) e

-- A write of at most `size` bytes keeps the last bytes of everything written.
write-last_bytes :
    (size : ℕ) (s p : Text) (t : Target)
    → length p ≤ size
    → text_of t.pending ≡ last_bytes size s
    → text_of (write size p t).pending ≡ last_bytes size (s ++ p)
unfolding write
write-last_bytes size s p t h hs =
    let k = length s - size in
    let n = length (drop k s) + length p - size in
    let len = length-drop k s in
    let cut : k + n ≡ length (s ++ p) - size = omega (arith, len, length-append s p) in
    ap (λ b. drop (length b + length p - size) b ++ p) hs
    ∙ ap (λ d. d ++ p) (drop-drop n k s)
    ∙ sym (drop-append (k + n) s p (omega (arith, len)))
    ∙ ap (λ j. drop j (s ++ p)) cut

write_all-from :
    (size : ℕ) (ps : List Text) (s : Text) (t : Target)
    → All (λ p. length p ≤ size) ps
    → text_of t.pending ≡ last_bytes size s
    → text_of (write_all size ps t).pending ≡ last_bytes size (s ++ joined ps)
unfolding write_all
write_all-from size [] s t h hs = hs ∙ ap (last_bytes size) (sym (append-nil s))
write_all-from size (p ∷ ps) s t h hs =
    write_all-from size ps (s ++ p) (write size p t) h.1 (write-last_bytes size s p t h.0 hs)
    ∙ ap (last_bytes size) (append_assoc s p (joined ps))

-- However far a target falls behind, it is next given the last bytes of what was written since it
-- was last copied, up to the bound of the buffer, if no single write is above the bound.
pub copy-write_all :
    (size : ℕ) (ps : List Text) (t : Target)
    → t.pending ≡ none
    → All (λ p. length p ≤ size) ps
    → (copy (write_all size ps t)).copied
      ≡ (write_all size ps t).copied ++ last_bytes size (joined ps)
unfolding copy
copy-write_all size ps t ht h =
    ap (λ b. (write_all size ps t).copied ++ b)
      (write_all-from size ps [] t h (ap text_of ht ∙ sym (drop_nil (0 - size))))

-- A single write above the bound makes the buffer larger than the bound.
pub write-oversized :
    (size : ℕ) (p : Text) (t : Target)
    → size < length p
    → size < length (text_of (write size p t).pending)
unfolding write
write-oversized size p t h =
    let buf = text_of t.pending in
    omega (arith, length-append (drop (length buf + length p - size) buf) p)
