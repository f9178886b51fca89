-- ===== src/Prelude/Sorting.antt =====
-- Sorting by a text, for the lists that the program sorts by an address or a name.
use mathlib.Core.Path.{◌≡◌, refl, ap, ◌∙◌}
use mathlib.Core.Bool.{Bool, true, false, ◌&&◌, ◌||◌, not}
use mathlib.Core.List.{List, [], ◌∷◌}
use native.Mathlib.Omega.{arith}
use bigmachine.Prelude.Tests.{◌==◌, if◌then◌else◌, ltb}
use bigmachine.Prelude.Maps.{Text}

-- Go's `<` on strings.
unfoldable pub text_ltb : Text → Text → Bool
text_ltb [] [] = false
text_ltb [] (b ∷ t) = true
text_ltb (a ∷ s) [] = false
text_ltb (a ∷ s) (b ∷ t) = let rest = text_ltb s t in ltb a b || (a == b && rest)

text_ltb-total : (s t : Text) → ¬ (s ≡ t) → text_ltb s t ≡ not (text_ltb t s)
unfolding text_ltb
text_ltb-total [] [] h = absurd (h refl)
text_ltb-total [] (b ∷ t) h = refl
text_ltb-total (a ∷ s) [] h = refl
text_ltb-total (a ∷ s) (b ∷ t) h = ground (arith, h, text_ltb-total s t)

text_ltb_trans : (r s t : Text) → text_ltb s r ≡ false → text_ltb s t ≡ true → text_ltb r t ≡ true
unfolding text_ltb
text_ltb_trans [] [] t h k = k
text_ltb_trans [] (a ∷ s) [] h k = k
text_ltb_trans [] (a ∷ s) (b ∷ t) h k = refl
text_ltb_trans (c ∷ r) [] t h k = ground (arith, h)
text_ltb_trans (c ∷ r) (a ∷ s) [] h k = ground (arith, k)
text_ltb_trans (c ∷ r) (a ∷ s) (b ∷ t) h k = ground (arith, h, k, text_ltb_trans r s t)

module _ {ℓ} {A : Type ℓ} (key : A → Text) where
  unfoldable pub insert_by : A → List A → List A
  insert_by x [] = x ∷ []
  insert_by x (y ∷ ys) =
      let rest = insert_by x ys in if text_ltb (key y) (key x) then y ∷ rest else x ∷ y ∷ ys

  -- `sort.Slice(xs, func(i, j int) bool { return key(xs[i]) < key(xs[j]) })` for distinct keys.
  unfoldable pub sort_by : List A → List A
  unfolding insert_by
  sort_by [] = []
  sort_by (x ∷ xs) = insert_by x (sort_by xs)

  -- Two listings of the same elements, in which only those with different keys change places: two
  -- ranges over the same Go map.
  pub data Reordered : List A → List A → Type ℓ where
    same : (xs : List A) → Reordered xs xs
    keep : (x : A) (xs ys : List A) → Reordered xs ys → Reordered (x ∷ xs) (x ∷ ys)
    swap : (x y : A) (xs : List A) → ¬ (key x ≡ key y) → Reordered (x ∷ y ∷ xs) (y ∷ x ∷ xs)
    chain : (xs ys zs : List A) → Reordered xs ys → Reordered ys zs → Reordered xs zs

  insert_by-insert_by :
      (a b : A) (xs : List A)
      → ¬ (key a ≡ key b)
      → insert_by a (insert_by b xs) ≡ insert_by b (insert_by a xs)
  unfolding insert_by
  insert_by-insert_by a b [] h = ground (arith, text_ltb-total (key a) (key b) h)
  insert_by-insert_by a b (y ∷ ys) h = ground (
    arith,
    text_ltb-total (key a) (key b) h,
    text_ltb_trans (key a) (key y) (key b),
    text_ltb_trans (key b) (key y) (key a),
    insert_by-insert_by a b ys h,
  )

  -- The sorted list does not depend on the order of the listing.
  pub sort_by-Reordered : (xs ys : List A) → Reordered xs ys → sort_by xs ≡ sort_by ys
  unfolding sort_by
  sort_by-Reordered _ _ (same xs) = refl
  sort_by-Reordered _ _ (keep x xs ys r) = ap (insert_by x) (sort_by-Reordered xs ys r)
  sort_by-Reordered _ _ (swap x y xs h) = insert_by-insert_by x y (sort_by xs) h
  sort_by-Reordered _ _ (chain xs ys zs r q) = sort_by-Reordered xs ys r ∙ sort_by-Reordered ys zs q
