-- ===== src/Ec2/Templates.antt =====
-- ec2system/ec2machine.go: tmpl, up to the template that the lines are joined to.
--
-- A text is the list of its lines. `none` stands for a panic: the explicit one, and that of a slice
-- past the end of a line. White space is that of ASCII.
use bigmachine.Prelude.{
  ℕ, suc, ◌≡◌, refl, ap, ◌∙◌, Bool, true, false, ◌&&◌, ◌||◌, not, Option, none, some, List, [], ◌∷◌,
  ◌++◌, Text, length, take, drop, map, if◌then◌else◌, ltb, leb, ◌==◌, All, arith,
}

abbrev pub is_space : ℕ → Bool
is_space c = c == 32 || (leb 9 c && leb c 13)

-- strings.TrimSpace(t) == "".
unfoldable pub is_blank : Text → Bool
is_blank [] = true
is_blank (c ∷ t) = is_space c && is_blank t

unfoldable pub trim_leading : List Text → List Text
trim_leading [] = []
trim_leading (l ∷ ls) = let rest = trim_leading ls in if is_blank l then rest else l ∷ ls

abbrev pub is_nil : List Text → Bool
is_nil [] = true
is_nil (l ∷ ls) = false

unfoldable pub trim_trailing : List Text → List Text
trim_trailing [] = []
trim_trailing (l ∷ ls) =
    let rest = trim_trailing ls in if is_nil rest && is_blank l then [] else l ∷ rest

-- strings.IndexFunc of the first byte that is no space, with 0 where there is none.
unfoldable pub indent : Text → ℕ
indent [] = 0
indent (c ∷ t) = let rest = indent t in if is_space c && not (is_blank t) then suc rest else 0

abbrev pub indent_of : List Text → ℕ
indent_of [] = 0
indent_of (l ∷ ls) = indent l

unfoldable pub strip_lines : ℕ → List Text → Option (List Text)
strip_lines p [] = some []
strip_lines p (l ∷ ls) =
    let rest = strip_lines p ls in
    if ltb (length l) p || not (is_blank (take p l))
    then none
    else elim rest [ some ts ↦ some (drop p l ∷ ts) | none ↦ none ]

unfoldable pub strip : List Text → Option (List Text)
unfolding is_blank trim_leading trim_trailing indent strip_lines
strip lines = let ls = trim_trailing (trim_leading lines) in strip_lines (indent_of ls) ls

abbrev pub Blank : Text → Type 0
Blank l = is_blank l ≡ true

abbrev pub Filled : Text → Type 0
Filled l = is_blank l ≡ false

is_blank-append : (s t : Text) → is_blank (s ++ t) ≡ (is_blank s && is_blank t)
unfolding is_blank
is_blank-append [] t = refl
is_blank-append (c ∷ s) t = ground (arith, is_blank-append s t)

trim_leading-append :
    (bs : List Text) (l : Text) (ls : List Text)
    → All Blank bs
    → Filled l
    → trim_leading (bs ++ l ∷ ls) ≡ l ∷ ls
unfolding trim_leading
trim_leading-append [] l ls hb hl = ground arith
trim_leading-append (b ∷ bs) l ls hb hl = ground (arith, trim_leading-append bs l ls hb.1 hl, hb.0)

trim_trailing-Blank : (bs : List Text) → All Blank bs → trim_trailing bs ≡ []
unfolding trim_trailing
trim_trailing-Blank [] h = refl
trim_trailing-Blank (b ∷ bs) h = ground (arith, trim_trailing-Blank bs h.1, h.0)

trim_trailing-append :
    (ls bs : List Text) → All Filled ls → All Blank bs → trim_trailing (ls ++ bs) ≡ ls
unfolding trim_trailing
trim_trailing-append [] bs hl hb = trim_trailing-Blank bs hb
trim_trailing-append (l ∷ ls) bs hl hb = ground (arith, trim_trailing-append ls bs hl.1 hb, hl.0)

take_append : (s t : Text) → take (length s) (s ++ t) ≡ s
take_append [] t = refl
take_append (c ∷ s) t = ap (λ r. c ∷ r) (take_append s t)

drop_append : (s t : Text) → drop (length s) (s ++ t) ≡ t
drop_append [] t = refl
drop_append (c ∷ s) t = drop_append s t

le_length : (s t : Text) → ltb (length (s ++ t)) (length s) ≡ false
le_length [] t = ground arith
le_length (c ∷ s) t = ground (arith, le_length s t)

strip_lines-prefix :
    (s : Text) (ls : List Text) → Blank s → strip_lines (length s) (map (λ l. s ++ l) ls) ≡ some ls
unfolding strip_lines
strip_lines-prefix s [] h = refl
strip_lines-prefix s (l ∷ ls) h =
    ground (arith, strip_lines-prefix s ls h, take_append s l, drop_append s l, le_length s l, h)

indent-prefix :
    (s : Text) (c : ℕ) (t : Text) → Blank s → is_space c ≡ false → indent (s ++ c ∷ t) ≡ length s
unfolding indent is_blank
indent-prefix [] c t h hc = ground (arith, hc)
indent-prefix (b ∷ s) c t h hc =
    let tail_blank : is_blank s ≡ true = ground (arith, h) in
    ground (arith, indent-prefix s c t tail_blank hc, is_blank-append s (c ∷ t), h, hc)

All-prefix : (s : Text) (ls : List Text) → All Filled ls → All Filled (map (λ l. s ++ l) ls)
All-prefix s [] h = tt
All-prefix s (l ∷ ls) h = (ground (arith, is_blank-append s l, h.0), All-prefix s ls h.1)

-- A text whose lines all begin with the same white space loses just that, and any blank lines
-- around it, if the first line goes on with something else and no line between is blank.
pub strip-prefix :
    (before after : List Text) (s : Text) (c : ℕ) (t : Text) (ls : List Text)
    → All Blank before
    → All Blank after
    → Blank s
    → is_space c ≡ false
    → All Filled ls
    → strip (before ++ (map (λ l. s ++ l) ((c ∷ t) ∷ ls) ++ after)) ≡ some ((c ∷ t) ∷ ls)
unfolding strip is_blank
strip-prefix before after s c t ls hb ha hs hc hl =
    let body = map (λ l. s ++ l) ((c ∷ t) ∷ ls) in
    let head : Filled (s ++ c ∷ t) = ground (arith, is_blank-append s (c ∷ t), hc) in
    ap (λ x. strip_lines (indent_of (trim_trailing x)) (trim_trailing x))
      (trim_leading-append before (s ++ c ∷ t) (map (λ l. s ++ l) ls ++ after) hb head)
    ∙ ap (λ x. strip_lines (indent_of x) x)
        (trim_trailing-append body after (head, All-prefix s ls hl) ha)
    ∙ ap (λ n. strip_lines n body) (indent-prefix s c t hs hc)
    ∙ strip_lines-prefix s ((c ∷ t) ∷ ls) hs
