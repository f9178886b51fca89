-- ===== src/Rpc/Paths.antt =====
-- The addresses of methods: how the client builds a URL (rpc/client.go) and the server takes its
-- path apart (rpc/server.go), with `strings.TrimRight`, `path.Base` and `strings.SplitN`. The parser of
-- net/url, which gives the server the path of a URL, is a parameter.
use mathlib.Core.List.{append_assoc, append-nil}
use bigmachine.Prelude.{
  ℕ, ◌≡◌, refl, sym, ap, ◌∙◌, Bool, true, false, ◌&&◌, Option, none, some, [], ◌∷◌, ◌++◌, Text,
  if◌then◌else◌, ◌==◌, ◌||◌, leb, arith, contains, contains-append, ==_refl, Bool-cases, inl, inr,
}

abbrev pub slash : ℕ
slash = b'/'

abbrev pub dot : ℕ
dot = b'.'

abbrev pub is_empty : Text → Bool
is_empty [] = true
is_empty (c ∷ s) = false

-- strings.TrimRight(s, "/").
unfoldable pub trim_right : Text → Text
trim_right [] = []
trim_right (c ∷ s) = let rest = trim_right s in if is_empty rest && c == slash then [] else c ∷ rest

-- What follows the last slash; all of the text if there is none.
unfoldable pub last_element : Text → Text
last_element [] = []
last_element (c ∷ s) =
    let rest = last_element s in if contains s slash then rest else if c == slash then s else c ∷ s

-- path.Base.
unfoldable pub base : Text → Text
unfolding trim_right last_element
base [] = dot ∷ []
base (c ∷ s) = let b = last_element (trim_right (c ∷ s)) in if is_empty b then slash ∷ [] else b

-- strings.SplitN(s, ".", 2), if it has two parts.
unfoldable pub split_dot : Text → Option (Text × Text)
split_dot [] = none
split_dot (c ∷ s) =
    let rest = split_dot s in
    if c == dot then some ([], s) else elim rest [ none ↦ none | some (a, b) ↦ some (c ∷ a, b) ]

-- A letter, a digit, or one of `-./_`: what no part of a URL has to escape.
abbrev pub is_plain : ℕ → Bool
is_plain c = (leb 97 c && leb c 122) || (leb 65 c && leb c 90) || (leb 45 c && leb c 57) || c == 95

abbrev pub all_plain : Text → Bool
all_plain [] = true
all_plain (c ∷ s) = is_plain c && all_plain s

-- A path of such characters.
abbrev pub is_path : Text → Bool
is_path [] = false
is_path (c ∷ s) = c == slash && all_plain s

-- r.URL.Path, for the URLs that begin with an origin, a scheme with a host: a path without special
-- characters behind it is the URL's.
abbrev pub ReadsPaths : (Text → Text) → Text → Type 0
ReadsPaths path_of origin = (p : Text) → is_path p ≡ true → path_of (origin ++ p) ≡ p

-- Call: the URL of a method at an address.
unfoldable pub url : Text → Text → Text → Text
unfolding trim_right
url addr prefix service_method = trim_right addr ++ (prefix ++ service_method)

pub trim_right_no_slash : (t : Text) → contains t slash ≡ false → trim_right t ≡ t
unfolding trim_right contains
trim_right_no_slash [] h = refl
trim_right_no_slash (c ∷ t) h = ground (arith, trim_right_no_slash t)

pub trim_right-append :
    (s t : Text) → is_empty (trim_right t) ≡ false → trim_right (s ++ t) ≡ s ++ trim_right t
unfolding trim_right
trim_right-append [] t h = refl
trim_right-append (c ∷ s) t h =
    ground (arith, trim_right-append s t h, is_empty-append s (trim_right t))
  where
    is_empty-append : (x y : Text) → is_empty (x ++ y) ≡ (is_empty x && is_empty y)
    is_empty-append [] y = refl
    is_empty-append (d ∷ x) y = refl

last_element-append : (s t : Text) → contains t slash ≡ false → last_element (s ++ slash ∷ t) ≡ t
unfolding last_element contains
last_element-append [] t h = ground arith
last_element-append (c ∷ s) t h =
    ground (arith, last_element-append s t h, contains-append s (slash ∷ t) slash, ==_refl slash)

base_nonempty :
    (s : Text)
    → is_empty s ≡ false
    → base s ≡ (let b = last_element (trim_right s) in if is_empty b then slash ∷ [] else b)
unfolding base
base_nonempty [] h = cc
base_nonempty (c ∷ s) h = refl

is_empty_last : (s : Text) (c : ℕ) (t : Text) → is_empty (s ++ c ∷ t) ≡ false
is_empty_last [] c t = refl
is_empty_last (d ∷ s) c t = refl

base-append :
    (s t : Text) → contains t slash ≡ false → is_empty t ≡ false → base (s ++ slash ∷ t) ≡ t
base-append s t h k =
    base_nonempty (s ++ slash ∷ t) (is_empty_last s slash t)
    ∙ ap (λ x. let b = last_element x in if is_empty b then slash ∷ [] else b) trimmed
    ∙ rw (last_element-append s t h, k, if◌then◌else◌) refl
  where
    inner : trim_right (slash ∷ t) ≡ slash ∷ t
    inner = unfold trim_right in ground (arith, trim_right_no_slash t h)

    trimmed : trim_right (s ++ slash ∷ t) ≡ s ++ slash ∷ t
    trimmed = trim_right-append s (slash ∷ t) (rw inner) ∙ ap (◌++◌ s) inner

split_dot-append : (a b : Text) → contains a dot ≡ false → split_dot (a ++ dot ∷ b) ≡ some (a, b)
unfolding split_dot contains
split_dot-append [] b h = ground arith
split_dot-append (c ∷ a) b h = ground (arith, split_dot-append a b)

nothing : (x : Text) → is_empty x ≡ true → x ≡ []
nothing [] e = refl
nothing (c ∷ x) e = absurd (ground (arith, e))

trim_right-blank :
    (s t : Text) → is_empty (trim_right t) ≡ true → trim_right (s ++ t) ≡ trim_right s
unfolding trim_right
trim_right-blank [] t h = nothing (trim_right t) h
trim_right-blank (c ∷ s) t h = rw (trim_right-blank s t h) refl

-- The slashes at the end of what follows a text that ends in none.
pub trim_right-origin : (s t : Text) → trim_right s ≡ s → trim_right (s ++ t) ≡ s ++ trim_right t
trim_right-origin s t h = elim (Bool-cases (is_empty (trim_right t))) [
  | inl e ↦
      trim_right-blank s t e
      ∙ h
      ∙ sym (append-nil s)
      ∙ ap (λ x. s ++ x) (sym (nothing (trim_right t) e))
  | inr e ↦ trim_right-append s t e
]

-- From the path of the URL that the client builds for "Service.Method" the server takes that service
-- and that method, if neither name holds a slash and the service's holds no dot, the prefix ends in a
-- slash, the address is an origin, which does not end in a slash, with any path, and the whole path
-- consists of letters, digits and `-./_`, which the parser of URLs gives back behind that origin.
pub split_dot-url :
    (path_of : Text → Text) (origin at prefix service method : Text)
    → ReadsPaths path_of origin
    → trim_right origin ≡ origin
    → is_path (trim_right at ++ ((prefix ++ slash ∷ []) ++ (service ++ dot ∷ method))) ≡ true
    → contains service slash ≡ false
    → contains service dot ≡ false
    → contains method slash ≡ false
    → split_dot
        (base (path_of (url (origin ++ at) (prefix ++ slash ∷ []) (service ++ dot ∷ method))))
      ≡ some (service, method)
unfolding url
split_dot-url path_of origin at prefix service method reads ends plain hs hd hm =
    ap (λ p. split_dot (base p)) (read ∙ shape)
    ∙ ap split_dot
        (base-append (trim_right at ++ prefix) name no_slash (is_empty_last service dot method))
    ∙ split_dot-append service method hd
  where
    name : Text
    name = service ++ dot ∷ method

    no_slash : contains name slash ≡ false
    no_slash =
        contains-append service (dot ∷ method) slash ∙ rw hs (unfold contains in ground (arith, hm))

    path : Text
    path = trim_right at ++ ((prefix ++ slash ∷ []) ++ name)

    read : path_of (trim_right (origin ++ at) ++ ((prefix ++ slash ∷ []) ++ name)) ≡ path
    read =
        ap (λ x. path_of (x ++ ((prefix ++ slash ∷ []) ++ name))) (trim_right-origin origin at ends)
        ∙ ap path_of (append_assoc origin (trim_right at) ((prefix ++ slash ∷ []) ++ name))
        ∙ reads path plain

    shape : path ≡ (trim_right at ++ prefix) ++ slash ∷ name
    shape = simp append_assoc
