-- ===== src/Ec2/Tagging.antt =====
-- ec2system/ec2machine.go: the tags of the instances that Start launches, and the settings of their
-- launch that come from the System.
--
-- The digest, the arguments of the process and the base of its name are arguments.
use bigmachine.Prelude.{
  ℕ, zero, suc, ◌≤◌, ◌<◌, Option, none, some, List, [], ◌∷◌, ◌++◌, Text, codes, if◌then◌else◌, ltb,
  length, length-append, take, if_elim, arith,
}

-- bigmachine.Info with the parts of the digest that tags show, and the process.
pub record Process : Type 0 where
  pub username : Text
  pub binary : Text
  pub args : List Text
  pub goos : Text
  pub goarch : Text
  pub short_digest : Text
  pub digest : Text

-- strings.Join with a space.
abbrev pub joined : List Text → Text
joined [] = []
joined (a ∷ []) = a
joined (a ∷ b ∷ rest) = a ++ codes " " ++ joined (b ∷ rest)

unfoldable pub full_tag : Process → Text
full_tag p =
    p.username
    ++ codes ":"
    ++ p.binary
    ++ codes "("
    ++ p.short_digest
    ++ codes ") "
    ++ joined p.args
    ++ codes " (bigmachine)"

unfoldable pub shortened : Text → Text
shortened t = if ltb 250 (length t) then take 250 t ++ codes "..." else t

-- The tags of CreateTags, by their keys.
unfoldable pub tags : Process → List (Text × Text) → List (Text × Text)
unfolding full_tag shortened
tags p additional =
    (codes "Name", shortened (full_tag p))
    ∷ (codes "GOARCH", p.goarch)
    ∷ (codes "GOOS", p.goos)
    ∷ (codes "Digest", p.digest)
    ∷ (codes "bigmachine", codes "true")
    ∷ (codes "bigmachine:binary", p.binary)
    ∷ additional

-- The security groups of a launch: the list, or the single one.
unfoldable pub security_groups : Text → List Text → List Text
security_groups group [] = group ∷ []
security_groups group (g ∷ gs) = g ∷ gs

-- The name of the key pair; `none` is nil.
unfoldable pub key_name : Text → Option Text
key_name [] = none
key_name (c ∷ name) = some (c ∷ name)

take-le : (n : ℕ) (t : Text) → length (take n t) ≤ n
take-le zero t = omega arith
take-le (suc n) [] = omega arith
take-le (suc n) (c ∷ t) = omega (arith, take-le n t)

-- The name of an instance fits the 255 characters of a tag's value.
pub length-shortened : (t : Text) → length (shortened t) ≤ 253
unfolding shortened
length-shortened t =
    if_elim (λ u. length u ≤ 253) (ltb 250 (length t)) (take 250 t ++ codes "...") t
      (λ h. omega (arith, take-le 250 t, length-append (take 250 t) (codes "...")))
      (λ h. ground (arith, h))

-- Where a launch names no security groups, it has the single one; else it has the list.
pub security_groups-length : (group : Text) (gs : List Text) → 0 < length (security_groups group gs)
unfolding security_groups
security_groups-length group [] = omega arith
security_groups-length group (g ∷ gs) = omega arith
