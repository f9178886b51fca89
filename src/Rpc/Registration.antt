-- ===== src/Rpc/Registration.antt =====
-- rpc/server.go: which methods Init finds, and what Register changes.
use bigmachine.Prelude.{
  ℕ, ◌≡◌, refl, ◌∙◌, Option, none, some, List, [], ◌∷◌, Text, if◌then◌else◌, text_eq, text_eq_iff,
  lookup, insert, lookup-insert, arith,
}
use bigmachine.Rpc.Services.{
  MethodInfo, Method, Server, is_eligible, method_of, init_methods, register,
}

-- The first description of a method of the name.
unfoldable pub find_info : Text → List MethodInfo → Option MethodInfo
find_info n [] = none
find_info n (m ∷ ms) = if text_eq m.name n then some m else find_info n ms

-- A method set has one method of a name.
abbrev pub DistinctNames : List MethodInfo → Type 0
DistinctNames [] = Unit {0}
DistinctNames (m ∷ ms) = (find_info m.name ms ≡ none) × DistinctNames ms

-- The method of a description, if it can be called remotely.
abbrev pub exported : Option MethodInfo → Option Method
exported none = none
exported (some m) = if is_eligible m then some (method_of m) else none

-- Without one, what was there before.
abbrev or_else : Option Method → Option Method → Option Method
or_else none o = o
or_else (some m) o = some m

lookup-init_methods_acc :
    (n : Text) (ms : List MethodInfo) (acc : List (Text × Method))
    → DistinctNames ms
    → lookup n (init_methods ms acc) ≡ or_else (exported (find_info n ms)) (lookup n acc)
unfolding init_methods find_info
lookup-init_methods_acc n [] acc d = refl
lookup-init_methods_acc n (m ∷ ms) acc d =
    let acc' = if is_eligible m then insert m.name (method_of m) acc else acc in
    ground (
      arith,
      lookup-init_methods_acc n ms acc' d.1,
      lookup-insert m.name n (method_of m) acc,
      text_eq_iff m.name n,
      d.0,
    )

-- Init finds, under each name, the method of that name of the method set, if it is eligible.
pub lookup-init_methods :
    (n : Text) (ms : List MethodInfo)
    → DistinctNames ms
    → lookup n (init_methods ms []) ≡ exported (find_info n ms)
lookup-init_methods n ms d = lookup-init_methods_acc n ms [] d ∙ unfold lookup in ground arith

-- After Register, a name gives what it gave before; only the registered name, if it gave nothing,
-- now gives the new service: the first registration of a name stands.
pub lookup-register :
    (n j : Text) (recv : ℕ) (ms : List MethodInfo) (s : Server)
    → lookup j (register n recv ms s).services ≡ elim (lookup j s.services) [
      | some svc ↦ some svc
      | none ↦
          if text_eq n j
          then some (record { name = n; recv = recv; methods = init_methods ms [] })
          else none
    ]
unfolding register
lookup-register n j recv ms s = ground (
  arith,
  lookup-insert n j (record { name = n; recv = recv; methods = init_methods ms [] }) s.services,
  text_eq_iff n j,
)
