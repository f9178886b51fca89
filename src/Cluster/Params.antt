-- ===== src/Cluster/Params.antt =====
-- bigmachine.go: what the parameters of Start make of a machine, and what a machine's run serves.
use mathlib.Core.List.{append_assoc, append-nil}
use bigmachine.Prelude.{
  ℕ, ◌≡◌, refl, Option, none, some, List, [], ◌∷◌, ◌++◌, Text, lookup, lookup-insert, arith,
}
use bigmachine.Machine.{Machine}
use bigmachine.Cluster.{Param, services, environ, insert_all, apply_param, apply_params}

-- The instance that the parameters give a name: the last one that gives it.
unfoldable pub given : Text → List Param → Option ℕ
given name [] = none
given name (services s ∷ ps) = elim (given name ps) [ some v ↦ some v | none ↦ lookup name s ]
given name (environ e ∷ ps) = given name ps

-- The environment that they give.
unfoldable pub given_environ : List Param → List Text
given_environ [] = []
given_environ (services s ∷ ps) = given_environ ps
given_environ (environ e ∷ ps) = e ++ given_environ ps

lookup-insert_all :
    (s m : List (Text × ℕ)) (name : Text)
    → lookup name (insert_all s m) ≡ elim (lookup name s) [ some v ↦ some v | none ↦ lookup name m ]
unfolding insert_all lookup
lookup-insert_all [] m name = refl
lookup-insert_all ((j, iface) ∷ s) m name =
    ground (arith, lookup-insert j name iface (insert_all s m), lookup-insert_all s m name)

module _ {Err : Type 0} where
  apply_params-services :
      (ps : List Param) (m : Machine Err) (name : Text)
      → lookup name (apply_params ps m).services
        ≡ elim (given name ps) [ some v ↦ some v | none ↦ lookup name m.services ]
  unfolding apply_params given apply_param
  apply_params-services [] m name = refl
  apply_params-services (services s ∷ ps) m name = ground (
    arith,
    apply_params-services ps (apply_param (services s) m) name,
    lookup-insert_all s m.services name,
  )
  apply_params-services (environ e ∷ ps) m name =
      apply_params-services ps (apply_param (environ e) m) name

  apply_params-environ :
      (ps : List Param) (m : Machine Err)
      → (apply_params ps m).environ ≡ m.environ ++ given_environ ps
  unfolding apply_params given_environ apply_param
  apply_params-environ [] m = cc (append-nil m.environ)
  apply_params-environ (services s ∷ ps) m = apply_params-environ ps (apply_param (services s) m)
  apply_params-environ (environ e ∷ ps) m = cc (
    apply_params-environ ps (apply_param (environ e) m),
    append_assoc m.environ e (given_environ ps),
  )

  -- The parameters of Start give a machine, under each name, the service of the last parameter
  -- that has the name, or else its own; and they append their environments to its own in order.
  pub apply_params-given :
      (ps : List Param) (m : Machine Err)
      → ((name : Text)
          → lookup name (apply_params ps m).services
            ≡ elim (given name ps) [ some v ↦ some v | none ↦ lookup name m.services ])
        × ((apply_params ps m).environ ≡ m.environ ++ given_environ ps)
  apply_params-given ps m = (apply_params-services ps m, apply_params-environ ps m)
