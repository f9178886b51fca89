-- ===== src/Cluster/Registry.antt =====
-- system.go: the systems by their names, and Init, by which a process becomes a machine.
use bigmachine.Prelude.{Option, none, some, List, [], Text, if◌then◌else◌, text_eq, lookup, insert}

-- A registration: the registry, or the panic of must.Nil.
unfoldable pub register_system {ℓ} :
    {S : Type ℓ} → Text → S → List (Text × S) → Option (List (Text × S))
register_system name system registry = elim (lookup name registry) [
  | some s ↦ none
  | none ↦ some (insert name system registry)
]

-- What Init comes to: it returns, it panics, or it starts a system and never returns.
pub data Initialized {ℓ} (S : Type ℓ) : Type ℓ where
  returns : Initialized S
  not_found : Text → Initialized S
  starts : S → Initialized S

-- Init, from $BIGMACHINE_SYSTEM.
unfoldable pub init {ℓ} : {S : Type ℓ} → Text → List (Text × S) → Initialized S
init name registry =
    if text_eq name []
    then returns
    else elim (lookup name registry) [ none ↦ not_found name | some s ↦ starts s ]
