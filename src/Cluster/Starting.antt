-- ===== src/Cluster/Starting.antt =====
-- bigmachine.go: what Start returns and which machines are known after it.
use bigmachine.Prelude.{
  ℕ, ◌≡◌, refl, sym, ap, ◌∙◌, Bool, true, false, Option, none, some, List, [], ◌∷◌, Text, codes,
  if◌then◌else◌, text_eq, lookup, lookup-insert, arith, ◌++◌,
}
use mathlib.Core.Path.{subst}
use mathlib.Core.List.{append_assoc, append-nil}
use bigmachine.Errors.{Errors, kind, message, invalid}
use bigmachine.Machine.{Machine}
use bigmachine.Machine.Retry.{Result, ok, err}
use bigmachine.Cluster.{
  B, Param, add, own, apply_params, apply_param, begin, insert_all, services, environ,
  is_none_given, start_each, and_rest,
}

module _ {Err : Type 0} where
  -- The last of the machines at the address, or the one before.
  unfoldable pub last_at : Text → List (Machine Err) → Option (Machine Err) → Option (Machine Err)
  last_at addr [] before = before
  last_at addr (m ∷ ms) before = last_at addr ms (if text_eq m.addr addr then some m else before)

abbrev or_else : Option ℕ → Option ℕ → Option ℕ
or_else (some i) before = some i
or_else none before = before

-- The service that the last of the parameters with one under the name gives, or the one before.
unfoldable pub given_service : Text → List Param → Option ℕ → Option ℕ
given_service name [] before = before
given_service name (services svcs ∷ ps) before =
    given_service name ps (or_else (lookup name svcs) before)
given_service name (environ e ∷ ps) before = given_service name ps before

unfoldable pub given_environ : List Param → List Text
given_environ [] = []
given_environ (services svcs ∷ ps) = given_environ ps
given_environ (environ e ∷ ps) = e ++ given_environ ps

-- A started machine and what Start makes of it: it is owned, at its address, and has the services and
-- the environment of the parameters.
pub record OwnedBy {Err : Type 0} (params : List Param) (m r : Machine Err) : Type 0 where
  pub addr : r.addr ≡ m.addr
  pub owner : r.owner ≡ true
  pub environ : r.environ ≡ m.environ ++ given_environ params
  pub services :
      (name : Text) → lookup name r.services ≡ given_service name params (lookup name m.services)

-- The two lists have their elements in relation, one by one.
abbrev pub Each : {A B : Type 0} → (A → B → Type 0) → List A → List B → Type 0
Each R [] [] = Unit {0}
Each R (x ∷ xs) (y ∷ ys) = R x y × Each R xs ys
Each R _ _ = ⊥

lookup-insert_all :
    (name : Text) (svcs acc : List (Text × ℕ))
    → lookup name (insert_all svcs acc) ≡ or_else (lookup name svcs) (lookup name acc)
unfolding insert_all lookup
lookup-insert_all name [] acc = refl
lookup-insert_all name ((n, iface) ∷ svcs) acc =
    let first = lookup-insert n name iface (insert_all svcs acc) in
    ground (arith, first, lookup-insert_all name svcs acc)

module _ {Err : Type 0} where
  applied :
      (params : List Param) (m : Machine Err)
      → let r = apply_params params m in
        (r.addr ≡ m.addr)
        × (r.environ ≡ m.environ ++ given_environ params)
        × ((name : Text)
            → lookup name r.services ≡ given_service name params (lookup name m.services))
  unfolding apply_params apply_param given_service given_environ
  applied [] m = (refl, sym (append-nil m.environ), λ name. refl)
  applied (services svcs ∷ ps) m =
      let rest = applied ps (record m { services = insert_all svcs m.services }) in
      (
        rest.0,
        rest.1,
        λ name. rest.2 name ∙ ap (given_service name ps) (lookup-insert_all name svcs m.services),
      )
  applied (environ e ∷ ps) m =
      let rest = applied ps (record m { environ = m.environ ++ e }) in
      (rest.0, rest.1 ∙ append_assoc m.environ e (given_environ ps), rest.2)

  own-OwnedBy : (params : List Param) (m : Machine Err) → OwnedBy params m (own params m)
  unfolding own begin
  own-OwnedBy params m =
      let all = applied params m in
      record { addr = all.0; owner = refl; environ = all.1; services = all.2 }

module _ (E : Errors) where
  open E use {Err}

  abbrev pub Started : List Param → List (Machine Err) → B Err → List (Machine Err) → B Err → Type 0
  Started params ms b rs b' =
      Each (OwnedBy params) ms rs
      × ((addr : Text) → lookup addr b'.machines ≡ last_at addr rs (lookup addr b.machines))

  add-lookup :
      (m : Machine Err) (b : B Err) (addr : Text)
      → lookup addr (add m b).machines
        ≡ (if text_eq m.addr addr then some m else lookup addr b.machines)
  unfolding add
  add-lookup m b addr = lookup-insert m.addr addr m b.machines

  -- What a round that returns machines comes to.
  round-ok :
      (none_given : Bool) (e : Err) (b : B Err) (m : Machine Err)
      (rest : Result Err (List (Machine Err)) × B Err) (rs : List (Machine Err))
      → (if none_given then (err e, b) else and_rest E m rest).0 ≡ ok rs
      → (ns : List (Machine Err)) × (rs ≡ m ∷ ns)
        × (rest.0 ≡ ok ns)
        × ((if none_given then (err e, b) else and_rest E m rest).1 ≡ rest.1)
  round-ok true e b m rest rs h = absurd (ground arith)
  round-ok false e b m (ok ns, b') rs h = (ns, ground arith, refl, refl)
  round-ok false e b m (err e', b') rs h = absurd (ground arith)

  -- Start's loop, if it returns machines, returns one for each that the system started, in their order:
  -- at its address, owned, with the parameters' environment after its own, and under each name with the
  -- last service that the parameters give, or its own. And it knows them under their addresses: the last
  -- one at an address there, and at other addresses the machines of before.
  pub start_each-Started :
      (params : List Param) (ms : List (Machine Err)) (b : B Err) (rs : List (Machine Err))
      → (start_each E params ms b).0 ≡ ok rs
      → Started params ms b rs (start_each E params ms b).1
  unfolding start_each last_at
  start_each-Started params [] b rs h =
      let same : [] ≡ rs = ground arith in
      (subst (Each (OwnedBy params) []) same tt, λ addr. ground arith)
  start_each-Started params (m ∷ ms) b rs h =
      let done =
        round-ok (is_none_given (apply_params params m).services)
          (E.make (kind invalid ∷ message (codes "no services provided") ∷ [])) b (own params m)
          (start_each E params ms (add (own params m) b)) rs h in
      let ih = start_each-Started params ms (add (own params m) b) done.0 done.2 in
      (
        subst (Each (OwnedBy params) (m ∷ ms)) (sym done.1) (own-OwnedBy params m, ih.0),
        λ addr.
            ap (λ b'. lookup addr b'.machines) done.3
            ∙ ih.1 addr
            ∙ ap (last_at addr done.0) (add-lookup (own params m) b addr)
            ∙ ap (λ xs. last_at addr xs (lookup addr b.machines)) (sym done.1),
      )
