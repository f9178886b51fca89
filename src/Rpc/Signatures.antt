-- ===== src/Rpc/Signatures.antt =====
-- rpc/server.go: the types of the methods that a server may call.
--
-- ServeHTTP calls a method by reflection, with a receiver, a context, a value of the type `arg` and one
-- of the type `reply`; reflect.Value.Call panics if the method's own types are others.
use bigmachine.Prelude.{
  ℕ, ◌≡◌, refl, ap, ◌∙◌, true, some, List, [], ◌∷◌, Text, text_eq, text_eq_iff, lookup, insert,
  lookup-insert, Bool-cases, inl, inr, if_elim, Option-cases, length, get_or, arith,
}
use mathlib.Core.Path.{subst}
use mathlib.Core.Option.{some-injective}
use mathlib.Core.List.{Memᴰ}
use mathlib.Core.List.Memᴰ.{head, tail}
use bigmachine.Rpc.Registration.{lookup-register}
use bigmachine.Rpc.Wire.{Ty, context, reader, read_closer, error, ptr, map_of, slice_of, named}
use bigmachine.Rpc.Services.{
  MethodInfo, Method, Service, Server, is_context, is_error, is_ptr, is_eligible, method_of,
  init_methods, new_server, register,
}

-- A method that reflection can call as ServeHTTP does, and that others may see: `K` tells of which
-- methods it may be one.
pub record IsCallable (K : MethodInfo → Type 0) (m : Method) : Type 0 where
  pub info : MethodInfo
  pub known : K info
  pub receiver : Ty
  pub result : Ty
  pub exported : info.pkg_path ≡ []
  pub ins : info.ins ≡ receiver ∷ context ∷ m.arg ∷ m.reply ∷ []
  pub reply : m.reply ≡ ptr result
  pub outs : info.outs ≡ error ∷ []
  pub func : m.func ≡ info.func

-- A registration: the name, the value, and its method set.
pub record Registration : Type 0 where
  pub name : Text
  pub recv : ℕ
  pub infos : List MethodInfo

unfoldable pub register_all : List Registration → Server → Server
register_all [] s = s
register_all (r ∷ rs) s = register_all rs (register r.name r.recv r.infos s)

-- The method `n` of a value that is registered as `j`.
pub record Offers (rs : List Registration) (j n : Text) (i : MethodInfo) : Type 0 where
  pub registration : Registration
  pub registered : Memᴰ registration rs
  pub service_name : registration.name ≡ j
  pub offered : Memᴰ i registration.infos
  pub method_name : i.name ≡ n

-- Each method of a table can be called.
abbrev AllCallable : (Text → MethodInfo → Type 0) → List (Text × Method) → Type 0
AllCallable K methods = (n : Text) (m : Method) → lookup n methods ≡ some m → IsCallable (K n) m

-- Each method of each service can be called.
abbrev IsTyped : List Registration → Server → Type 0
IsTyped rs s =
    (j : Text) (svc : Service)
    → lookup j s.services ≡ some svc
    → AllCallable (Offers rs j) svc.methods

is_context_sound : (t : Ty) → is_context t ≡ true → t ≡ context
is_context_sound t h = ground (arith, h)

is_error_sound : (t : Ty) → is_error t ≡ true → t ≡ error
is_error_sound t h = ground (arith, h)

is_ptr_sound : (t : Ty) → is_ptr t ≡ true → (r : Ty) × (t ≡ ptr r)
is_ptr_sound (ptr r) h = (r, refl)
is_ptr_sound context h = absurd (ground (arith, h))
is_ptr_sound reader h = absurd (ground (arith, h))
is_ptr_sound read_closer h = absurd (ground (arith, h))
is_ptr_sound error h = absurd (ground (arith, h))
is_ptr_sound (map_of r) h = absurd (ground (arith, h))
is_ptr_sound (slice_of r) h = absurd (ground (arith, h))
is_ptr_sound (named n) h = absurd (ground (arith, h))

four :
    (ins : List Ty)
    → length ins ≡ 4
    → ins ≡ get_or ins 0 error ∷ get_or ins 1 error ∷ get_or ins 2 error ∷ get_or ins 3 error ∷ []
four [] h = absurd (omega (arith, h))
four (a ∷ []) h = absurd (omega (arith, h))
four (a ∷ b ∷ []) h = absurd (omega (arith, h))
four (a ∷ b ∷ c ∷ []) h = absurd (omega (arith, h))
four (a ∷ b ∷ c ∷ d ∷ []) h = refl
four (a ∷ b ∷ c ∷ d ∷ e ∷ rest) h = absurd (omega (arith, h))

one : (outs : List Ty) → length outs ≡ 1 → outs ≡ get_or outs 0 context ∷ []
one [] h = absurd (omega (arith, h))
one (a ∷ []) h = refl
one (a ∷ b ∷ rest) h = absurd (omega (arith, h))

is_eligible-IsCallable :
    (K : MethodInfo → Type 0) (i : MethodInfo)
    → K i
    → is_eligible i ≡ true
    → IsCallable K (method_of i)
unfolding is_eligible
is_eligible-IsCallable K i known h =
    let second : get_or i.ins 1 error ≡ context = is_context_sound _ (ground (arith, h)) in
    let (r, last) = is_ptr_sound (get_or i.ins 3 error) (ground (arith, h)) in
    let out : get_or i.outs 0 context ≡ error = is_error_sound _ (ground (arith, h)) in
    let n_ins : length i.ins ≡ 4 = ground (arith, h) in
    let n_outs : length i.outs ≡ 1 = ground (arith, h) in
    record {
      info = i;
      known = known;
      receiver = get_or i.ins 0 error;
      result = r;
      exported = (text_eq_iff i.pkg_path []).0 (ground (arith, h));
      ins =
          four i.ins n_ins
          ∙ ap (λ t. get_or i.ins 0 error ∷ t ∷ get_or i.ins 2 error ∷ get_or i.ins 3 error ∷ [])
              second;
      reply = last;
      outs = one i.outs n_outs ∙ ap (λ t. t ∷ []) out;
      func = refl;
    }

insert-AllCallable :
    (K : Text → MethodInfo → Type 0) (n : Text) (m : Method) (methods : List (Text × Method))
    → IsCallable (K n) m
    → AllCallable K methods
    → AllCallable K (insert n m methods)
insert-AllCallable K n m methods c all k l h =
    let found = lookup-insert n k m methods in
    elim (Bool-cases (text_eq n k)) [
      | inl q ↦
          let same : m ≡ l = some-injective m l (ground (arith, q, found, h)) in
          subst (λ x. IsCallable (K x) l) ((text_eq_iff n k).0 q) (subst (IsCallable (K n)) same c)
      | inr q ↦ all k l (ground (arith, q, found, h))
    ]

init_methods-AllCallable :
    (K : Text → MethodInfo → Type 0) (infos : List MethodInfo) (acc : List (Text × Method))
    → ((i : MethodInfo) → Memᴰ i infos → K i.name i)
    → AllCallable K acc
    → AllCallable K (init_methods infos acc)
unfolding init_methods
init_methods-AllCallable K [] acc known all = all
init_methods-AllCallable K (i ∷ infos) acc known all =
    init_methods-AllCallable K infos _ (λ x p. known x (tail p))
      (if_elim (AllCallable K) (is_eligible i) (insert i.name (method_of i) acc) acc
        (λ h.
          insert-AllCallable K i.name (method_of i) acc
            (is_eligible-IsCallable (K i.name) i (known i (head refl)) h) all)
        (λ h. all))

none_callable : (K : Text → MethodInfo → Type 0) → AllCallable K []
unfolding lookup
none_callable K n m h = absurd (ground (arith, h))

register-IsTyped :
    (rs : List Registration) (r : Registration) (s : Server)
    → Memᴰ r rs
    → IsTyped rs s
    → IsTyped rs (register r.name r.recv r.infos s)
register-IsTyped rs r s at t j svc h =
    let found = lookup-register r.name j r.recv r.infos s in
    let new : Service = record {
      name = r.name;
      recv = r.recv;
      methods = init_methods r.infos [];
    } in
    let typed : AllCallable (Offers rs r.name) new.methods =
      init_methods-AllCallable (Offers rs r.name) r.infos []
        (λ i p. record {
          registration = r;
          registered = at;
          service_name = refl;
          offered = p;
          method_name = refl;
        })
        (none_callable _) in
    elim (Option-cases (lookup j s.services)) [
      | inr (old, q) ↦ t j svc (ground (arith, q, found, h))
      | inl q ↦ elim (Bool-cases (text_eq r.name j)) [
        | inl p ↦
            let same : new ≡ svc = some-injective new svc (ground (arith, p, q, found, h)) in
            subst (λ x. AllCallable (Offers rs x) svc.methods) ((text_eq_iff r.name j).0 p)
              (subst (λ (v : Service). AllCallable (Offers rs r.name) v.methods) same typed)
        | inr p ↦ absurd (ground (arith, p, q, found, h))
      ]
    ]

new_server-IsTyped : (rs : List Registration) → IsTyped rs new_server
unfolding new_server lookup
new_server-IsTyped rs j svc h = absurd (ground (arith, h))

register_all-from :
    (all rs : List Registration) (s : Server)
    → ((r : Registration) → Memᴰ r rs → Memᴰ r all)
    → IsTyped all s
    → IsTyped all (register_all rs s)
unfolding register_all
register_all-from all [] s sub t = t
register_all-from all (r ∷ rs) s sub t =
    register_all-from all rs (register r.name r.recv r.infos s) (λ x p. sub x (tail p))
      (register-IsTyped all r s (sub r (head refl)) t)

-- After any registrations, of values with any method sets, each method that a server finds for a
-- request is the exported method of that name of a value registered under the name of the service,
-- and has the types with which ServeHTTP calls it: after the receiver, a context, its argument and a
-- pointer for its reply, and an error as its only result.
pub register_all-IsCallable :
    (rs : List Registration) (j n : Text) (svc : Service) (m : Method)
    → lookup j (register_all rs new_server).services ≡ some svc
    → lookup n svc.methods ≡ some m
    → IsCallable (Offers rs j n) m
register_all-IsCallable rs j n svc m h k =
    register_all-from rs rs new_server (λ r p. p) (new_server-IsTyped rs) j svc h n m k
