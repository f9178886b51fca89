-- ===== src/Rpc/Services.antt =====
-- rpc/server.go: the services of a server and their registration.
use bigmachine.Prelude.{
  ℕ, Bool, true, false, ◌&&◌, none, some, List, [], ◌∷◌, Text, if◌then◌else◌, ◌==◌, text_eq, lookup,
  insert, length, get_or,
}
use bigmachine.Rpc.Wire.{Ty, context, reader, read_closer, error, ptr}

-- reflect.Method; the receiver is the first of `ins`.
pub record MethodInfo : Type 0 where
  pub name : Text
  pub pkg_path : Text
  pub ins : List Ty
  pub outs : List Ty
  pub func : ℕ

pub record Method : Type 0 where
  pub func : ℕ
  pub arg : Ty
  pub reply : Ty

pub record Service : Type 0 where
  pub name : Text
  pub recv : ℕ
  pub methods : List (Text × Method)

pub record Server : Type 0 where
  pub services : List (Text × Service)

abbrev pub is_context : Ty → Bool
is_context context = true
is_context _ = false

abbrev pub is_error : Ty → Bool
is_error error = true
is_error _ = false

abbrev pub is_reader : Ty → Bool
is_reader reader = true
is_reader _ = false

abbrev pub is_ptr : Ty → Bool
is_ptr (ptr t) = true
is_ptr _ = false

-- The element of a pointer type.
abbrev pub elem_of : Ty → Ty
elem_of (ptr t) = t
elem_of t = t

abbrev pub is_read_closer : Ty → Bool
is_read_closer read_closer = true
is_read_closer _ = false

-- The conditions of Init, in the order in which it makes them.
unfoldable pub is_eligible : MethodInfo → Bool
is_eligible m =
    text_eq m.pkg_path []
    && (length m.ins == 4
        && (is_context (get_or m.ins 1 error)
            && (is_ptr (get_or m.ins 3 error)
                && (length m.outs == 1 && is_error (get_or m.outs 0 context)))))

abbrev pub method_of : MethodInfo → Method
method_of m = record { func = m.func; arg = get_or m.ins 2 error; reply = get_or m.ins 3 error }

-- The loop of Init.
unfoldable pub init_methods : List MethodInfo → List (Text × Method) → List (Text × Method)
unfolding is_eligible
init_methods [] acc = acc
init_methods (m ∷ ms) acc =
    init_methods ms (if is_eligible m then insert m.name (method_of m) acc else acc)

unfoldable pub new_server : Server
new_server = record { services = [] }

-- Register, of a value with the given methods.
unfoldable pub register : Text → ℕ → List MethodInfo → Server → Server
unfolding init_methods
register service_name recv infos s = elim (lookup service_name s.services) [
  | some svc ↦ s
  | none ↦
      let svc : Service = record {
        name = service_name;
        recv = recv;
        methods = init_methods infos [];
      } in
      record s { services = insert service_name svc s.services }
]
