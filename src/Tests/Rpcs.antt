-- ===== src/Tests/Rpcs.antt =====
-- Remote calls: the theorems of Rpc at concrete inputs, and runs of its functions.
use bigmachine.Prelude.{
  ℕ, ◌≡◌, refl, false, none, some, List, [], ◌∷◌, Text, codes, contains, lookup, insert,
  if◌then◌else◌, ◌==◌, drop, arith,
}
use bigmachine.Errors.{remote}
use bigmachine.Machine.Retry.{Result, ok}
use bigmachine.Rpc.Paths.{url, base, slash, trim_right, ReadsPaths, split_dot, split_dot-url}
use bigmachine.Rpc.Wire.{context, error, ptr, named, Request, Response}
use bigmachine.Rpc.Signatures.{
  IsCallable, Registration, Offers, register_all, register_all-IsCallable,
}
use bigmachine.Rpc.Server
use bigmachine.Rpc.Server.{
  Argument, Invocation, Stat, returned, panicked, serve_http, dispatch, method_error_code,
}
use bigmachine.Rpc.Services.{
  MethodInfo, Service, Server, init_methods, register, new_server, is_eligible, method_of,
}
use bigmachine.Rpc.Client.{Client, from_value, typed, failed, replied, call}
use bigmachine.Rpc.EndToEnd.{call_serve-ok, call_serve-error}
use bigmachine.Tests.Samples.{SampleErr, sentinel, made, sample_errors, sample_gob, sample_gob_laws}

abbrev service : Text
service = codes "PI"

abbrev method : Text
method = codes "Sample"

abbrev addr : Text
addr = codes "https://localhost:1/"

abbrev prefix : Text
prefix = codes "/bigrpc"

url_text :
    url addr (codes "/bigrpc/") (codes "PI.Sample") ≡ codes "https://localhost:1/bigrpc/PI.Sample"
unfolding url
url_text = refl

base_slashes : base (codes "//") ≡ codes "/"
unfolding base contains
base_slashes = refl

-- The path of a URL of an https origin.
abbrev from_slash : Text → Text
from_slash [] = []
from_slash (c ∷ s) = if c == slash then c ∷ s else from_slash s

abbrev path_of : Text → Text
path_of u = from_slash (drop 8 u)

abbrev origin : Text
origin = codes "https://localhost:1"

path_of-ReadsPaths : ReadsPaths path_of origin
path_of-ReadsPaths [] h = absurd (ground (arith, h))
path_of-ReadsPaths (c ∷ p) h = ground (arith, h)

split_dot-url_example :
    split_dot (base (path_of (url addr (codes "/bigrpc/") (codes "PI.Sample"))))
    ≡ some (service, method)
unfolding contains trim_right
split_dot-url_example =
    split_dot-url path_of origin (codes "/") prefix service method path_of-ReadsPaths refl refl refl
      refl refl

abbrev sample_info : MethodInfo
sample_info = record {
  name = method;
  pkg_path = [];
  ins = named [] ∷ context ∷ named (codes "uint64") ∷ ptr (named (codes "uint64")) ∷ [];
  outs = error ∷ [];
  func = 3;
}

abbrev hidden_info : MethodInfo
hidden_info = record sample_info { name = codes "other"; pkg_path = codes "main"; func = 4 }

abbrev pi_server : Server
pi_server = register service 7 (sample_info ∷ []) new_server

abbrev pi_service : Service
pi_service = record { name = service; recv = 7; methods = init_methods (sample_info ∷ []) [] }

abbrev two_methods : List MethodInfo
two_methods = hidden_info ∷ sample_info ∷ []

abbrev registrations : List Registration
registrations = record { name = service; recv = 7; infos = two_methods } ∷ []

register_all-IsCallable_example :
    IsCallable (Offers registrations service method) (method_of sample_info)
unfolding register_all new_server register init_methods is_eligible lookup insert
register_all-IsCallable_example =
    register_all-IsCallable registrations service method
      (record { name = service; recv = 7; methods = init_methods two_methods [] })
      (method_of sample_info) refl refl

-- The method answers with what it was sent, and fails on an empty text.
abbrev invoke : ℕ → ℕ → Argument sample_errors sample_gob → Invocation sample_errors sample_gob
invoke recv func (Server.value []) = returned (some (sentinel 5)) (Server.replied [])
invoke recv func (Server.value (c ∷ s)) = returned none (Server.replied (c ∷ s))
invoke recv func (Server.body_stream b) = panicked b Server.nil_stream

abbrev client : Client
client = record { prefix = codes "/bigrpc/"; clients = []; fresh = 0; idle_closed = [] }

abbrev answers : Request → Result SampleErr Response
answers r = ok (serve_http sample_errors sample_gob path_of invoke none pi_server r).response

call_serve-ok_example :
    (call sample_errors sample_gob answers addr
      (codes "PI.Sample")
      (from_value (1 ∷ 2 ∷ []))
      (typed (named (codes "uint64")) [])
      client).0
    ≡ replied (1 ∷ 2 ∷ [])
unfolding contains trim_right register new_server lookup insert is_eligible init_methods
call_serve-ok_example =
    call_serve-ok sample_errors sample_gob sample_gob_laws invoke pi_server path_of origin
      (codes "/") prefix service method path_of-ReadsPaths refl refl refl refl refl client
      pi_service (method_of sample_info) (1 ∷ 2 ∷ []) (1 ∷ 2 ∷ []) (1 ∷ 2 ∷ []) (1 ∷ 2 ∷ [])
      (named (codes "uint64")) refl refl refl refl refl refl refl refl refl

call_serve-error_example :
    (call sample_errors sample_gob answers addr
      (codes "PI.Sample")
      (from_value [])
      (typed (named (codes "uint64")) [])
      client).0
    ≡ failed (made (some remote) false)
unfolding contains trim_right register new_server lookup insert is_eligible init_methods
call_serve-error_example =
    call_serve-error sample_errors sample_gob sample_gob_laws invoke pi_server path_of origin
      (codes "/") prefix service method path_of-ReadsPaths refl refl refl refl refl client
      pi_service (method_of sample_info) [] [] [] (sentinel 5) [] (0 ∷ 5 ∷ [])
      (named (codes "uint64")) refl refl refl refl refl refl refl refl

abbrev request : Request
request = record {
  http_method = codes "POST";
  url = codes "/bigrpc/PI.Sample";
  content_type = [];
  body = 1 ∷ [];
}
