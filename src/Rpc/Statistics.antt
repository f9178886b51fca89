-- ===== src/Rpc/Statistics.antt =====
-- rpc/server.go: the responses of the handler, and what it records of a call.
use bigmachine.Prelude.{ℕ, ◌≡◌, ◌⊎◌, Option, none, some, [], ◌∷◌, Text, codes, length, arith}
use bigmachine.Errors.{Errors, severity, message, fatal}
use bigmachine.Machine.Retry.{ok}
use bigmachine.Rpc.Wire.{Gob, Request}
use bigmachine.Rpc.Server.{
  Argument, Invocation, Served, Stat, Reply, replied, streamed, nil_stream, returned, panicked,
  serve_http, serve_method, dispatch, finish, method_error_code,
}
use bigmachine.Rpc.Services.{Server}

module _ (E : Errors) (G : Gob E) where
  open E use {Err, make, recover}

  -- The size of a request is recorded as -1 or 0.
  abbrev pub NoSize : Served E G → Type 0
  NoSize x =
      (st : Stat E G) → x.stat ≡ some st → (st.request_bytes ≡ none) ⊎ (st.request_bytes ≡ some 0)

  -- A size that the caller of finish gives is what is recorded.
  finish-size :
      (rb : Option ℕ) (we e : Option Err) (r : Reply E G) (st : Stat E G)
      → (finish E G rb we e r).stat ≡ some st
      → st.request_bytes ≡ rb
  unfolding finish
  finish-size rb we e (streamed s) st h = ground arith
  finish-size rb we e (replied v) st h = ground arith
  finish-size rb we e nil_stream st h = ground arith

  -- The server never records the size of a request: it reads the size off before it reads the
  -- request, so for every request it records 0, or -1 for a stream.
  pub serve_http-NoSize :
      (path_of : Text → Text) (invoke : ℕ → ℕ → Argument E G → Invocation E G) (we : Option Err)
      (s : Server) (r : Request)
      → NoSize (serve_http E G path_of invoke we s r)
  unfolding serve_http serve_method
  serve_http-NoSize path_of invoke we s r st h = ground (arith)

  -- A call whose method fails is answered by the code for method errors, but where the error is
  -- encoded and written without an error it is recorded as a call without an error.
  pub dispatch-error_unrecorded :
      (rb : Option ℕ) (e : Err) (v : G.Value) (b : Text)
      → G.encode_error (recover e) ≡ ok b
      → let x = dispatch E G rb none (returned (some e) (replied v)) in
        (x.response.code ≡ method_error_code)
        × (x.response.body ≡ b)
        × (x.stat
            ≡ some (record { request_bytes = rb; reply_bytes = some (length b); error = none }))
  unfolding dispatch
  dispatch-error_unrecorded rb e v b h = ground arith

  -- A method that panics does not bring the server down: the client gets the panic as a fatal
  -- method error.
  pub dispatch-panicked :
      (rb : Option ℕ) (t b : Text) (v : G.Value)
      → let e = make (severity fatal ∷ message (codes "panic: ") ∷ message t ∷ []) in
        G.encode_error (recover e) ≡ ok b
        → (dispatch E G rb none (panicked t (replied v))).response.code ≡ method_error_code
  unfolding dispatch
  dispatch-panicked rb t b v h = ground arith
