-- ===== src/Rpc/EndToEnd.antt =====
-- rpc/client.go and rpc/server.go together: a client whose posts are answered by the handler.
use bigmachine.Prelude.{
  ℕ, ◌≡◌, refl, ap, ◌∙◌, true, false, none, some, [], ◌∷◌, ◌++◌, Text, codes, lookup, contains,
}
use bigmachine.Errors.{Errors, Laws, kind, cause, remote}
use bigmachine.Machine.Retry.{Result, ok, is_fatal}
use bigmachine.Rpc.Paths.{slash, dot, url, trim_right, is_path, ReadsPaths, split_dot-url}
use bigmachine.Rpc.Wire.{Ty, Gob, GobLaws, Request, Response}
use bigmachine.Rpc.Server.{
  Argument, Invocation, Served, body_stream, value, returned, panicked, nil_stream, streamed,
  serve_http, serve_method, dispatch, recovered, finish, finish_value, gob_content_type,
  reply_bytes_of, http_error,
}
use bigmachine.Rpc.Services.{Server, Service, Method, elem_of, is_reader}
use bigmachine.Rpc.Client.{
  Client, ReplyKind, from_value, typed, closer, failed, replied, call, exchange, read_response,
  decode_remote, bad_status,
}
use bigmachine.Rpc.Server

module _ (E : Errors) (G : Gob E) (laws : GobLaws E G)
    (invoke : ℕ → ℕ → Argument E G → Invocation E G) (s : Server) (path_of : Text → Text)
    (origin at prefix service method : Text) (reads : ReadsPaths path_of origin)
    (ends : trim_right origin ≡ origin)
    (plain : is_path (trim_right at ++ ((prefix ++ slash ∷ []) ++ (service ++ dot ∷ method)))
      ≡ true)
    (no_slash : contains service slash ≡ false) (no_dot : contains service dot ≡ false)
    (method_no_slash : contains method slash ≡ false) where
  open E use {Err, make, recover}
  open G use {Value, encode, decode, encode_error}

  -- The post of a client whose server is `s`.
  abbrev pub post : Request → Result Err Response
  post r = ok (serve_http E G path_of invoke none s r).response

  abbrev pub addr : Text
  addr = origin ++ at

  abbrev pub rpc_prefix : Text
  rpc_prefix = prefix ++ slash ∷ []

  abbrev pub service_method : Text
  service_method = service ++ dot ∷ method

  request : Text → Text → Request
  request content_type body = record {
    http_method = codes "POST";
    url = url addr rpc_prefix service_method;
    content_type = content_type;
    body = body;
  }

  routed :
      (svc : Service) (m : Method) (t b : Text)
      → lookup service s.services ≡ some svc
      → lookup method svc.methods ≡ some m
      → serve_http E G path_of invoke none s (request t b)
        ≡ serve_method E G invoke none svc m (request t b)
  unfolding serve_http request
  routed svc m t b hs hm = rw (
    split_dot-url path_of origin at prefix service method reads ends plain no_slash no_dot
        method_no_slash,
    hs,
    hm,
  )

  -- The result of a call whose server gives the response.
  answered :
      (t b : Text) (reply : ReplyKind E G) (c : Client) (r : Response)
      → c.prefix ≡ rpc_prefix
      → (serve_http E G path_of invoke none s (request t b)).response ≡ r
      → (exchange E G post addr service_method t b reply c).0
        ≡ read_response E G (url addr rpc_prefix service_method) service_method reply r
  unfolding exchange request
  answered t b reply c r e h = rw (e, h)

  -- A call to a registered method that returns a value without an error gives the client that
  -- value as its reply, if the URL holds the names as split_dot-url requires (the service's name has no
  -- slash and no dot, the method's no slash, the client's prefix ends in a slash, and the path has no
  -- special characters), the method takes no stream, the argument and the reply can be encoded and have
  -- the types that both sides expect of them, the request arrives, and the client gives a zero value
  -- for the reply.
  pub call_serve-ok :
      (c : Client) (svc : Service) (m : Method) (v w : Value) (b b' : Text) (t : Ty)
      → c.prefix ≡ rpc_prefix
      → lookup service s.services ≡ some svc
      → lookup method svc.methods ≡ some m
      → is_reader m.arg ≡ false
      → G.typed (elem_of m.arg) v ≡ true
      → encode v ≡ ok b
      → invoke svc.recv m.func (value v) ≡ returned none (Server.replied w)
      → encode w ≡ ok b'
      → G.typed t w ≡ true
      → (call E G post addr service_method (from_value v) (typed t (G.zero t)) c).0 ≡ replied w
  unfolding call serve_method dispatch read_response request
  call_serve-ok c svc m v w b b' t pre hs hm nr tv ev iv ew tw =
      rw (ev, call)
        (answered gob_content_type b (typed t (G.zero t)) c _ pre
            (ap (λ x. x.response) (routed svc m _ b hs hm) ∙ done)
          ∙ rw (laws.decode-encode t w b' tw ew))
    where
      done :
          (serve_method E G invoke none svc m (request gob_content_type b)).response
          ≡ record { code = 200; content_type = gob_content_type; body = b'; trailer = none }
      done = rw (nr, laws.decode-encode (elem_of m.arg) v b tv ev, iv, ew)

  -- An error that a method with a value for its reply returns reaches the client as a remote error
  -- that holds what errors.Recover makes of it, whatever value the method left behind its reply
  -- pointer: under the same conditions on the names, the path and the argument, and if that error can be
  -- encoded.
  pub call_serve-error :
      (c : Client) (svc : Service) (m : Method) (v w old : Value) (e : Err) (b b' : Text) (t : Ty)
      → c.prefix ≡ rpc_prefix
      → lookup service s.services ≡ some svc
      → lookup method svc.methods ≡ some m
      → is_reader m.arg ≡ false
      → G.typed (elem_of m.arg) v ≡ true
      → encode v ≡ ok b
      → invoke svc.recv m.func (value v) ≡ returned (some e) (Server.replied w)
      → encode_error (recover e) ≡ ok b'
      → (call E G post addr service_method (from_value v) (typed t old) c).0
        ≡ failed (make (kind remote ∷ cause (recover e) ∷ []))
  unfolding call serve_method dispatch read_response decode_remote request
  call_serve-error c svc m v w old e b b' t pre hs hm nr tv ev iv ew =
      rw (ev, call)
        (answered gob_content_type b (typed t old) c _ pre
            (ap (λ x. x.response) (routed svc m _ b hs hm) ∙ done)
          ∙ rw (laws.decode_error-encode_error (recover e) b' ew, decode_remote))
    where
      done :
          (serve_method E G invoke none svc m (request gob_content_type b)).response
          ≡ record { code = 590; content_type = gob_content_type; body = b'; trailer = none }
      done = rw (nr, laws.decode-encode (elem_of m.arg) v b tv ev, iv, ew)

  read_404 :
      Laws E
      → (u sm t : Text) (reply : ReplyKind E G)
      → (e : Err) × (read_response E G u sm reply (http_error t 404) ≡ failed e)
        × (is_fatal E e ≡ true)
  unfolding read_response bad_status http_error
  read_404 l u sm t closer = (_, refl, l.fatal_matches _)
  read_404 l u sm t (typed ty old) = (_, refl, l.fatal_matches _)

  -- A call to a service that is not registered fails with a fatal error, which retryCall does not
  -- retry.
  pub call_serve-no_service :
      Laws E
      → (c : Client) (v : Value) (b : Text) (reply : ReplyKind E G) → c.prefix ≡ rpc_prefix
      → lookup service s.services ≡ none
      → encode v ≡ ok b
      → (e : Err) × ((call E G post addr service_method (from_value v) reply c).0 ≡ failed e)
        × (is_fatal E e ≡ true)
  unfolding call
  call_serve-no_service l c v b reply pre hs ev =
      let (e, read, bad) =
        read_404 l (url addr rpc_prefix service_method) service_method (codes "no such service")
          reply in
      (e, rw (ev, call) (answered gob_content_type b reply c _ pre (missing b hs) ∙ read), bad)
    where
      missing :
          (x : Text)
          → lookup service s.services ≡ none
          → (serve_http E G path_of invoke none s (request gob_content_type x)).response
            ≡ http_error (codes "no such service") 404
      missing x h =
          unfold serve_http request in
          rw (
            split_dot-url path_of origin at prefix service method reads ends plain no_slash no_dot
                method_no_slash,
            h,
          )
