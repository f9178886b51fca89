-- ===== src/Rpc/Client.antt =====
-- rpc/client.go: the client, its cache of HTTP clients, and Call.
--
-- The HTTP client is a parameter: `post` is ctxhttp.Post, the body of a response being read as it
-- is needed. The debug logs, the warnings on large payloads and the fault injector are left out.
use bigmachine.Prelude.{
  ℕ, suc, Bool, true, false, ◌&&◌, ◌||◌, not, none, some, List, [], ◌∷◌, Text, codes, if◌then◌else◌,
  ◌==◌, ltb, leb, lookup, insert, delete,
}
use bigmachine.Errors.{
  Errors, severity, kind, message, cause, fatal, temporary, invalid, net, remote,
}
use bigmachine.Machine.Retry.{Result, ok, err}
use bigmachine.Rpc.Paths.{url}
use bigmachine.Rpc.Wire.{Ty, Gob, Request, Response}
use bigmachine.Rpc.Server.{method_error_code, gob_content_type, octet_stream}

-- The clients by address; a *clientState is an identifier, drawn from `fresh`. `idle_closed` holds
-- those whose idle connections were closed.
pub record Client : Type 0 where
  pub prefix : Text
  pub clients : List (Text × ℕ)
  pub fresh : ℕ
  pub idle_closed : List ℕ

unfoldable pub new_client : Text → Client
new_client prefix = record { prefix = prefix; clients = []; fresh = 0; idle_closed = [] }

unfoldable pub get_client : Text → Client → ℕ × Client
get_client addr c = elim (lookup addr c.clients) [
  | some h ↦ (h, c)
  | none ↦ (c.fresh, record c { clients = insert addr c.fresh c.clients; fresh = suc c.fresh })
]

-- `c.clients[h.addr] == h`.
abbrev pub is_current : Text → ℕ → Client → Bool
is_current addr h c = elim (lookup addr c.clients) [ none ↦ false | some k ↦ k == h ]

-- updateClientState of the client h of the address, after a call that failed or did not.
unfoldable pub update_client_state : Text → ℕ → Bool → Client → Client
update_client_state addr h did_fail c =
    let c' =
      if did_fail && is_current addr h c then record c { clients = delete addr c.clients } else c in
    if is_current addr h c' then c' else record c' { idle_closed = h ∷ c'.idle_closed }

module _ (E : Errors) (G : Gob E) where
  open E use {Err, make, format, same}
  open G use {Value, encode, decode, decode_error}

  -- The argument: an io.Reader (or a function that gives one), or a value.
  pub data CallArg : Type 0 where
    from_reader : Text → CallArg
    from_value : Value → CallArg

  -- The reply pointer: an *io.ReadCloser, or a pointer to a value, by its type
  -- and what it holds before the call.
  pub data ReplyKind : Type 0 where
    closer : ReplyKind
    typed : Ty → Value → ReplyKind

  pub data CallResult : Type 0 where
    failed : Err → CallResult
    replied : Value → CallResult
    streaming : Response → CallResult

  abbrev pub is_failed : CallResult → Bool
  is_failed (failed e) = true
  is_failed _ = false

  unfoldable pub remote_of : Text → Result Err Err → Err
  remote_of service_method (ok e) = make (kind remote ∷ cause e ∷ [])
  remote_of service_method (err x) = make (
      kind invalid
      ∷ severity temporary
      ∷ message (codes "error while decoding error for ")
      ∷ message service_method
      ∷ cause x
      ∷ [])

  -- decodeError: the method's own error is marked as remote.
  unfoldable pub decode_remote : Text → Text → Err
  unfolding remote_of
  decode_remote service_method body = remote_of service_method (decode_error body)

  unfoldable pub reply_of : Text → Result Err Value → CallResult
  reply_of service_method (ok v) = replied v
  reply_of service_method (err x) = failed (
      make (
        kind invalid
        ∷ severity temporary
        ∷ message (codes "error while decoding reply for ")
        ∷ message service_method
        ∷ cause x
        ∷ []))

  -- The two last cases of each switch on the status.
  unfoldable pub bad_status : Text → Response → Err
  bad_status url r =
      if leb 400 r.code && ltb r.code 500
      then make (
          severity fatal
          ∷ kind invalid
          ∷ message url
          ∷ message (codes ": client error ")
          ∷ message r.body
          ∷ [])
      else make (
          severity fatal
          ∷ kind invalid
          ∷ message url
          ∷ message (codes ": bad reply status ")
          ∷ message r.body
          ∷ [])

  -- `switch arg := reply.(type)`.
  unfoldable pub read_response : Text → Text → ReplyKind → Response → CallResult
  unfolding decode_remote reply_of bad_status
  read_response url service_method closer r =
      if r.code == 200
      then streaming r
      else if r.code == method_error_code
      then failed (decode_remote service_method r.body)
      else failed (bad_status url r)
  read_response url service_method (typed t old) r =
      if r.code == method_error_code
      then failed (decode_remote service_method r.body)
      else if r.code == 200
      then reply_of service_method (decode t old r.body)
      else failed (bad_status url r)

  -- `switch err` after the post.
  unfoldable pub post_error : Err → Err
  post_error e =
      if same e E.deadline_exceeded || same e E.canceled
      then e
      else make (kind net ∷ severity temporary ∷ cause e ∷ [])

  -- Call from the post on: the result, and what becomes of the cache.
  unfoldable pub exchange :
      (Request → Result Err Response)
      → Text
      → Text
      → Text
      → Text
      → ReplyKind
      → Client
      → CallResult × Client
  unfolding get_client update_client_state read_response post_error
  exchange post addr service_method content_type body reply c =
      let u = url addr c.prefix service_method in
      let (h, c1) = get_client addr c in
      let result : CallResult =
        elim (post (record {
          http_method = codes "POST";
          url = u;
          content_type = content_type;
          body = body;
        })) [ ok r ↦ read_response u service_method reply r | err e ↦ failed (post_error e) ] in
      (result, update_client_state addr h (is_failed result) c1)

  unfoldable pub call :
      (Request → Result Err Response)
      → Text
      → Text
      → CallArg
      → ReplyKind
      → Client
      → CallResult × Client
  unfolding exchange
  call post addr service_method (from_reader b) reply c =
      exchange post addr service_method octet_stream b reply c
  call post addr service_method (from_value v) reply c = elim (encode v) [
    | err e ↦ (failed (make (severity fatal ∷ kind invalid ∷ cause e ∷ [])), c)
    | ok b ↦ exchange post addr service_method gob_content_type b reply c
  ]

  -- streamReader.Read at the end of the body: the error that the reader sees there, io.EOF for
  -- none. The body ends with `e`.
  unfoldable pub stream_end : Err → Response → Err
  stream_end e r = if not (same e E.eof) then e else elim r.trailer [
    | none ↦ e
    | some t ↦ elim t [ [] ↦ e | d ∷ s ↦ format (message (d ∷ s) ∷ []) ]
  ]
