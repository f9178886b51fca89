-- ===== src/Rpc/Server.antt =====
-- rpc/server.go: the HTTP handler of a server.
use bigmachine.Prelude.{
  ℕ, not, Option, none, some, [], ◌∷◌, ◌++◌, Text, codes, if◌then◌else◌, text_eq, lookup, length,
}
use bigmachine.Errors.{Errors, Arg, severity, message, fatal}
use bigmachine.Machine.Retry.{Result, ok, err}
use bigmachine.Rpc.Paths.{base, split_dot}
use bigmachine.Rpc.Wire.{Stream, Gob, Request, Response}
use bigmachine.Rpc.Services.{Method, Service, Server, is_reader, elem_of}

-- methodErrorCode.
abbrev pub method_error_code : ℕ
method_error_code = 590

abbrev pub gob_content_type : Text
gob_content_type = codes "application/x-gob"

abbrev pub octet_stream : Text
octet_stream = codes "application/octet-stream"

-- http.Error.
unfoldable pub http_error : Text → ℕ → Response
http_error text code = record {
  code = code;
  content_type = codes "text/plain; charset=utf-8";
  body = text ++ b'\n' ∷ [];
  trailer = none;
}

module _ (E : Errors) (G : Gob E) where
  open E use {Err, format, recover, to_text}
  open G use {Value, encode, decode, zero, encode_error, nil_closer, left_over}

  pub data Argument : Type 0 where
    body_stream : Text → Argument
    value : Value → Argument

  -- What a method leaves behind its reply pointer; a stream may be wrapped by Flush.
  pub data Reply : Type 0 where
    replied : Value → Reply
    streamed : Stream Err → Reply
    nil_stream : Reply

  -- A method returns, or panics.
  pub data Invocation : Type 0 where
    returned : Option Err → Reply → Invocation
    panicked : Text → Reply → Invocation

  -- What the deferred call of `done` records; a size of -1 is `none`.
  pub record Stat : Type 0 where
    pub request_bytes : Option ℕ
    pub reply_bytes : Option ℕ
    pub error : Option Err

  pub record Served : Type 0 where
    pub response : Response
    pub stat : Option Stat

  -- The error and the reply after the recover.
  unfoldable pub recovered : Invocation → Option Err × Reply
  recovered (returned e r) = (e, r)
  recovered (panicked t r) =
      (some (E.make (severity fatal ∷ message (codes "panic: ") ∷ message t ∷ [])), r)

  -- The gob-encoded reply or error.
  unfoldable pub reply_bytes_of : Option Err → Reply → Result Err Text
  reply_bytes_of (some e) r = encode_error (recover e)
  reply_bytes_of none (replied v) = encode v
  reply_bytes_of none (streamed s) = encode nil_closer
  reply_bytes_of none nil_stream = encode nil_closer

  abbrev pub code_of : Option Err → ℕ
  code_of none = 200
  code_of (some e) = method_error_code

  abbrev pub failure_text : Option Err → Text
  failure_text none = []
  failure_text (some e) = to_text e

  -- The end of the handler, once the method has returned: `write_err` is the error of w.Write.
  unfoldable pub finish_value : Option ℕ → Option Err → Option Err → Reply → Served
  unfolding http_error reply_bytes_of
  finish_value request_bytes write_err e r = elim (reply_bytes_of e r) [
    | ok b ↦ elim write_err [
      | none ↦ record {
        response = record {
          code = code_of e;
          content_type = gob_content_type;
          body = b;
          trailer = none;
        };
        stat =
            some (record {
              request_bytes = request_bytes;
              reply_bytes = some (length b);
              error = none;
            });
      }
      | some x ↦ record {
        response = http_error (to_text x) 500;
        stat = some (record {
          request_bytes = request_bytes;
          reply_bytes = some (length b);
          error = some x;
        });
      }
    ]
    | err x ↦ record {
      response = http_error (to_text x) 500;
      stat = some (record {
        request_bytes = request_bytes;
        reply_bytes = some (left_over x);
        error = some x;
      });
    }
  ]

  unfoldable pub finish : Option ℕ → Option Err → Option Err → Reply → Served
  unfolding finish_value
  finish request_bytes write_err e (streamed s) = record {
    response = record {
      code = code_of e;
      content_type = octet_stream;
      body = s.content;
      trailer = some (failure_text s.failure);
    };
    stat = some (record { request_bytes = request_bytes; reply_bytes = none; error = s.failure });
  }
  finish request_bytes write_err e r = finish_value request_bytes write_err e r

  -- The invocation of the method and what follows.
  unfoldable pub dispatch : Option ℕ → Option Err → Invocation → Served
  unfolding finish recovered
  dispatch request_bytes write_err i =
      let (e, r) = recovered i in finish request_bytes write_err e r

  -- From the request's body on. The size is read off before the body is.
  unfoldable pub serve_method :
      (ℕ → ℕ → Argument → Invocation) → Option Err → Service → Method → Request → Served
  unfolding dispatch http_error
  serve_method invoke write_err svc m r =
      if is_reader m.arg
      then dispatch none write_err (invoke svc.recv m.func (body_stream r.body))
      else elim (decode (elem_of m.arg) (zero (elem_of m.arg)) r.body) [
        | ok v ↦ dispatch (some 0) write_err (invoke svc.recv m.func (value v))
        | err e ↦ record {
          response =
              http_error
                (to_text (format (message (codes "error decoding request: ") ∷ Arg.cause e ∷ [])))
                400;
          stat = some (record { request_bytes = some 0; reply_bytes = none; error = some e });
        }
      ]

  abbrev pub refuse : Text → ℕ → Served
  refuse text code = record { response = http_error text code; stat = none }

  -- ServeHTTP. `invoke recv func arg` is the method's code; `path_of` gives r.URL.Path of a URL.
  unfoldable pub serve_http :
      (Text → Text) → (ℕ → ℕ → Argument → Invocation) → Option Err → Server → Request → Served
  unfolding serve_method http_error
  serve_http path_of invoke write_err s r =
      if not (text_eq r.http_method (codes "POST"))
      then refuse (codes "method not allowed") 405
      else elim (split_dot (base (path_of r.url))) [
        | none ↦ refuse (codes "bad url") 400
        | some (service, method) ↦ elim (lookup service s.services) [
          | none ↦ refuse (codes "no such service") 404
          | some svc ↦ elim (lookup method svc.methods) [
            | none ↦ refuse (codes "no such method") 404
            | some m ↦ serve_method invoke write_err svc m r
          ]
        ]
      ]
