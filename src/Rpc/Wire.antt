-- ===== src/Rpc/Wire.antt =====
-- What rpc/server.go and rpc/client.go exchange, and what they use of encoding/gob and net/http.
use bigmachine.Prelude.{ℕ, Bool, Option, Text, ◌≡◌, true}
use bigmachine.Errors.{Errors}
use bigmachine.Machine.Retry.{Result, ok}

-- A type as `reflect` tells it, as far as the server looks at it.
pub data Ty : Type 0 where
  context reader read_closer error : Ty
  ptr map_of slice_of : Ty → Ty
  named : Text → Ty

-- A byte stream: its bytes, and the error that ends it if no io.EOF does.
pub record Stream (Err : Type 0) : Type 0 where
  pub content : Text
  pub failure : Option Err

-- Package gob: values, their encodings, and those of *errors.Error.
pub record Gob (E : Errors) : Type 1 where
  pub Value : Type 0
  pub encode : Value → Result E.Err Text
  -- Decode, into a value whose fields it keeps where none is sent; and the zero value of a type.
  pub decode : Ty → Value → Text → Result E.Err Value
  pub zero : Ty → Value
  pub encode_error : E.Err → Result E.Err Text
  pub decode_error : Text → Result E.Err E.Err
  -- The pointer to an io.ReadCloser that is still nil, as a reply.
  pub nil_closer : Value
  -- The bytes that a failing Encode leaves in its buffer.
  pub left_over : E.Err → ℕ
  pub typed : Ty → Value → Bool

-- Decoding into a zero value inverts encoding, at the value's type.
pub record GobLaws (E : Errors) (G : Gob E) : Type 0 where
  pub decode-encode :
      (t : Ty) (v : G.Value) (b : Text)
      → G.typed t v ≡ true
      → G.encode v ≡ ok b
      → G.decode t (G.zero t) b ≡ ok v
  pub decode_error-encode_error :
      (e : E.Err) (b : Text) → G.encode_error e ≡ ok b → G.decode_error b ≡ ok e

pub record Request : Type 0 where
  pub http_method : Text
  pub url : Text
  pub content_type : Text
  pub body : Text

-- `trailer` is the value of x-bigmachine-error, if the trailer is declared.
pub record Response : Type 0 where
  pub code : ℕ
  pub content_type : Text
  pub body : Text
  pub trailer : Option Text
