-- ===== src/Tests/Samples.antt =====
-- Concrete errors, encodings and machines, at which the theorems are applied.
use bigmachine.Prelude.{
  ℕ, zero, suc, ◌≡◌, refl, ◌↔◌, Bool, true, false, ◌&&◌, not, Option, none, some, List, [], ◌∷◌,
  Text, codes, ◌==◌, arith,
}
use bigmachine.Errors.{
  Kind, fatal, Arg, kind, severity, message, cause, Errors, Laws, kind_arg, kind_eq,
}
use bigmachine.Machine.States.{starting}
use bigmachine.Machine.{Machine}
use bigmachine.Machine.Retry.{Result, ok, err}
use bigmachine.Rpc.Wire.{Gob, GobLaws}

-- An error by what the program asks of it.
pub data SampleErr : Type 0 where
  sentinel : ℕ → SampleErr
  made : Option Kind → Bool → SampleErr

abbrev pub fatal_arg : List (Arg SampleErr) → Bool
fatal_arg [] = false
fatal_arg (severity fatal ∷ args) = true
fatal_arg (severity s ∷ args) = fatal_arg args
fatal_arg (kind k ∷ args) = fatal_arg args
fatal_arg (message t ∷ args) = fatal_arg args
fatal_arg (cause e ∷ args) = fatal_arg args

abbrev pub is_fatal_err : SampleErr → Bool
is_fatal_err (sentinel n) = false
is_fatal_err (made k b) = b

abbrev pub has_kind : Kind → SampleErr → Bool
has_kind k (made (some j) b) = kind_eq k j
has_kind k _ = false

abbrev bool_eq : Bool → Bool → Bool
bool_eq true b = b
bool_eq false b = not b

abbrev option_eq : Option Kind → Option Kind → Bool
option_eq none none = true
option_eq (some j) (some k) = kind_eq j k
option_eq _ _ = false

abbrev pub same_err : SampleErr → SampleErr → Bool
same_err (sentinel a) (sentinel b) = a == b
same_err (made j a) (made k b) = option_eq j k && bool_eq a b
same_err _ _ = false

same_err_iff : (a b : SampleErr) → (same_err a b ≡ true) ↔ (a ≡ b)
same_err_iff a b = ground arith

abbrev pub sample_errors : Errors
sample_errors = record {
  Err = SampleErr;
  make = λ args. made (kind_arg args) (fatal_arg args);
  format = λ args. made none false;
  is_kind = has_kind;
  matches = λ t e. is_fatal_err e;
  is_temporary = λ e. not (is_fatal_err e);
  recover = λ e. e;
  same = same_err;
  to_text = λ e. [];
  canceled = sentinel 0;
  deadline_exceeded = sentinel 1;
  eof = sentinel 2;
}

has_kind-made :
    (k j : Kind) (args : List (Arg SampleErr))
    → kind_arg args ≡ some j
    → has_kind k (made (kind_arg args) (fatal_arg args)) ≡ kind_eq k j
has_kind-made k j args e = ground arith

pub sample-Laws : Laws sample_errors
sample-Laws = record {
  fatal_matches = λ args. refl;
  fatal_not_temporary = λ args. refl;
  is_kind-make = has_kind-made;
  same_iff = same_err_iff;
}

-- A machine that its owner has just started.
abbrev pub new_machine : Machine SampleErr
new_machine = record {
  addr = codes "https://localhost:1/";
  no_exec = true;
  services = (codes "PI", 7) ∷ [];
  environ = [];
  owner = true;
  state = starting;
  error = none;
  waiters = [];
  cancelers = [];
  next_keepalive = 0;
  num_keepalive = 0;
  keepalive_reply_times = 0 ∷ 0 ∷ 0 ∷ 0 ∷ 0 ∷ 0 ∷ 0 ∷ 0 ∷ 0 ∷ 0 ∷ [];
  closed = [];
  canceled = [];
  fresh = 0;
  events = [];
}

-- Values are texts that are their own encodings; errors with a kind have none.
abbrev encode_err : SampleErr → Result SampleErr Text
encode_err (sentinel n) = ok (0 ∷ n ∷ [])
encode_err (made none true) = ok (1 ∷ [])
encode_err (made none false) = ok (2 ∷ [])
encode_err (made (some k) b) = err (sentinel 3)

abbrev decode_err : Text → Result SampleErr SampleErr
decode_err (zero ∷ n ∷ []) = ok (sentinel n)
decode_err (suc zero ∷ []) = ok (made none true)
decode_err (suc (suc zero) ∷ []) = ok (made none false)
decode_err _ = err (sentinel 4)

abbrev pub sample_gob : Gob sample_errors
sample_gob = record {
  Value = Text;
  encode = λ v. ok v;
  decode = λ t old b. ok b;
  zero = λ t. [];
  encode_error = encode_err;
  decode_error = decode_err;
  nil_closer = [];
  left_over = λ e. 0;
  typed = λ t v. true;
}

encode_err-decode : (e : SampleErr) (b : Text) → encode_err e ≡ ok b → decode_err b ≡ ok e
encode_err-decode (sentinel n) b h = ground arith
encode_err-decode (made none true) b h = ground arith
encode_err-decode (made none false) b h = ground arith
encode_err-decode (made (some k) x) b h = cc

pub sample_gob_laws : GobLaws sample_errors sample_gob
sample_gob_laws = record {
  decode-encode = λ t v b p q. ground arith;
  decode_error-encode_error = encode_err-decode;
}
