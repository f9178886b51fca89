-- ===== src/Authority.antt =====
-- internal/authority/authority.go: the certificate authority of TLS.
--
-- encoding/pem, crypto/x509, crypto/rsa, crypto/tls and the file system are parameters.
pub mod RoundTrips
pub mod Issuing
use bigmachine.Prelude.{
  ℕ, zero, suc, ◌+◌, ◌-◌, ◌*◌, ◌^◌, Bool, true, false, ◌||◌, Option, none, some, List, [], ◌∷◌,
  ◌++◌, Text, codes, ◌≡◌, refl, arith, if◌then◌else◌, text_eq, length,
}
use bigmachine.Errors.{Errors, Arg, message, cause}
use bigmachine.Machine.Retry.{Result, ok, err}

infixl 5 ◌>>=◌
abbrev pub ◌>>=◌ : {Err A B : Type 0} → Result Err A → (A → Result Err B) → Result Err B
err e >>= f = err e
ok a >>= f = f a

-- A chain that comes to its end went through its first step.
pub >>=_ok :
    {Err A B : Type 0} (r : Result Err A) (f : A → Result Err B) (b : B)
    → (r >>= f) ≡ ok b
    → (a : A) × (r ≡ ok a) × (f a ≡ ok b)
>>=_ok (ok a) f b h = (a, refl, h)
>>=_ok (err e) f b h = ground (arith, h)

-- time.Second in nanoseconds; DriftMargin.
abbrev pub second : ℕ
second = 10 ^ 9

abbrev pub drift_margin : ℕ
drift_margin = 60 * second

-- pem.Block.
pub record Block : Type 0 where
  pub kind : Text
  pub bytes : Text

abbrev pub certificate_kind : Text
certificate_kind = codes "CERTIFICATE"

abbrev pub key_kind : Text
key_kind = codes "RSA PRIVATE KEY"

pub data Usage : Type 0 where
  encipherment signature cert_sign client_auth server_auth : Usage

-- x509.Certificate: the fields that the authority sets, the times in nanoseconds.
pub record Certificate : Type 0 where
  pub serial : ℕ
  pub common_name : Text
  pub not_before : ℕ
  pub not_after : ℕ
  pub usages : List Usage
  pub is_ca : Bool
  pub ips : List Text
  pub names : List Text

-- What the packages offer. Files is the state of the file system.
pub record Crypto (Err : Type 0) : Type 1 where
  pub Key : Type 0
  pub Pool : Type 0
  pub TlsPair : Type 0
  pub Files : Type 0
  -- pem.Encode into a buffer, and pem.Decode.
  pub encode : Block → Result Err Text
  pub decode : Text → Option (Block × Text)
  -- x509.MarshalPKCS1PrivateKey, its parser, and that of certificates.
  pub marshal_key : Key → Text
  pub parse_key : Text → Result Err Key
  pub parse_cert : Text → Result Err Certificate
  -- x509.CreateCertificate: the template, its parent, the key certified and the parent's key.
  pub create : Certificate → Certificate → Key → Key → Result Err Text
  -- AppendCertsFromPEM into a new pool, and tls.X509KeyPair.
  pub pool_of : Text → Pool
  pub key_pair : Text → Text → Result Err TlsPair
  -- ioutil.ReadFile, ioutil.WriteFile, os.IsNotExist.
  pub read_file : Files → Text → Result Err Text
  pub write_file : Files → Text → Text → Option Err × Files
  pub is_not_exist : Err → Bool

-- time.Date(2060, 1, 1, 0, 0, 0, 0, time.UTC).
abbrev pub end_of_time : ℕ
end_of_time = 2840140800 * second

-- The template of the authority's own certificate.
abbrev pub ca_template : ℕ → Certificate
ca_template now = record {
  serial = 1;
  common_name = codes "bigmachine";
  not_before = now - drift_margin;
  not_after = end_of_time;
  usages = encipherment ∷ signature ∷ cert_sign ∷ client_auth ∷ server_auth ∷ [];
  is_ca = true;
  ips = [];
  names = [];
}

module _ (E : Errors) (C : Crypto E.Err) where
  open E use {Err, format}
  open C use {
    Key, Pool, TlsPair, Files, encode, decode, marshal_key, parse_key, parse_cert, create, pool_of,
    key_pair, read_file, write_file, is_not_exist,
  }

  -- T; its PEM texts are made of the others.
  pub record Authority : Type 0 where
    pub key : Key
    pub cert : Certificate
    pub cert_pem : Text
    pub key_pem : Text

  -- The generator of New: a new key, as rsa.GenerateKey gives it, and the certificate that it signs.
  unfoldable pub generate : Result Err Key → ℕ → Result Err Text
  generate made now = made >>= λ key. create (ca_template now) (ca_template now) key key >>= λ der.
      encode (record { kind = certificate_kind; bytes = der }) >>= λ cert_pem.
      encode (record { kind = key_kind; bytes = marshal_key key }) >>= λ key_pem.
      ok (cert_pem ++ key_pem)

  -- The end of cached, for a file that does not exist.
  unfoldable pub store : Text → Result Err Text → Files → Result Err Text × Files
  store filename (err e) files = (err e, files)
  store filename (ok p) files =
      let (written, files') = write_file files filename p in
      elim written [ none ↦ (ok p, files') | some e ↦ (err e, files') ]

  unfoldable pub cached : Text → Result Err Text → Files → Result Err Text × Files
  unfolding store
  cached filename gen files =
      if text_eq filename [] then (gen, files) else elim (read_file files filename) [
        | ok p ↦ (ok p, files)
        | err e ↦ if is_not_exist e then store filename gen files else (ok [], files)
      ]

  -- The loop of New over the blocks; `none` when the fuel runs out.
  unfoldable pub scan_blocks :
      ℕ → Text → Option Text → Option Text → Option (Option Text × Option Text)
  scan_blocks zero rest cert key = none
  scan_blocks (suc fuel) rest cert key = elim (decode rest) [
    | none ↦ some (cert, key)
    | some d ↦
        if text_eq d.0.kind certificate_kind
        then scan_blocks fuel d.1 (some d.0.bytes) key
        else if text_eq d.0.kind key_kind
        then scan_blocks fuel d.1 cert (some d.0.bytes)
        else scan_blocks fuel d.1 cert key
  ]

  abbrev pub incomplete : Err
  incomplete = format (message (codes "httpsca: incomplete certificate") ∷ [])

  -- The rest of New, from the blocks found.
  unfoldable pub authority_of : Option (Option Text × Option Text) → Option (Result Err Authority)
  authority_of none = none
  authority_of (some (none, key)) = some (err incomplete)
  authority_of (some (some der, none)) = some (err incomplete)
  authority_of (some (some der, some key_der)) = some (
      parse_cert der >>= λ cert. parse_key key_der >>= λ key.
      encode (record { kind = certificate_kind; bytes = der }) >>= λ cert_pem.
      encode (record { kind = key_kind; bytes = marshal_key key }) >>= λ key_pem.
      ok (record { key = key; cert = cert; cert_pem = cert_pem; key_pem = key_pem }))

  abbrev pub not_built : Err → Err
  not_built e = format (message (codes "could not build CA: ") ∷ cause e ∷ [])

  -- What New does with the text of the authority: a decoder that consumes is run to its end.
  unfoldable pub read_authority : Result Err Text → Option (Result Err Authority)
  unfolding scan_blocks authority_of
  read_authority (err e) = some (err (not_built e))
  read_authority (ok p) = authority_of (scan_blocks (suc (length p)) p none none)

  -- New, with the key and the clock that the generator would use.
  unfoldable pub new : Text → Result Err Key → ℕ → Files → Option (Result Err Authority) × Files
  unfolding generate cached read_authority
  new filename made now files =
      let (p, files') = cached filename (generate made now) files in (read_authority p, files')

  -- Contents.
  abbrev pub contents : Authority → Text
  contents a = a.cert_pem ++ a.key_pem
