-- ===== src/Tests/Authorities.antt =====
-- A cryptography whose laws are proved, and the theorems on authorities at it.
use bigmachine.Prelude.{
  ℕ, zero, suc, ◌<◌, ◌≡◌, refl, ap, ◌∙◌, sym, Bool-cases, Option-cases, inl, inr, true, false,
  Option, none, some, List, [], ◌∷◌, ◌++◌, Text, codes, if◌then◌else◌, text_eq, text_eq_iff, lookup,
  insert, lookup-insert_self, length, arith,
}
use bigmachine.Machine.Retry.{Result, ok, err}
use bigmachine.Authority.{
  Block, Crypto, Authority, certificate_kind, key_kind, ca_template, new, contents, generate,
  cached, store, read_authority, scan_blocks, authority_of,
}
use bigmachine.Authority.RoundTrips.{Laws, new-again, new-contents}
use mathlib.Core.Option.{some-injective}
use bigmachine.Ec2.Devices.{System}
use bigmachine.Ec2.{CloudConfig}
use bigmachine.Ec2.Boot.{cloud_config}
use bigmachine.Ec2.Trust.{authority_path, written, cloud_config-written, new-cloud_config}
use bigmachine.Tests.Instances.{system, concatenated}
use bigmachine.Tests.Samples.{SampleErr, sentinel, sample_errors}

-- Each byte of a text behind a one, and a zero at its end.
abbrev escaped : Text → Text
escaped [] = 0 ∷ []
escaped (c ∷ t) = 1 ∷ c ∷ escaped t

abbrev and_first : ℕ → Option (Text × Text) → Option (Text × Text)
and_first c none = none
and_first c (some (t, r)) = some (c ∷ t, r)

abbrev unescaped : Text → Option (Text × Text)
unescaped [] = none
unescaped (zero ∷ r) = some ([], r)
unescaped (suc n ∷ []) = none
unescaped (suc n ∷ c ∷ r) = and_first c (unescaped r)

unescaped-escaped : (t r : Text) → unescaped (escaped t ++ r) ≡ some (t, r)
unescaped-escaped [] r = refl
unescaped-escaped (c ∷ t) r = ap (and_first c) (unescaped-escaped t r)

unescaped_shorter : (t b r : Text) → unescaped t ≡ some (b, r) → length r < length t
unescaped_shorter [] b r h = ground (arith, h)
unescaped_shorter (zero ∷ t) b r h = ground (arith, h)
unescaped_shorter (suc n ∷ []) b r h = ground (arith, h)
unescaped_shorter (suc n ∷ c ∷ t) b r h = elim (Option-cases (unescaped t)) [
  | inl q ↦ ground (arith, h, q)
  | inr ((b', r'), q) ↦ ground (arith, h, q, unescaped_shorter t b' r' q)
]

abbrev block_of : Text → Option (Text × Text) → Option (Block × Text)
block_of kind none = none
block_of kind (some (b, r)) = some (record { kind = kind; bytes = b }, r)

abbrev sample_encode : Block → Result SampleErr Text
sample_encode b =
    if text_eq b.kind certificate_kind
    then ok (0 ∷ escaped b.bytes)
    else if text_eq b.kind key_kind
    then ok (1 ∷ escaped b.bytes)
    else err (sentinel 5)

abbrev sample_decode : Text → Option (Block × Text)
sample_decode [] = none
sample_decode (zero ∷ t) = block_of certificate_kind (unescaped t)
sample_decode (suc zero ∷ t) = block_of key_kind (unescaped t)
sample_decode (suc (suc n) ∷ t) = none

abbrev key_of : Text → Result SampleErr ℕ
key_of (k ∷ []) = ok k
key_of _ = err (sentinel 6)

abbrev read_of : Option Text → Result SampleErr Text
read_of none = err (sentinel 7)
read_of (some t) = ok t

abbrev sample_crypto : Crypto SampleErr
sample_crypto = record {
  Key = ℕ;
  Pool = Text;
  TlsPair = Text × Text;
  Files = List (Text × Text);
  encode = sample_encode;
  decode = sample_decode;
  marshal_key = λ k. k ∷ [];
  parse_key = key_of;
  parse_cert = λ t. ok (ca_template 0);
  create = λ t p k s. ok (s ∷ []);
  pool_of = λ t. t;
  key_pair = λ c k. ok (c, k);
  read_file = λ files name. read_of (lookup name files);
  write_file = λ files name p. (none, insert name p files);
  is_not_exist = λ e. true;
}

named :
    (kind : Text) (b : Block) (rest : Text)
    → text_eq b.kind kind ≡ true
    → block_of kind (some (b.bytes, rest)) ≡ some (b, rest)
named kind b rest e =
    ap (λ k. some (record { kind = k; bytes = b.bytes }, rest))
      (sym ((text_eq_iff b.kind kind).0 e))

decode-encode_lem :
    (b : Block) (t rest : Text)
    → sample_encode b ≡ ok t
    → sample_decode (t ++ rest) ≡ some (b, rest)
decode-encode_lem b t rest h = elim (Bool-cases (text_eq b.kind certificate_kind)) [
  | inl e ↦
      let shape : 0 ∷ escaped b.bytes ≡ t = ground (arith, h, e) in
      ap (λ x. sample_decode (x ++ rest)) (sym shape)
      ∙ ap (block_of certificate_kind) (unescaped-escaped b.bytes rest)
      ∙ named certificate_kind b rest e
  | inr e ↦ elim (Bool-cases (text_eq b.kind key_kind)) [
    | inr e' ↦ ground (arith, h, e, e')
    | inl e' ↦
        let shape : 1 ∷ escaped b.bytes ≡ t = ground (arith, h, e, e') in
        ap (λ x. sample_decode (x ++ rest)) (sym shape)
        ∙ ap (block_of key_kind) (unescaped-escaped b.bytes rest)
        ∙ named key_kind b rest e'
  ]
]

block_shorter :
    (kind t rest : Text) (b : Block)
    → block_of kind (unescaped t) ≡ some (b, rest)
    → length rest < suc (length t)
block_shorter kind t rest b h = elim (Option-cases (unescaped t)) [
  | inl q ↦ ground (arith, h, q)
  | inr ((b', r'), q) ↦ ground (arith, h, q, unescaped_shorter t b' r' q)
]

decode_shorter_lem :
    (t rest : Text) (b : Block) → sample_decode t ≡ some (b, rest) → length rest < length t
decode_shorter_lem [] rest b h = ground (arith, h)
decode_shorter_lem (zero ∷ t) rest b h = block_shorter certificate_kind t rest b h
decode_shorter_lem (suc zero ∷ t) rest b h = block_shorter key_kind t rest b h
decode_shorter_lem (suc (suc n) ∷ t) rest b h = ground (arith, h)

sample_crypto-Laws : Laws sample_errors sample_crypto
sample_crypto-Laws = record {
  read_written = λ files files' name p h.
      ap (λ r. read_of (lookup name r.1)) (sym h) ∙ ap read_of (lookup-insert_self name p files);
  decode-encode = decode-encode_lem;
  decode_nil = refl;
  decode_shorter = decode_shorter_lem;
  parse-marshal = λ k. refl;
}

abbrev ca_file : Text
ca_file = codes "/tmp/ca"

abbrev made_ca : Authority sample_errors sample_crypto
made_ca = record {
  key = 7;
  cert = ca_template 0;
  cert_pem = 0 ∷ escaped (7 ∷ []);
  key_pem = 1 ∷ escaped (7 ∷ []);
}

abbrev stored_files : List (Text × Text)
stored_files = (ca_file, contents sample_errors sample_crypto made_ca) ∷ []

-- New makes the authority and stores it.
made_lem : new sample_errors sample_crypto ca_file (ok 7) 0 [] ≡ (some (ok made_ca), stored_files)
unfolding new generate cached store read_authority scan_blocks authority_of lookup insert
made_lem = refl

new-again_example :
    new sample_errors sample_crypto ca_file (ok 8) 5 stored_files
    ≡ (some (ok made_ca), stored_files)
new-again_example =
    new-again sample_errors sample_crypto sample_crypto-Laws ca_file (ok 7) (ok 8) 0 5 []
      stored_files made_ca (λ e. ground (arith, e)) made_lem

new-contents_example :
    new sample_errors sample_crypto
      (codes "/etc/ca")
      (err (sentinel 1))
      5
      ((codes "/etc/ca", contents sample_errors sample_crypto made_ca) ∷ [])
    ≡ (some (ok made_ca), (codes "/etc/ca", contents sample_errors sample_crypto made_ca) ∷ [])
unfolding lookup
new-contents_example =
    new-contents sample_errors sample_crypto sample_crypto-Laws ca_file (codes "/etc/ca") (ok 7)
      (err (sentinel 1)) 0 5 [] stored_files _ made_ca made_lem (λ e. ground (arith, e)) refl

abbrev trusting : System
trusting = record system { authority = contents sample_errors sample_crypto made_ca }

abbrev booted_files : List (Text × Text)
booted_files = (authority_path, contents sample_errors sample_crypto made_ca) ∷ []

trusting_config : (c : CloudConfig) × (cloud_config concatenated false trusting ≡ some c)
unfolding cloud_config
trusting_config = (_, refl)

-- The file system holds the file of the cloud configuration.
booted_files_lem :
    (t : Text)
    → written authority_path trusting_config.0.write_files ≡ some t
    → read_of (lookup authority_path booted_files) ≡ ok t
unfolding lookup
booted_files_lem t h = ap ok (
    some-injective _ _ (
      sym (cloud_config-written concatenated false trusting trusting_config.0 trusting_config.1)
      ∙ h))

new-cloud_config_example :
    new sample_errors sample_crypto authority_path (ok 8) 9 booted_files
    ≡ (some (ok made_ca), booted_files)
new-cloud_config_example =
    new-cloud_config sample_errors sample_crypto sample_crypto-Laws ca_file (ok 7) (ok 8) 0 9 []
      stored_files booted_files made_ca concatenated false trusting trusting_config.0 made_lem refl
      trusting_config.1 booted_files_lem
