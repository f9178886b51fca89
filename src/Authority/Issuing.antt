-- ===== src/Authority/Issuing.antt =====
-- internal/authority/authority.go: Issue and HTTPSConfig and what they certify, and a file that cannot
-- be read.
use bigmachine.Prelude.{
  ℕ, ◌+◌, ◌-◌, ◌*◌, ◌≤◌, ◌≡◌, ◌≢◌, Bool, true, false, Option, none, some, List, [], ◌∷◌, Text,
  codes, arith,
}
use bigmachine.Errors.{Errors}
use bigmachine.Machine.Retry.{Result, ok, err}
use bigmachine.Authority.{
  ◌>>=◌, second, encipherment, signature, client_auth, server_auth, Crypto, Authority, Certificate,
  cached, scan_blocks, authority_of, read_authority, new, drift_margin, incomplete,
  certificate_kind, key_kind,
}

-- certDuration.
abbrev pub cert_duration : ℕ
cert_duration = 7 * 24 * 3600 * second

-- The template of an issued certificate.
unfoldable pub issue_template : ℕ → ℕ → Text → ℕ → List Text → List Text → Certificate
issue_template serial now name ttl ips names =
    let start : ℕ = now - drift_margin in
    record {
      serial = serial;
      common_name = name;
      not_before = start;
      not_after = start + (drift_margin + ttl);
      usages = encipherment ∷ signature ∷ server_auth ∷ client_auth ∷ [];
      is_ca = false;
      ips = ips;
      names = names;
    }

module _ (E : Errors) (C : Crypto E.Err) where
  open E use {Err}
  open C use {Key, Pool, TlsPair, encode, create, marshal_key, pool_of, key_pair}

  -- Issue, with the random serial number below 2 ^ 128 and the new key.
  unfoldable pub issue :
      Authority E C
      → Result Err ℕ
      → Result Err Key
      → ℕ
      → Text
      → ℕ
      → List Text
      → List Text
      → Result Err (Text × Key)
  unfolding issue_template
  issue a serial made now name ttl ips names = serial >>= λ n. made >>= λ key.
      create (issue_template n now name ttl ips names) a.cert key a.key >>= λ der. ok (der, key)

  -- tls.Config: the pools of the two sides, the certificates, and InsecureSkipVerify.
  pub record Config : Type 0 where
    pub root_cas : Option Pool
    pub client_cas : Option Pool
    pub insecure_skip_verify : Bool
    pub certificates : List TlsPair

  -- HTTPSConfig: the client's and the server's.
  unfoldable pub https_config :
      Authority E C → Result Err ℕ → Result Err Key → ℕ → Result Err (Config × Config)
  unfolding issue
  https_config a serial made now =
      issue a serial made now (codes "bigmachine") cert_duration [] [] >>= λ (der, key).
      encode (record { kind = certificate_kind; bytes = der }) >>= λ cert_pem.
      encode (record { kind = key_kind; bytes = marshal_key key }) >>= λ key_pem.
      key_pair cert_pem key_pem >>= λ pair.
      let pool : Pool = pool_of a.cert_pem in
      let client : Config = record {
        root_cas = some pool;
        client_cas = none;
        insecure_skip_verify = true;
        certificates = pair ∷ [];
      } in
      let server : Config = record {
        root_cas = none;
        client_cas = some pool;
        insecure_skip_verify = false;
        certificates = pair ∷ [];
      } in
      ok (client, server)

-- A certificate that is valid for the given time from now, and was already a minute before.
unfoldable pub ValidFor : ℕ → ℕ → Certificate → Type 0
ValidFor now ttl c = (c.not_before + drift_margin ≡ now) × (c.not_after ≡ now + ttl)

issue_template-ValidFor :
    (serial now ttl : ℕ) (name : Text) (ips names : List Text)
    → drift_margin ≤ now
    → ValidFor now ttl (issue_template serial now name ttl ips names)
unfolding issue_template ValidFor
issue_template-ValidFor serial now ttl name ips names h = (omega arith, omega arith)

module _ (E : Errors) (C : Crypto E.Err) where
  open E use {Err}
  open C use {
    Key, Files, TlsPair, encode, decode, marshal_key, create, pool_of, key_pair, read_file,
    is_not_exist,
  }

  -- A file that exists and cannot be read is not reported: New fails as it does for an empty file,
  -- and the error of the read is lost.
  pub new-unreadable :
      (filename : Text) (made : Result Err Key) (now : ℕ) (files : Files) (e : Err)
      → filename ≢ []
      → read_file files filename ≡ err e
      → is_not_exist e ≡ false
      → decode [] ≡ none
      → new E C filename made now files ≡ (some (err (incomplete E C)), files)
  unfolding new cached read_authority scan_blocks authority_of
  new-unreadable filename made now files e hf hr hn hd = ground (arith, hf, hr, hn, hd)
