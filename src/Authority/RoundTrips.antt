-- ===== src/Authority/RoundTrips.antt =====
-- internal/authority/authority.go: what New reads is what it wrote, and what Contents gives.
use mathlib.Core.List.{append-nil}
use mathlib.Core.Path.{subst}
use bigmachine.Prelude.{
  ℕ, zero, suc, ◌-◌, ◌<◌, ◌≡◌, ◌≢◌, refl, ap, sym, ◌∙◌, Option, none, some, [], ◌++◌, Text, length,
  arith, Option-cases, inl, inr,
}
use bigmachine.Errors.{Errors}
use bigmachine.Machine.Retry.{Result, ok, err, Result-cases}
use bigmachine.Authority.{
  Block, Crypto, Authority, store, cached, scan_blocks, authority_of, read_authority, new, contents,
  generate, certificate_kind, key_kind,
}

-- What the authority relies on: a file that was written can be read; a block that was encoded is
-- decoded from the front of a text, and decoding consumes; a key is parsed as it was marshalled.
pub record Laws (E : Errors) (C : Crypto E.Err) : Type 0 where
  pub read_written :
      (files files' : C.Files) (name p : Text)
      → C.write_file files name p ≡ (none, files')
      → C.read_file files' name ≡ ok p
  pub decode-encode :
      (b : Block) (t rest : Text) → C.encode b ≡ ok t → C.decode (t ++ rest) ≡ some (b, rest)
  pub decode_nil : C.decode [] ≡ none
  pub decode_shorter :
      (t rest : Text) (b : Block) → C.decode t ≡ some (b, rest) → length rest < length t
  pub parse-marshal : (k : C.Key) → C.parse_key (C.marshal_key k) ≡ ok k

module _ (E : Errors) (C : Crypto E.Err) (laws : Laws E C) where
  open E use {Err}
  open C use {
    Key, Files, encode, decode, marshal_key, parse_key, parse_cert, read_file, write_file,
    is_not_exist,
  }
  open laws use {read_written, decode-encode, decode_nil, decode_shorter, parse-marshal}

  scan_blocks-total :
      (fuel : ℕ) (t : Text) (cert key : Option Text)
      → length t < fuel
      → scan_blocks E C fuel t cert key ≢ none
  unfolding scan_blocks
  scan_blocks-total zero t cert key h = absurd (omega arith)
  scan_blocks-total (suc fuel) t cert key h = elim (Option-cases (decode t)) [
    | inl q ↦ ground (arith, q)
    | inr ((b, rest), q) ↦
        let shorter : length rest < fuel = omega (arith, decode_shorter t rest b q) in
        ground (
          arith,
          q,
          scan_blocks-total fuel rest (some b.bytes) key shorter,
          scan_blocks-total fuel rest cert (some b.bytes) shorter,
          scan_blocks-total fuel rest cert key shorter,
        )
  ]

  authority_of-total :
      (found : Option (Option Text × Option Text))
      → ¬ (found ≡ none)
      → authority_of E C found ≢ none
  unfolding authority_of
  authority_of-total none h = absurd (h refl)
  authority_of-total (some (none, key)) h = ground arith
  authority_of-total (some (some der, none)) h = ground arith
  authority_of-total (some (some der, some key)) h = ground arith

  read_authority-total : (p : Result Err Text) → read_authority E C p ≢ none
  unfolding read_authority
  read_authority-total (err e) = ground arith
  read_authority-total (ok p) =
      authority_of-total (scan_blocks E C (suc (length p)) p none none)
        (scan_blocks-total (suc (length p)) p none none (omega arith))

  -- New ends: the loop over the blocks comes to the end of the text within its fuel.
  pub new-total :
      (filename : Text) (made : Result Err Key) (now : ℕ) (files : Files)
      → (new E C filename made now files).0 ≢ none
  unfolding new
  new-total filename made now files =
      read_authority-total (cached E C filename (generate E C made now) files).0

  cached-again :
      (filename : Text) (gen gen' : Result Err Text) (files files' : Files) (p : Text)
      → filename ≢ []
      → cached E C filename gen files ≡ (ok p, files')
      → cached E C filename gen' files' ≡ (ok p, files')
  unfolding cached store
  cached-again filename gen gen' files files' p hf h =
      ground (arith, hf, h, read_written files files' filename p)

  stored :
      (p : Result Err Text × Files) (a : Authority E C) (files : Files)
      → ◌≡◌ {A = Option (Result Err (Authority E C)) × Files}
          (read_authority E C p.0, p.1)
          (some (ok a), files)
      → (t : Text) × (p ≡ (ok t, files)) × (read_authority E C (ok t) ≡ some (ok a))
  unfolding read_authority
  stored (ok t, fs) a files h = (t, ap (λ q. (ok t, q.1)) h, ap (λ q. q.0) h)
  stored (err e, fs) a files h = ground (arith, h)

  -- New with another key and clock on the files that New left gives the same authority and changes
  -- no file, for every file name but the empty one.
  pub new-again :
      (filename : Text) (made made' : Result Err Key) (now now' : ℕ) (files files' : Files)
      (a : Authority E C)
      → filename ≢ []
      → new E C filename made now files ≡ (some (ok a), files')
      → new E C filename made' now' files' ≡ (some (ok a), files')
  unfolding new
  new-again filename made made' now now' files files' a hf h =
      let (t, c, r) = stored (cached E C filename (generate E C made now) files) a files' h in
      let again : cached E C filename (generate E C made' now') files' ≡ (ok t, files') =
        cached-again filename (generate E C made now) (generate E C made' now') files files' t hf
          c in
      rw (again, r) refl

  -- The parts of an authority fit: its PEM texts are those of its certificate and its key.
  abbrev IsBuilt : Authority E C → Type 0
  IsBuilt a =
      (der : Text) × (parse_cert der ≡ ok a.cert)
      × (encode (record { kind = certificate_kind; bytes = der }) ≡ ok a.cert_pem)
      × (encode (record { kind = key_kind; bytes = marshal_key a.key }) ≡ ok a.key_pem)

  authority_of-IsBuilt :
      (found : Option (Option Text × Option Text)) (a : Authority E C)
      → authority_of E C found ≡ some (ok a)
      → IsBuilt a
  unfolding authority_of
  authority_of-IsBuilt none a h = ground (arith, h)
  authority_of-IsBuilt (some (none, key)) a h = ground (arith, h)
  authority_of-IsBuilt (some (some der, none)) a h = ground (arith, h)
  authority_of-IsBuilt (some (some der, some key)) a h = elim (Result-cases (parse_cert der)) [
    | inr (e, q) ↦ ground (arith, h, q)
    | inl (cert, pc) ↦ elim (Result-cases (parse_key key)) [
      | inr (e, q) ↦ ground (arith, h, pc, q)
      | inl (k, pk) ↦
          elim (Result-cases (encode (record { kind = certificate_kind; bytes = der }))) [
            | inr (e, q) ↦ ground (arith, h, pc, pk, q)
            | inl (ct, ec) ↦
                elim (Result-cases (encode (record { kind = key_kind; bytes = marshal_key k }))) [
                  | inr (e, q) ↦ ground (arith, h, pc, pk, ec, q)
                  | inl (kt, ek) ↦
                      let built : Authority E C = record {
                        key = k;
                        cert = cert;
                        cert_pem = ct;
                        key_pem = kt;
                      } in
                      let e : built ≡ a = ground (arith, h, pc, pk, ec, ek) in
                      subst IsBuilt e (der, pc, ec, ek)
                ]
          ]
    ]
  ]

  decode_whole : (b : Block) (t : Text) → encode b ≡ ok t → decode t ≡ some (b, [])
  decode_whole b t h = ap decode (sym (append-nil t)) ∙ decode-encode b t [] h

  scan_pair :
      (fuel : ℕ) (der key_der cert_pem key_pem : Text)
      → encode (record { kind = certificate_kind; bytes = der }) ≡ ok cert_pem
      → encode (record { kind = key_kind; bytes = key_der }) ≡ ok key_pem
      → scan_blocks E C (suc (suc (suc fuel))) (cert_pem ++ key_pem) none none
        ≡ some (some der, some key_der)
  unfolding scan_blocks
  scan_pair fuel der key_der cert_pem key_pem ec ek =
      let first : decode (cert_pem ++ key_pem)
          ≡ some (record { kind = certificate_kind; bytes = der }, key_pem) =
        decode-encode _ cert_pem key_pem ec in
      let second : decode key_pem ≡ some (record { kind = key_kind; bytes = key_der }, []) =
        decode_whole _ key_pem ek in
      rw (scan_blocks, first, scan_blocks, second, scan_blocks, decode_nil) refl

  scan_contents :
      (a : Authority E C) (der : Text)
      → encode (record { kind = certificate_kind; bytes = der }) ≡ ok a.cert_pem
      → encode (record { kind = key_kind; bytes = marshal_key a.key }) ≡ ok a.key_pem
      → scan_blocks E C (suc (length (contents E C a))) (contents E C a) none none
        ≡ some (some der, some (marshal_key a.key))
  scan_contents a der ec ek =
      let first : length a.key_pem < length (contents E C a) =
        decode_shorter _ _ _ (decode-encode _ a.cert_pem a.key_pem ec) in
      let second : length {A = ℕ} [] < length a.key_pem =
        decode_shorter _ _ _ (decode_whole _ a.key_pem ek) in
      let n : ℕ = length (contents E C a) - 2 in
      let e : length (contents E C a) ≡ suc (suc n) = omega arith in
      rw e (scan_pair n der (marshal_key a.key) a.cert_pem a.key_pem ec ek)

  read_authority-contents :
      (a : Authority E C) → IsBuilt a → read_authority E C (ok (contents E C a)) ≡ some (ok a)
  unfolding read_authority authority_of
  read_authority-contents a (der, pc, ec, ek) =
      ap (authority_of E C) (scan_contents a der ec ek) ∙ rw (pc, parse-marshal a.key, ec, ek) refl

  cached_read :
      (name : Text) (gen : Result Err Text) (files : Files) (p : Text)
      → name ≢ []
      → read_file files name ≡ ok p
      → cached E C name gen files ≡ (ok p, files)
  unfolding cached
  cached_read name gen files p hn hr = ground (arith, hn, hr)

  -- An authority that New gives is the one that another New reads, with any key and clock, from a file
  -- that holds its Contents, as the machines of EC2 do; the file's name is not empty.
  pub new-contents :
      (filename copy : Text) (made made' : Result Err Key) (now now' : ℕ)
      (files files' there : Files) (a : Authority E C)
      → new E C filename made now files ≡ (some (ok a), files')
      → copy ≢ []
      → read_file there copy ≡ ok (contents E C a)
      → new E C copy made' now' there ≡ (some (ok a), there)
  unfolding new read_authority
  new-contents filename copy made made' now now' files files' there a h hc hr =
      let (t, c, r) = stored (cached E C filename (generate E C made now) files) a files' h in
      let found : Option (Option Text × Option Text) =
        scan_blocks E C (suc (length t)) t none none in
      let c' : cached E C copy (generate E C made' now') there ≡ (ok (contents E C a), there) =
        cached_read copy (generate E C made' now') there (contents E C a) hc hr in
      let r' : read_authority E C (ok (contents E C a)) ≡ some (ok a) =
        read_authority-contents a (authority_of-IsBuilt found a r) in
      rw (c', r') refl
