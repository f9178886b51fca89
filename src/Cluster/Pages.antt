-- ===== src/Cluster/Pages.antt =====
-- profile.go, status.go and bigmachine.go: the replies of the diagnostic handlers, and the dumps and
-- the variables that Start registers.
--
-- strconv, the form of a request, expvar and dump are arguments. The writes of a page are one text:
-- there is a write if it is not empty.
use mathlib.Core.List.{append-nil}
use bigmachine.Prelude.{
  ℕ, ◌≡◌, refl, sym, ap, ◌∙◌, Bool, true, false, ◌&&◌, not, Option, none, some, List, [], ◌∷◌, ◌++◌,
  Text, codes, if◌then◌else◌, ltb, text_eq, arith,
}
use bigmachine.Errors.{Errors}
use bigmachine.Machine.Ooms.{decimal}
use bigmachine.Cluster.Profiler.{
  Profiler, Outcome, done, no_profiles, failed, content_type, text_plain,
}

-- An http.ResponseWriter: the status, once it is sent, and the headers that go with it.
pub record Reply : Type 0 where
  pub status : Option ℕ
  pub kind : Text
  pub is_pprof_error : Bool
  pub body : Text

abbrev pub new_reply : Reply
new_reply = record { status = none; kind = []; is_pprof_error = false; body = [] }

-- Header().Set of Content-Type; it has no effect once the status is sent.
unfoldable pub set_kind : Text → Reply → Reply
set_kind t r = elim r.status [ some c ↦ r | none ↦ record r { kind = t } ]

unfoldable pub set_pprof_error : Reply → Reply
set_pprof_error r = elim r.status [ some c ↦ r | none ↦ record r { is_pprof_error = true } ]

-- WriteHeader.
unfoldable pub write_header : ℕ → Reply → Reply
write_header code r = elim r.status [ some c ↦ r | none ↦ record r { status = some code } ]

-- Writes, the first of which sends the status 200.
unfoldable pub write_body : Text → Reply → Reply
unfolding write_header
write_body [] r = r
write_body (c ∷ t) r = let r' = write_header 200 r in record r' { body = r'.body ++ (c ∷ t) }

-- profileErrorf; `fprintf` is what fmt.Fprintf makes of a format without arguments.
unfoldable pub profile_errorf : (fprintf : Text → Text) → ℕ → Text → Reply → Reply
unfolding set_kind set_pprof_error write_header write_body
profile_errorf fprintf code text r =
    write_body (fprintf text) (write_header code (set_pprof_error (set_kind text_plain r)))

-- The values of the form's fields, by what strconv makes of them: 0 for what is no number.
pub record Form : Type 0 where
  pub seconds : ℕ
  pub debug : ℕ
  pub gc : ℕ
  pub machine : Text

unfoldable pub profiler_of : Text → Form → Profiler
profiler_of which f = record {
  which = which;
  addr = f.machine;
  sec = f.seconds;
  debug = f.debug;
  gc = ltb 0 f.gc;
}

-- An error before and after the first write.
profile_errorf_first :
    (fprintf : Text → Text) (code : ℕ) (message t kind : Text)
    → fprintf message ≡ t
    → profile_errorf fprintf code message (record new_reply { kind = kind })
      ≡ record { status = some code; kind = text_plain; is_pprof_error = true; body = t }
unfolding profile_errorf write_body write_header set_kind set_pprof_error
profile_errorf_first fprintf code message [] kind h = rw h refl
profile_errorf_first fprintf code message (c ∷ t) kind h = rw h refl

profile_errorf_late :
    (fprintf : Text → Text) (code sent : ℕ) (message t kind out : Text)
    → fprintf message ≡ t
    → let r : Reply = record {
      status = some sent;
      kind = kind;
      is_pprof_error = false;
      body = out;
    } in
      profile_errorf fprintf code message r ≡ record r { body = out ++ t }
unfolding profile_errorf write_body write_header set_kind set_pprof_error
profile_errorf_late fprintf code sent message [] kind out h = rw h (
    ap (λ b. record { status = some sent; kind = kind; is_pprof_error = false; body = b })
      (sym (append-nil out)))
profile_errorf_late fprintf code sent message (c ∷ t) kind out h = rw h refl

module _ (E : Errors) where
  open E use {Err, to_text}

  -- statusHandler.ServeHTTP, by what writeStatus writes and returns; http.Error ends its text.
  unfoldable pub serve_status : Text × Option Err → Reply
  unfolding set_kind write_body write_header
  serve_status (out, failure) =
      let r = write_body out (set_kind text_plain new_reply) in
      elim failure [
        | none ↦ r
        | some e ↦ write_body (to_text e ++ 10 ∷ []) (write_header 500 (set_kind text_plain r))
      ]

module _ (E : Errors) (fprintf : Text → Text) where
  open E use {Err, to_text}

  -- profileHandler.ServeHTTP, by what Marshal returns and writes, and the text of errNoProfiles.
  unfoldable pub serve_profile : Text → Form → Text → Outcome Err × Text → Reply
  unfolding set_kind write_body profile_errorf profiler_of content_type
  serve_profile which f no_profiles_text (o, out) =
      let r = write_body out (set_kind (content_type (profiler_of which f)) new_reply) in
      elim o [
        | done ↦ r
        | no_profiles ↦ profile_errorf fprintf 404 no_profiles_text r
        | failed e ↦ profile_errorf fprintf 500 (to_text e) r
      ]

  -- The status and the text for an error of Marshal.
  abbrev pub failure : Text → Outcome Err → Option (ℕ × Text)
  failure no_profiles_text done = none
  failure no_profiles_text no_profiles = some (404, no_profiles_text)
  failure no_profiles_text (failed e) = some (500, to_text e)

  serve_profile-errorf :
      (which : Text) (f : Form) (text out : Text) (o : Outcome Err) (code : ℕ) (t : Text)
      → failure text o ≡ some (code, t)
      → serve_profile which f text (o, out)
        ≡ profile_errorf fprintf code t
            (write_body out (record new_reply { kind = content_type (profiler_of which f) }))
  unfolding serve_profile
  serve_profile-errorf which f text out o code t h = ground (arith, h)

  -- The status and the type of a profile page tell of a failure only if nothing was written before
  -- it. Once something was written, the page keeps the status 200 and its own type, and the text of
  -- the error, as a format without arguments, follows what was written.
  pub serve_profile-failure :
      (which : Text) (f : Form) (text out : Text) (o : Outcome Err) (code : ℕ) (t : Text)
      → failure text o ≡ some (code, t)
      → let r = serve_profile which f text (o, out) in
        let kind = content_type (profiler_of which f) in
        (r.body ≡ out ++ fprintf t)
        × (r.status ≡ some (if text_eq out [] then code else 200))
        × (r.kind ≡ (if text_eq out [] then text_plain else kind))
        × (r.is_pprof_error ≡ text_eq out [])
  unfolding write_body write_header
  serve_profile-failure which f text [] o code t h =
      let kind = content_type (profiler_of which f) in
      let e =
        serve_profile-errorf which f text [] o code t h
        ∙ profile_errorf_first fprintf code t (fprintf t) kind refl in
      (ap (λ r. r.body) e, ap (λ r. r.status) e, ap (λ r. r.kind) e, ap (λ r. r.is_pprof_error) e)
  serve_profile-failure which f text (c ∷ out) o code t h =
      let kind = content_type (profiler_of which f) in
      let e =
        serve_profile-errorf which f text (c ∷ out) o code t h
        ∙ profile_errorf_late fprintf code 200 t (fprintf t) kind (c ∷ out) refl in
      (ap (λ r. r.body) e, ap (λ r. r.status) e, ap (λ r. r.kind) e, ap (λ r. r.is_pprof_error) e)

-- makeProfileDumpFunc.
unfoldable pub dump_profiler : Text → ℕ → Profiler
dump_profiler which debug = record { which = which; addr = []; sec = 30; debug = debug; gc = false }

-- What a dump writes: the status page, or a profile.
pub data Dump : Type 0 where
  status_dump : Dump
  profile_dump : Profiler → Dump

-- `%02d`.
unfoldable pub two_digits : ℕ → Text
two_digits n = if ltb n 10 then codes "0" ++ decimal n else decimal n

abbrev pub named : Text → Text
named [] = []
named (c ∷ name) = (c ∷ name) ++ codes "-"

-- The dumps that Start registers, by the index and the name of the B.
unfoldable pub dumps : (system : Text) (index : ℕ) (name : Text) → List (Text × Dump)
unfolding two_digits dump_profiler
dumps system index name =
    let pfx = codes "bigmachine-" ++ two_digits index ++ codes "-" ++ named name in
    if not (text_eq system (codes "testsystem"))
    then (pfx ++ codes "status", status_dump)
      ∷ (pfx ++ codes "pprof-goroutine", profile_dump (dump_profiler (codes "goroutine") 2))
      ∷ (pfx ++ codes "pprof-heap", profile_dump (dump_profiler (codes "heap") 0))
      ∷ (pfx ++ codes "pprof-mutex", profile_dump (dump_profiler (codes "mutex") 1))
      ∷ (pfx ++ codes "pprof-profile", profile_dump (dump_profiler (codes "profile") 0))
      ∷ []
    else []

-- Whether Start publishes the variables of the machines, by what expvar.Get finds.
unfoldable pub publishes : (system : Text) (published : Bool) → Bool
publishes system published = not (text_eq system (codes "testsystem")) && not published

-- maybeInit: an instance that has no Init, or what its Init returns.
unfoldable pub maybe_init : {Err : Type 0} → Option (Option Err) → Option Err
maybe_init none = none
maybe_init (some result) = result
