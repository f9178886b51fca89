-- ===== src/Streams/FileBuf.antt =====
-- internal/filebuf/filebuf.go: a buffer that a temporary file backs.
--
-- `files` holds the temporary files in existence and `rc_closes` counts the calls of Close on the
-- reader that New is given; what the operating system returns is an argument.
use bigmachine.Prelude.{
  ℕ, suc, ◌≡◌, inl, inr, Bool, Option, none, some, List, [], ◌∷◌, Text, codes, if◌then◌else◌,
  text_eq_refl, arith,
}
use bigmachine.Errors.{Errors, message, cause}
use bigmachine.Machine.Retry.{Result, ok, err, Result-cases}
use bigmachine.Supervisor.{remove_file}

-- ioutil.TempFile, io.Copy, and Seek.
pub record Fill (Err : Type 0) : Type 0 where
  pub temp_file : Result Err Text
  pub copy : Option Err
  pub seek : Option Err

pub record Disk : Type 0 where
  pub files : List Text
  pub rc_closes : ℕ

-- FileBuf: `none` is a nil file.
pub record FileBuf : Type 0 where
  pub file : Option Text

module _ (E : Errors) where
  open E use {Err, make}

  abbrev failure : Text → Err → Err
  failure what e = make (message what ∷ cause e ∷ [])

  -- The deferred removal.
  unfoldable pub discard : Text → Err → Disk → Result Err FileBuf × Disk
  unfolding remove_file
  discard path e d = (err e, record d { files = remove_file path d.files })

  unfoldable pub fill : Fill Err → Text → Disk → Result Err FileBuf × Disk
  unfolding discard
  fill f path d = elim f.copy [
    | some e ↦ discard path (failure (codes "error reading into filebuf") e) d
    | none ↦ elim f.seek [
      | some e ↦ discard path (failure (codes "error seeking in filebuf") e) d
      | none ↦ (ok (record { file = some path }), d)
    ]
  ]

  unfoldable pub close_reader : Bool → Disk → Disk
  close_reader is_closer d = if is_closer then record d { rc_closes = suc d.rc_closes } else d

  -- New, with whether the reader is an io.Closer; the deferred Close of the reader comes last.
  unfoldable pub new : Fill Err → Bool → Disk → Result Err FileBuf × Disk
  unfolding fill close_reader
  new f is_closer d = elim f.temp_file [
    | err e ↦
        (err (failure (codes "error opening temp file for filebuf") e), close_reader is_closer d)
    | ok path ↦
        let filled = fill f path (record d { files = path ∷ d.files }) in
        (filled.0, close_reader is_closer filled.1)
  ]

  -- Close, with what the file's Close returns.
  unfoldable pub close : Option Err → FileBuf → Disk → Option Err × FileBuf × Disk
  unfolding remove_file
  close closed b d = elim b.file [
    | none ↦ (none, b, d)
    | some path ↦ (closed, record b { file = none }, record d { files = remove_file path d.files })
  ]

  -- The files after a New and, if it returned a buffer, two Closes of that.
  abbrev pub files_after : Option Err → Result Err FileBuf × Disk → List Text
  files_after closed (err e, d) = d.files
  files_after closed (ok b, d) = let once = close closed b d in (close closed once.1 once.2).2.files

  -- Whatever fails, no temporary file stays behind once the buffer, if there is one, is closed,
  -- twice even, and the reader is closed once if it can be. The temporary file's name is new.
  pub new-files :
      (f : Fill Err) (is_closer : Bool) (d : Disk) (closed : Option Err)
      → ((path : Text) → f.temp_file ≡ ok path → remove_file path d.files ≡ d.files)
      → (files_after closed (new f is_closer d) ≡ d.files)
        × ((new f is_closer d).1.rc_closes ≡ (if is_closer then suc d.rc_closes else d.rc_closes))
  unfolding new fill discard close_reader close remove_file
  new-files f is_closer d closed h = elim (Result-cases f.temp_file) [
    | inl (path, e) ↦
        let fresh = h path e in (ground (arith, e, fresh, text_eq_refl path), ground (arith, e))
    | inr (x, e) ↦ (ground (arith, e), ground (arith, e))
  ]
