-- ===== src/Supervisor.antt =====
-- supervisor.go: the service that runs on every machine, over the state that its operations share.
--
-- The operating system's answers (a temporary file, a copy, os.Open) are arguments. `files` holds
-- the temporary files in existence, `args` is os.Args.
pub mod Watchdog
pub mod Keepalive
pub mod Upkeep
pub mod Uploads
pub mod Reports
pub mod Info
use bigmachine.Prelude.{
  ℕ, Bool, true, false, Option, none, some, List, [], ◌∷◌, ◌++◌, Text, codes, if◌then◌else◌, not,
  text_eq,
}
use bigmachine.Errors.{Errors, kind, message, invalid}
use bigmachine.Machine.Retry.{Result, ok, err}

pub record Supervisor : Type 0 where
  pub binary_path : Text
  pub environ : List Text
  pub args : List Text
  pub files : List Text

-- What the steps of an upload return: ioutil.TempFile, io.Copy, Close and os.Chmod.
pub record Upload (Err : Type 0) : Type 0 where
  pub temp_file : Result Err Text
  pub copy : Option Err
  pub close : Option Err
  pub chmod : Option Err

-- What Exec does: return an error before the system call, or replace the process by an image.
pub data Exec (Err : Type 0) : Type 0 where
  refused : Err → Exec Err
  image : (path : Text) (args environ : List Text) → Exec Err

-- `s.healthy` is a part of the watchdog's state.
unfoldable pub start_supervisor : List Text → Supervisor
start_supervisor args = record { binary_path = []; environ = []; args = args; files = [] }

unfoldable pub set_args : List Text → Supervisor → Supervisor
set_args args s = record s { args = args }

unfoldable pub set_environ : List Text → Supervisor → Supervisor
set_environ env s = record s { environ = env }

-- os.Remove.
unfoldable pub remove_file : Text → List Text → List Text
remove_file path [] = []
remove_file path (f ∷ fs) =
    let rest = remove_file path fs in if text_eq f path then rest else f ∷ rest

abbrev pub is_unset : Text → Bool
is_unset [] = true
is_unset (a ∷ path) = false

module _ {Err : Type 0} where
  -- What follows a copy into the temporary file at the path.
  unfoldable pub close_and_chmod : Upload Err → Text → Supervisor → Option Err × Supervisor
  unfolding remove_file
  close_and_chmod u path s = elim u.close [
    | some e ↦ (some e, record s { files = remove_file path s.files })
    | none ↦ elim u.chmod [
      | some e ↦ (some e, record s { files = remove_file path s.files })
      | none ↦ (none, record s { binary_path = path })
    ]
  ]

  unfoldable pub set_binary : Upload Err → Supervisor → Option Err × Supervisor
  unfolding close_and_chmod
  set_binary u s = elim u.temp_file [
    | err e ↦ (some e, s)
    | ok path ↦
        let s' = record s { files = path ∷ s.files } in
        elim u.copy [ some e ↦ (some e, s') | none ↦ close_and_chmod u path s' ]
  ]

module _ (E : Errors) where
  open E use {Err, make}

  abbrev pub no_binary : Text → Err
  no_binary method = make (kind invalid ∷ message method ∷ [])

  -- GetBinary, with os.Open as `opened`.
  unfoldable pub get_binary : {F : Type 0} → (Text → Result Err F) → Supervisor → Result Err F
  get_binary opened s =
      if is_unset s.binary_path
      then err (no_binary (codes "Supervisor.GetBinary: no binary set"))
      else opened s.binary_path

  -- Exec, with os.Environ().
  unfoldable pub exec : List Text → Supervisor → Exec Err
  exec os_environ s =
      if is_unset s.binary_path
      then refused (no_binary (codes "Supervisor.Exec: no binary set"))
      else image s.binary_path s.args (os_environ ++ s.environ)
