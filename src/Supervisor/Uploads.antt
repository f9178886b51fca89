-- ===== src/Supervisor/Uploads.antt =====
-- supervisor.go: what Exec runs after any sequence of the calls that prepare it, and what an upload
-- leaves behind.
use bigmachine.Prelude.{
  ◌≡◌, refl, Option, none, some, List, [], ◌∷◌, ◌++◌, Text, codes, if◌then◌else◌, arith,
  text_eq_refl,
}
use bigmachine.Errors.{Errors}
use bigmachine.Machine.Retry.{ok, err}
use bigmachine.Supervisor.{
  Supervisor, Upload, refused, image, set_args, set_environ, set_binary, close_and_chmod,
  remove_file, is_unset, no_binary, exec,
}

pub data Call (Err : Type 0) : Type 0 where
  setargs setenv : List Text → Call Err
  setbinary : Upload Err → Call Err

module _ {Err : Type 0} where
  unfoldable pub serve : Call Err → Supervisor → Supervisor
  serve (setargs args) s = set_args args s
  serve (setenv env) s = set_environ env s
  serve (setbinary u) s = (set_binary u s).1

  unfoldable pub serve_all : List (Call Err) → Supervisor → Supervisor
  unfolding serve
  serve_all [] s = s
  serve_all (c ∷ cs) s = serve_all cs (serve c s)

  -- What a call sets.
  abbrev pub args_of : Call Err → Option (List Text)
  args_of (setargs args) = some args
  args_of (setenv env) = none
  args_of (setbinary u) = none

  abbrev pub environ_of : Call Err → Option (List Text)
  environ_of (setargs args) = none
  environ_of (setenv env) = some env
  environ_of (setbinary u) = none

  -- An upload whose steps all succeed.
  abbrev pub uploaded : Upload Err → Option Text
  uploaded u = elim u.temp_file [
    | err e ↦ none
    | ok path ↦ elim u.copy [
      | some e ↦ none
      | none ↦ elim u.close [
        | some e ↦ none
        | none ↦ elim u.chmod [ some e ↦ none | none ↦ some path ]
      ]
    ]
  ]

  abbrev pub path_of : Call Err → Option Text
  path_of (setargs args) = none
  path_of (setenv env) = none
  path_of (setbinary u) = uploaded u

-- The last value that the calls set, or the one of before.
unfoldable pub latest {ℓ} : {C : Type 0} {A : Type ℓ} → (C → Option A) → A → List C → A
latest f a [] = a
latest f a (c ∷ cs) = elim (f c) [ some b ↦ latest f b cs | none ↦ latest f a cs ]

module _ {Err : Type 0} where
  serve_all-binary_path :
      (cs : List (Call Err)) (s : Supervisor)
      → (serve_all cs s).binary_path ≡ latest path_of s.binary_path cs
  unfolding serve_all latest set_binary close_and_chmod set_args set_environ
  serve_all-binary_path [] s = refl
  serve_all-binary_path (setargs args ∷ cs) s = serve_all-binary_path cs (set_args args s)
  serve_all-binary_path (setenv env ∷ cs) s = serve_all-binary_path cs (set_environ env s)
  serve_all-binary_path (setbinary u ∷ cs) s =
      ground (arith, serve_all-binary_path cs (set_binary u s).1)

  serve_all-args :
      (cs : List (Call Err)) (s : Supervisor) → (serve_all cs s).args ≡ latest args_of s.args cs
  unfolding serve_all latest set_binary close_and_chmod set_args set_environ
  serve_all-args [] s = refl
  serve_all-args (setargs args ∷ cs) s = serve_all-args cs (set_args args s)
  serve_all-args (setenv env ∷ cs) s = serve_all-args cs (set_environ env s)
  serve_all-args (setbinary u ∷ cs) s = ground (arith, serve_all-args cs (set_binary u s).1)

  serve_all-environ :
      (cs : List (Call Err)) (s : Supervisor)
      → (serve_all cs s).environ ≡ latest environ_of s.environ cs
  unfolding serve_all latest set_binary close_and_chmod set_args set_environ
  serve_all-environ [] s = refl
  serve_all-environ (setargs args ∷ cs) s = serve_all-environ cs (set_args args s)
  serve_all-environ (setenv env ∷ cs) s = serve_all-environ cs (set_environ env s)
  serve_all-environ (setbinary u ∷ cs) s = ground (arith, serve_all-environ cs (set_binary u s).1)

module _ (E : Errors) where
  open E use {Err}

  -- After any sequence of Setargs, Setenv and Setbinary calls, Exec runs the binary of the last
  -- upload that succeeded with the last arguments set, in the default environment followed by the
  -- last one set; without any such binary it returns an error.
  pub exec-serve_all :
      (os_environ : List Text) (cs : List (Call Err)) (s : Supervisor)
      → exec E os_environ (serve_all cs s) ≡ (
          let path = latest path_of s.binary_path cs in
          if is_unset path
          then refused (no_binary E (codes "Supervisor.Exec: no binary set"))
          else image path (latest args_of s.args cs) (os_environ ++ latest environ_of s.environ cs))
  unfolding exec
  exec-serve_all os_environ cs s =
      ground (arith, serve_all-binary_path cs s, serve_all-args cs s, serve_all-environ cs s)

  -- The temporary file of an upload stays behind exactly when the upload succeeds or its copy
  -- fails, if no other file has its path; a failure after the copy removes it.
  pub set_binary-files :
      (u : Upload Err) (path : Text) (s : Supervisor)
      → u.temp_file ≡ ok path
      → remove_file path s.files ≡ s.files
      → (set_binary u s).1.files ≡ elim u.copy [
        | some e ↦ path ∷ s.files
        | none ↦ elim (uploaded u) [ some p ↦ path ∷ s.files | none ↦ s.files ]
      ]
  unfolding set_binary close_and_chmod remove_file
  set_binary-files u path s h hf = ground (arith, text_eq_refl path)
