-- ===== src/Errors.antt =====
-- The errors of github.com/grailbio/base/errors and of the standard library, which the program
-- uses and does not implement: a parameter of every definition that makes or inspects an error.
use bigmachine.Prelude.{◌≡◌, ◌↔◌, Bool, true, false, List, [], ◌∷◌, Option, none, some, Text}

-- The kinds and severities that the program names.
pub data Kind : Type 0 where
  net invalid unavailable oom remote not_supported : Kind

pub data Severity : Type 0 where
  fatal temporary retriable : Severity

-- An argument of `errors.E`.
pub data Arg (Err : Type 0) : Type 0 where
  kind : Kind → Arg Err
  severity : Severity → Arg Err
  message : Text → Arg Err
  cause : Err → Arg Err

pub record Errors : Type 1 where
  -- A non-nil `error`.
  pub Err : Type 0
  -- `errors.E`.
  pub make : List (Arg Err) → Err
  -- `fmt.Errorf` and `errors.New`, by the parts of the text.
  pub format : List (Arg Err) → Err
  -- `errors.Is`, `errors.Match`, `errors.IsTemporary`, `errors.Recover`.
  pub is_kind : Kind → Err → Bool
  pub matches : Err → Err → Bool
  pub is_temporary : Err → Bool
  pub recover : Err → Err
  -- Go's `==` between error values.
  pub same : Err → Err → Bool
  -- `err.Error()`, and an error as it stands in a message.
  pub to_text : Err → Text
  -- `context.Canceled`, `context.DeadlineExceeded`, `io.EOF`.
  pub canceled : Err
  pub deadline_exceeded : Err
  pub eof : Err

abbrev pub kind_eq : Kind → Kind → Bool
kind_eq net net = true
kind_eq invalid invalid = true
kind_eq unavailable unavailable = true
kind_eq oom oom = true
kind_eq remote remote = true
kind_eq not_supported not_supported = true
kind_eq _ _ = false

-- The kind among the arguments of `errors.E`.
abbrev pub kind_arg : {Err : Type 0} → List (Arg Err) → Option Kind
kind_arg [] = none
kind_arg (kind k ∷ args) = some k
kind_arg (severity s ∷ args) = kind_arg args
kind_arg (message t ∷ args) = kind_arg args
kind_arg (cause e ∷ args) = kind_arg args

-- What the program relies on: the severity of an error made with `Fatal` is fatal, so it matches
-- `errors.E(errors.Fatal)` and is not temporary; `errors.Is` tells the kind that an error was made with; `==` on
-- error values is an equality.
pub record Laws (E : Errors) : Type 0 where
  pub fatal_matches :
      (args : List (Arg E.Err))
      → E.matches (E.make (severity fatal ∷ [])) (E.make (severity fatal ∷ args)) ≡ true
  pub fatal_not_temporary :
      (args : List (Arg E.Err)) → E.is_temporary (E.make (severity fatal ∷ args)) ≡ false
  pub is_kind-make :
      (k j : Kind) (args : List (Arg E.Err))
      → kind_arg args ≡ some j
      → E.is_kind k (E.make args) ≡ kind_eq k j
  pub same_iff : (a b : E.Err) → (E.same a b ≡ true) ↔ (a ≡ b)
