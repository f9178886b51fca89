-- ===== src/Local/Events.antt =====
-- local.go: Event, Read, HTTPClient and getFreeTCPPort.
--
-- A field is a text with whether it is a string, which the type assertion asks for.
use bigmachine.Prelude.{
  ℕ, ◌≡◌, refl, Bool, true, false, Option, none, some, List, [], ◌∷◌, ◌++◌, map, Text, codes,
  if◌then◌else◌,
}
use bigmachine.Machine.Retry.{Result, ok, err}
use bigmachine.Streams.Readers.{Reader, ClosingReader}

-- The fields of an event as they are logged; `none` is a panic: a name that is no string, or the last
-- name without a value.
unfoldable pub event_fields : List (Bool × Text) → Option (List Text)
event_fields [] = some []
event_fields ((is_string, name) ∷ []) = none
event_fields ((is_string, name) ∷ (_, value) ∷ rest) =
    let fields = event_fields rest in
    if is_string
    then elim fields [ none ↦ none | some fs ↦ some ((name ++ codes ":" ++ value) ∷ fs) ]
    else none

-- strings.Join with ", ".
abbrev pub joined : List Text → Text
joined [] = []
joined (a ∷ []) = a
joined (a ∷ b ∷ rest) = a ++ codes ", " ++ joined (b ∷ rest)

-- Event, up to its log.
unfoldable pub event : Text → List (Bool × Text) → Option Text
unfolding event_fields
event typ pairs = elim (event_fields pairs) [
  | none ↦ none
  | some fields ↦ some (joined ((codes "eventType:" ++ typ) ∷ fields))
]

module _ {Err : Type 0} where
  -- Read, by what os.Open returns.
  unfoldable pub read : Result Err (Reader Err) → Result Err (ClosingReader Err)
  read (err e) = err e
  read (ok f) = ok (record { rc = f; closed = false })

  -- HTTPClient, by the client's part of HTTPSConfig and http2.ConfigureTransport; `none` is log.Fatalf.
  unfoldable pub http_client : {Config : Type 0} → Result Err Config → Option Err → Option Config
  http_client (err e) configured = none
  http_client (ok config) (some e) = none
  http_client (ok config) none = some config

  -- getFreeTCPPort, by net.ResolveTCPAddr and the port of net.ListenTCP.
  unfoldable pub free_tcp_port : Option Err → Result Err ℕ → Result Err ℕ
  free_tcp_port (some e) listened = err e
  free_tcp_port none listened = listened

-- The arguments of an event: names, which are strings, each with its value.
abbrev pub pairs_of : List (Text × Bool × Text) → List (Bool × Text)
pairs_of [] = []
pairs_of ((name, is_string, value) ∷ rest) = (true, name) ∷ (is_string, value) ∷ pairs_of rest

abbrev pub field : Text × Bool × Text → Text
field (name, is_string, value) = name ++ codes ":" ++ value

event_fields-pairs_of :
    (fs : List (Text × Bool × Text)) → event_fields (pairs_of fs) ≡ some (map field fs)
unfolding event_fields
event_fields-pairs_of [] = refl
event_fields-pairs_of ((name, is_string, value) ∷ fs) = rw (event_fields-pairs_of fs) refl

-- An event with names and values by turns is logged with all its fields in their order.
pub event-pairs_of :
    (typ : Text) (fields : List (Text × Bool × Text))
    → event typ (pairs_of fields) ≡ some (joined ((codes "eventType:" ++ typ) ∷ map field fields))
unfolding event
event-pairs_of typ fields = rw (event, event_fields-pairs_of fields) refl
