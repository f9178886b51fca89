-- ===== src/Rpc/Logging.antt =====
-- rpc/log.go, rpc/client.go and rpc/server.go: the rate limited loggers of a client, its HTTP clients
-- that are made once, and the writers that flush.
--
-- What rate.Limiter allows is an argument. A logger and an HTTP client are identifiers.
use mathlib.Core.List.{append_assoc, append-nil}
use bigmachine.Prelude.{
  ℕ, suc, ◌+◌, ◌≡◌, refl, ap, sym, ◌∙◌, All, Bool, true, false, Option, none, some, List, [], ◌∷◌,
  ◌++◌, Text, if◌then◌else◌, lookup, insert, lookup-insert_self, arith,
}

-- A message that reaches the outputter: its call depth and its text.
pub record Message : Type 0 where
  pub depth : ℕ
  pub text : Text

-- rateLimitingOutputter.Output, by whether the limiter allows the message: the messages that the
-- outputter gets.
unfoldable pub output : Bool → ℕ → Text → List Message → List Message
output allowed depth text sent =
    if allowed then sent ++ (record { depth = depth + 1; text = text }) ∷ [] else sent

-- The loggers of a client by address.
pub record Loggers : Type 0 where
  pub loggers : List (Text × ℕ)
  pub fresh : ℕ

-- getLogger: Load, then LoadOrStore of a new logger, between which another goroutine may store one.
unfoldable pub load_or_store : Text → Loggers → ℕ × Loggers
load_or_store addr s = elim (lookup addr s.loggers) [
  | some l ↦ (l, s)
  | none ↦ (s.fresh, record s { loggers = insert addr s.fresh s.loggers; fresh = suc s.fresh })
]

unfoldable pub get_logger : (Loggers → Loggers) → Text → Loggers → ℕ × Loggers
unfolding load_or_store
get_logger others addr s = elim (lookup addr s.loggers) [
  | some l ↦ (l, s)
  | none ↦ load_or_store addr (others s)
]

-- The logger that a call gives for an address is the one that the next call gives, whatever other
-- goroutines do between the Load and the LoadOrStore of either.
pub get_logger-again :
    (others others' : Loggers → Loggers) (addr : Text) (s : Loggers)
    → let first = get_logger others addr s in (get_logger others' addr first.1).0 ≡ first.0
unfolding get_logger load_or_store
get_logger-again others others' addr s =
    ground (arith, lookup-insert_self addr (others s).fresh (others s).loggers)

-- clientState: what is cached, and how many clients its factory has made.
pub record ClientState : Type 0 where
  pub cached : Option ℕ
  pub made : ℕ

-- clientState.Client; `factory` names the client that the factory would make now.
unfoldable pub client_of : ℕ → ClientState → ℕ × ClientState
client_of factory s = elim s.cached [
  | some c ↦ (c, s)
  | none ↦ (factory, record { cached = some factory; made = suc s.made })
]

-- The client of the first call and the state after the others.
unfoldable pub clients_of : List ℕ → ClientState → List ℕ × ClientState
unfolding client_of
clients_of [] s = ([], s)
clients_of (f ∷ fs) s =
    let here = client_of f s in let rest = clients_of fs here.1 in (here.0 ∷ rest.0, rest.1)

-- What a connection is told: bytes, or to flush.
pub data Sent : Type 0 where
  bytes : Text → Sent
  flush : Sent

-- flusher.Write.
unfoldable pub flusher_write : Text → List Sent → List Sent
flusher_write p sent = sent ++ bytes p ∷ flush ∷ []

-- What ServeHTTP copies a stream to: the connection, or a flusher for a reply of Flush on a
-- connection that can flush.
unfoldable pub write_reply : (needs_flush can_flush : Bool) → Text → List Sent → List Sent
unfolding flusher_write
write_reply needs_flush can_flush p sent =
    if needs_flush
    then if can_flush then flusher_write p sent else sent ++ bytes p ∷ []
    else sent ++ bytes p ∷ []

unfoldable pub write_replies : (needs_flush can_flush : Bool) → List Text → List Sent → List Sent
unfolding write_reply
write_replies needs_flush can_flush [] sent = sent
write_replies needs_flush can_flush (p ∷ ps) sent =
    write_replies needs_flush can_flush ps (write_reply needs_flush can_flush p sent)

abbrev pub payload : List Sent → Text
payload [] = []
payload (bytes p ∷ ss) = p ++ payload ss
payload (flush ∷ ss) = payload ss

abbrev pub joined : List Text → Text
joined [] = []
joined (p ∷ ps) = p ++ joined ps

clients_of-cached :
    (c : ℕ) (fs : List ℕ) (n : ℕ)
    → let s : ClientState = record { cached = some c; made = n } in
      ((clients_of fs s).1 ≡ s) × All (λ d. d ≡ c) (clients_of fs s).0
unfolding clients_of
clients_of-cached c [] n = (refl, tt)
clients_of-cached c (f ∷ fs) n = let rest = clients_of-cached c fs n in (rest.0, (refl, rest.1))

-- A clientState makes one HTTP client, at its first call, and every call has that.
pub clients_of-once :
    (f : ℕ) (fs : List ℕ) (s : ClientState)
    → s.cached ≡ none
    → ((clients_of (f ∷ fs) s).1.made ≡ suc s.made) × All (λ d. d ≡ f) (clients_of (f ∷ fs) s).0
unfolding clients_of client_of
clients_of-once f fs s h =
    let rest = clients_of-cached f fs (suc s.made) in
    rw h (ap (λ (t : ClientState). t.made) rest.0, (refl, rest.1))

payload-append : (ss ts : List Sent) → payload (ss ++ ts) ≡ payload ss ++ payload ts
payload-append [] ts = refl
payload-append (bytes p ∷ ss) ts =
    ap (λ t. p ++ t) (payload-append ss ts) ∙ sym (append_assoc p (payload ss) (payload ts))
payload-append (flush ∷ ss) ts = payload-append ss ts

payload-write_reply :
    (needs_flush can_flush : Bool) (p : Text) (sent : List Sent)
    → payload (write_reply needs_flush can_flush p sent) ≡ payload sent ++ p
unfolding write_reply flusher_write
payload-write_reply true true p sent =
    payload-append sent (bytes p ∷ flush ∷ []) ∙ ap (λ t. payload sent ++ t) (append-nil p)
payload-write_reply true false p sent =
    payload-append sent (bytes p ∷ []) ∙ ap (λ t. payload sent ++ t) (append-nil p)
payload-write_reply false can_flush p sent =
    payload-append sent (bytes p ∷ []) ∙ ap (λ t. payload sent ++ t) (append-nil p)

-- Whether a reply is flushed or not, the connection gets the same bytes.
pub payload-write_replies :
    (needs_flush can_flush : Bool) (ps : List Text) (sent : List Sent)
    → payload (write_replies needs_flush can_flush ps sent) ≡ payload sent ++ joined ps
unfolding write_replies
payload-write_replies n c [] sent = sym (append-nil (payload sent))
payload-write_replies n c (p ∷ ps) sent =
    payload-write_replies n c ps (write_reply n c p sent)
    ∙ ap (λ t. t ++ joined ps) (payload-write_reply n c p sent)
    ∙ append_assoc (payload sent) p (joined ps)
