-- ===== src/Rpc/Connections.antt =====
-- rpc/client.go: the cache of HTTP clients, and where errors of kind Net come from.
use bigmachine.Prelude.{
  ℕ, ◌≡◌, refl, ◌∙◌, inl, inr, Bool, true, false, none, some, [], ◌∷◌, Text, codes, if◌then◌else◌,
  ◌==◌, ==_refl, text_eq, text_eq_refl, lookup, lookup-insert, lookup-delete, contains, arith,
  if_intro,
}
use mathlib.Core.Path.{subst, sym}
use mathlib.Core.Bool.{false≢true}
use bigmachine.Errors.{Errors, Laws, net, invalid, fatal, kind, severity, cause}
use bigmachine.Rpc.Server.{gob_content_type, method_error_code, octet_stream}
use bigmachine.Machine.Retry.{Result, ok, err, Result-cases}
use bigmachine.Rpc.Paths.{url}
use bigmachine.Rpc.Wire.{Gob, Request, Response}
use bigmachine.Rpc.Client.{
  Client, CallArg, CallResult, ReplyKind, from_reader, from_value, closer, typed, failed,
  get_client, update_client_state, exchange, call, read_response, decode_remote, remote_of,
  reply_of, bad_status,
}

get_client-lookup :
    (addr : Text) (c : Client)
    → (lookup addr (get_client addr c).1.clients ≡ some (get_client addr c).0)
      × ((get_client addr c).0 ≡ (elim (lookup addr c.clients) [ none ↦ c.fresh | some k ↦ k ]))
unfolding get_client
get_client-lookup addr c =
    ground (arith, lookup-insert addr addr c.fresh c.clients, text_eq_refl addr)

get_client-other :
    (addr j : Text) (c : Client)
    → text_eq addr j ≡ false
    → lookup j (get_client addr c).1.clients ≡ lookup j c.clients
unfolding get_client
get_client-other addr j c h = ground (arith, lookup-insert addr j c.fresh c.clients)

update-other :
    (addr j : Text) (h : ℕ) (did_fail : Bool) (c : Client)
    → text_eq addr j ≡ false
    → lookup j (update_client_state addr h did_fail c).clients ≡ lookup j c.clients
unfolding update_client_state
update-other addr j h did_fail c e = ground (arith, lookup-delete addr j c.clients)

update-lookup :
    (addr : Text) (h : ℕ) (did_fail : Bool) (c : Client)
    → lookup addr c.clients ≡ some h
    → lookup addr (update_client_state addr h did_fail c).clients
      ≡ (if did_fail then none else some h)
unfolding update_client_state
update-lookup addr h did_fail c e =
    ground (arith, lookup-delete addr addr c.clients, text_eq_refl addr, ==_refl h)

update-closes :
    (addr : Text) (h : ℕ) (c : Client)
    → lookup addr c.clients ≡ some h
    → contains (update_client_state addr h true c).idle_closed h ≡ true
unfolding update_client_state contains
update-closes addr h c e =
    ground (arith, lookup-delete addr addr c.clients, text_eq_refl addr, ==_refl h)

-- What getClient and updateClientState do together to the cache: an address other than the called
-- one keeps its client. The called one has its client of before, or a new one, if the call did not
-- fail; after a failure it has none, and the idle connections of the client used are closed.
pub update-get_client :
    (addr : Text) (did_fail : Bool) (c : Client)
    → let (h, c1) = get_client addr c in
      let c2 = update_client_state addr h did_fail c1 in
      ((j : Text) → text_eq addr j ≡ false → lookup j c2.clients ≡ lookup j c.clients)
      × (lookup addr c2.clients ≡ (if did_fail then none else some h))
      × (h ≡ (elim (lookup addr c.clients) [ none ↦ c.fresh | some k ↦ k ]))
      × (did_fail ≡ true → contains c2.idle_closed h ≡ true)
update-get_client addr did_fail c =
    let (h, c1) = get_client addr c in
    let g = get_client-lookup addr c in
    (
      λ j e. update-other addr j h did_fail c1 e ∙ get_client-other addr j c e,
      update-lookup addr h did_fail c1 g.0,
      g.1,
      λ e. rw e (update-closes addr h c1 g.0),
    )

module _ (E : Errors) (G : Gob E) (laws : Laws E) where
  open E use {Err, is_kind}

  abbrev NotNet : CallResult E G → Type 0
  NotNet (failed e) = is_kind net e ≡ false
  NotNet _ = Unit {0}

  decode_remote-kind : (sm b : Text) → is_kind net (decode_remote E G sm b) ≡ false
  unfolding decode_remote
  decode_remote-kind sm b = go (G.decode_error b)
    where
      go : (x : Result Err Err) → is_kind net (remote_of E G sm x) ≡ false
      go (ok e) = laws.is_kind-make net _ _ refl
      go (err x) = laws.is_kind-make net _ _ refl

  reply_of-NotNet : (sm : Text) (x : Result Err G.Value) → NotNet (reply_of E G sm x)
  unfolding reply_of
  reply_of-NotNet sm (ok v) = tt
  reply_of-NotNet sm (err x) = laws.is_kind-make net _ _ refl

  bad_status-kind : (u : Text) (r : Response) → is_kind net (bad_status E G u r) ≡ false
  unfolding bad_status
  bad_status-kind u r =
      if_intro (λ e. is_kind net e ≡ false) _ _ _ (laws.is_kind-make net _ _ refl)
        (laws.is_kind-make net _ _ refl)

  read_response-NotNet :
      (u sm : Text) (reply : ReplyKind E G) (r : Response) → NotNet (read_response E G u sm reply r)
  unfolding read_response
  read_response-NotNet u sm closer r =
      ground (arith, decode_remote-kind sm r.body, bad_status-kind u r)
  read_response-NotNet u sm (typed t old) r =
      if_intro NotNet (r.code == method_error_code) (failed (decode_remote E G sm r.body)) _
        (decode_remote-kind sm r.body)
        (if_intro NotNet (r.code == 200) (reply_of E G sm (G.decode t old r.body))
          (failed (bad_status E G u r)) (reply_of-NotNet sm (G.decode t old r.body))
          (bad_status-kind u r))

  NotNet-failed : (x : CallResult E G) (e : Err) → NotNet x → x ≡ failed e → is_kind net e ≡ false
  NotNet-failed x e h p = subst NotNet p h

  exchange-net :
      (post : Request → Result Err Response) (addr sm t b : Text) (reply : ReplyKind E G)
      (c : Client) (e : Err)
      → (exchange E G post addr sm t b reply c).0 ≡ failed e
      → is_kind net e ≡ true
      → (r : Request) × (x : Err) × (r.url ≡ url addr c.prefix sm) × (post r ≡ err x)
  unfolding exchange
  exchange-net post addr sm t b reply c e h k = elim (Result-cases (post r)) [
    | inr (x, p) ↦ (r, x, refl, p)
    | inl (y, p) ↦ absurd (
        false≢true (
          sym
            (NotNet-failed _ e (read_response-NotNet (url addr c.prefix sm) sm reply y) (rw p at h))
          ∙ k))
  ]
    where
      r : Request
      r = record {
        http_method = codes "POST";
        url = url addr c.prefix sm;
        content_type = t;
        body = b;
      }

  -- The client passes on no error of kind Net from the server: if Call fails with one, it is the
  -- post that failed.
  pub call-net_is_local :
      (post : Request → Result Err Response) (addr service_method : Text) (arg : CallArg E G)
      (reply : ReplyKind E G) (c : Client) (e : Err)
      → (call E G post addr service_method arg reply c).0 ≡ failed e
      → is_kind net e ≡ true
      → (r : Request) × (x : Err) × (r.url ≡ url addr c.prefix service_method) × (post r ≡ err x)
  unfolding call
  call-net_is_local post addr sm (from_reader b) reply c e h k =
      exchange-net post addr sm octet_stream b reply c e h k
  call-net_is_local post addr sm (from_value v) reply c e h k = elim (Result-cases (G.encode v)) [
    | inl (b, p) ↦ exchange-net post addr sm gob_content_type b reply c e (ground (arith, h, p)) k
    | inr (x, p) ↦ absurd (
        ground (
          arith,
          h,
          p,
          laws.is_kind-make net invalid (severity fatal ∷ kind invalid ∷ cause x ∷ []) refl,
        ))
  ]
