-- ===== src/Cluster/Dialing.antt =====
-- bigmachine.go: Dial, and the removal of the machines that it made.
use bigmachine.Prelude.{
  ◌≡◌, refl, ap, ◌∙◌, false, Option, none, some, List, [], ◌∷◌, Text, text_eq, text_eq_refl, lookup,
  lookup-insert, lookup-insert_self, lookup-delete, arith,
}
use bigmachine.Errors.{Errors}
use bigmachine.Machine.{Machine}
use bigmachine.Machine.Retry.{ok}
use bigmachine.Cluster.{
  B, Param, add, own, begin, dialed_machine, dial, dial_at, reap, start, start_each, apply_params,
  is_none_given,
}

module _ {Err : Type 0} where
  abbrev pub Known : Text → B Err → Machine Err × B Err → Type 0
  Known addr b (m, b') =
      (lookup addr b'.machines ≡ some m)
      × (dial addr b' ≡ (m, b'))
      × ((other : Text)
          → text_eq addr other ≡ false
          → lookup other b'.machines ≡ lookup other b.machines)

  dial_at-Known :
      (addr : Text) (b : B Err) (o : Option (Machine Err))
      → lookup addr b.machines ≡ o
      → Known addr b (dial_at addr b o)
  unfolding dial_at dial add begin dialed_machine
  dial_at-Known addr b (some m) h = (h, ap (dial_at addr b) h, λ other e. refl)
  dial_at-Known addr b none h =
      let m = begin (dialed_machine addr) in
      let known = lookup-insert_self addr m b.machines in
      (
        known,
        ap (dial_at addr (add m b)) known,
        λ other e. lookup-insert addr other m b.machines ∙ ground arith,
      )

  -- Dial gives the machine that is known at the address, or makes one; the machine that it gives is
  -- then known there, a second Dial gives the same one, and other addresses keep theirs.
  pub dial-Known : (addr : Text) (b : B Err) → Known addr b (dial addr b)
  unfolding dial
  dial-Known addr b = dial_at-Known addr b (lookup addr b.machines) refl

module _ (E : Errors) where
  open E use {Err}

  -- The clean-up of Dial removes by address: a machine that Start brings up at the address of a
  -- dialed one before that one's clean-up is known at first, and is forgotten by the clean-up.
  pub reap-start :
      (addr : Text) (b : B Err) (params : List Param) (m : Machine Err)
      → (own params m).addr ≡ addr
      → is_none_given (apply_params params m).services ≡ false
      → let b' = (start E (ok (m ∷ [])) params (dial addr b).1).1 in
        (lookup addr b'.machines ≡ some (own params m))
        × (lookup addr (reap addr b').machines ≡ none)
  unfolding start start_each reap add
  reap-start addr b params m h hs =
      let before = (dial addr b).1 in
      (
        ground (arith, h, hs, lookup-insert_self addr (own params m) before.machines),
        ground (
          arith,
          text_eq_refl addr,
          lookup-delete addr addr (start E (ok (m ∷ [])) params before).1.machines,
        ),
      )
