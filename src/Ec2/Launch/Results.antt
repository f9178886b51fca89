-- ===== src/Ec2/Launch/Results.antt =====
-- ec2system/ec2machine.go: what Start returns.
use bigmachine.Prelude.{
  ℕ, zero, suc, ◌≡◌, refl, Bool, true, false, inl, inr, none, some, List, [], ◌∷◌, Text, codes, map,
  if◌then◌else◌, ◌==◌, ==_iff, length, ltb, take, All, arith,
}
use bigmachine.Errors.{Errors, kind, message, unavailable}
use bigmachine.Machine.{Machine}
use bigmachine.Machine.Retry.{Result, ok, err, Result-cases}
use bigmachine.Cluster.{B, Param, start}
use bigmachine.Ec2.Launch.{
  Instance, Launched, get_address, is_empty, launched, panics, Spot, first_ids, described_ids,
  await_spot, run_spot, machine_of, machines_of, described, await_running,
}

module _ (E : Errors) where
  open E use {Err, make}

  first_ids-take :
      (n : ℕ) (ids : List Text)
      → first_ids n ids ≡ (if ltb (length ids) n then none else some (take n ids))
  unfolding first_ids
  first_ids-take zero ids = ground arith
  first_ids-take (suc n) [] = ground arith
  first_ids-take (suc n) (id ∷ ids) = ground (arith, first_ids-take n ids)

  -- On the spot market, requests that are fulfilled give as many of the described instances, but
  -- Start panics if fewer are described: the check of their number compares two others.
  pub run_spot-described :
      (s : Spot Err) (n : ℕ) (ids : List Text)
      → s.requests ≡ ok (suc n)
      → s.fulfilled ≡ none
      → s.described ≡ ok ids
      → run_spot E s ≡ (if ltb (length ids) (suc n) then panics else launched (take (suc n) ids))
  unfolding run_spot await_spot described_ids
  run_spot-described s n ids hr hf hd = ground (arith, first_ids-take (suc n) ids, hr, hf, hd)

  abbrev pub Addressed : Instance → Type 0
  Addressed i = is_empty (get_address i) ≡ false

  machines_of-ok :
      (suffixed : Bool) (vcpu : ℕ) (is : List Instance) (ms : List Launched)
      → machines_of E suffixed vcpu is ≡ ok ms
      → (ms ≡ map (machine_of suffixed vcpu) is) × All Addressed is
  unfolding machines_of
  machines_of-ok suffixed vcpu [] ms h = (ground arith, tt)
  machines_of-ok suffixed vcpu (i ∷ is) ms h =
      elim (Result-cases (machines_of E suffixed vcpu is)) [
        | inl (ns, e) ↦
            let rest = machines_of-ok suffixed vcpu is ns e in
            (ground (arith, e, rest.0), (ground (arith, e), rest.1))
        | inr (x, e) ↦ absurd (ground (arith, e))
      ]

  -- If the instances come up, Start returns machines exactly for a description of one reservation
  -- with as many instances as it launched, in their order, each with an address.
  pub await_running-ok :
      (suffixed : Bool) (vcpu n : ℕ) (rs : List (List Instance)) (ms : List Launched)
      → await_running E suffixed vcpu n none (ok rs) ≡ ok ms
      → (is : List Instance) × (rs ≡ is ∷ [])
        × (length is ≡ n)
        × (ms ≡ map (machine_of suffixed vcpu) is)
        × All Addressed is
  unfolding await_running described
  await_running-ok suffixed vcpu n [] ms h = absurd (ground arith)
  await_running-ok suffixed vcpu n (is ∷ []) ms h =
      let right : (length is == n) ≡ true = ground arith in
      let made : machines_of E suffixed vcpu is ≡ ok ms = ground arith in
      let both = machines_of-ok suffixed vcpu is ms made in
      (is, refl, (==_iff (length is) n).0 right, both.0, both.1)
  await_running-ok suffixed vcpu n (is ∷ js ∷ rs) ms h = absurd (ground arith)

  abbrev pub converted :
      (Launched → Machine Err) → Result Err (List Launched) → Result Err (List (Machine Err))
  converted f (ok ms) = ok (map f ms)
  converted f (err e) = err e

  -- If the instances do not come up but can be described, Start loses the error of the wait: it
  -- returns no machines and no error, and B.Start reports that no machines were started.
  pub start-lost :
      (suffixed : Bool) (vcpu n : ℕ) (w : Err) (rs : List (List Instance))
      (f : Launched → Machine Err) (params : List Param) (b : B Err)
      → start E (converted f (await_running E suffixed vcpu n (some w) (ok rs))) params b
        ≡ (err (make (kind unavailable ∷ message (codes "no machines started") ∷ [])), b)
  unfolding await_running start
  start-lost suffixed vcpu n w rs f params b = refl
