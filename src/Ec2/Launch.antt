-- ===== src/Ec2/Launch.antt =====
-- ec2system/ec2machine.go: Start, which runs instances and waits for them, and Init.
--
-- The answers of the EC2 API, the rate limiter and the retry policy are arguments.
pub mod Results
use bigmachine.Prelude.{
  ℕ, zero, suc, ◌+◌, Bool, true, false, not, ◌&&◌, ◌||◌, Option, none, some, List, [], ◌∷◌, ◌++◌,
  Text, codes, if◌then◌else◌, ◌==◌, length, lookup, text_eq, ltb,
}
use bigmachine.Errors.{Errors, Arg, kind, severity, message, cause, invalid, fatal}
use bigmachine.Machine.Retry.{Result, ok, err}
use bigmachine.Ec2.Devices.{System, InstanceType}

-- ec2.Instance: the fields that Start reads; an empty text is a nil pointer too.
pub record Instance : Type 0 where
  pub id : Text
  pub public_dns : Text
  pub public_ip : Text
  pub private_ip : Text

-- bigmachine.Machine as Start makes it.
pub record Launched : Type 0 where
  pub addr : Text
  pub maxprocs : ℕ

abbrev pub is_empty : Text → Bool
is_empty [] = true
is_empty (c ∷ t) = false

-- getAddress.
unfoldable pub get_address : Instance → Text
get_address i =
    if not (is_empty i.public_dns)
    then i.public_dns
    else if not (is_empty i.public_ip)
    then i.public_ip
    else i.private_ip

-- What an attempt to run instances comes to; `panics` is an index out of range.
pub data Run (Err : Type 0) : Type 0 where
  launched : List Text → Run Err
  failed : Err → Run Err
  panics : Run Err

-- What EC2 answers about spot requests: the requests, whether they are fulfilled, and the instances
-- of the description.
pub record Spot (Err : Type 0) : Type 0 where
  pub requests : Result Err ℕ
  pub fulfilled : Option Err
  pub described : Result Err (List Text)

-- One round of the loop: the rate limiter, the attempt, and retry.Wait.
pub record Round (Err : Type 0) : Type 0 where
  pub limited : Option Err
  pub attempt : Run Err
  pub waited : Option Err

-- `for i := range instanceIds`: the first n instances that are described.
unfoldable pub first_ids : ℕ → List Text → Option (List Text)
first_ids zero ids = some []
first_ids (suc n) [] = none
first_ids (suc n) (id ∷ ids) = elim (first_ids n ids) [ some rest ↦ some (id ∷ rest) | none ↦ none ]

-- The machine of an instance; with useInstanceIDSuffix.
unfoldable pub machine_of : Bool → ℕ → Instance → Launched
unfolding get_address
machine_of suffixed vcpu i = record {
  addr =
      codes "https://"
      ++ (get_address i ++ (codes "/" ++ (if suffixed then i.id ++ codes "/" else [])));
  maxprocs = vcpu;
}

module _ (E : Errors) where
  open E use {Err, make, format}

  -- `run` on demand, by what RunInstances returns.
  unfoldable pub run_on_demand : Result Err (List Text) → Run Err
  run_on_demand (err e) = failed (make (message (codes "run-instances") ∷ cause e ∷ []))
  run_on_demand (ok []) =
      failed (make (kind invalid ∷ message (codes "expected at least 1 instance") ∷ []))
  run_on_demand (ok (id ∷ ids)) = launched (id ∷ ids)

  -- The end of `run` on the spot market, for n requests. The check that follows the description
  -- compares n to the number of the requests, so that it always passes.
  unfoldable pub described_ids : ℕ → Result Err (List Text) → Run Err
  unfolding first_ids
  described_ids n (err e) =
      failed (make (message (codes "describe-spot-instance-requests") ∷ cause e ∷ []))
  described_ids n (ok ids) = elim (first_ids n ids) [ some rest ↦ launched rest | none ↦ panics ]

  unfoldable pub await_spot : ℕ → Spot Err → Run Err
  unfolding described_ids
  await_spot n s = elim s.fulfilled [
    | some e ↦
        failed (make (message (codes "wait-until-spot-instance-request-fulfilled") ∷ cause e ∷ []))
    | none ↦ described_ids n s.described
  ]

  unfoldable pub run_spot : Spot Err → Run Err
  unfolding await_spot
  run_spot s = elim s.requests [
    | err e ↦ failed (make (message (codes "request-spot-instances") ∷ cause e ∷ []))
    | ok zero ↦
        failed
          (make (kind invalid ∷ message (codes "ec2.RequestSpotInstances: got 0 entries") ∷ []))
    | ok (suc n) ↦ await_spot (suc n) s
  ]

  -- What follows an attempt; `rest` is the next round.
  unfoldable pub after_attempt :
      (Err → Bool) → Option Err → Option (Run Err) → Run Err → Option (Run Err)
  after_attempt is_limit waited rest (launched ids) = some (launched ids)
  after_attempt is_limit waited rest panics = some panics
  after_attempt is_limit waited rest (failed e) =
      if is_limit e then elim waited [ some w ↦ some (failed w) | none ↦ rest ] else some (failed e)

  -- The loop of Start over the rounds that it gets; `none` if it wants another one. `is_limit`
  -- tells an awserr with the code RequestLimitExceeded.
  unfoldable pub run_loop : (Err → Bool) → List (Round Err) → Option (Run Err)
  unfolding after_attempt
  run_loop is_limit [] = none
  run_loop is_limit (r ∷ rs) =
      let rest = run_loop is_limit rs in
      elim r.limited [
        | some e ↦ some (failed e)
        | none ↦ after_attempt is_limit r.waited rest r.attempt
      ]

  -- The loop over the described instances.
  unfoldable pub machines_of : Bool → ℕ → List Instance → Result Err (List Launched)
  unfolding machine_of get_address
  machines_of suffixed vcpu [] = ok []
  machines_of suffixed vcpu (i ∷ is) =
      let rest = machines_of suffixed vcpu is in
      if is_empty (get_address i)
      then err (
          format (
            message (codes "ec2.DescribeInstances ")
            ∷ message i.id
            ∷ message (codes ": no dns name or ip addresss available")
            ∷ []))
      else elim rest [ ok ms ↦ ok (machine_of suffixed vcpu i ∷ ms) | err e ↦ err e ]

  abbrev pub invalid_output : Err
  invalid_output =
      make (kind invalid ∷ message (codes "ec2.DescribeInstances: invalid output") ∷ [])

  -- The reservations of a description, for a number of instances.
  unfoldable pub described : Bool → ℕ → ℕ → List (List Instance) → Result Err (List Launched)
  unfolding machines_of
  described suffixed vcpu n [] = err invalid_output
  described suffixed vcpu n (is ∷ []) =
      if length is == n then machines_of suffixed vcpu is else err invalid_output
  described suffixed vcpu n (is ∷ js ∷ rs) = err invalid_output

  -- The end of Start: WaitUntilInstanceRunning, and DescribeInstances. After a wait that fails,
  -- `err` is set again by the description.
  unfoldable pub await_running :
      Bool → ℕ → ℕ → Option Err → Result Err (List (List Instance)) → Result Err (List Launched)
  unfolding described
  await_running suffixed vcpu n (some w) (err e) = err e
  await_running suffixed vcpu n (some w) (ok rs) = ok []
  await_running suffixed vcpu n none (err e) = err e
  await_running suffixed vcpu n none (ok rs) = described suffixed vcpu n rs

  -- What DescribeImages gives of an AMI: the identifiers, with their root devices. An image that is
  -- not there is a fatal error.
  unfoldable pub image_of : Text → Result Err (List (Text × Option Text)) → Result Err (Option Text)
  image_of ami (err e) = err e
  image_of ami (ok []) = err (make (severity fatal ∷ message (codes "image not found") ∷ []))
  image_of ami (ok ((id, root) ∷ [])) =
      if text_eq id ami
      then ok root
      else err (make (severity fatal ∷ message (codes "image not found") ∷ []))
  image_of ami (ok (a ∷ b ∷ images)) =
      err (make (severity fatal ∷ message (codes "image not found") ∷ []))
