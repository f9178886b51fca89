-- ===== src/Cluster/Refinement.antt =====
-- bigmachine.go: the machines of a B as a table of addresses, through any sequence of calls.
use bigmachine.Prelude.{
  ℕ, suc, ◌-◌, ◌==◌, Option-cases, ◌≡◌, refl, ap, ◌∙◌, Bool, true, false, Option, none, some, List,
  [], ◌∷◌, Text, if◌then◌else◌, text_eq, text_eq_iff, lookup, lookup-insert, lookup-delete, arith,
  Bool-cases, inl, inr,
}
use bigmachine.Errors.{Errors}
use bigmachine.Machine.{Machine}
use bigmachine.Machine.Retry.{Result, ok, err}
use bigmachine.Cluster.{
  B, Param, services, environ, apply_param, dial, dial_at, dialed_machine, begin, add, reap, own,
  apply_params, is_none_given, start, start_each, and_rest,
}

-- The abstract state: for each address, whether its machine is known, and then whether it is owned.
abbrev pub Table : Type 0
Table = Text → Option Bool

abbrev pub assign : Text → Option Bool → Table → Table
assign addr v t a = if text_eq addr a then v else t a

-- The table, and how many goroutines of Dial wait at each address for their machine to stop.
pub record Known : Type 0 where
  pub table : Table
  pub waiting : Text → ℕ

-- A call of Dial; one of Start, with the machines that the system starts; the goroutine of a Dial
-- whose machine has stopped, which is there only if Dial made a machine at that address.
pub data Call (Err : Type 0) : Type 0 where
  dials : Text → Call Err
  starts : List Param → Result Err (List (Machine Err)) → Call Err
  reaps : Text → Call Err

abbrev pub owner_of : {Err : Type 0} → Option (Machine Err) → Option Bool
owner_of none = none
owner_of (some m) = some m.owner

module _ {Err : Type 0} where
  -- What a B shows of an address.
  abbrev pub shown : B Err → Table
  shown b a = owner_of (lookup a b.machines)

  -- Start records the machines in their order, up to one that is given no services.
  unfoldable pub table_start : List Param → List (Machine Err) → Table → Table
  table_start params [] t = t
  table_start params (m ∷ ms) t =
      let rest = table_start params ms (assign m.addr (some true) t) in
      if is_none_given (apply_params params m).services then t else rest

  unfoldable pub table_call : Call Err → Known → Known
  unfolding table_start
  table_call (dials addr) k = elim (k.table addr) [
    | none ↦ record {
      table = assign addr (some false) k.table;
      waiting = λ a. if text_eq addr a then suc (k.waiting a) else k.waiting a;
    }
    | some o ↦ k
  ]
  table_call (starts params (ok ms)) k = record k { table = table_start params ms k.table }
  table_call (starts params (err e)) k = k
  table_call (reaps addr) k = if k.waiting addr == 0 then k else record {
    table = assign addr none k.table;
    waiting = λ a. if text_eq addr a then k.waiting a - 1 else k.waiting a;
  }

  unfoldable pub table_calls : List (Call Err) → Known → Known
  unfolding table_call
  table_calls [] t = t
  table_calls (c ∷ cs) t = table_calls cs (table_call c t)

  -- The B shows the table.
  abbrev pub Shows : B Err → Table → Type 0
  Shows b t = (a : Text) → shown b a ≡ t a

-- A B with the goroutines of Dial that wait for their machine to stop, by its address.
pub record World (Err : Type 0) : Type 0 where
  pub b : B Err
  pub waiting : List Text

unfoldable pub count : Text → List Text → ℕ
count a [] = 0
count a (x ∷ xs) = let rest = count a xs in if text_eq x a then suc rest else rest

-- One of them ends.
unfoldable pub remove : Text → List Text → List Text
remove a [] = []
remove a (x ∷ xs) = let rest = remove a xs in if text_eq x a then xs else x ∷ rest

count-remove :
    (a c : Text) (xs : List Text)
    → count c (remove a xs) ≡ (if text_eq a c then count c xs - 1 else count c xs)
unfolding count remove
count-remove a c [] = ground arith
count-remove a c (x ∷ xs) =
    grind (arith, count-remove a c xs, text_eq_iff x a, text_eq_iff a c, text_eq_iff x c)

-- The B shows the table, and the goroutines are those that the table tells.
pub record ShowsAll {Err : Type 0} (w : World Err) (k : Known) : Type 0 where
  pub shows : Shows w.b k.table
  pub counts : (a : Text) → count a w.waiting ≡ k.waiting a

apply_params_addr :
    {Err : Type 0} (params : List Param) (m : Machine Err) → (apply_params params m).addr ≡ m.addr
unfolding apply_params apply_param
apply_params_addr [] m = refl
apply_params_addr (services s ∷ ps) m = apply_params_addr ps (apply_param (services s) m)
apply_params_addr (environ e ∷ ps) m = apply_params_addr ps (apply_param (environ e) m)

module _ (E : Errors) where
  open E use {Err}

  unfoldable pub perform : Call Err → World Err → World Err
  perform (dials addr) w = record {
    b = (dial addr w.b).1;
    waiting = elim (lookup addr w.b.machines) [ none ↦ addr ∷ w.waiting | some m ↦ w.waiting ];
  }
  perform (starts params r) w = record w { b = (start E r params w.b).1 }
  perform (reaps addr) w =
      if count addr w.waiting == 0
      then w
      else record { b = reap addr w.b; waiting = remove addr w.waiting }

  unfoldable pub perform_all : List (Call Err) → World Err → World Err
  unfolding perform
  perform_all [] w = w
  perform_all (c ∷ cs) w = perform_all cs (perform c w)

  add-Shows :
      (m : Machine Err) (b : B Err) (t : Table)
      → Shows b t
      → Shows (add m b) (assign m.addr (some m.owner) t)
  unfolding add
  add-Shows m b t h a = ground (arith, h a, lookup-insert m.addr a m b.machines)

  dial-Shows :
      (addr : Text) (b : B Err) (t : Table)
      → Shows b t
      → Shows (dial addr b).1 (elim (t addr) [ none ↦ assign addr (some false) t | some o ↦ t ])
  unfolding dial dial_at add begin dialed_machine
  dial-Shows addr b t h a = ground (
    arith,
    h a,
    h addr,
    lookup-insert addr a (begin (dialed_machine addr)) b.machines,
    text_eq_iff addr a,
  )

  reap-Shows :
      (addr : Text) (b : B Err) (t : Table) → Shows b t → Shows (reap addr b) (assign addr none t)
  unfolding reap
  reap-Shows addr b t h a = ground (arith, h a, lookup-delete addr a b.machines)

  and_rest_b :
      (m : Machine Err) (r : Result Err (List (Machine Err)) × B Err) → (and_rest E m r).1 ≡ r.1
  and_rest_b m (ok ms, b) = refl
  and_rest_b m (err e, b) = refl

  own-Shows :
      (params : List Param) (m : Machine Err) (b : B Err) (t : Table)
      → Shows b t
      → Shows (add (own params m) b) (assign m.addr (some true) t)
  unfolding own begin
  own-Shows params m b t h a =
      let n : Machine Err = own params m in
      let kept : n.addr ≡ m.addr = apply_params_addr params m in
      add-Shows n b t h a ∙ ap (λ x. assign x (some true) t a) kept

  start_each-Shows :
      (params : List Param) (ms : List (Machine Err)) (b : B Err) (t : Table)
      → Shows b t
      → Shows (start_each E params ms b).1 (table_start params ms t)
  unfolding start_each table_start
  start_each-Shows params [] b t h = h
  start_each-Shows params (m ∷ ms) b t h =
      elim (Bool-cases (is_none_given (apply_params params m).services)) [
        | inl e ↦ λ a. ground (arith, e, h a)
        | inr e ↦
            let b' : B Err = add (own params m) b in
            let rest =
              start_each-Shows params ms b' (assign m.addr (some true) t)
                (own-Shows params m b t h) in
            λ a.
              rw e (
                ap (λ x. shown x a) (and_rest_b (own params m) (start_each E params ms b'))
                ∙ rest a)
      ]

  dial-ShowsAll :
      (addr : Text) (w : World Err) (k : Known)
      → ShowsAll w k
      → ShowsAll (perform (dials addr) w) (table_call {Err = Err} (dials addr) k)
  unfolding perform table_call count
  dial-ShowsAll addr w k h =
      let known = h.shows addr in
      let shows = dial-Shows addr w.b k.table h.shows in
      elim (Option-cases (lookup addr w.b.machines)) [
        | inl e ↦ record {
          shows = λ a. shows a ∙ ground (arith, e, known);
          counts = λ a. ground (arith, e, known, h.counts a);
        }
        | inr (m, e) ↦ record {
          shows = λ a. shows a ∙ ground (arith, e, known);
          counts = λ a. ground (arith, e, known, h.counts a);
        }
      ]

  perform-ShowsAll :
      (c : Call Err) (w : World Err) (k : Known)
      → ShowsAll w k
      → ShowsAll (perform c w) (table_call c k)
  unfolding perform table_call start
  perform-ShowsAll (dials addr) w k h = dial-ShowsAll addr w k h
  perform-ShowsAll (starts params (err e)) w k h = h
  perform-ShowsAll (starts params (ok [])) w k h = record {
    shows = unfold table_start in h.shows;
    counts = h.counts;
  }
  perform-ShowsAll (starts params (ok (m ∷ ms))) w k h = record {
    shows = start_each-Shows params (m ∷ ms) w.b k.table h.shows;
    counts = h.counts;
  }
  perform-ShowsAll (reaps addr) w k h = elim (Bool-cases (k.waiting addr == 0)) [
    | inl e ↦ rw (h.counts addr, e) h
    | inr e ↦
        rw (h.counts addr, e)
          (record {
            shows = reap-Shows addr w.b k.table h.shows;
            counts = λ a. ground (arith, count-remove addr a w.waiting, h.counts a);
          })
  ]

  -- Through any sequence of calls of Dial and Start and of ends of the goroutines of Dial, a B knows the
  -- addresses of a table that the same sequence makes. Dial adds an address that is not known, as one
  -- that is not owned, with a goroutine that waits for its machine to stop; Start adds its machines as
  -- owned in place of those known; and such a goroutine removes what is known at its address. No
  -- other address goes.
  pub perform_all-Shows :
      (cs : List (Call Err)) (w : World Err) (k : Known)
      → ShowsAll w k
      → ShowsAll (perform_all cs w) (table_calls cs k)
  unfolding perform_all table_calls
  perform_all-Shows [] w k h = h
  perform_all-Shows (c ∷ cs) w k h =
      perform_all-Shows cs (perform c w) (table_call c k) (perform-ShowsAll c w k h)
