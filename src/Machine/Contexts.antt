-- ===== src/Machine/Contexts.antt =====
-- machine.go: the contexts that are tied to a machine's lifetime (`context`, `setState`).
use bigmachine.Prelude.{
  ℕ, ◌<◌, ◌≡◌, ◌∙◌, Bool, true, false, ◌||◌, ◌&&◌, not, List, [], ◌∷◌, ◌==◌, ==_refl, Below,
  contains, contains-append, contains-remove, contains-Below, arith,
}
use bigmachine.Machine.States.{stopped, state_leb}
use bigmachine.Machine.{Machine, context}
use bigmachine.Machine.Waiting.{
  Op, setting_state, setting_error, waiting, deriving_context, releasing, recording, apply,
  interfere,
}

module _ {Err : Type 0} where
  abbrev pub stops : Op Err → Bool
  stops (setting_state s) = state_leb stopped s
  stops (setting_error e) = true
  stops _ = false

  abbrev pub releases : ℕ → Op Err → Bool
  releases c (releasing d) = d == c
  releases c _ = false

  -- Some operation stops the machine before any releases the context.
  unfoldable pub canceled_by : ℕ → List (Op Err) → Bool
  canceled_by c [] = false
  canceled_by c (o ∷ os) = stops o || (not (releases c o) && canceled_by c os)

  apply-canceled :
      (c : ℕ) (m : Machine Err) (o : Op Err)
      → c < m.fresh
      → (contains (apply o m).canceled c
          ≡ (contains m.canceled c || (contains m.cancelers c && stops o)))
        × (contains (apply o m).cancelers c
            ≡ (contains m.cancelers c && (not (stops o) && not (releases c o))))
        × (c < (apply o m).fresh)
  unfolding apply contains
  apply-canceled c m (setting_state t) h = ground (arith, contains-append m.cancelers m.canceled c)
  apply-canceled c m (setting_error e) h = ground (arith, contains-append m.cancelers m.canceled c)
  apply-canceled c m (waiting t) h = ground arith
  apply-canceled c m deriving_context h = ground arith
  apply-canceled c m (releasing d) h = ground (arith, contains-remove d c m.cancelers)
  apply-canceled c m (recording a b d) h = ground arith

  interfere-canceled :
      (c : ℕ) (m : Machine Err) (os : List (Op Err))
      → c < m.fresh
      → contains (interfere os m).canceled c
        ≡ (contains m.canceled c || (contains m.cancelers c && canceled_by c os))
  unfolding interfere canceled_by
  interfere-canceled c m [] h = ground arith
  interfere-canceled c m (o ∷ os) h =
      let k = apply-canceled c m o h in ground (arith, interfere-canceled c (apply o m) os k.2, k)

  -- The context that `context` derives is canceled by the machine, after any later operations,
  -- exactly when the machine was stopped at the call or some operation stopped it before the
  -- context was released. The contexts known so far are taken to be below the next identifier.
  pub context-canceled :
      (m : Machine Err) (os : List (Op Err))
      → Below m.fresh m.canceled
      → Below m.fresh m.cancelers
      → contains (interfere os (context m).1).canceled (context m).0
        ≡ (state_leb stopped m.state || canceled_by (context m).0 os)
  context-canceled m os h k =
      interfere-canceled (context m).0 (context m).1 os (unfold context in ground arith)
      ∙ unfold context contains in
        ground (
          arith,
          contains-Below m.fresh m.fresh m.canceled h,
          contains-Below m.fresh m.fresh m.cancelers k,
          ==_refl m.fresh,
        )
