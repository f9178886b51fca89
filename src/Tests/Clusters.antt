-- ===== src/Tests/Clusters.antt =====
-- Clusters: the theorems of Cluster at concrete inputs.
use bigmachine.Prelude.{ℕ, refl, true, List, [], ◌∷◌, codes, insert}
use bigmachine.Cluster.{B, Param, services, environ, apply_params, start_each, own}
use bigmachine.Cluster.Starting.{Started, start_each-Started}
use bigmachine.Cluster.Profiles.{ProfileStat}
use bigmachine.Tests.Samples.{SampleErr, sample_errors, new_machine}

abbrev params : List Param
params =
    services ((codes "PI", 1) ∷ [])
    ∷ environ (codes "A=1" ∷ [])
    ∷ services ((codes "PI", 2) ∷ (codes "Sum", 3) ∷ [])
    ∷ environ (codes "B=2" ∷ [])
    ∷ []

abbrev b : B SampleErr
b = record { name = []; machines = []; driver = true; running = true }

start_each-Started_example :
    Started sample_errors params
      (new_machine ∷ new_machine ∷ [])
      b
      (own params new_machine ∷ own params new_machine ∷ [])
      (start_each sample_errors params (new_machine ∷ new_machine ∷ []) b).1
unfolding start_each apply_params insert
start_each-Started_example =
    start_each-Started sample_errors params (new_machine ∷ new_machine ∷ []) b
      (own params new_machine ∷ own params new_machine ∷ []) refl

abbrev heap : ℕ → ProfileStat
heap n = record { name = codes "heap"; count = n }
