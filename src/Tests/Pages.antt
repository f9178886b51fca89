-- ===== src/Tests/Pages.antt =====
-- Pages: the theorems of the diagnostic pages, the commands and the settings at concrete inputs.
use bigmachine.Prelude.{
  ℕ, ◌+◌, ◌≡◌, refl, false, none, some, List, [], ◌∷◌, ◌++◌, Text, codes, contains, arith,
}
use bigmachine.Machine.Retry.{ok, err}
use bigmachine.Cluster.Profiles.{ProfileStat, count_of, sum_machine}
use bigmachine.Cluster.Debug.{Polled, index, answered, index-answered}
use bigmachine.Cluster.Profiler.{failed, content_type}
use bigmachine.Cluster.Pages.{Form, profiler_of, serve_profile, serve_profile-failure}
use bigmachine.Commands.Pi.{Worker}
use bigmachine.Ec2.{flatcar}
use bigmachine.Ec2.Config.{Settings, construct, with_settings, construct-ssh_keys}
use bigmachine.Tests.Samples.{SampleErr, sentinel, sample_errors}
use bigmachine.Tests.Instances.{system}

abbrev stat : Text → ℕ → ProfileStat
stat name count = record { name = name; count = count }

abbrev polled : List (Polled SampleErr)
polled =
    (record { addr = codes "a"; reply = ok (stat (codes "heap") 2 ∷ stat (codes "mutex") 1 ∷ []) })
    ∷ (record { addr = codes "b"; reply = err (sentinel 1) })
    ∷ (record { addr = codes "c"; reply = ok (stat (codes "heap") 3 ∷ []) })
    ∷ []

index-answered_example : count_of (codes "heap") (index polled).all ≡ 5
unfolding answered sum_machine
index-answered_example =
    index-answered (codes "heap") polled
      ((ground arith, (ground arith, tt)), ((ground arith, tt), (tt, tt)))

abbrev form : Form
form = record { seconds = 0; debug = 1; gc = 0; machine = [] }

serve_profile-failure_example :
    let r =
      serve_profile sample_errors
        (λ t. t)
        (codes "heap")
        form
        (codes "none")
        (failed (sentinel 3), codes "a:") in
    (r.body ≡ codes "a:" ++ sample_errors.to_text (sentinel 3))
    × (r.status ≡ some 200)
    × (r.kind ≡ content_type (profiler_of (codes "heap") form))
    × (r.is_pprof_error ≡ false)
serve_profile-failure_example =
    serve_profile-failure sample_errors (λ t. t) (codes "heap") form (codes "none") (codes "a:")
      (failed (sentinel 3)) 500 (sample_errors.to_text (sentinel 3)) refl

abbrev worker : ℕ → Worker SampleErr ℕ
worker procs = record { maxprocs = procs; failure = λ i. none; draws = λ i j. i + j }

abbrev settings : Settings
settings = record {
  flavor = codes "flatcar";
  diskspace = 200;
  dataspace = 0;
  sshkey = codes "ssh-rsa A,ssh-rsa B";
  region = none;
}

construct-ssh_keys_example :
    let s = with_settings flatcar settings system in
    (s.ssh_keys ≡ codes "ssh-rsa A" ∷ codes "ssh-rsa B" ∷ [])
    × (s.diskspace ≡ 200)
    × (s.dataspace ≡ 0)
unfolding construct contains
construct-ssh_keys_example =
    construct-ssh_keys sample_errors settings system (codes "ssh-rsa A") (codes "ssh-rsa B" ∷ [])
      (with_settings flatcar settings system) refl (refl, (refl, tt)) refl
