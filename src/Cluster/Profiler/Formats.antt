-- ===== src/Cluster/Profiler/Formats.antt =====
-- profile.go: the two formats of a profile, and the order of the machines in the one that is read.
use bigmachine.Prelude.{
  ◌<◌, ◌≡◌, refl, text_eq_refl, insert, insert_by, true, Option, none, List, [], ◌∷◌, ◌++◌, Text,
  codes, lookup, arith, Reordered, sort_by, sort_by-Reordered,
}
use bigmachine.Errors.{Errors}
use bigmachine.Machine.Retry.{Result, ok}
use bigmachine.Cluster.Profiler.{
  Buffer, Profiler, Source, collect, close_at, finish, append_profile, write_text, write_all,
  marshal_all, content_type, octet_stream,
}

module _ (E : Errors) (Prof : Type 0) where
  open E use {Err}

  -- What Marshal comes to does not depend on the order of Machines(), which ranges over a map.
  pub marshal_all-Reordered :
      (merge : List Prof → Result Err Prof) (print : Prof → Text × Option Err) (p : Profiler)
      (ms ns : List Text) (sources : List (Source Err Prof))
      → Reordered (λ a. a) ms ns
      → marshal_all E Prof merge print p ms sources ≡ marshal_all E Prof merge print p ns sources
  unfolding marshal_all write_all
  marshal_all-Reordered merge print p ms ns sources r = rw (sort_by-Reordered (λ a. a) ms ns r) refl

  -- A CPU profile with debug output is announced as a binary stream and written as a text that starts
  -- with the name of its machine: here the profile of a single machine.
  pub marshal_all-content_type :
      (merge : List Prof → Result Err Prof) (print : Prof → Text × Option Err) (p : Profiler)
      (a : Text) (b : Buffer Err Prof)
      → p.which ≡ codes "profile"
      → 0 < p.debug
      → b.copy.1 ≡ none
      → (content_type p ≡ octet_stream)
        × ((marshal_all E Prof merge print p
              (a ∷ [])
              (record { addr = a; running = true; reply = ok (ok b) } ∷ [])).1.out
            ≡ ((a ++ codes ":" ++ 10 ∷ []) ++ b.copy.0) ++ 10 ∷ [])
  unfolding content_type marshal_all write_all write_text append_profile close_at finish collect
      lookup insert sort_by insert_by
  marshal_all-content_type merge print p a b hw hd hc =
      (ground (arith, hw, hd), ground (arith, hw, hd, hc, text_eq_refl a))
