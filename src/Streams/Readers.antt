-- ===== src/Streams/Readers.antt =====
-- internal/ioutil/ioutil.go, rpc/sizereader.go and rpc/fault_injector.go.
--
--
-- A reader is the script of what its reads return, one entry a read; `reads` and `closes` count the
-- calls that it gets.
pub mod Closing
pub mod Faults
use bigmachine.Prelude.{
  ℕ, zero, suc, ◌+◌, ◌≤◌, ◌<◌, ◌≡◌, refl, Bool, true, false, Option, none, some, List, [], ◌∷◌,
  ◌++◌, Text, codes, length, take, if◌then◌else◌, arith, ◌⊎◌,
}
use bigmachine.Errors.{Errors, kind, severity, message, net, retriable}

-- What a Read returns: bytes, and an error or nil.
abbrev pub Read : Type 0 → Type 0
Read Err = Text × Option Err

pub record Reader (Err : Type 0) : Type 0 where
  pub script : List (Read Err)
  pub reads : ℕ
  pub closes : ℕ

module _ {Err : Type 0} where
  -- A reader whose script is over blocks no more: it returns no bytes and no error.
  unfoldable pub read_from : Reader Err → Read Err × Reader Err
  read_from r = elim r.script [
    | [] ↦ (([], none), record r { reads = suc r.reads })
    | x ∷ xs ↦ (x, record r { script = xs; reads = suc r.reads })
  ]

  unfoldable pub close : Reader Err → Reader Err
  close r = record r { closes = suc r.closes }

-- closingReader.
pub record ClosingReader (Err : Type 0) : Type 0 where
  pub rc : Reader Err
  pub closed : Bool

-- sizeTrackingReader.
pub record SizeReader (Err : Type 0) : Type 0 where
  pub reader : Reader Err
  pub n : ℕ

-- rpcFaultInjector; `is_open` tells that `in` is not nil, and `source` is the reader that it is or was.
pub record FaultInjector (Err : Type 0) : Type 0 where
  pub label : Text
  pub source : Reader Err
  pub is_open : Bool
  pub error : Option Err

-- The draw of a Read: below 0.005, below 0.01 with the number of bytes that are kept, or none.
pub data Draw : Type 0 where
  drop_message : Draw
  truncate : ℕ → Draw
  pass : Draw

module _ (E : Errors) where
  open E use {Err, make, same, eof}

  abbrev pub is_eof : Option Err → Bool
  is_eof none = false
  is_eof (some e) = same e eof

  unfoldable pub read_closing : ClosingReader Err → Read Err × ClosingReader Err
  unfolding read_from close
  read_closing c =
      let x = read_from c.rc in
      if c.closed
      then (([], some eof), c)
      else if is_eof x.0.1
      then (x.0, record { rc = close x.1; closed = true })
      else (x.0, record c { rc = x.1 })

  unfoldable pub read_sized : SizeReader Err → Read Err × SizeReader Err
  unfolding read_from
  read_sized s =
      let x = read_from s.reader in (x.0, record { reader = x.1; n = s.n + length x.0.0 })

  abbrev pub injected : Text → Text → Err
  injected label what = make (kind net ∷ severity retriable ∷ message (label ++ what) ∷ [])

  -- rpcFaultInjector.error.
  unfoldable pub fail_with : Err → FaultInjector Err → FaultInjector Err
  unfolding close
  fail_with e r = record r { source = close r.source; is_open = false; error = some e }

  -- The draw of an open injector.
  unfoldable pub read_drawn : Draw → FaultInjector Err → Read Err × FaultInjector Err
  unfolding fail_with read_from
  read_drawn drop_message r =
      let e = injected r.label (codes ": test-induced message drop") in
      (([], some e), fail_with e r)
  read_drawn (truncate kept) r =
      let x = read_from r.source in
      let e = injected r.label (codes ": test-induced message truncation") in
      ((take kept x.0.0, some e), fail_with e (record r { source = x.1 }))
  read_drawn pass r = let x = read_from r.source in (x.0, record r { source = x.1 })

  unfoldable pub read_faulty : Draw → FaultInjector Err → Read Err × FaultInjector Err
  unfolding read_drawn
  read_faulty draw r = if r.is_open then read_drawn draw r else (([], r.error), r)

  unfoldable pub close_faulty : FaultInjector Err → FaultInjector Err
  unfolding close
  close_faulty r = if r.is_open then record r { source = close r.source } else r

  -- A sequence of reads by the caller: what they return, and the reader after them.
  unfoldable pub read_all : ℕ → ClosingReader Err → List (Read Err) × ClosingReader Err
  unfolding read_closing
  read_all zero c = ([], c)
  read_all (suc n) c = let x = read_closing c in let rest = read_all n x.1 in (x.0 ∷ rest.0, rest.1)

  unfoldable pub read_all_sized : ℕ → SizeReader Err → List (Read Err) × SizeReader Err
  unfolding read_sized
  read_all_sized zero s = ([], s)
  read_all_sized (suc n) s =
      let x = read_sized s in let rest = read_all_sized n x.1 in (x.0 ∷ rest.0, rest.1)

  unfoldable pub read_draws : List Draw → FaultInjector Err → List (Read Err) × FaultInjector Err
  unfolding read_faulty
  read_draws [] r = ([], r)
  read_draws (d ∷ ds) r =
      let x = read_faulty d r in let rest = read_draws ds x.1 in (x.0 ∷ rest.0, rest.1)
