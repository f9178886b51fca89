-- ===== src/Streams/Readers/Closing.antt =====
-- internal/ioutil/ioutil.go and rpc/sizereader.go: sequences of reads.
use bigmachine.Prelude.{
  ℕ, zero, suc, ◌+◌, ◌≡◌, refl, Bool, false, ◌||◌, List, [], ◌∷◌, length, if◌then◌else◌, arith,
}
use bigmachine.Errors.{Errors, Laws}
use bigmachine.Streams.Readers.{
  Read, read_from, close, ClosingReader, is_eof, read_closing, read_all, SizeReader, read_sized,
  read_all_sized,
}

module _ (E : Errors) where
  open E use {Err}

  unfoldable pub any_eof : List (Read Err) → Bool
  any_eof [] = false
  any_eof (x ∷ xs) = is_eof E x.1 || any_eof xs

  unfoldable pub total : List (Read Err) → ℕ
  total [] = 0
  total (x ∷ xs) = length x.0 + total xs

  abbrev pub ClosedOnce : ClosingReader Err → Type 0
  ClosedOnce c = c.rc.closes ≡ (if c.closed then 1 else 0)

  -- The size that is tracked grows by the bytes that the reads return.
  pub read_all_sized-total :
      (n : ℕ) (s : SizeReader Err)
      → (read_all_sized E n s).1.n ≡ s.n + total (read_all_sized E n s).0
  unfolding read_all_sized total read_sized
  read_all_sized-total zero s = omega arith
  read_all_sized-total (suc n) s = omega (arith, read_all_sized-total n (read_sized E s).1)

module _ (E : Errors) (L : Laws E) where
  open E use {Err, eof}

  read_closing-ClosedOnce :
      (c : ClosingReader Err)
      → ClosedOnce E c
      → ClosedOnce E (read_closing E c).1
        × ((read_closing E c).1.closed ≡ (c.closed || is_eof E (read_closing E c).0.1))
  unfolding read_closing read_from close
  read_closing-ClosedOnce c h = (ground arith, ground (arith, (L.same_iff eof eof).1 refl))

  -- After any number of reads the underlying reader is closed once if one of them returned io.EOF,
  -- and otherwise not at all.
  pub read_all-ClosedOnce :
      (n : ℕ) (c : ClosingReader Err)
      → ClosedOnce E c
      → let done = read_all E n c in
        ClosedOnce E done.1 × (done.1.closed ≡ (c.closed || any_eof E done.0))
  unfolding read_all any_eof
  read_all-ClosedOnce zero c h = (h, ground arith)
  read_all-ClosedOnce (suc n) c h =
      let step = read_closing-ClosedOnce c h in
      let rest = read_all-ClosedOnce n (read_closing E c).1 step.0 in
      (rest.0, ground (arith, step.1, rest.1))
