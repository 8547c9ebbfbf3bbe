-- ===== src/Engine/Record/Scan.antt =====
-- What `scanFile` does with a file: its loop without the fuel, and its run over encoded records.
use gokv.Prelude.{
  ℕ, zero, suc, ◌+◌, ◌≤◌, ◌<◌, ◌≡◌, refl, ◌∙◌, Bool, true, false, none, some, List, [], ◌∷◌, ◌++◌,
  arith, length, take, drop, slice, All, append_assoc, length-take, length-drop, drop-append, inl,
  inr, Option-cases, if◌then◌else◌,
}
use gokv.Prelude.Bytes.{un_le}
use gokv.Engine.Record.{
  Checksum, Record, header_size, encode, IsStorable, decode_record, next_record, scan_loop,
  scan_file, ok,
}
use gokv.Engine.Record.RoundTrip.{next_record-encode}

module _ ⦃c : Checksum⦄ where
  -- What the scanner hands on is a whole record at the front of the rest of the file.
  pub next_record_sound :
      (rest raw : List ℕ) (r : Record)
      → next_record rest ≡ some (raw, r)
      → (decode_record raw ≡ ok r)
        × (take (length raw) rest ≡ raw)
        × (header_size < length raw)
        × (length raw ≤ length rest)
  unfolding next_record
  next_record_sound rest raw r h =
      let key_len = un_le (slice 21 25 rest) in
      let size = header_size + key_len + un_le (slice 25 29 rest) in
      ground (arith, length-take size rest)

  -- The bytes of records, one behind the other.
  unfoldable pub encodes : List Record → List ℕ
  encodes [] = []
  encodes (r ∷ rs) = encode r ++ encodes rs

  module _ {ℓ} {S : Type ℓ} (fn : ℕ → List ℕ → Record → S → S × Bool) where
    -- The callback over a list of records, until it fails.
    unfoldable pub each : ℕ → List Record → S → S × ℕ × Bool
    each pos [] s = (s, pos, false)
    each pos (r ∷ rs) s =
        let (s', failed) = fn pos (encode r) r s in
        let next = each (pos + length (encode r)) rs s' in if failed then (s', pos, true) else next

    -- One round of the loop.
    round : (ℕ → List ℕ → S → S × ℕ × Bool) → ℕ → List ℕ → S → S × ℕ × Bool
    round next pos rest s = elim (next_record rest) [
      | none ↦ (s, pos, false)
      | some (raw, r) ↦
          let (s', failed) = fn pos raw r s in
          let later = next (pos + length raw) (drop (length raw) rest) s' in
          if failed then (s', pos, true) else later
    ]

    scan_loop-round :
        (f pos : ℕ) (rest : List ℕ) (s : S)
        → scan_loop fn (suc f) pos rest s ≡ round (scan_loop fn f) pos rest s
    unfolding scan_loop round
    scan_loop-round f pos rest s = refl

    round-some :
        (next : ℕ → List ℕ → S → S × ℕ × Bool) (pos : ℕ) (rest : List ℕ) (s : S) (raw : List ℕ)
        (r : Record)
        → next_record rest ≡ some (raw, r)
        → round next pos rest s ≡ (
            if (fn pos raw r s).1
            then ((fn pos raw r s).0, pos, true)
            else next (pos + length raw) (drop (length raw) rest) (fn pos raw r s).0)
    unfolding round
    round-some next pos rest s raw r e = rw (e, round)

    round-none :
        (next : ℕ → List ℕ → S → S × ℕ × Bool) (pos : ℕ) (rest : List ℕ) (s : S)
        → next_record rest ≡ none
        → round next pos rest s ≡ (s, pos, false)
    unfolding round
    round-none next pos rest s e = rw (e, round)

    scan_loop_fuel :
        (f g pos : ℕ) (rest : List ℕ) (s : S)
        → length rest < f
        → length rest < g
        → scan_loop fn f pos rest s ≡ scan_loop fn g pos rest s
    scan_loop_fuel zero g pos rest s hf hg = absurd (omega arith)
    scan_loop_fuel (suc f) zero pos rest s hf hg = absurd (omega arith)
    scan_loop_fuel (suc f) (suc g) pos rest s hf hg = elim (Option-cases (next_record rest)) [
      | inl e ↦ rw (
        scan_loop-round f,
        scan_loop-round g,
        round-none _ pos rest s e,
        round-none _ pos rest s e,
      )
      | inr ((raw, r), e) ↦
          let (_, _, pos_size, fits) = next_record_sound rest raw r e in
          rw (
            scan_loop-round f,
            scan_loop-round g,
            round-some (scan_loop fn f) pos rest s raw r e,
            round-some (scan_loop fn g) pos rest s raw r e,
            scan_loop_fuel f g (pos + length raw) (drop (length raw) rest) (fn pos raw r s).0
                (omega (arith, length-drop (length raw) rest))
                (omega (arith, length-drop (length raw) rest)),
          )
    ]

    -- `scanFile` from an offset, and the equation of its loop: the fuel is never used up.
    pub scan_from : ℕ → List ℕ → S → S × ℕ × Bool
    scan_from pos rest s = scan_loop fn (suc (length rest)) pos rest s

    pub scan_from-step :
        (pos : ℕ) (rest : List ℕ) (s : S) (raw : List ℕ) (r : Record)
        → next_record rest ≡ some (raw, r)
        → scan_from pos rest s ≡ (
            if (fn pos raw r s).1
            then ((fn pos raw r s).0, pos, true)
            else scan_from (pos + length raw) (drop (length raw) rest) (fn pos raw r s).0)
    unfolding scan_from
    scan_from-step pos rest s raw r e =
        let (_, _, pos_size, fits) = next_record_sound rest raw r e in
        rw (
          scan_loop-round (length rest),
          round-some (scan_loop fn (length rest)) pos rest s raw r e,
          scan_loop_fuel (length rest) (suc (length (drop (length raw) rest))) (pos + length raw)
              (drop (length raw) rest) (fn pos raw r s).0
              (omega (arith, length-drop (length raw) rest)) (omega arith),
        )

    pub scan_from-stop :
        (pos : ℕ) (rest : List ℕ) (s : S)
        → next_record rest ≡ none
        → scan_from pos rest s ≡ (s, pos, false)
    unfolding scan_from
    scan_from-stop pos rest s e =
        scan_loop-round (length rest) pos rest s ∙ round-none _ pos rest s e

    scan_from-encodes :
        (rs : List Record) (tail : List ℕ) (pos : ℕ) (s : S)
        → All IsStorable rs
        → next_record tail ≡ none
        → scan_from pos (encodes rs ++ tail) s ≡ each pos rs s
    unfolding encodes each
    scan_from-encodes [] tail pos s hs ht = scan_from-stop pos tail s ht
    scan_from-encodes (r ∷ rs) tail pos s hs ht =
        let front = next_record-encode r hs.0 (encodes rs ++ tail) in
        rw append_assoc (
          scan_from-step pos (encode r ++ (encodes rs ++ tail)) s (encode r) r front
          ∙ rw (drop-append (length (encode r)) (encode r) (encodes rs ++ tail) refl) (
              rw (
                scan_from-encodes rs tail (pos + length (encode r)) (fn pos (encode r) r s).0 hs.1
                  ht)))

    -- On a file of storable records with a tail that holds no record, `scan_file` hands its
    -- callback the records in order, each at its offset, until the callback fails.
    pub scan_file-encodes :
        (rs : List Record) (tail : List ℕ) (s : S)
        → All IsStorable rs
        → next_record tail ≡ none
        → scan_file fn (encodes rs ++ tail) s ≡ each 0 rs s
    unfolding scan_file scan_from
    scan_file-encodes rs tail s hs ht = unfold scan_from in scan_from-encodes rs tail 0 s hs ht
