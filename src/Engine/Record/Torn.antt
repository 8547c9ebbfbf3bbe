-- ===== src/Engine/Record/Torn.antt =====
-- A record cut short by a crash: the scanner stops in front of it.
use gokv.Prelude.{
  ℕ, ◌+◌, ◌≤◌, ◌<◌, ◌≡◌, refl, ap, Option, none, List, ◌∷◌, [], ◌++◌, append-nil, arith, length,
  slice, All, length-append, slice-append_le, ltb, lt→ltb, Bool, if◌then◌else◌, Bool-cases, true,
  false, inl, inr,
}
use gokv.Prelude.Bytes.{un_le}
use gokv.Engine.Record.{Checksum, Record, header_size, encode, IsStorable, next_record, scan_file}
use gokv.Engine.Record.Layout.{length-encode}
use gokv.Engine.Record.RoundTrip.{key_len_read, value_len_read}
use gokv.Engine.Record.Scan.{encodes, each, scan_file-encodes}

none_branches {ℓ} :
    {A : Type ℓ} (a b : Bool)
    → ◌≡◌ {A = Option A} (if a then none else if b then none else none) none
none_branches true b = refl
none_branches false true = refl
none_branches false false = refl

module _ ⦃c : Checksum⦄ where
  length_front :
      (r : Record) (front : List ℕ) (x : ℕ) (back : List ℕ)
      → encode r ≡ front ++ (x ∷ back)
      → length front < header_size + length r.key + length r.value
  length_front r front x back e =
      omega (arith, length-encode r, ap length e, length-append front (x ∷ back))

  next_record_short : (front : List ℕ) → length front < header_size → next_record front ≡ none
  unfolding next_record
  next_record_short front h = ground arith

  next_record_cut :
      (front : List ℕ) (k v : ℕ)
      → un_le (slice 21 25 front) ≡ k
      → un_le (slice 25 29 front) ≡ v
      → length front < header_size + k + v
      → next_record front ≡ none
  unfolding next_record
  next_record_cut front k v hk hv h = rw (hk, hv, lt→ltb _ _ h) (none_branches _ _)

  -- A proper prefix of an encoded record is no record.
  pub next_record-torn :
      (r : Record) (front : List ℕ) (x : ℕ) (back : List ℕ)
      → IsStorable r
      → encode r ≡ front ++ (x ∷ back)
      → next_record front ≡ none
  next_record-torn r front x back h e = elim (Bool-cases (ltb (length front) header_size)) [
    | inl less ↦ next_record_short front (ground arith)
    | inr more ↦
        let long : header_size ≤ length front = ground arith in
        next_record_cut front (length r.key) (length r.value)
          (rw (← slice-append_le 21 25 front (x ∷ back) (omega arith) (omega arith), ← e)
            (rw append-nil at (key_len_read r h [])))
          (rw (← slice-append_le 25 29 front (x ∷ back) (omega arith) (omega arith), ← e)
            (rw append-nil at (value_len_read r h [])))
          (length_front r front x back e)
  ]

  pub next_record-nil : next_record [] ≡ none
  next_record-nil = next_record_short [] (omega arith)

  -- A file of storable records ends in a proper prefix of one more: `scan_file` hands its
  -- callback exactly the whole records, each at its offset.
  pub scan_file-torn {ℓ} :
      {S : Type ℓ} (fn : ℕ → List ℕ → Record → S → S × Bool) (rs : List Record) (r : Record)
      (front : List ℕ) (x : ℕ) (back : List ℕ) (s : S)
      → All IsStorable rs
      → IsStorable r
      → encode r ≡ front ++ (x ∷ back)
      → scan_file fn (encodes rs ++ front) s ≡ each fn 0 rs s
  scan_file-torn fn rs r front x back s hs h e =
      scan_file-encodes fn rs front s hs (next_record-torn r front x back h e)
