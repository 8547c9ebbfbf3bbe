-- ===== src/Engine/Record/Parse.antt =====
-- What any bytes are for the scanner: the encodings of records, and a tail.
use gokv.Prelude.{
  ℕ, zero, suc, ◌+◌, ◌-◌, ◌≤◌, ◌<◌, ◌≡◌, refl, ap, sym, ◌∙◌, ◌||◌, none, some, Option, List, [],
  ◌∷◌, ◌++◌, arith, length, take, drop, slice, slice-take, All, All-take, All-drop, length-take,
  length-drop, take-append-drop, drop-drop, Option-cases, inl, inr, append_assoc, if◌then◌else◌,
  ltb, ◌==◌, Bool, true, false,
}
use gokv.Prelude.Bytes.{le, un_le, IsByte, le-un_le}
use gokv.Engine.Record.{
  Checksum, Record, header_size, max_key_size, max_value_size, encode, body, IsStorable,
  decode_record, next_record, ok, err, Decoded,
}
use gokv.Engine.Record.Scan.{encodes, next_record_sound}
use gokv.Engine.Record.Accepted.{decoded_from, decode_record-fields}

seam : (a b : ℕ) (xs : List ℕ) → a ≤ b → slice a b xs ++ drop b xs ≡ drop a xs
seam a b xs h =
    let e : a + (b - a) ≡ b = omega arith in
    ap (λ z. slice a b xs ++ drop z xs) (sym e)
    ∙ rw (drop-drop a (b - a) xs) (take-append-drop (b - a) (drop a xs))

-- A field of `n` bytes, read and written again.
field_again :
    (a n : ℕ) (xs : List ℕ)
    → All IsByte xs
    → a + n ≤ length xs
    → le n (un_le (slice a (a + n) xs)) ≡ slice a (a + n) xs
field_again a n xs h fits =
    let size : length (slice a (a + n) xs) ≡ n =
      omega (arith, length-take (a + n - a) (drop a xs), length-drop a xs) in
    ap (λ z. le z (un_le (slice a (a + n) xs))) (sym size)
    ∙ le-un_le (slice a (a + n) xs) (All-take IsByte _ (drop a xs) (All-drop IsByte a xs h))

le-one : (v : ℕ) → v < 256 → v ∷ [] ≡ le 1 v
unfolding le
le-one v h = ap (λ x. x ∷ []) (omega arith)

module _ ⦃c : Checksum⦄ where
  sum_holds :
      (buf : List ℕ) (r : Record)
      → decode_record buf ≡ ok r
      → un_le (slice 0 4 buf) ≡ c.sum (drop 4 buf)
  unfolding decode_record
  sum_holds buf r h = ground arith

  -- Encoding what bytes were decoded to gives the bytes back.
  pub encode-decode :
      (buf : List ℕ) (r : Record) → decode_record buf ≡ ok r → All IsByte buf → encode r ≡ buf
  encode-decode buf r h bytes =
      let (long, total, ts, seq, flags, key, value) = decoded_from buf r h in
      let (_, _, small, key_len, value_len) = decode_record-fields buf r h bytes in
      let kl = un_le (slice 21 25 buf) in
      let payload : r.key ++ r.value ≡ drop 29 buf =
        rw (key, value) (seam 29 (29 + kl) buf (omega arith)) in
      let f5 : le 4 (length r.value) ≡ slice 25 29 buf =
        rw value_len (field_again 25 4 buf bytes (omega arith)) in
      let f4 : le 4 (length r.key) ≡ slice 21 25 buf =
        rw key_len (field_again 21 4 buf bytes (omega arith)) in
      let f3 : r.flags ∷ [] ≡ slice 20 21 buf =
        le-one r.flags small ∙ ap (le 1) flags ∙ field_again 20 1 buf bytes (omega arith) in
      let f2 : le 8 r.seq ≡ slice 12 20 buf =
        ap (le 8) seq ∙ field_again 12 8 buf bytes (omega arith) in
      let f1 : le 8 r.ts ≡ slice 4 12 buf =
        ap (le 8) ts ∙ field_again 4 8 buf bytes (omega arith) in
      let from25 : le 4 (length r.value) ++ (r.key ++ r.value) ≡ drop 25 buf =
        rw (f5, payload) (seam 25 29 buf (omega arith)) in
      let from21 : le 4 (length r.key) ++ (le 4 (length r.value) ++ (r.key ++ r.value))
          ≡ drop 21 buf =
        rw (f4, from25) (seam 21 25 buf (omega arith)) in
      let from20 : (r.flags ∷ [])
            ++ (le 4 (length r.key) ++ (le 4 (length r.value) ++ (r.key ++ r.value)))
          ≡ drop 20 buf =
        ap (λ x. x ++ (le 4 (length r.key) ++ (le 4 (length r.value) ++ (r.key ++ r.value)))) f3
        ∙ rw from21 (seam 20 21 buf (omega arith)) in
      let from12 : le 8 r.seq
            ++ (r.flags ∷ (le 4 (length r.key) ++ (le 4 (length r.value) ++ (r.key ++ r.value))))
          ≡ drop 12 buf =
        ap (λ x. le 8 r.seq ++ x) from20 ∙ rw f2 (seam 12 20 buf (omega arith)) in
      let from4 : body r ≡ drop 4 buf =
        ap (λ x. le 8 r.ts ++ x) from12 ∙ rw f1 (seam 4 12 buf (omega arith)) in
      let f0 : le 4 (c.sum (body r)) ≡ slice 0 4 buf =
        ap (λ x. le 4 (c.sum x)) from4
        ∙ ap (le 4) (sym (sum_holds buf r h))
        ∙ field_again 0 4 buf bytes (omega arith) in
      ap (λ x. le 4 (c.sum (body r)) ++ x) from4
      ∙ ap (λ x. x ++ drop 4 buf) f0
      ∙ seam 0 4 buf (omega arith)

  abbrev found : List ℕ → Decoded → Option (List ℕ × Record)
  found buf (ok r) = some (buf, r)
  found buf (err e) = none

  passed :
      (a b d : Bool) (o : Decoded) (buf raw : List ℕ) (r : Record)
      → (if a then none else if b then none else if d then none else found buf o) ≡ some (raw, r)
      → (b ≡ false) × (d ≡ false) × (buf ≡ raw)
  passed true b d o buf raw r h = absurd cc
  passed false true d o buf raw r h = absurd cc
  passed false false true o buf raw r h = absurd cc
  passed false false false (err e) buf raw r h = absurd cc
  passed false false false (ok q) buf raw r h = (refl, refl, cc)

  -- The lengths that `scanFile` lets through.
  next_record-limits :
      (rest raw : List ℕ) (r : Record)
      → next_record rest ≡ some (raw, r)
      → let kl = un_le (slice 21 25 rest) in
        let vl = un_le (slice 25 29 rest) in
        (0 < kl)
        × (kl ≤ max_key_size)
        × (vl ≤ max_value_size)
        × (raw ≡ take (header_size + kl + vl) rest)
        × (header_size + kl + vl ≤ length rest)
  unfolding next_record
  next_record-limits rest raw r h =
      let kl = un_le (slice 21 25 rest) in
      let vl = un_le (slice 25 29 rest) in
      let n = header_size + kl + vl in
      let (bounds, whole, same) =
        passed (ltb (length rest) header_size)
          (kl == 0 || ltb max_key_size kl || ltb max_value_size vl) (ltb (length rest) n)
          (decode_record (take n rest)) (take n rest) raw r h in
      (
        ground (arith, bounds),
        ground (arith, bounds),
        ground (arith, bounds),
        sym same,
        ground (arith, whole),
      )

  -- One record off the front of any bytes.
  front_record :
      (rest raw : List ℕ) (r : Record)
      → next_record rest ≡ some (raw, r)
      → All IsByte rest
      → IsStorable r
        × (rest ≡ encode r ++ drop (length raw) rest)
        × (0 < length raw)
        × (length raw ≤ length rest)
  front_record rest raw r h bytes =
      let (decoded, front, big, inside) = next_record_sound rest raw r h in
      let (key_pos, key_fits, value_fits, cut, room) = next_record-limits rest raw r h in
      let kl = un_le (slice 21 25 rest) in
      let vl = un_le (slice 25 29 rest) in
      let n = header_size + kl + vl in
      let raw_bytes : All IsByte raw = rw cut (All-take IsByte n rest bytes) in
      let (ts, seq, flags, key, value) = decode_record-fields raw r decoded raw_bytes in
      let same_key : un_le (slice 21 25 raw) ≡ kl =
        rw cut (ap un_le (slice-take 21 25 n rest (omega arith) (omega arith) room)) in
      let same_value : un_le (slice 25 29 raw) ≡ vl =
        rw cut (ap un_le (slice-take 25 29 n rest (omega arith) (omega arith) room)) in
      (
        record {
          ts_fits = ts;
          seq_fits = seq;
          flags_fits = flags;
          key_pos = omega (arith, key, same_key, key_pos);
          key_fits = omega (arith, key, same_key, key_fits);
          value_fits = omega (arith, value, same_value, value_fits);
        },
        sym (take-append-drop (length raw) rest)
            ∙ ap (λ x. x ++ drop (length raw) rest)
                (front ∙ sym (encode-decode raw r decoded raw_bytes)),
        omega (arith, big),
        inside,
      )

  -- The records of a file, as its scan finds them, and what stops it.
  pub record Parsed (b : List ℕ) : Type 0 where
    pub recs : List Record
    pub tail : List ℕ
    pub bytes : b ≡ encodes recs ++ tail
    pub storable : All IsStorable recs
    pub torn : next_record tail ≡ none

  parse_fuel : (f : ℕ) (b : List ℕ) → length b < f → All IsByte b → Parsed b
  unfolding encodes
  parse_fuel zero b h bytes = absurd (omega arith)
  parse_fuel (suc f) b h bytes = elim (Option-cases (next_record b)) [
    | inl e ↦ record { recs = []; tail = b; bytes = refl; storable = tt; torn = e }
    | inr ((raw, r), e) ↦
        let (storable, split, pos, fits) = front_record b raw r e bytes in
        let rest =
          parse_fuel f (drop (length raw) b)
            (omega (arith, h, pos, fits, length-drop (length raw) b))
            (All-drop IsByte (length raw) b bytes) in
        record {
          recs = r ∷ rest.recs;
          tail = rest.tail;
          bytes =
              split
              ∙ ap (λ x. encode r ++ x) rest.bytes
              ∙ sym (append_assoc (encode r) (encodes rest.recs) rest.tail);
          storable = (storable, rest.storable);
          torn = rest.torn;
        }
  ]

  -- Any bytes are the encodings of storable records and a tail that holds no record.
  pub parse : (b : List ℕ) → All IsByte b → Parsed b
  parse b bytes = parse_fuel (suc (length b)) b (omega arith) bytes
