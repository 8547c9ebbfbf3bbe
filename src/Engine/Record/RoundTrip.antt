-- ===== src/Engine/Record/RoundTrip.antt =====
-- `decodeRecord` after `appendRecord`, and the scanner's next record.
use gokv.Prelude.{
  ℕ, ◌+◌, ◌≡◌, refl, List, [], ◌∷◌, ◌++◌, arith, length, drop, slice, length-append, take-append,
  drop-append, drop-drop, append-nil, ap, ◌∙◌, some,
}
use gokv.Prelude.Bytes.{le, un_le, un_le-le}
use gokv.Engine.Record.{
  Checksum, Record, header_size, body, encode, IsStorable, decode_record, next_record, ok,
}
use gokv.Engine.Record.Layout.{
  length-encode, sum_field, ts_field, seq_field, flags_field, key_len_field, value_len_field,
}
use native.Mathlib.Nat.{add-sub_cancel_left}

pub un_le_one : (b : ℕ) → un_le (b ∷ []) ≡ b
unfolding un_le
un_le_one b = omega arith

module _ ⦃c : Checksum⦄ (r : Record) (h : IsStorable r) where
  -- The length fields, read from the front of any buffer that starts with the record.
  pub key_len_read : (rest : List ℕ) → un_le (slice 21 25 (encode r ++ rest)) ≡ length r.key
  key_len_read rest =
      rw (key_len_field r rest) (un_le-le 4 (length r.key) (omega (arith, h.key_fits)))

  pub value_len_read : (rest : List ℕ) → un_le (slice 25 29 (encode r ++ rest)) ≡ length r.value
  value_len_read rest =
      rw (value_len_field r rest) (un_le-le 4 (length r.value) (omega (arith, h.value_fits)))

  -- The fields of a buffer decide what it decodes to.
  decode_of_fields :
      (buf : List ℕ)
      → un_le (slice 21 25 buf) ≡ length r.key
      → un_le (slice 25 29 buf) ≡ length r.value
      → length buf ≡ header_size + length r.key + length r.value
      → un_le (slice 0 4 buf) ≡ c.sum (drop 4 buf)
      → un_le (slice 4 12 buf) ≡ r.ts
      → un_le (slice 12 20 buf) ≡ r.seq
      → un_le (slice 20 21 buf) ≡ r.flags
      → slice header_size (header_size + length r.key) buf ≡ r.key
      → drop (header_size + length r.key) buf ≡ r.value
      → decode_record buf ≡ ok r
  unfolding decode_record
  decode_of_fields buf kl vl len sum ts seq flags key value = ground arith

  payload : drop header_size (encode r) ≡ r.key ++ r.value
  unfolding le
  payload = refl

  body_read : drop 4 (encode r) ≡ body r
  unfolding le
  body_read = refl

  key_read : slice header_size (header_size + length r.key) (encode r) ≡ r.key
  key_read = rw (payload, add-sub_cancel_left) (take-append _ r.key r.value refl)

  value_read : drop (header_size + length r.key) (encode r) ≡ r.value
  value_read = rw (drop-drop, payload) (drop-append _ r.key r.value refl)

  -- Decoding what a storable record was encoded to gives the record back.
  pub decode-encode : decode_record (encode r) ≡ ok r
  decode-encode =
      decode_of_fields (encode r) (rw append-nil at (key_len_read []))
        (rw append-nil at (value_len_read [])) (length-encode r)
        (rw body_read (
          rw append-nil at (ap un_le (sum_field r []))
          ∙ un_le-le 4 _ (omega (arith, c.sum_lt (body r)))))
        (rw append-nil at (ap un_le (ts_field r [])) ∙ un_le-le 8 _ (omega (arith, h.ts_fits)))
        (rw append-nil at (ap un_le (seq_field r [])) ∙ un_le-le 8 _ (omega (arith, h.seq_fits)))
        (rw append-nil at (ap un_le (flags_field r [])) ∙ un_le_one r.flags) key_read value_read

  -- The scanner takes the record off the front of a file, whatever follows it.
  pub next_record-encode : (rest : List ℕ) → next_record (encode r ++ rest) ≡ some (encode r, r)
  unfolding next_record
  next_record-encode rest = ground (
    arith,
    key_len_read rest,
    value_len_read rest,
    take-append (header_size + length r.key + length r.value) (encode r) rest (length-encode r),
    length-append (encode r) rest,
    length-encode r,
    decode-encode,
    h.key_pos,
    h.key_fits,
    h.value_fits,
  )
