-- ===== src/Engine/Record/Accepted.antt =====
-- What `decodeRecord` has found when it returns a record.
use gokv.Prelude.{
  ℕ, ◌+◌, ◌-◌, ◌^◌, ◌≤◌, ◌<◌, ◌≡◌, ap, ◌∙◌, List, arith, length, drop, slice, All, All-take,
  All-drop, length-take, length-drop,
}
use gokv.Prelude.Bytes.{un_le, un_le-lt, IsByte, u64_mod}
use gokv.Engine.Record.{Checksum, Record, header_size, decode_record}
use gokv.Engine.Record as Rec

-- A field of `n` bytes.
field_fits :
    (a n : ℕ) (buf : List ℕ)
    → All IsByte buf
    → a + n ≤ length buf
    → un_le (slice a (a + n) buf) < 256 ^ n
field_fits a n buf h fits =
    let l : length (slice a (a + n) buf) ≡ n =
      omega (arith, length-take (a + n - a) (drop a buf), length-drop a buf) in
    rw l at
      (un_le-lt (slice a (a + n) buf) (All-take IsByte _ (drop a buf) (All-drop IsByte a buf h)))

module _ ⦃c : Checksum⦄ where
  pub decoded_from :
      (buf : List ℕ) (r : Record)
      → decode_record buf ≡ Rec.ok r
      → (header_size ≤ length buf)
        × (header_size + un_le (slice 21 25 buf) + un_le (slice 25 29 buf) ≡ length buf)
        × (r.ts ≡ un_le (slice 4 12 buf))
        × (r.seq ≡ un_le (slice 12 20 buf))
        × (r.flags ≡ un_le (slice 20 21 buf))
        × (r.key ≡ slice header_size (header_size + un_le (slice 21 25 buf)) buf)
        × (r.value ≡ drop (header_size + un_le (slice 21 25 buf)) buf)
  unfolding decode_record
  decoded_from buf r h = ground arith

  pub decode_record-fields :
      (buf : List ℕ) (r : Record)
      → decode_record buf ≡ Rec.ok r
      → All IsByte buf
      → (r.ts < u64_mod)
        × (r.seq < u64_mod)
        × (r.flags < 256)
        × (length r.key ≡ un_le (slice 21 25 buf))
        × (length r.value ≡ un_le (slice 25 29 buf))
  decode_record-fields buf r h bytes =
      let (long, total, ts, seq, flags, key, value) = decoded_from buf r h in
      let kl = un_le (slice 21 25 buf) in
      let key_size : length r.key ≡ kl =
        ap length key
        ∙ omega (
          arith,
          length-take (header_size + kl - header_size) (drop header_size buf),
          length-drop header_size buf,
        ) in
      let value_size : length r.value ≡ un_le (slice 25 29 buf) =
        ap length value ∙ omega (arith, length-drop (header_size + kl) buf) in
      (
        rw ts (field_fits 4 8 buf bytes (omega arith)),
        rw seq (field_fits 12 8 buf bytes (omega arith)),
        rw flags (field_fits 20 1 buf bytes (omega arith)),
        key_size,
        value_size,
      )
