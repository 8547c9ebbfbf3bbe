-- ===== src/Engine/Record/Flags.antt =====
-- `clearBatchFlags` on an encoded record.
use Prim.Native.Nat.{bit_and}
use gokv.Prelude.{
  ℕ, ◌<◌, ◌≡◌, refl, ap, [], ◌∷◌, ◌++◌, arith, length, slice, drop, true, false, ◌||◌, not, ◌==◌,
  ltb, ltb→lt, le→ltb, append-nil, ◌∙◌, Bool-cases, inl, inr,
}
use gokv.Prelude.Bits.{table, entry-table}
use gokv.Prelude.Bytes.{le, un_le}
use gokv.Engine.Record.{
  Checksum, Record, header_size, body, encode, IsStorable, clear_batch_flags, has_flag,
  is_tombstone, flag_tombstone, flag_batch, flag_batch_end,
}
use gokv.Engine.Record.Layout.{length-encode, flags_field}
use gokv.Engine.Record.RoundTrip.{un_le_one}

-- The record outside its batch.
abbrev pub unbatched : Record → Record
unbatched r = record r { flags = bit_and r.flags 0xf9 }

cleared_bits : (f : ℕ) → f < 256 → (bit_and f 0xf9 < 256)
cleared_bits f h =
    ltb→lt _ _ (entry-table (λ x. ltb (bit_and x 0xf9) 256) f 256 h (unfold table in refl))

plain_bits : (f : ℕ) → f < 256 → (bit_and f 6 == 0) ≡ true → bit_and f 0xf9 ≡ f
plain_bits f h e = ground (
  arith,
  entry-table (λ x. not (bit_and x 6 == 0) || bit_and x 0xf9 == x) f 256 h (unfold table in refl),
)

tomb_bits : (f : ℕ) → f < 256 → has_flag (bit_and f 0xf9) flag_tombstone ≡ has_flag f flag_tombstone
tomb_bits f h = ground (
  arith,
  entry-table (λ x. bit_and (bit_and x 0xf9) 1 == bit_and x 1) f 256 h (unfold table in refl),
)

batch_bits : (f : ℕ) → f < 256 → has_flag (bit_and f 0xf9) flag_batch ≡ false
batch_bits f h =
    ground
      (arith, entry-table (λ x. bit_and (bit_and x 0xf9) 2 == 0) f 256 h (unfold table in refl))

end_bits : (f : ℕ) → f < 256 → has_flag (bit_and f 0xf9) flag_batch_end ≡ false
end_bits f h =
    ground
      (arith, entry-table (λ x. bit_and (bit_and x 0xf9) 4 == 0) f 256 h (unfold table in refl))

pub unbatched-IsStorable : {r : Record} → IsStorable r → IsStorable (unbatched r)
unbatched-IsStorable {r} h = record {
  ts_fits = h.ts_fits;
  seq_fits = h.seq_fits;
  flags_fits = cleared_bits r.flags h.flags_fits;
  key_pos = h.key_pos;
  key_fits = h.key_fits;
  value_fits = h.value_fits;
}

module _ ⦃c : Checksum⦄ (r : Record) (h : IsStorable r) where
  flags_read : un_le (slice 20 21 (encode r)) ≡ r.flags
  flags_read = rw append-nil at (ap un_le (flags_field r [])) ∙ un_le_one r.flags

  long : ltb (length (encode r)) header_size ≡ false
  long = le→ltb _ _ (omega (arith, length-encode r))

  rebuilt :
      slice 4 20 (encode r) ++ (bit_and r.flags 0xf9 ∷ drop 21 (encode r)) ≡ body (unbatched r)
  unfolding le
  rebuilt = refl

  cleared_encoding : clear_batch_flags (encode r) ≡ encode (unbatched r)
  unfolding clear_batch_flags
  cleared_encoding = elim (Bool-cases (bit_and r.flags 6 == 0)) [
    | inl plain ↦ rw (long, flags_read, plain, plain_bits r.flags h.flags_fits plain)
    | inr batch ↦ rw (long, flags_read, rebuilt, batch)
  ]

  -- `clear_batch_flags` on an encoded storable record gives the encoding, with its checksum, of
  -- the record without its batch flags, which is a tombstone if and only if the record was one
  -- and has neither batch flag.
  pub clear_batch_flags-encode :
      (clear_batch_flags (encode r) ≡ encode (unbatched r))
      × (is_tombstone (unbatched r) ≡ is_tombstone r)
      × (has_flag (unbatched r).flags flag_batch ≡ false)
      × (has_flag (unbatched r).flags flag_batch_end ≡ false)
  clear_batch_flags-encode =
      let fits = h.flags_fits in
      (cleared_encoding, tomb_bits r.flags fits, batch_bits r.flags fits, end_bits r.flags fits)
