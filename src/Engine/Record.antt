-- ===== src/Engine/Record.antt =====
-- internal/engine/record.go: the log record, its encoding, and the scan of a data file.
pub mod Layout
pub mod RoundTrip
pub mod Scan
pub mod Torn
pub mod Flags
pub mod Parse
pub mod Accepted
use Prim.Native.Nat.{bit_and}
use gokv.Prelude.{
  ℕ, zero, suc, ◌+◌, ◌*◌, ◌%◌, ◌^◌, ◌≤◌, ◌<◌, Bool, true, false, not, ◌||◌, Option, none, some,
  List, [], ◌∷◌, ◌++◌, ltb, ◌==◌, if◌then◌else◌, length, take, drop, slice, All,
}
use gokv.Prelude.Bytes.{le, un_le, IsByte, u32_mod, u64_mod}

-- hash/crc32's ChecksumIEEE, which returns a uint32.
pub record Checksum : Type 0 where
  pub sum : List ℕ → ℕ
  pub sum_lt : (b : List ℕ) → sum b < u32_mod

abbrev pub header_size : ℕ
header_size = 29

abbrev pub flag_tombstone : ℕ
flag_tombstone = 1

abbrev pub flag_batch : ℕ
flag_batch = 2

abbrev pub flag_batch_end : ℕ
flag_batch_end = 4

abbrev pub max_key_size : ℕ
max_key_size = 64 * 1024

abbrev pub max_value_size : ℕ
max_value_size = 256 * 1024 * 1024

-- `ts` is the two's complement pattern of the int64.
pub record Record : Type 0 where
  pub ts : ℕ
  pub seq : ℕ
  pub flags : ℕ
  pub key : List ℕ
  pub value : List ℕ

-- f & m != 0
abbrev pub has_flag : ℕ → ℕ → Bool
has_flag f m = not (bit_and f m == 0)

abbrev pub is_tombstone : Record → Bool
is_tombstone r = has_flag r.flags flag_tombstone

abbrev pub encoded_size : ℕ → ℕ → ℕ
encoded_size key_len val_len = (header_size + key_len + val_len) % u32_mod

-- What stands behind the checksum field.
abbrev pub body : Record → List ℕ
body r =
    le 8 r.ts
    ++ (le 8 r.seq
        ++ (r.flags ∷ (le 4 (length r.key) ++ (le 4 (length r.value) ++ (r.key ++ r.value)))))

pub data RecordError : Type 0 where
  corrupt short : RecordError

pub data Decoded : Type 0 where
  ok : Record → Decoded
  err : RecordError → Decoded

module _ ⦃c : Checksum⦄ where
  abbrev pub encode : Record → List ℕ
  encode r = le 4 (c.sum (body r)) ++ body r

  unfoldable pub append_record : List ℕ → Record → List ℕ
  append_record dst r = dst ++ encode r

  unfoldable pub decode_record : List ℕ → Decoded
  decode_record buf =
      let key_len = un_le (slice 21 25 buf) in
      let val_len = un_le (slice 25 29 buf) in
      if ltb (length buf) header_size
      then err short
      else if not (header_size + key_len + val_len == length buf)
      then err corrupt
      else if not (un_le (slice 0 4 buf) == c.sum (drop 4 buf))
      then err corrupt
      else ok (record {
        ts = un_le (slice 4 12 buf);
        seq = un_le (slice 12 20 buf);
        flags = un_le (slice 20 21 buf);
        key = slice header_size (header_size + key_len) buf;
        value = drop (header_size + key_len) buf;
      })

  -- One round of the loop of `scanFile` up to the call of `fn`: the bytes of the next record and
  -- what they decode to, or `none` where the loop returns.
  unfoldable pub next_record : List ℕ → Option (List ℕ × Record)
  next_record rest =
      let key_len = un_le (slice 21 25 rest) in
      let val_len = un_le (slice 25 29 rest) in
      let size = header_size + key_len + val_len in
      let buf = take size rest in
      if ltb (length rest) header_size
      then none
      else if key_len == 0 || ltb max_key_size key_len || ltb max_value_size val_len
      then none
      else if ltb (length rest) size
      then none
      else elim (decode_record buf) [ ok r ↦ some (buf, r) | err e ↦ none ]

  -- The loop of `scanFile` over what is left of the file, from offset `pos` on. The callback gets
  -- the offset, the raw bytes and the record, and returns its new state and whether it failed.
  -- The result is that state, the offset returned, and whether an error came with it.
  unfoldable pub scan_loop {ℓ} :
      {S : Type ℓ} → (ℕ → List ℕ → Record → S → S × Bool) → ℕ → ℕ → List ℕ → S → S × ℕ × Bool
  scan_loop fn zero pos rest s = (s, pos, false)
  scan_loop fn (suc fuel) pos rest s = elim (next_record rest) [
    | none ↦ (s, pos, false)
    | some (raw, r) ↦
        let (s', failed) = fn pos raw r s in
        let next = scan_loop fn fuel (pos + length raw) (drop (length raw) rest) s' in
        if failed then (s', pos, true) else next
  ]

  -- A record takes 30 bytes at least, so there are fewer rounds than bytes.
  unfoldable pub scan_file {ℓ} :
      {S : Type ℓ} → (ℕ → List ℕ → Record → S → S × Bool) → List ℕ → S → S × ℕ × Bool
  unfolding scan_loop
  scan_file fn file s = scan_loop fn (suc (length file)) 0 file s

  unfoldable pub clear_batch_flags : List ℕ → List ℕ
  clear_batch_flags raw =
      let flags = un_le (slice 20 21 raw) in
      let out = slice 4 20 raw ++ (bit_and flags 0xf9 ∷ drop 21 raw) in
      if ltb (length raw) header_size || bit_and flags 6 == 0 then raw else le 4 (c.sum out) ++ out

-- What the write path accepts: the fields fit their widths and the lengths their limits.
pub record IsStorable (r : Record) : Type 0 where
  pub ts_fits : r.ts < u64_mod
  pub seq_fits : r.seq < u64_mod
  pub flags_fits : r.flags < 256
  pub key_pos : 0 < length r.key
  pub key_fits : length r.key ≤ max_key_size
  pub value_fits : length r.value ≤ max_value_size
