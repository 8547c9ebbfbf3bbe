-- ===== src/Engine/Replica.antt =====
-- The replica side of internal/engine/store.go: `ApplyRaw`, which takes records from the network.
pub mod Hostile
pub mod Anew
pub mod Follows
use gokv.Prelude.{
  ℕ, zero, suc, ◌+◌, Bool, true, false, ◌||◌, Option, none, some, List, [], ◌∷◌, ltb, ◌==◌,
  if◌then◌else◌, length, take, drop, slice,
}
use gokv.Prelude.Bytes.{un_le}
use gokv.Engine.Record.{Checksum, Record, header_size, max_key_size, max_value_size, decode_record}
use gokv.Engine.Record as Rec
use gokv.Engine.Store.{Store, Io, Outcome, ok, err, closed_store, corrupt_record}
use gokv.Engine.Store.Append.{write_locked}

module _ ⦃c : Checksum⦄ where
  -- One round of the loop: the record at the front of what is left and its size, or `none` for an error.
  unfoldable pub next_raw : List ℕ → Option (ℕ × Record)
  next_raw rest =
      let key_len = un_le (slice 21 25 rest) in
      let val_len = un_le (slice 25 29 rest) in
      let size = header_size + key_len + val_len in
      if ltb (length rest) header_size
      then none
      else if key_len == 0 || ltb max_key_size key_len || ltb max_value_size val_len
      then none
      else if ltb (length rest) size
      then none
      else elim (decode_record (take size rest)) [ Rec.ok r ↦ some (size, r) | Rec.err e ↦ none ]

  -- The loop; the first argument is fuel, and a record takes more than one byte.
  unfoldable pub read_records : ℕ → List ℕ → Option (List Record)
  unfolding next_raw
  read_records zero rest = none
  read_records (suc fuel) [] = some []
  read_records (suc fuel) (b ∷ rest) = elim (next_raw (b ∷ rest)) [
    | none ↦ none
    | some (size, r) ↦ elim (read_records fuel (drop size (b ∷ rest))) [
      | none ↦ none
      | some rs ↦ some (r ∷ rs)
    ]
  ]

  unfoldable pub max_seq : ℕ → List Record → ℕ
  max_seq m [] = m
  max_seq m (r ∷ rs) = max_seq (if ltb m r.seq then r.seq else m) rs

  -- `ApplyRaw` behind the loop, and behind the write.
  unfoldable pub raise_seq : ℕ → Store × Outcome (Unit {0}) → Store × Outcome ℕ
  raise_seq newest (s, ok u) =
      (record s { seq = if ltb s.seq newest then newest else s.seq }, ok newest)
  raise_seq newest (s, err e) = (s, err e)

  unfoldable pub apply_records : Store → List Record → Io → Store × Outcome ℕ
  unfolding max_seq raise_seq
  apply_records s [] io = (s, ok 0)
  apply_records s (r ∷ rs) io =
      if s.closed
      then (s, err closed_store)
      else raise_seq (max_seq 0 (r ∷ rs)) (write_locked s (r ∷ rs) io)

  unfoldable pub apply_raw : Store → List ℕ → Io → Store × Outcome ℕ
  apply_raw s raw io = elim (read_records (suc (length raw)) raw) [
    | none ↦ (s, err corrupt_record)
    | some rs ↦ apply_records s rs io
  ]
