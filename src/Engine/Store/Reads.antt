-- ===== src/Engine/Store/Reads.antt =====
-- `Get` and `readValue`. A compaction may run beside them.
use gokv.Prelude.{ℕ, zero, suc, ◌+◌, ◌%◌, Bool, true, not, none, some, List, ◌==◌, if◌then◌else◌}
use gokv.Prelude.Bytes.{u64_mod}
use gokv.Engine.Record.{
  Checksum, Record, is_tombstone, flag_tombstone, flag_batch, flag_batch_end, max_key_size,
  max_value_size, encoded_size, append_record, decode_record,
}
use gokv.Engine.Record as Rec
use gokv.Engine.Index.{Entry, lookup}
use gokv.Engine.Files.{Files, file_of, read_at}
use gokv.Engine.Store.{
  Store, Outcome, ok, err, os_error, key_not_found, validate_key, file_gone, lost_race,
  corrupt_record, wrong_seq,
}

module _ ⦃c : Checksum⦄ where
  -- `readValue` with `readRecord`.
  unfoldable pub read_value : Files → Entry → Outcome (List ℕ)
  read_value files e = elim (file_of e.file_id files) [
    | none ↦ err file_gone
    | some f ↦ elim (read_at f e.pos e.size) [
      | none ↦ err os_error
      | some buf ↦ elim (decode_record buf) [
        | Rec.Decoded.err _ ↦ err corrupt_record
        | Rec.Decoded.ok r ↦
            if not (r.seq == e.seq)
            then err wrong_seq
            else if is_tombstone r
            then err key_not_found
            else ok r.value
      ]
    ]
  ]

  -- The retry loop of `Get`: `n` attempts are left. Attempt `i` looks the key up in the index of
  -- `looked i` and reads the files of `opened i`.
  unfoldable pub get_attempts : ℕ → ℕ → (ℕ → Store) → (ℕ → Store) → List ℕ → Outcome (List ℕ)
  unfolding read_value
  get_attempts zero i looked opened key = err lost_race
  get_attempts (suc n) i looked opened key =
      let again = get_attempts n (i + 1) looked opened key in
      elim (lookup key (looked i).keydir.index) [
        | none ↦ err key_not_found
        | some e ↦
            if e.tomb
            then err key_not_found
            else elim (read_value (opened i).files e) [ err file_gone ↦ again | res ↦ res ]
      ]

  -- `Get` with no compaction beside it, and its counters.
  unfoldable pub get : Store → List ℕ → Store × Outcome (List ℕ)
  unfolding get_attempts
  get s key = elim (validate_key key) [
    | some e ↦ (s, err e)
    | none ↦
        let res = get_attempts 4 0 (λ _. s) (λ _. s) key in
        let missed : Bool = elim (lookup key s.keydir.index) [ none ↦ true | some e ↦ e.tomb ] in
        (
          record s {
            n_get = (s.n_get + 1) % u64_mod;
            n_miss = if missed then (s.n_miss + 1) % u64_mod else s.n_miss;
          },
          res,
        )
  ]
