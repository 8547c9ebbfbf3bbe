-- ===== src/Engine/Store/Methods.antt =====
-- `Put`, `Delete` and `BatchPut`.
use gokv.Prelude.{
  ℕ, ◌+◌, ◌%◌, not, Option, none, some, List, [], ◌∷◌, ltb, ◌==◌, if◌then◌else◌, length,
}
use gokv.Prelude.Bytes.{u64_mod}
use gokv.Engine.Record.{
  Checksum, Record, flag_tombstone, flag_batch, flag_batch_end, max_value_size,
}
use gokv.Engine.Index.{lookup}
use gokv.Engine.Store.{
  Store, Outcome, ok, err, Error, Io, closed_store, value_too_long, key_not_found, batch_len,
  validate_key,
}
use gokv.Engine.Store.Append.{append_locked}

module _ ⦃c : Checksum⦄ where
  unfoldable pub put : Store → List ℕ → List ℕ → Io → Store × Outcome (Unit {0})
  put s key value io = elim (validate_key key) [
    | some e ↦ (s, err e)
    | none ↦
        if ltb max_value_size (length value)
        then (s, err value_too_long)
        else if s.closed
        then (s, err closed_store)
        else let r : Record = record {
          ts = io.now;
          seq = 0;
          flags = 0;
          key = key;
          value = value;
        } in
          let (s', res) = append_locked s (r ∷ []) io in
          elim res [
            | ok _ ↦ (record s' { n_put = (s'.n_put + 1) % u64_mod }, ok tt)
            | err e ↦ (s', err e)
          ]
  ]

  unfoldable pub delete : Store → List ℕ → Io → Store × Outcome (Unit {0})
  delete s key io = elim (validate_key key) [
    | some e ↦ (s, err e)
    | none ↦ elim (lookup key s.keydir.index) [
      | none ↦ (s, err key_not_found)
      | some old ↦
          if old.tomb
          then (s, err key_not_found)
          else if s.closed
          then (s, err closed_store)
          else let r : Record = record {
            ts = io.now;
            seq = 0;
            flags = flag_tombstone;
            key = key;
            value = [];
          } in
            let (s', res) = append_locked s (r ∷ []) io in
            elim res [
              | ok _ ↦ (record s' { n_del = (s'.n_del + 1) % u64_mod }, ok tt)
              | err e ↦ (s', err e)
            ]
    ]
  ]

  -- The pairs of BatchPut in order; the lengths have been compared.
  abbrev pub pairs_error : List (List ℕ × List ℕ) → Option Error
  pairs_error [] = none
  pairs_error ((k, v) ∷ kvs) = elim (validate_key k) [
    | some e ↦ some e
    | none ↦ if ltb max_value_size (length v) then some value_too_long else pairs_error kvs
  ]

  abbrev pub batch_records : ℕ → List (List ℕ × List ℕ) → List Record
  batch_records now [] = []
  batch_records now ((k, v) ∷ []) =
      record { ts = now; seq = 0; flags = flag_batch + flag_batch_end; key = k; value = v } ∷ []
  batch_records now ((k, v) ∷ p ∷ kvs) =
      record { ts = now; seq = 0; flags = flag_batch; key = k; value = v }
      ∷ batch_records now (p ∷ kvs)

  abbrev pub zip_pairs : List (List ℕ) → List (List ℕ) → List (List ℕ × List ℕ)
  zip_pairs [] vs = []
  zip_pairs (k ∷ ks) [] = []
  zip_pairs (k ∷ ks) (v ∷ vs) = (k, v) ∷ zip_pairs ks vs

  unfoldable pub batch_put : Store → List (List ℕ) → List (List ℕ) → Io → Store × Outcome (Unit {0})
  batch_put s keys values io =
      let kvs = zip_pairs keys values in
      if not (length keys == length values)
      then (s, err batch_len)
      else if length keys == 0
      then (s, ok tt)
      else elim (pairs_error kvs) [
        | some e ↦ (s, err e)
        | none ↦
            if s.closed
            then (s, err closed_store)
            else let (s', res) = append_locked s (batch_records io.now kvs) io in
              elim res [
                | ok _ ↦ (record s' { n_put = (s'.n_put + length keys) % u64_mod }, ok tt)
                | err e ↦ (s', err e)
              ]
      ]
