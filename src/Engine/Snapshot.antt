-- ===== src/Engine/Snapshot.antt =====
-- `SnapshotRecords` and `rawRecord` of internal/engine/compact.go: what a follower is sent that is too
-- far behind, other goroutines running beside it.
pub mod Complete
use gokv.Prelude.{ℕ, zero, suc, ◌+◌, Bool, true, false, Option, none, some, List, [], ◌∷◌, ◌++◌}
use gokv.Engine.Record.{Checksum, decode_record, clear_batch_flags}
use gokv.Engine.Record as Rec
use gokv.Engine.Index.{Entry, Index, lookup}
use gokv.Engine.Index.Walk.{walk}
use gokv.Engine.Files.{Files, file_of, read_at}
use gokv.Engine.Store.{Store, Outcome, ok, err, Error, key_not_found, file_gone}

-- What the snapshot finds of the store: `looked i` for chunk `i`, `opened k i` and `found k i` in
-- attempt `i` for the key `k`.
pub record Sights : Type 0 where
  pub looked : ℕ → Store
  pub opened : List ℕ → ℕ → Store
  pub found : List ℕ → ℕ → Store

module _ ⦃c : Checksum⦄ where
  -- What one attempt reads: nothing where the file has gone, or the read or the record is bad.
  unfoldable pub read_raw : Files → Entry → Option (List ℕ)
  read_raw files e = elim (file_of e.file_id files) [
    | none ↦ none
    | some f ↦ elim (read_at f e.pos e.size) [
      | none ↦ none
      | some buf ↦ elim (decode_record buf) [
        | Rec.Decoded.err _ ↦ none
        | Rec.Decoded.ok r ↦ some (clear_batch_flags buf)
      ]
    ]
  ]

  -- `rawRecord` with `n` attempts left. Attempt `i` reads the files of `opened i`, and looks the key
  -- up in the index of `found i` when it has failed.
  unfoldable pub raw_record : ℕ → ℕ → (ℕ → Store) → (ℕ → Store) → List ℕ → Entry → Outcome (List ℕ)
  unfolding read_raw
  raw_record zero i opened found key e = err file_gone
  raw_record (suc n) i opened found key e = elim (read_raw (opened i).files e) [
    | some buf ↦ ok buf
    | none ↦ elim (lookup key (found i).keydir.index) [
      | none ↦ err key_not_found
      | some e' ↦ raw_record n (i + 1) opened found key e'
    ]
  ]

  module _ {ℓ} {F : Type ℓ} (fn : List ℕ → F → F × Option Error) where
    -- The body of the loop over `refs`, on what the callback has made and the result so far.
    unfoldable pub send_ref :
        Sights → List ℕ → Entry → F × Outcome (Unit {0}) → (F × Outcome (Unit {0})) × Bool
    unfolding raw_record
    send_ref at key e (acc, res) = elim (raw_record 3 0 (at.opened key) (at.found key) key e) [
      | ok buf ↦
          let (acc', failed) = fn buf acc in
          elim failed [ some x ↦ ((acc', err x), true) | none ↦ ((acc', res), false) ]
      | err key_not_found ↦ ((acc, res), false)
      | err file_gone ↦ ((acc, res), false)
      | err x ↦ ((acc, err x), true)
    ]

    -- With fuel for the loop over the chunks.
    unfoldable pub snapshot_records : ℕ → Sights → F → Option (F × Outcome (Unit {0}))
    unfolding walk send_ref
    snapshot_records fuel at acc =
        walk (send_ref at) fuel 0 (λ i. (at.looked i).keydir.index) [] [] false (acc, ok tt)
