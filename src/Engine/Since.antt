-- ===== src/Engine/Since.antt =====
-- `RecordsSince` of internal/engine/compact.go: what a follower is sent that knows the log up to a
-- sequence number.
use gokv.Prelude.{ℕ, Bool, false, none, some, List, [], ◌∷◌, ltb, leb, if◌then◌else◌}
use gokv.Engine.Record.{Checksum, Record, scan_file}
use gokv.Engine.Files.{Files, file_of}
use gokv.Engine.Store.{Store}

-- How it ends: it has sent all, the callback has failed, or ErrNeedFullSync.
pub data SinceResult : Type 0 where
  sent_all callback_failed need_full_sync : SinceResult

-- The ids of the files in ascending order.
unfoldable pub insert_id : ℕ → List ℕ → List ℕ
insert_id i [] = i ∷ []
insert_id i (j ∷ ids) = if leb i j then i ∷ j ∷ ids else j ∷ insert_id i ids

unfoldable pub sorted_ids : Files → List ℕ
unfolding insert_id
sorted_ids [] = []
sorted_ids ((i, f) ∷ fs) = insert_id i (sorted_ids fs)

module _ ⦃c : Checksum⦄ where
  module _ {ℓ} {F : Type ℓ} (fn : List ℕ → F → F × Bool) where
    -- The callback of scanFile; `true` is that `fn` has failed.
    unfoldable pub since_record : ℕ → ℕ → List ℕ → Record → F → F × Bool
    since_record from_seq pos raw r acc = if leb r.seq from_seq then (acc, false) else fn raw acc

    -- The loop over the files. A file that has gone is passed over; no other file fails to open or to
    -- be read.
    unfoldable pub since_files : ℕ → Files → List ℕ → F → F × SinceResult
    unfolding since_record
    since_files from_seq files [] acc = (acc, sent_all)
    since_files from_seq files (id ∷ ids) acc = elim (file_of id files) [
      | none ↦ since_files from_seq files ids acc
      | some f ↦
          let (acc', _, failed) = scan_file (since_record from_seq) f.contents acc in
          let rest = since_files from_seq files ids acc' in
          if failed then (acc', callback_failed) else rest
    ]

    unfoldable pub records_since : Store → ℕ → F → F × SinceResult
    unfolding sorted_ids since_files
    records_since s from_seq acc =
        if ltb from_seq s.merge_seq
        then (acc, need_full_sync)
        else since_files from_seq s.files (sorted_ids s.files) acc
