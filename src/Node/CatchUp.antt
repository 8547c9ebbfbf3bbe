-- ===== src/Node/CatchUp.antt =====
-- `catchUp` of internal/node/replication.go: what a leader sends a follower before it streams.
pub mod Full
use gokv.Prelude.{
  ℕ, Bool, true, false, not, Option, none, some, List, [], ◌∷◌, ◌++◌, ◌==◌, if◌then◌else◌, length,
}
use gokv.Engine.Record.{Checksum}
use gokv.Engine.Store.{Store, Outcome, ok, err, Error, os_error}
use gokv.Engine.Snapshot.{Sights, snapshot_records}
use gokv.Engine.Since.{SinceResult, sent_all, callback_failed, need_full_sync, records_since}
use gokv.Proto.{new_enc, put_raw}
use gokv.Proto.Wire.{status_full_sync, status_repl_data}
use gokv.Node.{write_status}

-- `writeReplData`: the payload.
abbrev pub repl_data : List ℕ → List ℕ
repl_data raw = put_raw (new_enc status_repl_data) raw

-- The callbacks. `sends i` is whether the writer works after `i` frames, in WriteFrame and in Flush.
abbrev pub send_since : (ℕ → Bool) → List ℕ → List (List ℕ) → List (List ℕ) × Bool
send_since sends raw frames =
    if sends (length frames) then (frames ++ (repl_data raw ∷ []), false) else (frames, true)

abbrev pub send_snapshot : (ℕ → Bool) → List ℕ → List (List ℕ) → List (List ℕ) × Option Error
send_snapshot sends raw frames =
    if sends (length frames)
    then (frames ++ (repl_data raw ∷ []), none)
    else (frames, some os_error)

module _ ⦃c : Checksum⦄ where
  -- The payloads written, and whether catchUp returns without an error; `none` is that the fuel of
  -- the snapshot has run out.
  unfoldable pub full_sync : ℕ → Sights → (ℕ → Bool) → List (List ℕ) → Option (List (List ℕ) × Bool)
  unfolding snapshot_records
  full_sync fuel at sends frames =
      if sends (length frames)
      then elim (snapshot_records (send_snapshot sends) fuel at
          (frames ++ (write_status status_full_sync ∷ []))) [
            | none ↦ none
            | some (frames', ok _) ↦ some (frames', sends (length frames'))
            | some (frames', err _) ↦ some (frames', false)
          ]
      else some (frames, false)

  -- What follows RecordsSince.
  unfoldable pub or_full_sync :
      ℕ → Sights → (ℕ → Bool) → List (List ℕ) × SinceResult → Option (List (List ℕ) × Bool)
  or_full_sync fuel at sends (frames, sent_all) = some (frames, sends (length frames))
  or_full_sync fuel at sends (frames, callback_failed) = some (frames, false)
  or_full_sync fuel at sends (frames, need_full_sync) = full_sync fuel at sends frames

  unfoldable pub catch_up : ℕ → Sights → (ℕ → Bool) → Store → ℕ → Option (List (List ℕ) × Bool)
  unfolding or_full_sync
  catch_up fuel at sends s from_seq =
      if from_seq == 0
      then full_sync fuel at sends []
      else or_full_sync fuel at sends (records_since (send_since sends) s from_seq [])
