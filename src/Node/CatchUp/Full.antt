-- ===== src/Node/CatchUp/Full.antt =====
-- A follower that starts from nothing, or from before the last compaction.
use gokv.Prelude.{
  ℕ, ◌<◌, ◌≡◌, ◌⊎◌, refl, Bool, true, false, some, List, [], ◌∷◌, arith, ◌==◌, if◌then◌else◌,
  length,
}
use gokv.Engine.Record.{Checksum}
use gokv.Engine.Store.{Store}
use gokv.Engine.Store.Sound.Defs.{IsSound, value_of}
use gokv.Engine.Store.Scan.Listed.{listing}
use gokv.Engine.Snapshot.Complete.{steady, wrapped, AreFrames, snapshot_records-frames}
use gokv.Engine.Since.{need_full_sync, records_since}
use gokv.Proto.Wire.{status_full_sync}
use gokv.Node.{write_status}
use gokv.Node.Range.Chunked.{always_sent}
use gokv.Node.CatchUp.{repl_data, send_since, full_sync, or_full_sync, catch_up}

either_way {ℓ} :
    {A : Type ℓ} (b : Bool) (x y z : A) → x ≡ z → (b ≡ false → y ≡ z) → (if b then x else y) ≡ z
either_way true x y z p q = p
either_way false x y z p q = q refl

module _ ⦃c : Checksum⦄ where
  full_sync-frames :
      (fuel : ℕ) (s : Store)
      → IsSound s
      → length s.keydir.index < fuel
      → (raws : List (List ℕ)) × (full_sync fuel (steady s) always_sent []
          ≡ some (write_status status_full_sync ∷ wrapped repl_data raws, true))
        × AreFrames raws (listing (value_of s) [] [] s.keydir.index)
  unfolding full_sync
  full_sync-frames fuel s h f =
      let (raws, e, frames) =
        snapshot_records-frames repl_data fuel s (write_status status_full_sync ∷ []) h f in
      (raws, rw e refl, frames)

  too_old :
      (s : Store) (from_seq : ℕ)
      → from_seq < s.merge_seq
      → records_since (send_since always_sent) s from_seq [] ≡ ([], need_full_sync)
  unfolding records_since
  too_old s from_seq h = ground (arith, h)

  -- With more fuel than there are keys, a sound store that does not change and every frame
  -- written: a follower that asks from 0, or from before the last compaction, is sent the
  -- full-sync frame and then, in the order of the keys, one frame for each key that has a value,
  -- whose payload is the encoding of a storable record of that key and value, no tombstone and in
  -- no batch; no frame of the log comes before them.
  pub catch_up-full_sync :
      (fuel : ℕ) (s : Store) (from_seq : ℕ)
      → IsSound s
      → length s.keydir.index < fuel
      → (from_seq ≡ 0) ⊎ (from_seq < s.merge_seq)
      → (raws : List (List ℕ)) × (catch_up fuel (steady s) always_sent s from_seq
          ≡ some (write_status status_full_sync ∷ wrapped repl_data raws, true))
        × AreFrames raws (listing (value_of s) [] [] s.keydir.index)
  unfolding catch_up or_full_sync
  catch_up-full_sync fuel s from_seq h f old =
      let (raws, e, frames) = full_sync-frames fuel s h f in
      (
        raws,
        either_way (from_seq == 0) _ _ _ e
            (λ later. rw (too_old s from_seq (ground (arith, old, later))) e),
        frames,
      )
