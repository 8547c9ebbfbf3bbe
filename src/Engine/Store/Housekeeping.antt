-- ===== src/Engine/Store/Housekeeping.antt =====
-- `Sync`, `deadBytes` and `Len` of internal/engine/store.go.
use gokv.Prelude.{ℕ, refl, Bool, true, false, not, ◌^◌, ◌&&◌, ltb, if◌then◌else◌}
use gokv.Engine.Record.{Checksum}
use gokv.Engine.Index.{sub64}
use gokv.Engine.Store.{Store, Outcome, ok, err, os_error}
use gokv.Engine.Store.Sound.Defs.{value_of}
use gokv.Engine.Store.Sound.Refine.{IsLive, Refines}

-- The argument is whether the fsync of the active file succeeds.
unfoldable sync_active : Store → Bool → Store × Outcome (Unit {0})
sync_active s synced =
    if not s.dirty
    then (s, ok tt)
    else if synced
    then (record s { dirty = false }, ok tt)
    else (s, err os_error)

-- total - live as an int64, where it is positive.
unfoldable dead_bytes : Store → ℕ
dead_bytes s = let d = sub64 s.total s.keydir.live in if ltb 0 d && ltb d (2 ^ 63) then d else 0

-- The number of live keys.
abbrev len : Store → ℕ
len s = s.keydir.n_live

module _ ⦃c : Checksum⦄ where
  synced-Refines :
      (s : Store) (dirty synced : Bool)
      → IsLive s
      → Refines s (value_of s) (
          if not dirty
          then (s, ok tt)
          else if synced
          then (record s { dirty = false }, ok tt)
          else (s, err os_error))
  synced-Refines s false synced h = record { live = h; values = λ j. refl }
  synced-Refines s true false h = record { live = h; values = λ j. refl }
  synced-Refines s true true h = record {
    live = record {
      sound = record { indexing = h.sound.indexing; stocked = h.sound.stocked };
      newest = h.newest;
    };
    values = λ j. refl;
  }

  -- A `Sync`, whether it succeeds or not, leaves a live store that holds what it held.
  sync_active-Refines :
      (s : Store) (synced : Bool) → IsLive s → Refines s (value_of s) (sync_active s synced)
  unfolding sync_active
  sync_active-Refines s synced h = synced-Refines s s.dirty synced h
