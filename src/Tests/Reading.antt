-- ===== src/Tests/Reading.antt =====
-- Scans of a store that holds one record.
use gokv.Prelude.{
  inl, ℕ, ◌+◌, ◌<◌, ◌≡◌, ◌⊎◌, refl, Bool, true, false, some, List, [], ◌∷◌, arith, length, take,
  drop, ◌==◌, if◌then◌else◌, Bool-cases, inl, inr, ◌≤◌,
}
use gokv.Prelude.Keys.{key_lt, key_eq}
use gokv.Engine.Files.{file_of}
use gokv.Engine.Record.{append_record}
use gokv.Engine.Index.{Entry, Index, IsAscending, insert, lookup, seek, index_apply}
use gokv.Engine.Index.Walk.{walk, visit_all, collect}
use gokv.Engine.Index.Walk.Moving.{Walked, walk-Walked}
use gokv.Engine.Store.{ok, validate_key}
use gokv.Engine.Store.Append.{
  encode_all, append_locked, write_locked, maybe_rotate, number_from, open_new_active,
  append_to_active, append_written, sync_and_publish, publish, index_all,
}
use gokv.Engine.Store.Methods.{put}
use gokv.Engine.Store.Scan.{still, scan_slice}
use gokv.Engine.Store.Scan.Listed.{limited, listing, listing_of, scan_slice-still}
use gokv.Engine.Store.Scan.Beside.{AreOrdered, scan_slice_beside}
use gokv.Engine.Store.Sound.Defs.{value_of}
use gokv.Engine.Snapshot.Complete.{steady, wrapped, AreFrames}
use gokv.Proto.Wire.{status_full_sync}
use gokv.Node.{write_status}
use gokv.Node.CatchUp.{repl_data, catch_up}
use gokv.Node.CatchUp.Full.{catch_up-full_sync}
use gokv.Node.Range.{range_request, handle_range, complete, read_range}
use gokv.Node.Range.Chunked.{always_sent}
use gokv.Node.Range.Stream.{page, read_range-handle_range}
use gokv.Tests.Samples.{byte_checksum, no_texts, color, size}
use gokv.Tests.Storing.{held, held-Refines}

held_keys : length held.keydir.index < 2
unfolding put append_locked write_locked maybe_rotate number_from open_new_active append_to_active
    append_written sync_and_publish publish validate_key encode_all append_record file_of index_all
    index_apply insert lookup
held_keys = omega arith

scan_slice-still_example :
    scan_slice 2 (still held) color size 1 ≡ some (limited 1 (listing_of held color size), ok tt)
scan_slice-still_example = scan_slice-still 2 held color size 1 held-Refines.live.sound held_keys

abbrev one : ℕ
one = 1

scan_slice_beside_example :
    AreOrdered color size (limited one (listing_of held color size))
    × ((one ≡ 0) ⊎ (length (limited one (listing_of held color size)) ≤ one))
scan_slice_beside_example =
    scan_slice_beside 2 (still held) color size one (limited one (listing_of held color size))
      (ok tt) (λ j. held-Refines.live.sound.indexing.sorted)
      (scan_slice-still 2 held color size one held-Refines.live.sound held_keys)

-- An index from which the first key goes while a walk is on it.
abbrev two_keys : ℕ → Index
two_keys i =
    if i == 0
    then (color, record { pos = 0; seq = 4; file_id = 1; size = 32; tomb = false })
      ∷ (size, record { pos = 32; seq = 5; file_id = 1; size = 32; tomb = false })
      ∷ []
    else (size, record { pos = 32; seq = 5; file_id = 1; size = 32; tomb = false }) ∷ []

abbrev count_keys : List ℕ → Entry → ℕ → ℕ × Bool
count_keys k e n = (n + 1, false)

two_keys-IsAscending : (j : ℕ) → IsAscending (two_keys j)
unfolding key_lt
two_keys-IsAscending j = elim (Bool-cases (j == 0)) [
  | inl p ↦ rw p ((refl, tt), (tt, tt))
  | inr p ↦ rw p (tt, tt)
]

walk-Walked_example : Walked count_keys two_keys [] [] false 0 2
walk-Walked_example =
    walk-Walked count_keys 3 0 two_keys [] [] false 0 2 two_keys-IsAscending
      (unfold walk collect seek visit_all key_lt key_eq in refl)

catch_up-full_sync_example :
    (raws : List (List ℕ)) × (catch_up 2 (steady held) always_sent held 0
      ≡ some (write_status status_full_sync ∷ wrapped repl_data raws, true))
    × AreFrames raws (listing (value_of held) [] [] held.keydir.index)
catch_up-full_sync_example =
    catch_up-full_sync 2 held 0 held-Refines.live.sound held_keys (inl refl)

read_range-handle_range_example :
    (frames : List (List ℕ)) × (handle_range 2
        (still held)
        10
        always_sent
        (drop 1 (range_request color size 3))
      ≡ some (frames, true))
    × (read_range frames [] ≡ complete (take (page 10 3) (listing_of held color size)))
read_range-handle_range_example =
    read_range-handle_range 2 held 10 color size 3 held-Refines.live.sound held_keys (omega arith)
      (omega arith) (omega arith) (omega arith)
