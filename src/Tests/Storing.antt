-- ===== src/Tests/Storing.antt =====
-- The store: writes, reads, recovery of its index, and replicas.
use gokv.Prelude.{
  ℕ, ◌*◌, ◌==◌, ◌<◌, ◌≤◌, ◌≡◌, ◌∙◌, refl, true, false, none, some, List, [], ◌∷◌, arith,
  if◌then◌else◌, length,
}
use gokv.Prelude.Keys.{key_eq, key_eq_refl}
use gokv.Prelude.Bytes.{le}
use gokv.Engine.Files.{file_of}
use gokv.Engine.Record.{append_record}
use gokv.Engine.Record.Scan.{encodes}
use gokv.Engine.Index.{lookup, live_sum, index_apply}
use gokv.Engine.Index.Counters.{IsCounted, index_apply-IsCounted}
use gokv.Engine.Index.Newest.{Change, apply_all, lookup-apply_all-any_order}
use gokv.Engine.Store.{Store, ok, err, key_not_found, validate_key, part}
use gokv.Engine.Store.Append.{
  encode_all, append_locked, write_locked, maybe_rotate, number_from, open_new_active,
  append_to_active, append_written, sync_and_publish, publish,
}
use gokv.Engine.Store.Methods.{put, delete, batch_put, zip_pairs}
use gokv.Engine.Store.Reads.{get}
use gokv.Engine.Store.Reset.{no_keys}
use gokv.Engine.Store.Sound.Defs.{IsSound, value_of}
use gokv.Engine.Store.Sound.Refine.{Refines, with_value, put-Refines, delete-Refines}
use gokv.Engine.Store.Sound.Batch.{batch_put-Refines, with_all}
use gokv.Engine.Store.Sound.Served.{well, get-put, get-delete}
use gokv.Engine.Replica.{apply_raw}
use gokv.Engine.Replica.Follows.{Followed, apply_raw-encode_all}
use gokv.Engine.Replica.Hostile.{apply_raw-IsSound}
use gokv.Tests.Samples.{
  byte_checksum, fresh, fresh-IsLive, fresh-HasRoom, color, red, size, single_record,
  single_record-IsStorable,
}
use mathlib.Core.List.{Permᴰ}

valid : (k : List ℕ) → 0 < length k → length k ≤ 64 * 1024 → validate_key k ≡ none
unfolding validate_key
valid k p q = ground arith

abbrev pub held : Store
held = (put fresh color red (well 9)).0

pub held_facts : (held.next_id ≡ 2) × (held.seq ≡ 1) × (held.closed ≡ false)
unfolding put append_locked write_locked maybe_rotate number_from open_new_active append_to_active
    append_written sync_and_publish publish validate_key encode_all append_record file_of
held_facts = (refl, refl, refl)

get-put_example :
    ((put fresh color red (well 9)).1 ≡ ok tt)
    × ((get (put fresh color red (well 9)).0 size).1
        ≡ (if key_eq color size then ok red else (get fresh size).1))
get-put_example =
    get-put fresh color red size 9 fresh-IsLive fresh-HasRoom (omega arith)
      (valid color (omega arith) (omega arith)) (omega arith) refl
      (valid size (omega arith) (omega arith))

put-Refines_example :
    Refines fresh (with_value (value_of fresh) color (some red)) (put fresh color red (well 9))
put-Refines_example = put-Refines fresh color red (well 9) fresh-IsLive fresh-HasRoom (omega arith)

delete-Refines_example :
    Refines fresh
      (with_value (value_of fresh) color none)
      (delete fresh color (record (well 9) { write = part 3 true }))
delete-Refines_example =
    delete-Refines fresh color (record (well 9) { write = part 3 true }) fresh-IsLive fresh-HasRoom
      (omega arith)

batch_put-Refines_example :
    Refines fresh
      (with_all (value_of fresh) (zip_pairs (color ∷ []) (red ∷ [])))
      (batch_put fresh (color ∷ []) (red ∷ []) (well 9))
batch_put-Refines_example =
    batch_put-Refines fresh (color ∷ []) (red ∷ []) (well 9) fresh-IsLive fresh-HasRoom
      (omega arith) (omega arith)

pub held-Refines :
    Refines fresh (with_value (value_of fresh) color (some red)) (put fresh color red (well 9))
held-Refines = put-Refines fresh color red (well 9) fresh-IsLive fresh-HasRoom (omega arith)

held_done : (put fresh color red (well 9)).1 ≡ ok tt
unfolding put append_locked write_locked maybe_rotate number_from open_new_active append_to_active
    append_written sync_and_publish publish validate_key encode_all append_record file_of
held_done = refl

held_value : value_of held color ≡ some red
held_value = rw held_done at (held-Refines.values color) ∙ rw (key_eq_refl color) refl

get-delete_example :
    ((delete held color (well 11)).1 ≡ ok tt)
    × ((get (delete held color (well 11)).0 color).1
        ≡ (if key_eq color color then err key_not_found else (get held color).1))
get-delete_example =
    get-delete held color red color 11 held-Refines.live
      (record { ids = omega (arith, held_facts.0); seqs = omega (arith, held_facts.1) })
      (omega arith) (valid color (omega arith) (omega arith)) held_value held_facts.2
      (valid color (omega arith) (omega arith))

apply_raw-encode_all_example :
    Followed fresh
      (single_record ∷ [])
      (apply_raw fresh (encode_all [] (single_record ∷ [])) (well 9))
apply_raw-encode_all_example =
    apply_raw-encode_all fresh (single_record ∷ []) (well 9) fresh-IsLive (omega arith)
      (single_record-IsStorable, tt) (unfold encodes le in omega arith) (omega arith, tt)

apply_raw-IsSound_example : IsSound (apply_raw fresh (1 ∷ 2 ∷ 3 ∷ []) (well 9)).0
apply_raw-IsSound_example =
    apply_raw-IsSound fresh (1 ∷ 2 ∷ 3 ∷ []) (well 9) fresh-IsLive.sound (omega arith)
      (omega arith, (omega arith, (omega arith, tt))) (omega arith)

index_apply-IsCounted_example : IsCounted (
    index_apply no_keys color
      (record { pos = 0; seq = 4; file_id = 1; size = 32; tomb = false })
      false)
index_apply-IsCounted_example =
    index_apply-IsCounted no_keys color
      (record { pos = 0; seq = 4; file_id = 1; size = 32; tomb = false }) false tt
      (record { bytes = unfold live_sum in refl; count = unfold live_sum in refl })

-- Two records of one key, the newer one first.
abbrev newer_change : Change
newer_change = record {
  key = color;
  entry = record { pos = 40; seq = 2; file_id = 1; size = 32; tomb = false };
  tomb = true;
}

abbrev older_change : Change
older_change = record {
  key = color;
  entry = record { pos = 0; seq = 1; file_id = 1; size = 32; tomb = false };
  tomb = false;
}

abbrev by_seq : ℕ → Change
by_seq n = if n == 1 then older_change else newer_change

lookup-apply_all-any_order_example :
    lookup color (apply_all (newer_change ∷ older_change ∷ []) [])
    ≡ lookup color (apply_all (older_change ∷ newer_change ∷ []) [])
lookup-apply_all-any_order_example =
    lookup-apply_all-any_order by_seq (newer_change ∷ older_change ∷ [])
      (older_change ∷ newer_change ∷ []) [] color (Permᴰ.swap refl refl) (refl, (refl, tt))
