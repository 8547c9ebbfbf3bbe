-- ===== src/Tests/Merging.antt =====
-- Compactions of a store that holds one record.
use gokv.Prelude.{◌+◌, ◌<◌, ◌≡◌, refl, true, false, arith, length}
use gokv.Prelude.Bytes.{u32_mod}
use gokv.Engine.Files.{file_of}
use gokv.Engine.Record.{append_record}
use gokv.Engine.Index.{insert, lookup, index_apply}
use gokv.Engine.Store.{ok, validate_key}
use gokv.Engine.Store.Append.{
  encode_all, append_locked, write_locked, maybe_rotate, number_from, open_new_active,
  append_to_active, append_written, sync_and_publish, publish, index_all,
}
use gokv.Engine.Store.Methods.{put}
use gokv.Engine.Store.Sound.Defs.{value_of}
use gokv.Engine.Store.Sound.Refine.{Refines}
use gokv.Engine.Store.Sound.Served.{well}
use gokv.Engine.Compact.{CompactIo, compact}
use gokv.Engine.Compact.Refine.{compact-Refines}
use gokv.Engine.Compact.Reclaim.{OnlyFrom, compact_reclaims}
use gokv.Tests.Samples.{byte_checksum}
use gokv.Tests.Storing.{held, held_facts, held-Refines}

abbrev good_calls : CompactIo
good_calls = record {
  sync_old = true;
  fresh = well 10;
  copy = λ _. record { create = true; hint = true; read = true; write = true; note = true };
  sync_outs = true;
  commit = true;
  sync_dir = true;
}

held_room : (held.next_id + 1) + length held.keydir.index < u32_mod
unfolding put append_locked write_locked maybe_rotate number_from open_new_active append_to_active
    append_written sync_and_publish publish validate_key encode_all append_record file_of index_all
    index_apply insert lookup
held_room = omega arith

compact-Refines_example :
    Refines held (value_of held) (compact held (record good_calls { sync_dir = false }))
compact-Refines_example =
    compact-Refines held (record good_calls { sync_dir = false }) held-Refines.live held_room

compact_reclaims_example :
    ((compact held good_calls).1 ≡ ok tt) × OnlyFrom held.next_id (compact held good_calls).0
compact_reclaims_example =
    compact_reclaims held good_calls held-Refines.live held_room
      (record { sealed = (refl, refl, refl); copies = λ j. refl; durable = refl }) held_facts.2
