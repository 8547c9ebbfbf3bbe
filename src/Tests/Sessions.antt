-- ===== src/Tests/Sessions.antt =====
-- A session of replication, live streams, and a client that looks for the leader.
use gokv.Prelude.{
  ℕ, zero, suc, ◌+◌, ◌<◌, ◌≤◌, ◌≡◌, refl, ap, ◌⊎◌, inl, inr, true, false, some, none, List, [], ◌∷◌,
  ◌++◌, arith, length, Bool-cases, if◌then◌else◌,
}
use gokv.Prelude.Bytes.{u32_mod}
use gokv.Prelude.Keys.{key_eq, key_eq→eq}
use gokv.Engine.Files.{file_of}
use gokv.Engine.Record.{append_record}
use gokv.Engine.Index.{insert, lookup, index_apply}
use gokv.Engine.Store.{validate_key}
use gokv.Engine.Store.Append.{
  encode_all, append_locked, write_locked, maybe_rotate, number_from, open_new_active,
  append_to_active, append_written, sync_and_publish, publish, index_all,
}
use gokv.Engine.Store.Methods.{put}
use gokv.Engine.Store.Sound.Defs.{value_of}
use gokv.Engine.Store.Sound.Refine.{IsLive}
use gokv.Engine.Snapshot.Complete.{steady}
use gokv.Node.{Node, leader, follower}
use gokv.Node.Election.{open_session}
use gokv.Node.Range.Chunked.{always_sent}
use gokv.Node.Session.{serve_replication, replicate_from, stream_closed}
use gokv.Node.Session.Synced.{well_at}
use gokv.Node.Session.Full.{replicate_from-full_sync}
use gokv.Node.Streams.{Feed, new_feed, offer, stream_buffer, Run, here, offered}
use gokv.Node.Streams.Unbroken.{feed_of, Run-unbroken, Run-skips}
use gokv.Client.{Client, Net, call, answered}
use gokv.Client.Reaches.{HasLeader, redirect_to, call_reaches}
use gokv.Tests.Samples.{byte_checksum, node}
use gokv.Tests.Storing.{held, held-Refines}

abbrev leading : Node
leading = record (node 1 leader) { store = held }

held_room : 2 + length held.keydir.index + 1 < u32_mod
unfolding put append_locked write_locked maybe_rotate number_from open_new_active append_to_active
    append_written sync_and_publish publish validate_key encode_all append_record file_of index_all
    index_apply insert lookup
held_room = omega arith

held_few : length held.keydir.index < 2
unfolding put append_locked write_locked maybe_rotate number_from open_new_active append_to_active
    append_written sync_and_publish publish validate_key encode_all append_record file_of index_all
    index_apply insert lookup
held_few = omega arith

replicate_from-full_sync_example :
    (frames : List (List ℕ)) × (serve_replication 2
        (steady held)
        always_sent
        leading
        (open_session (node 2 follower)).1
      ≡ some (frames, true))
    × (let res =
          replicate_from (node 2 follower) leading.cfg.addr true true (well_at (λ i. i)) frames in
        (res.1 ≡ stream_closed)
        × IsLive res.0.store
        × ((j : List ℕ) → value_of res.0.store j ≡ value_of held j))
replicate_from-full_sync_example =
    replicate_from-full_sync 2 leading (node 2 follower) (λ i. i) refl held-Refines.live.sound
      held_few refl held_room (inl (unfold open_session in refl))

Run-unbroken_example :
    let g : Feed = record new_feed { stream = offer (7 ∷ []) new_feed.stream } in
    (g.stream.done ≡ false → g.sent ++ g.stream.queue ≡ (7 ∷ []) ∷ [])
    × (length g.stream.queue ≤ stream_buffer)
Run-unbroken_example = Run-unbroken _ _ (offered (7 ∷ []) here)

-- A number of buffers.
unfoldable filled : ℕ → List (List ℕ)
filled zero = []
filled (suc n) = (n ∷ []) ∷ filled n

length-filled : (n : ℕ) → length (filled n) ≡ n
unfolding filled
length-filled zero = refl
length-filled (suc n) = ap suc (length-filled n)

Run-skips_example :
    Run
      (feed_of ((0 ∷ []) ∷ filled 4095) false [])
      ((1 ∷ []) ∷ ((2 ∷ []) ∷ []))
      (feed_of [] true (([] ++ ((0 ∷ []) ∷ [])) ++ (filled 4095 ++ ((2 ∷ []) ∷ []))))
Run-skips_example =
    Run-skips [] (filled 4095) (0 ∷ []) (1 ∷ []) (2 ∷ []) (omega (arith, length-filled 4095))

-- A cluster of which one node answers.
abbrev chief : List ℕ
chief = 3 ∷ 58 ∷ []

abbrev lonely : Net
lonely = record {
  dial = λ i p a. true;
  reply = λ i a. if key_eq a chief then some (0 ∷ 49 ∷ []) else none;
}

lonely_others :
    (a : List ℕ)
    → (a ≡ chief)
      ⊎ ((lonely.reply 0 a ≡ none)
          ⊎ ((lonely.reply 0 a ≡ some (redirect_to []))
              ⊎ (lonely.reply 0 a ≡ some (redirect_to chief))))
lonely_others a = elim (Bool-cases (key_eq a chief)) [
  | inl same ↦ inl (key_eq→eq a chief same)
  | inr other ↦ inr (inl (rw other refl))
]

lonely-HasLeader : HasLeader lonely chief 0 (49 ∷ [])
unfolding key_eq
lonely-HasLeader = record {
  named = omega arith;
  short = omega arith;
  dials = λ i p. refl;
  replies = λ i. refl;
  no_redirect = refl;
  no_error = refl;
  others = λ i a. lonely_others a;
}

abbrev searching : Client
searching = record {
  addrs = (1 ∷ 58 ∷ []) ∷ ((2 ∷ 58 ∷ []) ∷ (chief ∷ []));
  max_attempts = 8;
  current = some (1 ∷ 58 ∷ []);
  next = 5;
  closed = false;
}

call_reaches_example : (call lonely (λ _. false) searching).1 ≡ answered (0 ∷ 49 ∷ [])
call_reaches_example =
    call_reaches lonely (λ _. false) chief 0 (49 ∷ []) lonely-HasLeader searching 2 refl
      (omega arith) refl (omega arith)
