-- ===== src/Node/Session/Full.antt =====
-- The rounds of a session around a snapshot, and the whole of it.
use gokv.Prelude.{
  ℕ, ◌+◌, ◌≤◌, ◌<◌, ◌≡◌, refl, ap, ◌∙◌, true, false, ◌⊎◌, Option, none, some, List, [], ◌∷◌, ◌++◌,
  ◌==◌, arith, length, Option-cases, inl, inr,
}
use gokv.Prelude.Bytes.{u32_mod}
use gokv.Engine.Record.{Checksum}
use gokv.Engine.Index.{lookup, Index}
use gokv.Engine.Store.{Store, ok}
use gokv.Engine.Store.Append.{open_new_active}
use gokv.Engine.Store.Reset.{reset, reset-IsLive}
use gokv.Engine.Store.Sound.Defs.{IsSound, IsBelowAt, value_of}
use gokv.Engine.Store.Sound.Refine.{IsLive}
use gokv.Engine.Store.Sound.Served.{well}
use gokv.Engine.Store.Scan.Listed.{listing}
use gokv.Engine.Snapshot.Complete.{steady, wrapped, AreFrames}
use gokv.Prelude.Keys.{key_lt}
use gokv.Proto.Wire.{status_full_sync, status_live}
use gokv.Node.{Node, leader, write_status}
use gokv.Node.Election.{adopt_epoch, open_session}
use gokv.Node.Range.Chunked.{always_sent}
use gokv.Node.CatchUp.{repl_data}
use gokv.Node.CatchUp.Full.{catch_up-full_sync}
use gokv.Node.Session.{
  stream_closed, on_frame, read_stream, take_heartbeat, heartbeat_frame, replicate_from,
  serve_replication,
}
use gokv.Node.Session.Listed.{find, listing-AreDistinct, find-value_of}
use gokv.Node.Session.Synced.{well_at, AllAbsent, Fed, feed, round_goes_on, stored_ok}

module _ ⦃c : Checksum⦄ where
  absent_now : (j : List ℕ) (s : Store) → s.keydir.index ≡ [] → IsBelowAt 0 j s.keydir.index
  unfolding lookup
  absent_now j s e = rw e (record { at = λ x q. absurd cc })

  all_absent : (s : Store) (ps : List (List ℕ × List ℕ)) → s.keydir.index ≡ [] → AllAbsent s ps
  all_absent s [] e = tt
  all_absent s (p ∷ ps) e = (absent_now p.0 s e, all_absent s ps e)

  reset_succeeds :
      (s : Store) (now : ℕ)
      → s.closed ≡ false
      → ((reset s (well now)).1 ≡ ok tt)
        × ((reset s (well now)).0.keydir.index ≡ [])
        × ((reset s (well now)).0.closed ≡ false)
        × ((reset s (well now)).0.next_id ≤ s.next_id + 1)
  unfolding reset open_new_active
  reset_succeeds s now o = rw o (refl, refl, refl, omega arith)

  full_sync_frame :
      (n : Node) (addr : List ℕ) (now : ℕ)
      → (reset n.store (well now)).1 ≡ ok tt
      → on_frame n addr (well now) (write_status status_full_sync)
        ≡ (record n { last_contact = now; store = (reset n.store (well now)).0 }, none)
  unfolding on_frame
  full_sync_frame n addr now e =
      stored_ok (record n { last_contact = now }) (reset n.store (well now)) tt e

  take_heartbeat-store : (n : Node) (body : List ℕ) → (take_heartbeat n body).store ≡ n.store
  unfolding take_heartbeat adopt_epoch
  take_heartbeat-store n body = ground arith

  heartbeat_round :
      (l n : Node) (addr : List ℕ) (now : ℕ)
      → (n' : Node) × (on_frame n addr (well now) (heartbeat_frame l) ≡ (n', none))
        × (n'.store ≡ n.store)
  unfolding on_frame
  heartbeat_round l n addr now = (_, refl, take_heartbeat-store (record n { last_contact = now }) _)

  live_round :
      (n : Node) (addr : List ℕ) (now : ℕ)
      → on_frame n addr (well now) (write_status status_live)
        ≡ (record n { last_contact = now }, none)
  unfolding on_frame
  live_round n addr now = refl

  length-listing :
      (value : List ℕ → Option (List ℕ)) (m : Index) → length (listing value [] [] m) ≤ length m
  unfolding listing key_lt
  length-listing value [] = omega arith
  length-listing value ((k, e) ∷ m) = elim (Option-cases (value k)) [
    | inl gone ↦ rw gone (omega (arith, length-listing value m))
    | inr (v, held) ↦ rw held (omega (arith, length-listing value m))
  ]

  stream_ends :
      (n : Node) (addr : List ℕ) (now : ℕ → ℕ) (i : ℕ)
      → read_stream n addr (well_at now) i [] ≡ (n, stream_closed)
  unfolding read_stream
  stream_ends n addr now i = refl

  or_nothing : (o x : Option (List ℕ)) → x ≡ none → elim o [ some v ↦ some v | none ↦ x ] ≡ o
  or_nothing (some v) x h = refl
  or_nothing none x h = h

  -- The rounds of a full sync: the greeting, the reset, the data and the last frame.
  record Through (l : Node) (n : Node) (addr : List ℕ) (now : ℕ → ℕ) (raws : List (List ℕ))
      : Type 0 where
    node : Node
    reads :
        read_stream n addr (well_at now) 0 (
          heartbeat_frame l
          ∷ (write_status status_full_sync
              ∷ (wrapped repl_data raws ++ (write_status status_live ∷ []))))
        ≡ (node, stream_closed)
    live : IsLive node.store
    values : (j : List ℕ) → value_of node.store j ≡ value_of l.store j

  through :
      (l n : Node) (addr : List ℕ) (now : ℕ → ℕ) (raws : List (List ℕ))
      → IsSound l.store
      → n.store.closed ≡ false
      → n.store.next_id + length l.store.keydir.index + 1 < u32_mod
      → AreFrames raws (listing (value_of l.store) [] [] l.store.keydir.index)
      → Through l n addr now raws
  through l n addr now raws h o room frames =
      let ps = listing (value_of l.store) [] [] l.store.keydir.index in
      let (n1, greeted, same) = heartbeat_round l n addr (now 0) in
      let (fine, bare, o2, ids) = reset_succeeds n1.store (now 1) (rw same o) in
      let n2 : Node = record n1 {
        last_contact = now 1;
        store = (reset n1.store (well (now 1))).0;
      } in
      let left : n1.store.next_id ≡ n.store.next_id = ap (λ s. s.next_id) same in
      let (fresh, empty, _) =
        reset-IsLive n1.store (well (now 1)) (omega (arith, room, left)) fine in
      let fed : Fed n2 addr now 2 (wrapped repl_data raws) ps =
        feed n2 addr now 2 raws ps fresh o2
          (omega (arith, room, left, ids, length-listing (value_of l.store) l.store.keydir.index))
          frames (listing-AreDistinct _ _ h.indexing.sorted) (all_absent n2.store ps bare) in
      record {
        node = record fed.node { last_contact = now fed.at };
        reads =
            round_goes_on n n1 addr now 0 _ _ greeted
            ∙ round_goes_on n1 n2 addr now 1 _ _ (full_sync_frame n1 addr (now 1) fine)
            ∙ fed.reads (write_status status_live ∷ [])
            ∙ round_goes_on fed.node _ addr now fed.at _ [] (live_round fed.node addr (now fed.at))
            ∙ stream_ends _ addr now (fed.at + 1);
        live = fed.live;
        values = λ j. fed.values j ∙ or_nothing (find j ps) _ (empty j) ∙ find-value_of l.store j;
      }

  -- A leader's store is sound and does not change, the fuel is more than its keys, every frame is
  -- written, and every call of the follower's operating system succeeds; the follower's store is
  -- open and has file ids left for the leader's keys and two more; and the follower asks from 0
  -- or from before the leader's last compaction. Then `serve_replication` sends all its frames
  -- before the live stream, and `replicate_from` reads them to their end and leaves the follower
  -- with a live store that holds for every key what the leader's store holds.
  pub replicate_from-full_sync :
      (fuel : ℕ) (l n : Node) (now : ℕ → ℕ)
      → l.role ≡ leader
      → IsSound l.store
      → length l.store.keydir.index < fuel
      → n.store.closed ≡ false
      → n.store.next_id + length l.store.keydir.index + 1 < u32_mod
      → ((open_session n).1 ≡ 0) ⊎ ((open_session n).1 < l.store.merge_seq)
      → (frames : List (List ℕ)) × (serve_replication fuel
            (steady l.store)
            always_sent
            l
            (open_session n).1
          ≡ some (frames, true))
        × (let res = replicate_from n l.cfg.addr true true (well_at now) frames in
            (res.1 ≡ stream_closed)
            × IsLive res.0.store
            × ((j : List ℕ) → value_of res.0.store j ≡ value_of l.store j))
  unfolding serve_replication replicate_from
  replicate_from-full_sync fuel l n now lead h f o room old =
      let (raws, served, frames) = catch_up-full_sync fuel l.store (open_session n).1 h f old in
      let t =
        through l (open_session n).0 l.cfg.addr now raws h (unfold open_session in o)
          (unfold open_session in room) frames in
      let led : (l.role == leader) ≡ true = ground (arith, lead) in
      (
        heartbeat_frame l
            ∷ (write_status status_full_sync
                ∷ (wrapped repl_data raws ++ (write_status status_live ∷ []))),
        rw (led, served) refl,
        rw t.reads (refl, t.live, t.values),
      )
