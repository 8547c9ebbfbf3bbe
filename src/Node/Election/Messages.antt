-- ===== src/Node/Election/Messages.antt =====
-- Vote replies and announcements on the wire.
use gokv.Prelude.{
  ℕ, ◌%◌, ◌<◌, ◌≡◌, refl, some, List, [], ◌∷◌, ◌++◌, arith, length, drop, append_assoc, append-nil,
  if◌then◌else◌, ◌==◌, ◌||◌,
}
use gokv.Prelude.Bytes.{be, u32_mod, u64_mod}
use gokv.Proto.{new_dec}
use gokv.Proto.Read.{Holds-new_dec, read_u8, read_u64, read_bytes, done-read, prefixed}
use gokv.Proto.Wire.{status_ok}
use gokv.Node.{Node, leader, follower, ErrorTexts, write_status}
use gokv.Node.Election.{
  VoteReply, vote_of, vote_request, encode_vote, read_vote, handle_vote, announced, handle_announce,
  announce_frame,
}

-- The reply as one right-nested sequence of fields.
vote_body : VoteReply → List ℕ
vote_body r =
    prefixed r.id
    ++ (r.role % 256
        ∷ (be 8 r.epoch
            ++ (be 8 r.seq
                ++ (prefixed r.leader_addr ++ ((if r.leader_alive then 1 else 0) ∷ [])))))

encode_vote-body : (r : VoteReply) → encode_vote r ≡ status_ok ∷ vote_body r
unfolding vote_body
encode_vote-body r = simp append_assoc refl

-- A reply whose fields fit into their widths.
pub record IsReply (r : VoteReply) : Type 0 where
  pub id : length r.id < u32_mod
  pub role : r.role < 256
  pub epoch : r.epoch < u64_mod
  pub seq : r.seq < u64_mod
  pub addr : length r.leader_addr < u32_mod

read_vote-body : (r : VoteReply) → IsReply r → read_vote (vote_body r) ≡ some r
unfolding read_vote vote_body
read_vote-body r h =
    let (d1, e1, h1) =
      read_bytes (new_dec (vote_body r)) r.id _ h.id (Holds-new_dec (vote_body r)) in
    let (d2, e2, h2) = read_u8 d1 (r.role % 256) _ (omega arith) h1 in
    let (d3, e3, h3) = read_u64 d2 r.epoch _ h.epoch h2 in
    let (d4, e4, h4) = read_u64 d3 r.seq _ h.seq h3 in
    let (d5, e5, h5) = read_bytes d4 r.leader_addr _ h.addr h4 in
    let (d6, e6, h6) = read_u8 d5 (if r.leader_alive then 1 else 0) [] (ground arith) h5 in
    let small : r.role % 256 ≡ r.role = omega (arith, h.role) in
    let flag : ((if r.leader_alive then 1 else 0) == 1) ≡ r.leader_alive = ground arith in
    rw (e1, e2, e3, e4, e5, e6, done-read d6 h6, small, flag)

-- If the fields of a node's vote fit into their widths, as do those of the request, then the
-- reply to the request is read back as the vote of the node.
pub read_vote-handle_vote :
    ⦃texts : ErrorTexts⦄ (n : Node) (now : ℕ) (id : List ℕ) (seq : ℕ)
    → length id < u32_mod
    → seq < u64_mod
    → IsReply (vote_of n now)
    → read_vote (drop 1 (handle_vote n now (drop 1 (vote_request id seq)))) ≡ some (vote_of n now)
unfolding handle_vote
read_vote-handle_vote n now id seq hid hseq h =
    let body = prefixed id ++ (be 8 seq ++ []) in
    let same : drop 1 (vote_request id seq) ≡ body = simp (append_assoc, append-nil) refl in
    let (d1, e1, h1) = read_bytes (new_dec body) id (be 8 seq ++ []) hid (Holds-new_dec body) in
    let (d2, e2, h2) = read_u64 d1 seq [] hseq h1 in
    rw (same, handle_vote, e1, e2, done-read d2 h2, encode_vote-body)
      (read_vote-body (vote_of n now) h)

announce_read :
    ⦃texts : ErrorTexts⦄ (from to : Node) (epoch now : ℕ)
    → length from.cfg.addr < u32_mod
    → length from.cfg.id < u32_mod
    → epoch < u64_mod
    → handle_announce to now (drop 1 (announce_frame from epoch))
      ≡ (announced to from.cfg.addr epoch now, write_status status_ok)
unfolding handle_announce
announce_read from to epoch now ha hi he =
    let body = prefixed from.cfg.addr ++ (prefixed from.cfg.id ++ (be 8 epoch ++ [])) in
    let same : drop 1 (announce_frame from epoch) ≡ body = simp (append_assoc, append-nil) refl in
    let (d1, e1, h1) = read_bytes (new_dec body) from.cfg.addr _ ha (Holds-new_dec body) in
    let (d2, e2, h2) = read_bytes d1 from.cfg.id (be 8 epoch ++ []) hi h1 in
    let (d3, e3, h3) = read_u64 d2 epoch [] he h2 in
    rw (same, handle_announce, e1, e2, e3, done-read d3 h3)

-- An announcement whose fields fit into their widths is answered by StatusOK and makes a node at
-- a lower epoch a follower of the sender at the announced epoch, with its store as it was; the
-- node notes it if it led until then.
pub handle_announce-frame :
    ⦃texts : ErrorTexts⦄ (from to : Node) (epoch now : ℕ)
    → length from.cfg.addr < u32_mod
    → length from.cfg.id < u32_mod
    → epoch < u64_mod
    → to.epoch < epoch
    → let (to', reply) = handle_announce to now (drop 1 (announce_frame from epoch)) in
      (reply ≡ status_ok ∷ [])
      × (to'.role ≡ follower)
      × (to'.leader_addr ≡ from.cfg.addr)
      × (to'.epoch ≡ epoch)
      × (to'.was_leader ≡ (to.was_leader || to.role == leader))
      × (to'.store ≡ to.store)
unfolding announced
handle_announce-frame from to epoch now ha hi he newer =
    rw (announce_read from to epoch now ha hi he) (ground arith)
