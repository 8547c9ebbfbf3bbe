-- ===== src/Node/Election.antt =====
-- internal/node/election.go, with `adoptEpoch` and the start of a session of replication.go. Each
-- function here runs with no other in between; Campaign and Steps have `startElection` in its steps.
pub mod Campaign
pub mod Steps
pub mod Uninterrupted
pub mod Epochs
pub mod Quorum
pub mod Messages
use gokv.Prelude.{
  ℕ, ◌+◌, ◌-◌, ◌*◌, ◌%◌, Bool, true, false, not, ◌&&◌, ◌||◌, Option, none, some, List, [], ◌∷◌, ltb,
  leb, ◌==◌, if◌then◌else◌, length, max, ◌⊎◌, inl, inr,
}
use gokv.Prelude.Bytes.{u64_mod}
use gokv.Prelude.Keys.{key_eq, key_lt}
use gokv.Proto.{new_enc, new_dec, put_u8, put_u64, put_bytes, get_u8, get_u64, get_bytes, done}
use gokv.Proto.Wire.{status_ok, status_heartbeat, op_vote, op_announce}
use gokv.Node.{Role, follower, leader, Node, ErrorTexts, write_status, write_error, malformed}

-- The reply to a request for a vote, less the address that was asked.
pub record VoteReply : Type 0 where
  pub id : List ℕ
  pub role : Role
  pub epoch : ℕ
  pub seq : ℕ
  pub leader_addr : List ℕ
  pub leader_alive : Bool

abbrev pub is_alive : Node → ℕ → Bool
is_alive n now = n.role == leader || leb (now - n.last_contact) n.cfg.election_timeout

abbrev pub vote_of : Node → ℕ → VoteReply
vote_of n now = record {
  id = n.cfg.id;
  role = n.role;
  epoch = n.epoch;
  seq = n.store.seq;
  leader_addr = n.leader_addr;
  leader_alive = is_alive n now;
}

abbrev pub encode_vote : VoteReply → List ℕ
encode_vote r =
    put_u8
      (put_bytes
        (put_u64 (put_u64 (put_u8 (put_bytes (new_enc status_ok) r.id) (r.role % 256)) r.epoch)
          r.seq)
        r.leader_addr)
      (if r.leader_alive then 1 else 0)

-- The request of `requestVote`.
abbrev pub vote_request : List ℕ → ℕ → List ℕ
vote_request id my_seq = put_u64 (put_bytes (new_enc op_vote) id) my_seq

unfoldable pub handle_vote : ⦃texts : ErrorTexts⦄ → Node → ℕ → List ℕ → List ℕ
handle_vote n now request =
    let (candidate_id, d) = get_bytes (new_dec request) in
    let (candidate_seq, d') = get_u64 d in
    if done d' then encode_vote (vote_of n now) else write_error malformed

-- `requestVote` behind the round trip: the body of the reply frame.
unfoldable pub read_vote : List ℕ → Option VoteReply
read_vote body =
    let (id, d1) = get_bytes (new_dec body) in
    let (role, d2) = get_u8 d1 in
    let (epoch, d3) = get_u64 d2 in
    let (seq, d4) = get_u64 d3 in
    let (leader_addr, d5) = get_bytes d4 in
    let (alive, d6) = get_u8 d5 in
    if done d6
    then some (record {
      id = id;
      role = role;
      epoch = epoch;
      seq = seq;
      leader_addr = leader_addr;
      leader_alive = alive == 1;
    })
    else none

-- The part of `handleAnnounce` under the lock.
unfoldable pub announced : Node → List ℕ → ℕ → ℕ → Node
announced n leader_addr epoch now = if leb epoch n.epoch then n else record n {
  role = follower;
  leader_addr = leader_addr;
  epoch = epoch;
  last_contact = now;
  was_leader = if n.role == leader then true else n.was_leader;
}

unfoldable pub handle_announce : ⦃texts : ErrorTexts⦄ → Node → ℕ → List ℕ → Node × List ℕ
handle_announce n now request =
    let (leader_addr, d1) = get_bytes (new_dec request) in
    let (leader_id, d2) = get_bytes d1 in
    let (epoch, d3) = get_u64 d2 in
    if done d3
    then (announced n leader_addr epoch now, write_status status_ok)
    else (n, write_error malformed)

unfoldable pub peers_except_self : List (List ℕ) → List ℕ → List (List ℕ)
peers_except_self [] addr = []
peers_except_self (p ∷ ps) addr =
    if not (key_eq p addr) && not (length p == 0)
    then p ∷ peers_except_self ps addr
    else peers_except_self ps addr

abbrev pub peers_of : Node → List (List ℕ)
peers_of n = peers_except_self n.cfg.peers n.cfg.addr

abbrev pub cluster_size : Node → ℕ
cluster_size n = length (peers_of n) + 1

unfoldable pub adopt_leader : Node → List ℕ → ℕ → ℕ → Node
adopt_leader n addr epoch now = record n {
  leader_addr = addr;
  epoch = if ltb n.epoch epoch then epoch else n.epoch;
  last_contact = now;
}

unfoldable pub promote_to : Node → ℕ → ℕ → Node
promote_to n epoch now =
    if n.role == leader && leb epoch n.epoch
    then n
    else record n { role = leader; leader_addr = n.cfg.addr; epoch = epoch; last_contact = now }

unfoldable pub promote : Node → ℕ → Node
promote n now = promote_to n ((n.epoch + 1) % u64_mod) now

-- The variables of the loop of `startElection`.
pub record Tally : Type 0 where
  pub responses : ℕ
  pub best_candidate : Bool
  pub my_epoch : ℕ

-- Whether a reply is from a node that should lead in place of this one.
abbrev pub is_ahead : VoteReply → ℕ → List ℕ → Bool
is_ahead r my_seq my_id = ltb my_seq r.seq || (r.seq == my_seq && key_lt r.id my_id)

abbrev pub tallied : VoteReply → ℕ → List ℕ → Tally → Tally
tallied r my_seq my_id t = record {
  responses = t.responses + 1;
  best_candidate = if is_ahead r my_seq my_id then false else t.best_candidate;
  my_epoch = if ltb t.my_epoch r.epoch then r.epoch else t.my_epoch;
}

-- A peer, and what `requestVote` returned for it; `none` is an error.
abbrev pub Poll : Type 0
Poll = List ℕ × Option VoteReply

-- The loop: it ends the election in favour of a leader that a peer knows, or it has a tally.
unfoldable pub poll_peers : Node → ℕ → List Poll → Tally → Node ⊎ Tally
poll_peers n now [] t = inr t
poll_peers n now ((p, none) ∷ ps) t = poll_peers n now ps t
poll_peers n now ((p, some r) ∷ ps) t =
    let rest = poll_peers n now ps (tallied r n.store.seq n.cfg.id t) in
    if r.role == leader && leb t.my_epoch r.epoch
    then inl (adopt_leader n p r.epoch now)
    else if r.leader_alive && not (length r.leader_addr == 0)
    then inl (adopt_leader n r.leader_addr (max r.epoch t.my_epoch) now)
    else rest

-- Request `i` goes to the `i`-th peer.
unfoldable pub asked : (ℕ → Option VoteReply) → ℕ → List (List ℕ) → List Poll
asked answers i [] = []
asked answers i (p ∷ ps) = (p, answers i) ∷ asked answers (i + 1) ps

abbrev pub first_tally : Node → Tally
first_tally n = record { responses = 1; best_candidate = true; my_epoch = n.epoch }

-- `startElection` behind the loop.
unfoldable pub conclude : Node → ℕ → Tally → Node
conclude n now t =
    if leb (t.responses * 2) (cluster_size n)
    then n
    else if not t.best_candidate
    then n
    else promote_to n ((t.my_epoch + 1) % u64_mod) now

unfoldable pub start_election : Node → (ℕ → Option VoteReply) → ℕ → Node
start_election n answers now =
    if n.electing
    then n
    else if n.role == leader || n.closing
    then n
    else elim (poll_peers n now (asked answers 0 (peers_of n)) (first_tally n)) [
      | inl n' ↦ n'
      | inr t ↦ conclude n now t
    ]

abbrev pub announce_frame : Node → ℕ → List ℕ
announce_frame n epoch =
    put_u64 (put_bytes (put_bytes (new_enc op_announce) n.cfg.addr) n.cfg.id) epoch

-- replication.go.
unfoldable pub adopt_epoch : Node → List ℕ → ℕ → Node
adopt_epoch n addr epoch =
    if leb n.epoch epoch && n.role == follower
    then record n { epoch = epoch; leader_addr = if length addr == 0 then n.leader_addr else addr }
    else n

-- `replicateFrom` once it is connected: the position that it asks from.
unfoldable pub open_session : Node → Node × ℕ
open_session n = (record n { was_leader = false }, if n.was_leader then 0 else n.store.seq)

-- Its branch for StatusRedirect.
unfoldable pub redirected : Node → List ℕ → List ℕ → Node
redirected n addr new_leader =
    if not (length new_leader == 0) && not (key_eq new_leader addr)
    then record n { leader_addr = new_leader }
    else n
