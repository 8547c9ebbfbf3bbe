-- ===== src/Tests/Cluster.antt =====
-- Nodes: elections, announcements, and the requests of clients.
use gokv.Prelude.{
  ℕ, ◌+◌, ◌<◌, ◌≤◌, ◌≡◌, ◌≢◌, refl, true, false, ◌==◌, Option, none, some, [], ◌∷◌, arith, drop,
  inl, if◌then◌else◌,
}
use gokv.Prelude.Keys.{key_eq, key_lt}
use gokv.Engine.Store.{validate_key}
use gokv.Engine.Store.Sound.Served.{well}
use gokv.Proto.Read.{prefixed}
use gokv.Proto.Wire.{status_ok, op_get}
use gokv.Node.{Node, leader, follower}
use gokv.Node.Election.{
  VoteReply, vote_of, start_election, poll_peers, asked, peers_of, peers_except_self, conclude,
  promote_to, announced, Tally, tallied, first_tally, read_vote, handle_vote, vote_request,
  open_session,
}
use gokv.Node.Election.Campaign.{Stage, Running, enter_election, hear_reply, end_election}
use gokv.Node.Election.Quorum.{Won, Hears, start_election-Won, start_election_one}
use gokv.Node.Election.Steps.{Run, Step}
use gokv.Node.Election.Epochs.{Run-epoch, Run-leads, promote_to-announced, open_session-announced}
use gokv.Node.Election.Messages.{read_vote-handle_vote}
use gokv.Node.Serve.{serve_put, serve_get, put_request, key_request}
use gokv.Node.Serve.Requests.{serve_get-serve_put}
use gokv.Tests.Samples.{byte_checksum, no_texts, fresh-IsLive, fresh-HasRoom, color, red, node}

-- The first peer answers with its vote at time 10, when the leader has been silent; the other does not.
abbrev hears_one : Node → ℕ → Option VoteReply
hears_one n i = if i == 0 then some (vote_of n 10) else none

wins : (start_election (node 1 follower) (hears_one (node 2 follower)) 10).role ≡ leader
unfolding start_election poll_peers asked peers_except_self conclude promote_to key_eq key_lt
wins = refl

start_election-Won_example :
    Won
      (node 1 follower)
      (asked (hears_one (node 2 follower)) 0 (peers_of (node 1 follower)))
      (start_election (node 1 follower) (hears_one (node 2 follower)) 10)
start_election-Won_example =
    start_election-Won (node 1 follower) (hears_one (node 2 follower)) 10 refl wins

differ : key_eq (1 ∷ []) (2 ∷ []) ≡ false
unfolding key_eq
differ = refl

Hears-second :
    Hears
      (vote_of (node 2 follower) 10)
      (asked (hears_one (node 2 follower)) 0 (peers_of (node 1 follower)))
unfolding Hears asked peers_except_self key_eq
Hears-second = inl refl

Hears-first :
    Hears
      (vote_of (node 1 follower) 10)
      (asked (hears_one (node 1 follower)) 0 (peers_of (node 2 follower)))
unfolding Hears asked peers_except_self key_eq
Hears-first = inl refl

start_election_one_example :
    (start_election (node 2 follower) (hears_one (node 1 follower)) 10).role ≢ leader
start_election_one_example =
    start_election_one (node 1 follower) (node 2 follower) (hears_one (node 2 follower))
      (hears_one (node 1 follower)) 10 10 refl refl differ Hears-second Hears-first wins

-- Another leader is announced at epoch 2 while a node asks its peers; one of them votes for it.
abbrev campaigning : Node
campaigning = record (node 1 follower) { electing = true }

abbrev told : Node
told = announced campaigning (2 ∷ 58 ∷ []) 2 9

abbrev voted : Tally
voted =
    tallied (vote_of (node 2 follower) 10) campaigning.store.seq campaigning.cfg.id
      (first_tally campaigning)

campaign-Run :
    Run (record { node = node 1 follower; stage = Stage.idle }) (end_election told 10 voted)
unfolding enter_election hear_reply announced peers_except_self key_eq
campaign-Run =
    let entering : Run (record { node = node 1 follower; stage = Stage.idle })
        (record { node = campaigning; stage = Stage.entered }) =
      Run.move _ _ _ (Run.stay _) (Step.enter (node 1 follower)) in
    let reading = Run.move _ _ _ entering (Step.read campaigning (omega arith)) in
    let telling =
      Run.move _ _ _ reading (Step.announcement campaigning _ (2 ∷ 58 ∷ []) 2 9 (omega arith)) in
    let hearing = Run.move _ _ _ telling (
      Step.reply told 10 0 (first_tally campaigning) (2 ∷ 58 ∷ []) ((3 ∷ 58 ∷ []) ∷ [])
        (some (vote_of (node 2 follower) 10)) (omega arith)) in
    let missing = Run.move _ _ _ hearing (Step.reply told 10 0 voted (3 ∷ 58 ∷ []) [] none tt) in
    Run.move _ _ _ missing (Step.finish told 10 0 voted)

Run-epoch_example : (node 1 follower).epoch ≤ (end_election told 10 voted).node.epoch
Run-epoch_example = Run-epoch (node 1 follower) (end_election told 10 voted) campaign-Run

-- A leader is announced an epoch that it has passed.
abbrev told_old : Running
told_old = record { node = announced (node 1 leader) (2 ∷ 58 ∷ []) 1 9; stage = Stage.idle }

leading-Run : Run (record { node = node 1 leader; stage = Stage.idle }) told_old
leading-Run =
    Run.move _ _ _ (Run.stay _) (Step.announcement (node 1 leader) Stage.idle (2 ∷ 58 ∷ []) 1 9 tt)

Run-leads_example : told_old.node.role ≡ leader
Run-leads_example = Run-leads (node 1 leader) told_old leading-Run refl (unfold announced in refl)

abbrev tally : Tally
tally = record { responses = 2; best_candidate = true; my_epoch = 1 }

promote_to-announced_example :
    let n' = promote_to (announced (node 1 follower) (3 ∷ []) 7 8) (tally.my_epoch + 1) 9 in
    (n'.role ≡ leader) × (n'.epoch < (announced (node 1 follower) (3 ∷ []) 7 8).epoch)
promote_to-announced_example =
    promote_to-announced (node 1 follower) tally (3 ∷ []) 7 8 9 (omega arith) (omega arith)

open_session-announced_example :
    let first = open_session (announced (node 1 leader) (3 ∷ []) 2 8) in
    (first.1 ≡ 0) × ((open_session first.0).1 ≡ (node 1 leader).store.seq)
open_session-announced_example =
    open_session-announced (node 1 leader) (3 ∷ []) 2 8 refl (omega arith)

read_vote-handle_vote_example :
    read_vote (drop 1 (handle_vote (node 1 leader) 9 (drop 1 (vote_request (2 ∷ []) 4))))
    ≡ some (vote_of (node 1 leader) 9)
read_vote-handle_vote_example =
    read_vote-handle_vote (node 1 leader) 9 (2 ∷ []) 4 (omega arith) (omega arith) (record {
      id = omega arith;
      role = omega arith;
      epoch = omega arith;
      seq = omega arith;
      addr = omega arith;
    })

valid_color : validate_key color ≡ none
unfolding validate_key
valid_color = refl

serve_get-serve_put_example :
    let (n', reply) = serve_put (node 1 leader) (well 9) (drop 1 (put_request color red)) in
    (reply ≡ status_ok ∷ [])
    × ((serve_get n' (drop 1 (key_request op_get color))).1 ≡ status_ok ∷ prefixed red)
serve_get-serve_put_example =
    serve_get-serve_put (node 1 leader) color red 9 refl fresh-IsLive fresh-HasRoom (omega arith)
      valid_color (omega arith) refl
