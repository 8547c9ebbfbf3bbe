-- ===== src/Node/Election/Campaign.antt =====
-- `startElection` of internal/node/election.go in its steps. `mu` is free between them, so the node
-- may change while the peers are asked; `mySeq` and `myEpoch` are what was read at first.
use gokv.Prelude.{
  ℕ, true, false, not, ◌&&◌, ◌||◌, Option, none, some, List, leb, ◌==◌, if◌then◌else◌, length, max,
}
use gokv.Node.{Node, leader}
use gokv.Node.Election.{VoteReply, Tally, tallied, adopt_leader, peers_of, first_tally, conclude}

-- The variables of the loop: `waiting` are the peers that are still to be asked.
pub record Campaign : Type 0 where
  pub my_seq : ℕ
  pub tally : Tally
  pub waiting : List (List ℕ)

-- How far `startElection` has come: not called, behind its guards, or in the loop.
pub data Stage : Type 0 where
  idle : Stage
  entered : Stage
  polling : Campaign → Stage

pub record Running : Type 0 where
  pub node : Node
  pub stage : Stage

-- To the end of the guards.
unfoldable pub enter_election : Node → Running
enter_election n =
    if n.electing
    then record { node = n; stage = Stage.idle }
    else if n.role == leader || n.closing
    then record { node = n; stage = Stage.idle }
    else record { node = record n { electing = true }; stage = Stage.entered }

-- `mySeq`, `myEpoch` and `peers`.
abbrev pub read_position : Node → Campaign
read_position n = record { my_seq = n.store.seq; tally = first_tally n; waiting = peers_of n }

-- The return of `startElection`, with what it defers.
abbrev pub returned : Node → Running
returned n = record { node = record n { electing = false }; stage = Stage.idle }

-- One round of the loop, for the peer `p`; the rest is `ps`.
unfoldable pub hear_reply :
    Node → ℕ → ℕ → Tally → List ℕ → List (List ℕ) → Option VoteReply → Running
hear_reply n now my_seq t p ps none = record {
  node = n;
  stage = Stage.polling (record { my_seq = my_seq; tally = t; waiting = ps });
}
hear_reply n now my_seq t p ps (some r) =
    if r.role == leader && leb t.my_epoch r.epoch
    then returned (adopt_leader n p r.epoch now)
    else if r.leader_alive && not (length r.leader_addr == 0)
    then returned (adopt_leader n r.leader_addr (max r.epoch t.my_epoch) now)
    else record {
      node = n;
      stage =
          Stage.polling
            (record { my_seq = my_seq; tally = tallied r my_seq n.cfg.id t; waiting = ps });
    }

-- Behind the loop.
unfoldable pub end_election : Node → ℕ → Tally → Running
unfolding conclude
end_election n now t = returned (conclude n now t)
