-- ===== src/Node/Election/Steps.antt =====
-- The steps that a node takes as far as its role, its leader and its epoch go, one at a time, those of an
-- election among them.
use gokv.Prelude.{ℕ, ◌+◌, ◌-◌, ◌%◌, ◌≤◌, ◌<◌, Option, List, [], ◌∷◌}
use gokv.Prelude.Bytes.{u64_mod}
use gokv.Node.{Node}
use gokv.Node.Election.{VoteReply, Tally, announced, promote_to, adopt_epoch, open_session}
use gokv.Node.Election.Quorum.{EpochBelow}
use gokv.Node.Election.Campaign.{
  Stage, idle, entered, polling, Running, enter_election, read_position, hear_reply, end_election,
}

-- An epoch that does not come to more than one above the highest that an election in its loop knows.
abbrev pub Allows : Stage → ℕ → Type 0
Allows idle epoch = Unit {0}
Allows entered epoch = Unit {0}
Allows (polling e) epoch = epoch ≤ e.tally.my_epoch + 1

-- One step of a node, between any two steps of an election. An epoch that is read or heard of does not
-- come to 2 ^ 64 - 1, behind which the next one would be 0. In a promotion by an operator, `epoch` is
-- what `Promote` has read, and the node has come to no more than one above it since.
pub data Step : Running → Running → Type 0 where
  announcement :
      (n : Node) (stage : Stage) (addr : List ℕ) (epoch now : ℕ)
      → Allows stage epoch
      → Step
          (record { node = n; stage = stage })
          (record { node = announced n addr epoch now; stage = stage })
  enter : (n : Node) → Step (record { node = n; stage = Stage.idle }) (enter_election n)
  read :
      (n : Node)
      → n.epoch < u64_mod - 1
      → Step
          (record { node = n; stage = Stage.entered })
          (record { node = n; stage = Stage.polling (read_position n) })
  reply :
      (n : Node) (now my_seq : ℕ) (t : Tally) (p : List ℕ) (ps : List (List ℕ))
      (o : Option VoteReply)
      → EpochBelow (u64_mod - 1) (p, o)
      → Step
          (record {
            node = n;
            stage = Stage.polling (record { my_seq = my_seq; tally = t; waiting = p ∷ ps });
          })
          (hear_reply n now my_seq t p ps o)
  finish :
      (n : Node) (now my_seq : ℕ) (t : Tally)
      → Step
          (record {
            node = n;
            stage = Stage.polling (record { my_seq = my_seq; tally = t; waiting = [] });
          })
          (end_election n now t)
  operator :
      (n : Node) (stage : Stage) (epoch now : ℕ)
      → epoch < u64_mod - 1
      → n.epoch ≤ epoch + 1
      → Step
          (record { node = n; stage = stage })
          (record { node = promote_to n ((epoch + 1) % u64_mod) now; stage = stage })
  heartbeat :
      (n : Node) (stage : Stage) (addr : List ℕ) (epoch : ℕ)
      → Allows stage epoch
      → Step
          (record { node = n; stage = stage })
          (record { node = adopt_epoch n addr epoch; stage = stage })
  session :
      (n : Node) (stage : Stage)
      → Step
          (record { node = n; stage = stage })
          (record { node = (open_session n).0; stage = stage })

pub data Run : Running → Running → Type 0 where
  stay : (s : Running) → Run s s
  move : (s t u : Running) → Run s t → Step t u → Run s u
