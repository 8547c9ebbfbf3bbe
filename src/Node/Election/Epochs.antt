-- ===== src/Node/Election/Epochs.antt =====
-- How the role and the epoch of a node change, over any run of its steps.
use gokv.Prelude.{
  ℕ, ◌+◌, ◌-◌, ◌%◌, ◌≤◌, ◌<◌, ◌≡◌, Bool, true, false, not, ◌&&◌, ◌||◌, Option, none, some, List,
  arith, leb, ◌==◌, length, if◌then◌else◌, inl, inr, ◌⊎◌, Bool-cases,
}
use gokv.Prelude.Bytes.{u64_mod}
use gokv.Node.{Node, leader, follower}
use gokv.Node.Election.{
  VoteReply, Tally, announced, promote_to, adopt_leader, adopt_epoch, open_session, conclude,
}
use gokv.Node.Election.Quorum.{EpochBelow}
use gokv.Node.Election.Campaign.{
  Stage, idle, entered, polling, Running, enter_election, returned, hear_reply, end_election,
}
use gokv.Node.Election.Steps.{
  Allows, Step, Run, announcement, enter, read, reply, finish, operator, heartbeat, session, stay,
  move,
}

-- What never goes back: the epoch, and at one epoch the leadership.
pub record Grows (n n' : Node) : Type 0 where
  pub epoch : n.epoch ≤ n'.epoch
  pub leads : n.role ≡ leader → n'.epoch ≡ n.epoch → n'.role ≡ leader

-- What an election in its loop knows of the node: it leads, or can be promoted without a loss.
abbrev IsAbreast : Stage → Node → Type 0
IsAbreast idle n = Unit {0}
IsAbreast entered n = Unit {0}
IsAbreast (polling e) n =
    (e.tally.my_epoch < u64_mod - 1) × ((n.role ≡ leader) ⊎ (n.epoch ≤ e.tally.my_epoch + 1))

record Advance (s s' : Running) : Type 0 where
  grows : Grows s.node s'.node
  abreast : IsAbreast s'.stage s'.node

Grows-refl : (n : Node) → Grows n n
Grows-refl n = record { epoch = omega arith; leads = λ led e. led }

announced-Grows : (n : Node) (addr : List ℕ) (epoch now : ℕ) → Grows n (announced n addr epoch now)
unfolding announced
announced-Grows n addr epoch now = record { epoch = ground arith; leads = λ led e. ground arith }

announced-IsAbreast :
    (n : Node) (stage : Stage) (addr : List ℕ) (epoch now : ℕ)
    → Allows stage epoch
    → IsAbreast stage n
    → IsAbreast stage (announced n addr epoch now)
unfolding announced
announced-IsAbreast n idle addr epoch now h a = tt
announced-IsAbreast n entered addr epoch now h a = tt
announced-IsAbreast n (polling e) addr epoch now h (fits, a) =
    elim (Bool-cases (leb epoch n.epoch)) [
      | inl old ↦ rw old (fits, a)
      | inr new ↦ rw new (fits, inr h)
    ]

promote_to-Grows :
    (n : Node) (epoch now : ℕ)
    → epoch < u64_mod - 1
    → n.epoch ≤ epoch + 1
    → Grows n (promote_to n ((epoch + 1) % u64_mod) now)
unfolding promote_to
promote_to-Grows n epoch now fits low = record {
  epoch = ground arith;
  leads = λ led e. ground arith;
}

promote_to-IsAbreast :
    (n : Node) (stage : Stage) (epoch now : ℕ)
    → IsAbreast stage n
    → IsAbreast stage (promote_to n epoch now)
unfolding promote_to
promote_to-IsAbreast n idle epoch now a = tt
promote_to-IsAbreast n entered epoch now a = tt
promote_to-IsAbreast n (polling e) epoch now (fits, a) = (fits, inl (ground arith))

adopt_epoch-Grows : (n : Node) (addr : List ℕ) (epoch : ℕ) → Grows n (adopt_epoch n addr epoch)
unfolding adopt_epoch
adopt_epoch-Grows n addr epoch = record { epoch = ground arith; leads = λ led e. ground arith }

adopt_epoch-IsAbreast :
    (n : Node) (stage : Stage) (addr : List ℕ) (epoch : ℕ)
    → Allows stage epoch
    → IsAbreast stage n
    → IsAbreast stage (adopt_epoch n addr epoch)
unfolding adopt_epoch
adopt_epoch-IsAbreast n idle addr epoch h a = tt
adopt_epoch-IsAbreast n entered addr epoch h a = tt
adopt_epoch-IsAbreast n (polling e) addr epoch h (fits, a) =
    elim (Bool-cases (leb n.epoch epoch && n.role == follower)) [
      | inl new ↦ rw new (fits, inr h)
      | inr old ↦ rw old (fits, a)
    ]

Advance-either :
    (s x y : Running) (b : Bool) → Advance s x → Advance s y → Advance s (if b then x else y)
Advance-either s x y true p q = p
Advance-either s x y false p q = q

enter-Advance : (n : Node) → Advance (record { node = n; stage = Stage.idle }) (enter_election n)
unfolding enter_election
enter-Advance n =
    let still : Advance (record { node = n; stage = Stage.idle })
        (record { node = n; stage = Stage.idle }) =
      record { grows = Grows-refl n; abreast = tt } in
    Advance-either _ _ _ n.electing still (
      Advance-either _ _ _ (n.role == leader || n.closing) still
        (record { grows = record { epoch = omega arith; leads = λ led e. led }; abreast = tt }))

session-IsAbreast :
    (n : Node) (stage : Stage) → IsAbreast stage n → IsAbreast stage (open_session n).0
unfolding open_session
session-IsAbreast n idle a = tt
session-IsAbreast n entered a = tt
session-IsAbreast n (polling e) a = a

adopted-Advance :
    (n : Node) (stage : Stage) (addr : List ℕ) (epoch now : ℕ)
    → Advance (record { node = n; stage = stage }) (returned (adopt_leader n addr epoch now))
unfolding adopt_leader
adopted-Advance n stage addr epoch now = record {
  grows = record { epoch = ground arith; leads = λ led e. led };
  abreast = tt;
}

reply-Advance :
    (n : Node) (now my_seq : ℕ) (t : Tally) (p : List ℕ) (ps : List (List ℕ)) (o : Option VoteReply)
    (stage : Stage)
    → EpochBelow (u64_mod - 1) (p, o)
    → (t.my_epoch < u64_mod - 1) × ((n.role ≡ leader) ⊎ (n.epoch ≤ t.my_epoch + 1))
    → Advance (record { node = n; stage = stage }) (hear_reply n now my_seq t p ps o)
unfolding hear_reply
reply-Advance n now my_seq t p ps none stage h a = record { grows = Grows-refl n; abreast = a }
reply-Advance n now my_seq t p ps (some r) stage h (fits, a) =
    elim (Bool-cases (r.role == leader && leb t.my_epoch r.epoch)) [
      | inl led ↦ rw led (adopted-Advance n stage p r.epoch now)
      | inr x ↦ elim (Bool-cases (r.leader_alive && not (length r.leader_addr == 0))) [
        | inl y ↦ rw (x, y) (adopted-Advance n stage r.leader_addr _ now)
        | inr y ↦
            rw (x, y)
              (record {
                grows = Grows-refl n;
                abreast =
                    (ground arith, elim a [ inl led ↦ inl led | inr low ↦ inr (ground arith) ]);
              })
      ]
    ]

finish-Grows :
    (n : Node) (now : ℕ) (t : Tally)
    → t.my_epoch < u64_mod - 1
    → (n.role ≡ leader) ⊎ (n.epoch ≤ t.my_epoch + 1)
    → Grows n (conclude n now t)
unfolding conclude promote_to
finish-Grows n now t fits (inl led) = record { epoch = ground arith; leads = λ l e. ground arith }
finish-Grows n now t fits (inr low) = record { epoch = ground arith; leads = λ l e. ground arith }

Step-Advance : {s s' : Running} → Step s s' → IsAbreast s.stage s.node → Advance s s'
Step-Advance (announcement n stage addr epoch now h) a = record {
  grows = announced-Grows n addr epoch now;
  abreast = announced-IsAbreast n stage addr epoch now h a;
}
Step-Advance (enter n) a = enter-Advance n
Step-Advance (read n fits) a = record { grows = Grows-refl n; abreast = (fits, inr (omega arith)) }
Step-Advance (reply n now my_seq t p ps o h) a = reply-Advance n now my_seq t p ps o _ h a
Step-Advance (finish n now my_seq t) a =
    let g = finish-Grows n now t a.0 a.1 in
    unfold end_election in
    record { grows = record { epoch = g.epoch; leads = g.leads }; abreast = tt }
Step-Advance (operator n stage epoch now fits low) a = record {
  grows = promote_to-Grows n epoch now fits low;
  abreast = promote_to-IsAbreast n stage _ now a;
}
Step-Advance (heartbeat n stage addr epoch h) a = record {
  grows = adopt_epoch-Grows n addr epoch;
  abreast = adopt_epoch-IsAbreast n stage addr epoch h a;
}
Step-Advance (session n stage) a =
    unfold open_session in
    record {
      grows = record { epoch = omega arith; leads = λ led e. led };
      abreast = session-IsAbreast n stage a;
    }

Run-Advance : {s s' : Running} → Run s s' → IsAbreast s.stage s.node → Advance s s'
Run-Advance (stay s) a = record { grows = Grows-refl s.node; abreast = a }
Run-Advance (move s t u r m) a =
    let before = Run-Advance r a in
    let last = Step-Advance m before.abreast in
    let first : s.node.epoch ≤ t.node.epoch = before.grows.epoch in
    let second : t.node.epoch ≤ u.node.epoch = last.grows.epoch in
    record {
      grows = record {
        epoch = omega (arith, first, second);
        leads = λ led e.
            last.grows.leads (before.grows.leads led (omega (arith, first, second)))
              (omega (arith, first, second));
      };
      abreast = last.abreast;
    }

-- Over any run of a node, from where no election has begun: announcements, promotions by an
-- operator, heartbeats and sessions come in any order, also between the steps of an election. No
-- epoch that is announced or comes with a heartbeat while an election is in its loop is more than
-- one above the highest that the election knows by then, the epoch is at a promotion by an
-- operator no more than one above what it had read, and none that is read or heard of in a vote
-- is 2 ^ 64 - 1. Then the epoch of the node does not go back.
pub Run-epoch :
    (n : Node) (s : Running)
    → Run (record { node = n; stage = Stage.idle }) s
    → n.epoch ≤ s.node.epoch
Run-epoch n s r = (Run-Advance r tt).grows.epoch

-- Over any run of a node, from where no election has begun: announcements, promotions by an
-- operator, heartbeats and sessions come in any order, also between the steps of an election. No
-- epoch that is announced or comes with a heartbeat while an election is in its loop is more than
-- one above the highest that the election knows by then, the epoch is at a promotion by an
-- operator no more than one above what it had read, and none that is read or heard of in a vote
-- is 2 ^ 64 - 1. Then a node that leads at the start and has the same epoch at the end still
-- leads.
pub Run-leads :
    (n : Node) (s : Running)
    → Run (record { node = n; stage = Stage.idle }) s
    → n.role ≡ leader
    → s.node.epoch ≡ n.epoch
    → s.node.role ≡ leader
Run-leads n s r led e = (Run-Advance r tt).grows.leads led e

-- If an epoch is announced that is more than one above the epoch of a tally, which is at least
-- the node's, then `promote_to` with the epoch that follows the tally's makes the node a leader
-- at an epoch below the announced one.
pub promote_to-announced :
    (n : Node) (t : Tally) (addr : List ℕ) (epoch now now' : ℕ)
    → n.epoch ≤ t.my_epoch
    → t.my_epoch + 1 < epoch
    → let n' = promote_to (announced n addr epoch now) (t.my_epoch + 1) now' in
      (n'.role ≡ leader) × (n'.epoch < (announced n addr epoch now).epoch)
unfolding promote_to announced
promote_to-announced n t addr epoch now now' h newer = ground arith

-- A leader that is demoted by an announcement of a higher epoch asks for everything in the first
-- session that it opens; in a second one it asks from the sequence number of its store, though it
-- has taken no frame in between.
pub open_session-announced :
    (n : Node) (addr : List ℕ) (epoch now : ℕ)
    → n.role ≡ leader
    → n.epoch < epoch
    → let first = open_session (announced n addr epoch now) in
      (first.1 ≡ 0) × ((open_session first.0).1 ≡ n.store.seq)
unfolding open_session announced
open_session-announced n addr epoch now led newer = ground arith
