-- ===== src/Node/Election/Uninterrupted.antt =====
-- `start_election` is the steps of `startElection` with no other step between them.
use gokv.Prelude.{
  ℕ, ◌+◌, ◌-◌, ◌*◌, ◌<◌, ◌≡◌, refl, ap, sym, Bool, true, false, not, ◌&&◌, ◌||◌, Option, none, some,
  List, [], ◌∷◌, leb, ◌==◌, length, if◌then◌else◌, inl, inr, ◌⊎◌, Bool-cases, All,
}
use mathlib.Core.Path.{subst}
use gokv.Prelude.Bytes.{u64_mod}
use gokv.Node.{Node, leader}
use gokv.Node.Election.{
  VoteReply, Tally, Poll, tallied, adopt_leader, promote_to, conclude, cluster_size, peers_of,
  first_tally, poll_peers, asked, start_election,
}
use gokv.Node.Election.Quorum.{EpochBelow}
use gokv.Node.Election.Campaign.{Stage, Running, enter_election, returned, hear_reply, end_election}
use gokv.Node.Election.Steps.{Step, Run}

-- The node while its election runs.
abbrev busy : Node → Node
busy n = record n { electing = true }

-- What `start_election` does with the end of the loop.
abbrev ended : Node → ℕ → Node ⊎ Tally → Node
ended n now (inl n') = n'
ended n now (inr t) = conclude n now t

abbrev in_loop : Node → Tally → List (List ℕ) → Running
in_loop n t ps = record {
  node = busy n;
  stage = Stage.polling (record { my_seq = n.store.seq; tally = t; waiting = ps });
}

returned-if :
    (b : Bool) (x y x' y' : Node)
    → returned x ≡ returned x'
    → returned y ≡ returned y'
    → returned (if b then x else y) ≡ returned (if b then x' else y')
returned-if true x y x' y' p q = p
returned-if false x y x' y' p q = q

returned-conclude :
    (n : Node) (now : ℕ) (t : Tally)
    → returned (conclude (busy n) now t) ≡ returned (conclude n now t)
unfolding conclude promote_to
returned-conclude n now t = returned-if (leb (t.responses * 2) (cluster_size n)) _ _ _ _ refl (
    returned-if (not t.best_candidate) _ _ _ _ refl
      (returned-if (n.role == leader && _) _ _ _ _ refl refl))

module _ (start : Running) (n : Node) (now : ℕ) where
  Run-reply :
      (t : Tally) (p : List ℕ) (ps : List (List ℕ)) (o : Option VoteReply) (rest : List Poll)
      → EpochBelow (u64_mod - 1) (p, o)
      → ((t' : Tally)
          → Run start (in_loop n t' ps)
          → Run start (returned (ended n now (poll_peers n now rest t'))))
      → Run start (in_loop n t (p ∷ ps))
      → Run start (returned (ended n now (poll_peers n now ((p, o) ∷ rest) t)))
  unfolding poll_peers hear_reply adopt_leader
  Run-reply t p ps none rest h k r =
      k t (Run.move _ _ _ r (Step.reply (busy n) now n.store.seq t p ps none h))
  Run-reply t p ps (some v) rest h k r =
      let step : Run start (hear_reply (busy n) now n.store.seq t p ps (some v)) =
        Run.move _ _ _ r (Step.reply (busy n) now n.store.seq t p ps (some v) h) in
      elim (Bool-cases (v.role == leader && leb t.my_epoch v.epoch)) [
        | inl led ↦ rw led (rw led at step)
        | inr x ↦ elim (Bool-cases (v.leader_alive && not (length v.leader_addr == 0))) [
          | inl y ↦ rw (x, y) (rw (x, y) at step)
          | inr y ↦ rw (x, y) (k (tallied v n.store.seq n.cfg.id t) (rw (x, y) at step))
        ]
      ]

  Run-loop :
      (answers : ℕ → Option VoteReply) (i : ℕ) (ps : List (List ℕ)) (t : Tally)
      → All (EpochBelow (u64_mod - 1)) (asked answers i ps)
      → Run start (in_loop n t ps)
      → Run start (returned (ended n now (poll_peers n now (asked answers i ps) t)))
  unfolding asked
  Run-loop answers i [] t h r =
      unfold poll_peers in
      unfold end_election in
      subst (Run start) (returned-conclude n now t)
        (Run.move _ _ _ r (Step.finish (busy n) now n.store.seq t))
  Run-loop answers i (p ∷ ps) t h r =
      Run-reply t p ps (answers i) (asked answers (i + 1) ps) h.0
        (λ t' r'. Run-loop answers (i + 1) ps t' h.1 r') r

abbrev at_rest : Node → Running
at_rest n = record { node = n; stage = Stage.idle }

abbrev behind_guards : Node → Running
behind_guards n = record { node = busy n; stage = Stage.entered }

Run-guards :
    (start : Running) (n x : Node) (a b : Bool)
    → a ≡ false
    → returned n ≡ at_rest n
    → (Run start (behind_guards n) → Run start (returned x))
    → Run start (if a then at_rest n else if b then at_rest n else behind_guards n)
    → Run start (returned (if a then n else if b then n else x))
Run-guards start n x true b e q k r = absurd (cc e)
Run-guards start n x false true e q k r = subst (Run start) (sym q) r
Run-guards start n x false false e q k r = k r

-- An election that nothing interrupts is a run of its steps.
pub Run-start_election :
    (n : Node) (answers : ℕ → Option VoteReply) (now : ℕ)
    → n.electing ≡ false
    → n.epoch < u64_mod - 1
    → All (EpochBelow (u64_mod - 1)) (asked answers 0 (peers_of n))
    → Run (record { node = n; stage = Stage.idle }) (returned (start_election n answers now))
unfolding start_election enter_election
Run-start_election n answers now e fits h =
    let start : Running = at_rest n in
    let same : returned n ≡ at_rest n = ap (λ b. at_rest (record n { electing = b })) (sym e) in
    Run-guards start n
      (ended n now (poll_peers n now (asked answers 0 (peers_of n)) (first_tally n))) n.electing
      (n.role == leader || n.closing) e same
      (λ r.
        Run-loop start n now answers 0 (peers_of n) (first_tally n) h
          (Run.move _ _ _ r (Step.read (busy n) fits)))
      (Run.move _ _ _ (Run.stay start) (Step.enter n))
