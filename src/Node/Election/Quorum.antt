-- ===== src/Node/Election/Quorum.antt =====
-- Who wins an election.
use gokv.Prelude.{
  ℕ, suc, ◌+◌, ◌*◌, ◌%◌, ◌≤◌, ◌<◌, ◌≡◌, ◌≢◌, ◌∙◌, refl, Bool, true, false, not, ◌&&◌, ◌||◌, Option,
  none, some, List, [], ◌∷◌, arith, leb, ltb, ◌==◌, if◌then◌else◌, length, max, ◌⊎◌, inl, inr, All,
}
use gokv.Prelude.Bytes.{u64_mod}
use gokv.Prelude.Keys.{key_eq, key_lt_total}
use gokv.Node.{Node, leader}
use gokv.Node.Election.{
  VoteReply, vote_of, Tally, Poll, is_ahead, tallied, poll_peers, adopt_leader, promote_to, asked,
  peers_of, cluster_size, first_tally, conclude, start_election,
}

-- How many polls were answered.
unfoldable pub answered : List Poll → ℕ
answered [] = 0
answered ((p, none) ∷ ps) = answered ps
answered ((p, some r) ∷ ps) = suc (answered ps)

-- The highest epoch among a node's own and those of the replies.
unfoldable pub highest : ℕ → List Poll → ℕ
highest own [] = own
highest own ((p, none) ∷ ps) = highest own ps
highest own ((p, some r) ∷ ps) = max r.epoch (highest own ps)

highest-max :
    (own e : ℕ) (ps : List Poll)
    → highest (if ltb own e then e else own) ps ≡ max e (highest own ps)
unfolding highest
highest-max own e [] = ground arith
highest-max own e ((p, none) ∷ ps) = highest-max own e ps
highest-max own e ((p, some r) ∷ ps) = omega (arith, highest-max own e ps)

length-asked :
    (answers : ℕ → Option VoteReply) (i : ℕ) (ps : List (List ℕ))
    → length (asked answers i ps) ≡ length ps
unfolding asked
length-asked answers i [] = refl
length-asked answers i (p ∷ ps) = omega (arith, length-asked answers (i + 1) ps)

sum_cases : (x : Node ⊎ Tally) → ((n : Node) × (x ≡ inl n)) ⊎ ((t : Tally) × (x ≡ inr t))
sum_cases (inl n) = inl (n, refl)
sum_cases (inr t) = inr (t, refl)

-- What the winner of an election knows of a poll: a node that answered is not ahead of it, can reach
-- no leader, and is at a lower epoch than the winner will be.
abbrev pub Yields : ℕ → List ℕ → ℕ → Poll → Type 0
Yields my_seq my_id epoch (p, none) = Unit {0}
Yields my_seq my_id epoch (p, some r) =
    (is_ahead r my_seq my_id ≡ false)
    × (r.epoch ≤ epoch)
    × ((r.leader_alive && not (length r.leader_addr == 0)) ≡ false)

-- A round that does not end the election.
goes_on :
    (a b : Bool) (x y : Node) (rest : Node ⊎ Tally) (t : Tally)
    → (if a then inl x else if b then inl y else rest) ≡ inr t
    → (b ≡ false) × (rest ≡ inr t)
goes_on true b x y rest t h = cc
goes_on false true x y rest t h = cc
goes_on false false x y rest t h = (refl, h)

-- The epochs of the replies are below a bound.
abbrev pub EpochBelow : ℕ → Poll → Type 0
EpochBelow b (p, none) = Unit {0}
EpochBelow b (p, some r) = r.epoch < b

pub record Counted (n : Node) (ps : List Poll) (t t' : Tally) : Type 0 where
  pub responses : t'.responses ≡ t.responses + answered ps
  pub epoch : t.my_epoch ≤ t'.my_epoch
  pub top : t'.my_epoch ≡ highest t.my_epoch ps
  pub best : t'.best_candidate ≡ true → t.best_candidate ≡ true
  pub bound : (b : ℕ) → t.my_epoch < b → All (EpochBelow b) ps → t'.my_epoch < b
  pub yields : t'.best_candidate ≡ true → All (Yields n.store.seq n.cfg.id t'.my_epoch) ps

poll_peers-Counted :
    (n : Node) (now : ℕ) (ps : List Poll) (t t' : Tally)
    → poll_peers n now ps t ≡ inr t'
    → Counted n ps t t'
unfolding poll_peers answered highest
poll_peers-Counted n now [] t t' h =
    let e : t ≡ t' = cc in
    rw e (record {
      responses = omega arith;
      epoch = omega arith;
      top = refl;
      best = λ b. b;
      bound = λ b h q. h;
      yields = λ b. tt;
    })
poll_peers-Counted n now ((p, none) ∷ ps) t t' h =
    let c = poll_peers-Counted n now ps t t' h in
    record {
      responses = c.responses;
      epoch = c.epoch;
      top = c.top;
      best = c.best;
      bound = λ b h q. c.bound b h q.1;
      yields = λ b. (tt, c.yields b);
    }
poll_peers-Counted n now ((p, some r) ∷ ps) t t' h =
    let next = tallied r n.store.seq n.cfg.id t in
    let go : ((r.leader_alive && not (length r.leader_addr == 0)) ≡ false)
        × (poll_peers n now ps next ≡ inr t') =
      goes_on (r.role == leader && leb t.my_epoch r.epoch) _ (adopt_leader n p r.epoch now)
        (adopt_leader n r.leader_addr (max r.epoch t.my_epoch) now) (poll_peers n now ps next) t'
        h in
    let c = poll_peers-Counted n now ps next t' go.1 in
    record {
      responses = omega (arith, c.responses);
      epoch = ground (arith, c.epoch);
      top = c.top ∙ highest-max t.my_epoch r.epoch ps;
      best = λ b. ground (arith, c.best b);
      bound = λ b h q. c.bound b (ground (arith, q.0)) q.1;
      yields = λ b. ((ground (arith, c.best b), ground (arith, c.epoch), go.0), c.yields b);
    }

-- What it takes to win, `ps` being the polls of all peers.
pub record Won (n : Node) (ps : List Poll) (n' : Node) : Type 0 where
  pub quorum : 1 + length ps < 2 * (1 + answered ps)
  pub yields : All (Yields n.store.seq n.cfg.id (highest n.epoch ps)) ps
  pub epoch : n'.epoch ≡ (highest n.epoch ps + 1) % u64_mod

conclude_wins :
    (n : Node) (now : ℕ) (t : Tally)
    → (n.role == leader) ≡ false
    → (conclude n now t).role ≡ leader
    → (cluster_size n < 2 * t.responses)
      × (t.best_candidate ≡ true)
      × ((conclude n now t).epoch ≡ (t.my_epoch + 1) % u64_mod)
unfolding conclude promote_to
conclude_wins n now t led h = ground arith

-- A node that stands down keeps its role and does not go back.
pub record StandsDown (n n' : Node) : Type 0 where
  pub role : n'.role ≡ n.role
  pub epoch : n.epoch ≤ n'.epoch

adopt_leader-StandsDown :
    (n : Node) (addr : List ℕ) (e now : ℕ) → StandsDown n (adopt_leader n addr e now)
unfolding adopt_leader
adopt_leader-StandsDown n addr e now = record { role = refl; epoch = ground arith }

stands_down :
    (n : Node) (a b : Bool) (x y n' : Node) (rest : Node ⊎ Tally)
    → (if a then inl x else if b then inl y else rest) ≡ inl n'
    → StandsDown n x
    → StandsDown n y
    → (rest ≡ inl n' → StandsDown n n')
    → StandsDown n n'
stands_down n true b x y n' rest h p q r = let e : x ≡ n' = cc in rw (← e) p
stands_down n false true x y n' rest h p q r = let e : y ≡ n' = cc in rw (← e) q
stands_down n false false x y n' rest h p q r = r h

pub poll_peers-StandsDown :
    (n : Node) (now : ℕ) (ps : List Poll) (t : Tally) (n' : Node)
    → poll_peers n now ps t ≡ inl n'
    → StandsDown n n'
unfolding poll_peers
poll_peers-StandsDown n now [] t n' h = absurd cc
poll_peers-StandsDown n now ((p, none) ∷ ps) t n' h = poll_peers-StandsDown n now ps t n' h
poll_peers-StandsDown n now ((p, some r) ∷ ps) t n' h =
    stands_down n (r.role == leader && leb t.my_epoch r.epoch) _ (adopt_leader n p r.epoch now)
      (adopt_leader n r.leader_addr (max r.epoch t.my_epoch) now) n' _ h
      (adopt_leader-StandsDown n p r.epoch now) (adopt_leader-StandsDown n r.leader_addr _ now)
      (poll_peers-StandsDown n now ps _ n')

-- The two ways in which a round of requests ends.
pub poll_cases :
    (n : Node) (now : ℕ) (ps : List Poll) (t : Tally)
    → ((n' : Node) × (poll_peers n now ps t ≡ inl n') × StandsDown n n')
      ⊎ ((t' : Tally) × (poll_peers n now ps t ≡ inr t') × Counted n ps t t')
poll_cases n now ps t = elim (sum_cases (poll_peers n now ps t)) [
  | inl (n', e) ↦ inl (n', e, poll_peers-StandsDown n now ps t n' e)
  | inr (t', e) ↦ inr (t', e, poll_peers-Counted n now ps t t' e)
]

-- Where the guards let the election run.
guards_open :
    (n x : Node)
    → (n.role == leader) ≡ false
    → (if n.electing then n else if n.role == leader || n.closing then n else x).role ≡ leader
    → (n.electing ≡ false) × (n.closing ≡ false)
guards_open n x led h = ground arith

-- If `start_election` makes a node that did not lead the leader, then it and the peers that
-- answered are more than half of it and all its peers; no peer that answered is ahead of it in
-- sequence number and id or can reach a leader that it names; and its epoch is one above (modulo
-- 2 ^ 64) the highest of its own and the answered ones.
pub start_election-Won :
    (n : Node) (answers : ℕ → Option VoteReply) (now : ℕ)
    → (n.role == leader) ≡ false
    → (start_election n answers now).role ≡ leader
    → Won n (asked answers 0 (peers_of n)) (start_election n answers now)
unfolding start_election poll_peers
start_election-Won n answers now led h =
    let ps = asked answers 0 (peers_of n) in
    let (idle, open_node) = guards_open n _ led h in
    elim (poll_cases n now ps (first_tally n)) [
      | inl (n', e, down) ↦
          let same : n'.role ≡ leader = rw (start_election, idle, open_node, led, e) at h in
          absurd (ground (arith, down.role))
      | inr (t, e, c) ↦
          let wins : (conclude n now t).role ≡ leader =
            rw (start_election, idle, open_node, led, e) at h in
          let (quorum, best, epoch) = conclude_wins n now t led wins in
          rw (start_election, idle, open_node, led, e)
            (record {
              quorum = omega (arith, c.responses, quorum, length-asked answers 0 (peers_of n));
              yields = rw (← c.top) (c.yields best);
              epoch = rw (← c.top) epoch;
            })
    ]

-- The reply is among the answers.
unfoldable pub Hears : VoteReply → List Poll → Type 0
Hears r [] = ⊥
Hears r ((p, o) ∷ ps) = (o ≡ some r) ⊎ Hears r ps

heard-Yields :
    (r : VoteReply) (ps : List Poll) (my_seq : ℕ) (my_id : List ℕ) (top : ℕ)
    → Hears r ps
    → All (Yields my_seq my_id top) ps
    → is_ahead r my_seq my_id ≡ false
unfolding Hears
heard-Yields r [] s i top h y = absurd h
heard-Yields r ((p, none) ∷ ps) s i top (inl e) y = absurd cc
heard-Yields r ((p, some q) ∷ ps) s i top (inl e) y = let same : q ≡ r = cc in rw (← same) y.0.0
heard-Yields r ((p, o) ∷ ps) s i top (inr h) y = heard-Yields r ps s i top h y.1

-- Two nodes with different ids, neither a leader, that each hear the vote of the other as it
-- stands do not both become leaders: if the first one's `start_election` makes it the leader, the
-- second one's does not.
pub start_election_one :
    (a b : Node) (answers_a answers_b : ℕ → Option VoteReply) (now_a now_b : ℕ)
    → (a.role == leader) ≡ false
    → (b.role == leader) ≡ false
    → key_eq a.cfg.id b.cfg.id ≡ false
    → Hears (vote_of b now_b) (asked answers_a 0 (peers_of a))
    → Hears (vote_of a now_a) (asked answers_b 0 (peers_of b))
    → (start_election a answers_a now_a).role ≡ leader
    → (start_election b answers_b now_b).role ≢ leader
start_election_one a b answers_a answers_b now_a now_b fa fb differ ha hb wa wb =
    let a_wins = start_election-Won a answers_a now_a fa wa in
    let b_wins = start_election-Won b answers_b now_b fb wb in
    let not_b =
      heard-Yields (vote_of b now_b) (asked answers_a 0 (peers_of a)) a.store.seq a.cfg.id _ ha
        a_wins.yields in
    let not_a =
      heard-Yields (vote_of a now_a) (asked answers_b 0 (peers_of b)) b.store.seq b.cfg.id _ hb
        b_wins.yields in
    absurd (ground (arith, key_lt_total a.cfg.id b.cfg.id, not_b, not_a))
