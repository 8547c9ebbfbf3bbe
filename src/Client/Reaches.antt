-- ===== src/Client/Reaches.antt =====
-- A request reaches the leader: `call` on a cluster of which one node answers, and the others break,
-- know no leader or name that node.
use gokv.Prelude.{
  ℕ, zero, suc, ◌+◌, ◌-◌, ◌%◌, ◌≤◌, ◌<◌, ◌≡◌, refl, ap, ◌∙◌, sym, ◌⊎◌, Bool, true, false, Option,
  none, some, List, [], ◌∷◌, ◌++◌, arith, length, if◌then◌else◌, Bool-cases, inl, inr, ◌≢◌, ltb,
  ◌==◌, ==_iff, append-nil,
}
use gokv.Prelude.Bytes.{u32_mod}
use gokv.Prelude.Keys.{key_eq, key_eq_refl, key_eq→eq}
use gokv.Proto.{new_enc, new_dec, put_bytes, get_bytes}
use gokv.Proto.Read.{Holds, Holds-new_dec, get_bytes-read, prefixed}
use gokv.Proto.Wire.{status_redirect, status_error}
use gokv.Client.{
  Client, Net, addr_at, cycle, candidates, dial_each, serves, connect_locked, connected_to,
  drop_locked, given_up, CallEnd, answered, over, again, on_reply, attempt, attempts, call,
}

-- Every index of a list comes up in a cycle through it.
cycle_hits : (len next k : ℕ) → k < len → (t : ℕ) × (t < len) × ((next + t) % len ≡ k)
cycle_hits len next k h = elim (Bool-cases (ltb k (next % len))) [
  | inl wraps ↦ (k + len - next % len, grind (arith, wraps), grind (arith, wraps))
  | inr ahead ↦ (k - next % len, grind (arith, ahead), grind (arith, ahead))
]

-- The frame of a node that does not lead.
abbrev pub redirect_to : List ℕ → List ℕ
redirect_to addr = put_bytes (new_enc status_redirect) addr

-- A leader that can always be reached and answers, and nodes that break, know no leader or name it.
pub record HasLeader (net : Net) (lead : List ℕ) (status : ℕ) (body : List ℕ) : Type 0 where
  pub named : 0 < length lead
  pub short : length lead < u32_mod
  pub dials : (i p : ℕ) → net.dial i p lead ≡ true
  pub replies : (i : ℕ) → net.reply i lead ≡ some (status ∷ body)
  pub no_redirect : (status == status_redirect) ≡ false
  pub no_error : (status == status_error) ≡ false
  pub others :
      (i : ℕ) (a : List ℕ)
      → (a ≡ lead)
        ⊎ ((net.reply i a ≡ none)
            ⊎ ((net.reply i a ≡ some (redirect_to [])) ⊎ (net.reply i a ≡ some (redirect_to lead))))

-- The address in such a frame.
read_text : (a : List ℕ) → length a < u32_mod → (get_bytes (new_dec (prefixed a))).0 ≡ a
read_text a fits =
    let start : Holds (new_dec (prefixed a)) (prefixed a ++ []) =
      rw append-nil (Holds-new_dec (prefixed a)) in
    ap (λ x. x.0) (get_bytes-read (new_dec (prefixed a)) a [] fits start).0

module _ (net : Net) (poisons : List ℕ → Bool) (lead : List ℕ) (status : ℕ) (body : List ℕ)
    (h : HasLeader net lead status body) where
  on_answer :
      (c : Client) → (on_reply poisons c (some (status ∷ body))).1 ≡ over (answered (status ∷ body))
  unfolding on_reply
  on_answer c = rw (h.no_redirect, h.no_error) refl

  on_lost : (c : Client) → on_reply poisons c none ≡ (given_up c, again [])
  unfolding on_reply
  on_lost c = refl

  on_no_leader : (c : Client) → on_reply poisons c (some (redirect_to [])) ≡ (given_up c, again [])
  unfolding on_reply
  on_no_leader c = rw (read_text [] (omega arith)) refl

  on_redirect :
      (c : Client)
      → key_eq lead (connected_to c) ≡ false
      → on_reply poisons c (some (redirect_to lead)) ≡ (c, again lead)
  unfolding on_reply
  on_redirect c other =
      let some_text : (length lead == 0) ≡ false = ground (arith, h.named) in
      rw (read_text lead h.short, some_text, other) refl

  -- The loop over the addresses comes to the leader, if nothing answers its dial before.
  dialed :
      (i p : ℕ) (addrs : List (List ℕ)) (nx j n : ℕ) (c : Client) (t : ℕ)
      → c.next ≡ nx + j
      → j ≤ t
      → t < j + n
      → addr_at addrs ((nx + t) % length addrs) ≡ lead
      → (o : ℕ) × (o ≤ t)
        × (dial_each net i p (cycle addrs nx j n) c ≡ (
          record c { current = some (addr_at addrs ((nx + o) % length addrs)); next = nx + o },
          true,
        ))
  unfolding dial_each cycle
  dialed i p addrs nx j zero c t e low high at = absurd (omega arith)
  dialed i p addrs nx j (suc n) c t e low high at =
      elim (Bool-cases (net.dial i p (addr_at addrs ((nx + j) % length addrs)))) [
        | inl yes_ ↦ (
          j,
          low,
          rw yes_ (
              ap
                (λ z. (
                  record c { current = some (addr_at addrs ((nx + j) % length addrs)); next = z },
                  true,
                ))
                e),
        )
        | inr no_ ↦
            let later : j + 1 ≤ t = elim (Bool-cases (j == t)) [
              | inl same ↦
                  let here : addr_at addrs ((nx + j) % length addrs) ≡ lead =
                    ap (λ z. addr_at addrs ((nx + z) % length addrs)) ((==_iff j t).0 same) ∙ at in
                  absurd (cc (h.dials i p, ap (net.dial i p) here, no_))
              | inr differ ↦ ground (arith, differ, low)
            ] in
            let (o, within, eq) =
              dialed i (p + 1) addrs nx (j + 1) n (record c { next = c.next + 1 }) t
                (omega (arith, e)) later (omega (arith, high)) at in
            (o, within, rw no_ eq)
      ]

  -- One round of `call`, by what it connects to and what the reply is.
  attempt-connected :
      (i : ℕ) (c c1 : Client) (prefer : List ℕ)
      → connect_locked net i c prefer ≡ (c1, true)
      → attempt net poisons i c prefer ≡ on_reply poisons c1 (net.reply i (connected_to c1))
  unfolding attempt
  attempt-connected i c c1 prefer connects = rw connects refl

  attempts-over :
      (n i : ℕ) (c c1 : Client) (prefer : List ℕ) (e : CallEnd)
      → connect_locked net i c prefer ≡ (c1, true)
      → (on_reply poisons c1 (net.reply i (connected_to c1))).1 ≡ over e
      → (attempts net poisons (suc n) i c prefer).1 ≡ e
  unfolding attempts
  attempts-over n i c c1 prefer e connects done =
      let ends : (attempt net poisons i c prefer).1 ≡ over e =
        ap (λ x. x.1) (attempt-connected i c c1 prefer connects) ∙ done in
      rw (ends, attempts) refl

  attempts-again :
      (n i : ℕ) (c c1 c2 : Client) (prefer prefer' : List ℕ)
      → connect_locked net i c prefer ≡ (c1, true)
      → on_reply poisons c1 (net.reply i (connected_to c1)) ≡ (c2, again prefer')
      → attempts net poisons (suc n) i c prefer ≡ attempts net poisons n (i + 1) c2 prefer'
  unfolding attempts
  attempts-again n i c c1 c2 prefer prefer' connects goes =
      let is : attempt net poisons i c prefer ≡ (c2, again prefer') =
        attempt-connected i c c1 prefer connects ∙ goes in
      rw (is, attempts) (ap (λ x. attempts net poisons n (i + 1) x.0 prefer') is)

  meets_lead :
      (n i : ℕ) (c c1 : Client) (prefer : List ℕ)
      → connect_locked net i c prefer ≡ (c1, true)
      → connected_to c1 ≡ lead
      → (attempts net poisons (suc n) i c prefer).1 ≡ answered (status ∷ body)
  meets_lead n i c c1 prefer connects is =
      attempts-over n i c c1 prefer _ connects
        (ap (λ a. (on_reply poisons c1 (net.reply i a)).1) is ∙ rw (h.replies i) (on_answer c1))

  connect_preferred :
      (i : ℕ) (c : Client) (a : List ℕ)
      → c.current ≡ some a
      → key_eq lead a ≡ false
      → connect_locked net i c lead ≡ (record c { current = some lead }, true)
  unfolding connect_locked candidates dial_each
  connect_preferred i c a at other =
      let some_text : (length lead == 0) ≡ false = ground (arith, h.named) in
      let no_use : serves c.current lead ≡ false = rw at (rw (some_text, other) refl) in
      rw (no_use, some_text, h.dials i 0) refl

  -- A connection to a node: it is the leader, or names it, or is given up for the next.
  one_round :
      (n i : ℕ) (c c1 : Client) (prefer a : List ℕ)
      → connect_locked net i c prefer ≡ (c1, true)
      → c1.current ≡ some a
      → ((attempts net poisons (suc (suc n)) i c prefer).1 ≡ answered (status ∷ body))
        ⊎ ((a ≢ lead)
            × (attempts net poisons (suc (suc n)) i c prefer
                ≡ attempts net poisons (suc n) (i + 1) (given_up c1) []))
  one_round n i c c1 prefer a connects at =
      let to : connected_to c1 ≡ a = rw at refl in
      elim (Bool-cases (key_eq lead a)) [
        | inl same ↦
            inl (meets_lead (suc n) i c c1 prefer connects (to ∙ sym (key_eq→eq lead a same)))
        | inr other ↦
            let differ : a ≢ lead = λ e. cc (sym other ∙ ap (key_eq lead) e ∙ key_eq_refl lead) in
            let replied = λ (o : Option (List ℕ)) (e : net.reply i a ≡ o).
              ap (λ x. on_reply poisons c1 (net.reply i x)) to ∙ ap (on_reply poisons c1) e in
            elim (h.others i a) [
              | inl e ↦ absurd (differ e)
              | inr (inl lost) ↦ inr (
                differ,
                attempts-again (suc n) i c c1 (given_up c1) prefer [] connects
                    (replied none lost ∙ on_lost c1),
              )
              | inr (inr (inl empty)) ↦ inr (
                differ,
                attempts-again (suc n) i c c1 (given_up c1) prefer [] connects
                    (replied _ empty ∙ on_no_leader c1),
              )
              | inr (inr (inr named)) ↦ inl (
                  ap (λ x. x.1)
                    (attempts-again (suc n) i c c1 c1 prefer lead connects
                      (replied _ named ∙ on_redirect c1 (rw to other)))
                  ∙ meets_lead n (i + 1) c1 _ lead (connect_preferred (i + 1) c1 a at other) refl)
            ]
      ]

  connect_fresh :
      (i : ℕ) (c : Client) (t : ℕ)
      → c.current ≡ none
      → t < length c.addrs
      → addr_at c.addrs ((c.next + t) % length c.addrs) ≡ lead
      → (o : ℕ) × (o ≤ t)
        × (connect_locked net i c [] ≡ (
          record c {
            current = some (addr_at c.addrs ((c.next + o) % length c.addrs));
            next = c.next + o;
          },
          true,
        ))
  unfolding connect_locked candidates
  connect_fresh i c t fresh low at =
      let (o, within, e) =
        dialed i 0 c.addrs c.next 0 (length c.addrs) (drop_locked c) t (omega arith) (omega arith)
          (omega (arith, low)) at in
      let no_use : serves c.current [] ≡ false = rw fresh refl in (o, within, rw no_use e)

  -- With more attempts left than addresses before the leader's, it is reached.
  sweep :
      (n i : ℕ) (c : Client) (t : ℕ)
      → c.current ≡ none
      → t < length c.addrs
      → addr_at c.addrs ((c.next + t) % length c.addrs) ≡ lead
      → t + 1 < n
      → (attempts net poisons n i c []).1 ≡ answered (status ∷ body)
  sweep zero i c t fresh low at left = absurd (omega arith)
  sweep (suc zero) i c t fresh low at left = absurd (omega arith)
  sweep (suc (suc n)) i c t fresh low at left =
      let (o, within, connects) = connect_fresh i c t fresh low at in
      let a = addr_at c.addrs ((c.next + o) % length c.addrs) in
      let c1 : Client = record c { current = some a; next = c.next + o } in
      elim (one_round n i c c1 [] a connects refl) [
        | inl reached ↦ reached
        | inr (differ, goes) ↦
            let before : o < t = elim (Bool-cases (o == t)) [
              | inl same ↦ absurd (
                  differ (
                    ap (λ z. addr_at c.addrs ((c.next + z) % length c.addrs)) ((==_iff o t).0 same)
                    ∙ at))
              | inr other ↦ ground (arith, other, within)
            ] in
            let there : c.next + o + 1 + (t - o - 1) ≡ c.next + t = omega (arith, before) in
            ap (λ x. x.1) goes
            ∙ sweep (suc n) (i + 1) (given_up c1) (t - o - 1) refl (omega (arith, low))
                (ap (λ z. addr_at c.addrs (z % length c.addrs)) there ∙ at)
                (omega (arith, left, before))
      ]

  used :
      (n : ℕ) (c : Client) (o : Option (List ℕ)) (k : ℕ)
      → c.current ≡ o
      → k < length c.addrs
      → addr_at c.addrs k ≡ lead
      → length c.addrs + 2 ≤ n
      → (attempts net poisons n 0 c []).1 ≡ answered (status ∷ body)
  unfolding connect_locked
  used zero c o k at low is many = absurd (omega arith)
  used (suc zero) c o k at low is many = absurd (omega arith)
  used (suc (suc n)) c none k at low is many =
      let (t, below, hits) = cycle_hits (length c.addrs) c.next k low in
      sweep (suc (suc n)) 0 c t at below (ap (addr_at c.addrs) hits ∙ is)
        (omega (arith, many, below))
  used (suc (suc n)) c (some a) k at low is many =
      let kept : serves c.current [] ≡ true = rw at refl in
      elim (one_round n 0 c c [] a (rw kept refl) at) [
        | inl reached ↦ reached
        | inr (differ, goes) ↦
            let (t, below, hits) = cycle_hits (length c.addrs) (c.next + 1) k low in
            ap (λ x. x.1) goes
            ∙ sweep (suc n) 1 (given_up c) t refl below (ap (addr_at c.addrs) hits ∙ is)
                (omega (arith, many, below))
      ]

  if_open :
      (b : Bool) (x y : Client × CallEnd)
      → b ≡ false
      → y.1 ≡ answered (status ∷ body)
      → (if b then x else y).1 ≡ answered (status ∷ body)
  if_open true x y e p = absurd cc
  if_open false x y e p = p

  -- A client that is not closed has an address, not empty and of fewer than 2 ^ 32 bytes, whose
  -- node can always be reached and always answers with one frame, neither a redirect nor an
  -- error, and at least two attempts more than addresses; every other node, whether its dial
  -- succeeds or not, breaks the exchange, redirects to no address, or redirects to that one.
  -- Then, whatever connection and position the client starts with, `call` ends with that frame.
  pub call_reaches :
      (c : Client) (k : ℕ)
      → c.closed ≡ false
      → k < length c.addrs
      → addr_at c.addrs k ≡ lead
      → length c.addrs + 2 ≤ c.max_attempts
      → (call net poisons c).1 ≡ answered (status ∷ body)
  unfolding call
  call_reaches c k opened low is many =
      if_open c.closed _ _ opened (used c.max_attempts c c.current k refl low is many)
