-- ===== src/Node/Streams/Unbroken.antt =====
-- What a follower is sent of the buffers that are handed out while it is attached.
use gokv.Prelude.{
  ℕ, ◌≤◌, ◌<◌, ◌≡◌, refl, ap, ◌∙◌, sym, Bool, true, false, some, List, [], ◌∷◌, ◌++◌, append_assoc,
  append-nil, arith, length, length-append, Bool-cases, inl, inr, ltb,
}
use mathlib.Core.Path.{subst}
use gokv.Node.Streams.{
  stream_buffer, offer, Feed, new_feed, send_next, Run, here, offered, sends, closes,
}

-- All that has been handed out has been sent or waits, in its order, as long as the stream is not
-- closed; and no more waits than the channel holds.
record IsUnbroken (xs : List (List ℕ)) (g : Feed) : Type 0 where
  whole : g.stream.done ≡ false → g.sent ++ g.stream.queue ≡ xs
  bounded : length g.stream.queue ≤ stream_buffer

offered-IsUnbroken :
    (xs : List (List ℕ)) (g : Feed) (raw : List ℕ)
    → IsUnbroken xs g
    → IsUnbroken (xs ++ (raw ∷ [])) (record g { stream = offer raw g.stream })
unfolding offer
offered-IsUnbroken xs g raw h = elim (Bool-cases (ltb (length g.stream.queue) stream_buffer)) [
  | inl fits ↦ rw fits (record {
    whole = λ o.
        sym (append_assoc g.sent g.stream.queue (raw ∷ [])) ∙ ap (λ z. z ++ (raw ∷ [])) (h.whole o);
    bounded = ground (arith, fits, length-append g.stream.queue (raw ∷ []));
  })
  | inr full ↦ rw full (record { whole = λ o. absurd cc; bounded = h.bounded })
]

send_next-inv :
    (g g' : Feed)
    → send_next g ≡ some g'
    → (x : List ℕ) × (q : List (List ℕ)) × (g.stream.queue ≡ x ∷ q)
      × (g'.stream.queue ≡ q)
      × (g'.stream.done ≡ g.stream.done)
      × (g'.sent ≡ g.sent ++ (x ∷ []))
unfolding send_next
send_next-inv g g' e = inverted g.stream.queue refl
  where
    inverted :
        (l : List (List ℕ))
        → g.stream.queue ≡ l
        → (x : List ℕ) × (q : List (List ℕ)) × (g.stream.queue ≡ x ∷ q)
          × (g'.stream.queue ≡ q)
          × (g'.stream.done ≡ g.stream.done)
          × (g'.sent ≡ g.sent ++ (x ∷ []))
    inverted [] p = absurd (ground (arith, p, e))
    inverted (x ∷ q) p = (x, q, p, ground (arith, p, e), ground (arith, p, e), ground (arith, p, e))

sends-IsUnbroken :
    (xs : List (List ℕ)) (g g' : Feed) → IsUnbroken xs g → send_next g ≡ some g' → IsUnbroken xs g'
sends-IsUnbroken xs g g' h e =
    let (x, q, waits, left, same, sent) = send_next-inv g g' e in
    record {
      whole = λ o.
          rw (sent, left)
            (append_assoc g.sent (x ∷ []) q
              ∙ ap (λ z. g.sent ++ z) (sym waits)
              ∙ h.whole (sym same ∙ o));
      bounded = rw left (omega (arith, h.bounded, ap length waits));
    }

Run-IsUnbroken : {f g : Feed} {xs : List (List ℕ)} → IsUnbroken [] f → Run f xs g → IsUnbroken xs g
Run-IsUnbroken h here = h
Run-IsUnbroken h (offered {xs} {g} raw r) = offered-IsUnbroken xs g raw (Run-IsUnbroken h r)
Run-IsUnbroken h (sends {xs} {g} {g'} r e) = sends-IsUnbroken xs g g' (Run-IsUnbroken h r) e
Run-IsUnbroken h (closes {xs} {g} r) = record {
  whole = λ o. absurd cc;
  bounded = (Run-IsUnbroken h r).bounded;
}

-- Over any run of a new stream: as long as the stream is not closed, what has been sent and what
-- waits are together, in their order, all the buffers handed out; and what waits is never more
-- than the channel holds.
pub Run-unbroken :
    (g : Feed) (xs : List (List ℕ))
    → Run new_feed xs g
    → (g.stream.done ≡ false → g.sent ++ g.stream.queue ≡ xs)
      × (length g.stream.queue ≤ stream_buffer)
Run-unbroken g xs r =
    let h = Run-IsUnbroken (record { whole = λ o. refl; bounded = omega arith }) r in
    (h.whole, h.bounded)

-- From a feed on, everything that waits is sent.
drained :
    (f : Feed) (s : List (List ℕ)) (q : List (List ℕ)) (d : Bool) (xs : List (List ℕ))
    → Run f xs (record { stream = record { queue = q; done = d }; sent = s })
    → Run f xs (record { stream = record { queue = []; done = d }; sent = s ++ q })
unfolding send_next
drained f s [] d xs r = rw (append-nil s) r
drained f s (x ∷ q) d xs r =
    rw (← append_assoc s (x ∷ []) q) (drained f (s ++ (x ∷ [])) q d xs (sends r refl))

offer-full :
    (raw : List ℕ) (q : List (List ℕ)) (d : Bool)
    → length q ≡ stream_buffer
    → offer raw (record { queue = q; done = d }) ≡ record { queue = q; done = true }
unfolding offer
offer-full raw q d full =
    let no : ltb (length q) stream_buffer ≡ false = ground (arith, full) in rw no refl

offer-room :
    (raw : List ℕ) (q : List (List ℕ)) (d : Bool)
    → length q < stream_buffer
    → offer raw (record { queue = q; done = d }) ≡ record { queue = q ++ (raw ∷ []); done = d }
unfolding offer
offer-room raw q d room =
    let fits : ltb (length q) stream_buffer ≡ true = ground (arith, room) in rw fits refl

-- A feed by its parts.
abbrev pub feed_of : List (List ℕ) → Bool → List (List ℕ) → Feed
feed_of q d s = record { stream = record { queue = q; done = d }; sent = s }

-- From a stream that is open and whose channel is full, with anything sent before, two buffers
-- can be handed out and everything that waits be sent so that the second of them is sent and the
-- first is not: the first finds the channel full, which closes the stream, and the second finds
-- room after one more has been sent.
pub Run-skips :
    (s q : List (List ℕ)) (x a b : List ℕ)
    → length (x ∷ q) ≡ stream_buffer
    → Run
        (feed_of (x ∷ q) false s)
        (a ∷ (b ∷ []))
        (feed_of [] true ((s ++ (x ∷ [])) ++ (q ++ (b ∷ []))))
unfolding send_next
Run-skips s q x a b full =
    let f = feed_of (x ∷ q) false s in
    let refused : Run f (a ∷ []) (feed_of (x ∷ q) true s) =
      subst (λ t. Run f (a ∷ []) (record { stream = t; sent = s }))
        (offer-full a (x ∷ q) false full) (offered a here) in
    let sent : Run f (a ∷ []) (feed_of q true (s ++ (x ∷ []))) = sends refused refl in
    let taken : Run f (a ∷ (b ∷ [])) (feed_of (q ++ (b ∷ [])) true (s ++ (x ∷ []))) =
      subst (λ t. Run f (a ∷ (b ∷ [])) (record { stream = t; sent = s ++ (x ∷ []) }))
        (offer-room b q true (omega (arith, full))) (offered b sent) in
    drained f (s ++ (x ∷ [])) (q ++ (b ∷ [])) true (a ∷ (b ∷ [])) taken
