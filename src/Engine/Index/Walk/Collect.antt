-- ===== src/Engine/Index/Walk/Collect.antt =====
-- What the inner loop takes from a chain of the index.
use gokv.Prelude.{
  ℕ, suc, ◌+◌, ◌≤◌, ◌≡◌, refl, ◌∙◌, sym, ap, Bool, true, false, ◌&&◌, List, [], ◌∷◌, ◌++◌,
  append_assoc, arith, if◌then◌else◌, Bool-cases, inl, inr,
}
use gokv.Prelude.Keys.{key_eq, key_lt, key_eq_iff, key_lt_irrefl, key_lt_total}
use gokv.Engine.Index.{Entry, Index, keep, AllAbove, IsAscending}
use gokv.Engine.Index.Walk.{Chunk, past_end, examine, is_full, collect}
use gokv.Engine.Index.Walk.Ahead.{
  ahead, wanted, AllFrom, AllAbove-AllFrom, keep_past, ahead_behind, keep_moved, count, count_moved,
  left,
}

-- The keys that one walk has yet to come to, another has yet to come to as well.
pub record Advances (cursor : List ℕ) (exclusive : Bool) (c : Chunk) : Type 0 where
  pub only : (k : List ℕ) → ahead c.cursor c.exclusive k ≡ true → ahead cursor exclusive k ≡ true

-- The chunk's cursor has come past all of these keys.
abbrev pub AllBehind : Chunk → Index → Type 0
AllBehind c [] = Unit {0}
AllBehind c ((k, e) ∷ m) = (ahead c.cursor c.exclusive k ≡ false) × AllBehind c m

-- What a chunk has taken from the chain `m`, with `c` as it was before.
pub record Collected (end_key : List ℕ) (m : Index) (c c' : Chunk) : Type 0 where
  pub refs : c.refs ++ keep (wanted end_key c.cursor c.exclusive) m ≡ c'.refs ++ left end_key c' m
  pub advances : Advances c.cursor c.exclusive c'
  pub none_left : c'.examined ≡ c.examined → (left end_key c' m ≡ []) × (c'.refs ≡ c.refs)
  pub grew : c.examined ≤ c'.examined
  pub behind : AllBehind c c.refs → AllBehind c' c'.refs
  pub measure :
      c'.examined + count c'.cursor c'.exclusive m ≤ c.examined + count c.cursor c.exclusive m

left_skip :
    (end_key k : List ℕ) (e : Entry) (m : Index) (c c' : Chunk)
    → ahead c.cursor c.exclusive k ≡ false
    → Advances c.cursor c.exclusive c'
    → left end_key c' ((k, e) ∷ m) ≡ left end_key c' m
unfolding keep
left_skip end_key k e m c c' h adv = ground (arith, adv.only k)

count_skip :
    (k : List ℕ) (e : Entry) (m : Index) (c c' : Chunk)
    → ahead c.cursor c.exclusive k ≡ false
    → Advances c.cursor c.exclusive c'
    → count c'.cursor c'.exclusive ((k, e) ∷ m) ≡ count c'.cursor c'.exclusive m
unfolding count
count_skip k e m c c' h adv = ground (arith, adv.only k)

count_self :
    (k : List ℕ) (e : Entry) (m : Index) (c : Chunk)
    → ahead c.cursor c.exclusive k ≡ false
    → count c.cursor c.exclusive ((k, e) ∷ m) ≡ count c.cursor c.exclusive m
unfolding count
count_self k e m c h = rw h refl

count_taken :
    (k : List ℕ) (e : Entry) (m : Index) (c : Chunk)
    → AllAbove k m
    → key_lt k c.cursor ≡ false
    → ahead c.cursor c.exclusive k ≡ true
    → count c.cursor c.exclusive ((k, e) ∷ m) ≡ suc (count k true m)
unfolding count
count_taken k e m c s p h = rw (h, count_moved c.cursor k c.exclusive m p s) refl

skip-Collected :
    (end_key k : List ℕ) (e : Entry) (m : Index) (c c' : Chunk)
    → ahead c.cursor c.exclusive k ≡ false
    → Collected end_key m c c'
    → Collected end_key ((k, e) ∷ m) c c'
unfolding keep
skip-Collected end_key k e m c c' h r = record {
  refs = rw (h) (r.refs ∙ ap (λ l. c'.refs ++ l) (sym (left_skip end_key k e m c c' h r.advances)));
  advances = r.advances;
  none_left =
      λ q. (left_skip end_key k e m c c' h r.advances ∙ (r.none_left q).0, (r.none_left q).1);
  grew = r.grew;
  behind = r.behind;
  measure = omega (arith, r.measure, count_skip k e m c c' h r.advances, count_self k e m c h);
}

past-Collected :
    (end_key k : List ℕ) (e : Entry) (m : Index) (c : Chunk)
    → IsAscending ((k, e) ∷ m)
    → past_end end_key k ≡ true
    → Collected end_key ((k, e) ∷ m) c (record c { at_end = true })
unfolding keep
past-Collected end_key k e m c s p = record {
  refs = ap (λ l. c.refs ++ l) (ground (arith, keep_past end_key c.cursor k c.exclusive m s.0 p));
  advances = record { only = λ k h. h };
  none_left = λ _. (refl, refl);
  behind = λ b. b;
  grew = omega arith;
  measure = omega arith;
}

-- The key `k` is the first one that is ahead.
examined_refs :
    (end_key k : List ℕ) (e : Entry) (m : Index) (c : Chunk)
    → AllAbove k m
    → key_lt k c.cursor ≡ false
    → ahead c.cursor c.exclusive k ≡ true
    → past_end end_key k ≡ false
    → c.refs ++ keep (wanted end_key c.cursor c.exclusive) ((k, e) ∷ m)
      ≡ (examine k e c).refs ++ keep (wanted end_key k true) m
unfolding keep
examined_refs end_key k e m c s a h p =
    rw (h, p, keep_moved end_key c.cursor k c.exclusive m a s)
      (ground (arith, append_assoc c.refs ((k, e) ∷ []) (keep (wanted end_key k true) m)))

first_ahead :
    (c : Chunk) (k : List ℕ)
    → key_lt k c.cursor ≡ false
    → (c.exclusive && key_eq k c.cursor) ≡ false
    → ahead c.cursor c.exclusive k ≡ true
first_ahead c k p h = ground (arith, key_lt_total k c.cursor)

first_skipped :
    (c : Chunk) (k : List ℕ)
    → (c.exclusive && key_eq k c.cursor) ≡ true
    → ahead c.cursor c.exclusive k ≡ false
first_skipped c k h = ground (arith, key_lt_irrefl k, key_eq_iff k c.cursor)

AllBehind-moved :
    (k : List ℕ) (e : Entry) (c : Chunk) (m : Index)
    → key_lt k c.cursor ≡ false
    → AllBehind c m
    → AllBehind (examine k e c) m
AllBehind-moved k e c [] p h = tt
AllBehind-moved k e c ((j, d) ∷ m) p h =
    (ground (arith, ahead_behind c.cursor k j c.exclusive p, h.0), AllBehind-moved k e c m p h.1)

AllBehind-append :
    (c : Chunk) (k : List ℕ) (e : Entry) (m : Index)
    → AllBehind c m
    → ahead c.cursor c.exclusive k ≡ false
    → AllBehind c (m ++ ((k, e) ∷ []))
AllBehind-append c k e [] h p = (p, tt)
AllBehind-append c k e (x ∷ m) h p = (h.0, AllBehind-append c k e m h.1 p)

AllBehind-either :
    (c : Chunk) (b : Bool) (xs ys : Index)
    → AllBehind c xs
    → AllBehind c ys
    → AllBehind c (if b then xs else ys)
AllBehind-either c true xs ys h p = h
AllBehind-either c false xs ys h p = p

AllBehind-examine :
    (k : List ℕ) (e : Entry) (c : Chunk)
    → key_lt k c.cursor ≡ false
    → AllBehind c c.refs
    → AllBehind (examine k e c) (examine k e c).refs
AllBehind-examine k e c p h =
    let moved : AllBehind (examine k e c) c.refs = AllBehind-moved k e c c.refs p h in
    AllBehind-either (examine k e c) e.tomb c.refs (c.refs ++ ((k, e) ∷ [])) moved
      (AllBehind-append (examine k e c) k e c.refs moved (key_lt_irrefl k))

-- The key `k` is taken, and the chunk `c'` is what comes of the rest.
take-Collected :
    (end_key k : List ℕ) (e : Entry) (m : Index) (c c' : Chunk)
    → IsAscending ((k, e) ∷ m)
    → key_lt k c.cursor ≡ false
    → ahead c.cursor c.exclusive k ≡ true
    → past_end end_key k ≡ false
    → (examine k e c).refs ++ keep (wanted end_key k true) m ≡ c'.refs ++ left end_key c' m
    → Advances k true c'
    → c.examined + 1 ≤ c'.examined
    → (AllBehind (examine k e c) (examine k e c).refs → AllBehind c' c'.refs)
    → c'.examined + count c'.cursor c'.exclusive m ≤ (c.examined + 1) + count k true m
    → Collected end_key ((k, e) ∷ m) c c'
take-Collected end_key k e m c c' s p h q r adv g bh n = record {
  refs =
      examined_refs end_key k e m c s.0 p h q
      ∙ r
      ∙ ap (λ l. c'.refs ++ l)
          (sym (left_skip end_key k e m (examine k e c) c' (key_lt_irrefl k) adv));
  advances = record { only = λ j h. ahead_behind c.cursor k j c.exclusive p (adv.only j h) };
  none_left = λ q. absurd (omega (arith, g));
  grew = omega (arith, g);
  behind = λ b. bh (AllBehind-examine k e c p b);
  measure = omega (
    arith,
    n,
    count_taken k e m c s.0 p h,
    count_skip k e m (examine k e c) c' (key_lt_irrefl k) adv,
  );
}

pub collect-Collected :
    (end_key : List ℕ) (m : Index) (c : Chunk)
    → IsAscending m
    → AllFrom c.cursor m
    → c.at_end ≡ false
    → Collected end_key m c (collect end_key m c)
unfolding collect keep
collect-Collected end_key [] c s a o = record {
  refs = rw o refl;
  advances = record { only = λ k h. h };
  none_left = λ _. (rw o refl, refl);
  behind = λ b. b;
  grew = omega arith;
  measure = omega arith;
}
collect-Collected end_key ((k, e) ∷ m) c s a o =
    elim (Bool-cases (c.exclusive && key_eq k c.cursor)) [
      | inl h ↦ rw h (
          skip-Collected end_key k e m c _ (first_skipped c k h)
            (collect-Collected end_key m c s.1 a.1 o))
      | inr h ↦ elim (Bool-cases (past_end end_key k)) [
        | inl p ↦ rw (h, p) (past-Collected end_key k e m c s p)
        | inr p ↦ elim (Bool-cases (is_full (examine k e c))) [
          | inl f ↦
              rw (h, p, f)
                (take-Collected end_key k e m c _ s a.0 (first_ahead c k a.0 h) p (rw o refl)
                  (record { only = λ j h. h }) (omega arith) (λ b. b) (omega arith))
          | inr f ↦
              rw (h, p, f)
                (let r : Collected end_key m (examine k e c) (collect end_key m (examine k e c)) =
                    collect-Collected end_key m (examine k e c) s.1 (AllAbove-AllFrom k m s.0) o in
                  take-Collected end_key k e m c _ s a.0 (first_ahead c k a.0 h) p r.refs r.advances
                    r.grew r.behind r.measure)
        ]
      ]
    ]
