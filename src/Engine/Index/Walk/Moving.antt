-- ===== src/Engine/Index/Walk/Moving.antt =====
-- The walk while other goroutines change the index: each chunk comes from what the index is then.
use gokv.Prelude.{
  ℕ, zero, suc, ◌+◌, ◌≡◌, refl, ◌∙◌, sym, ap, Bool, true, false, ◌||◌, Option, some, List, [], ◌++◌,
  append-nil, arith, if◌then◌else◌, ◌==◌, Bool-cases, inl, inr,
}
use mathlib.Core.Path.{subst}
use mathlib.Core.Option.{some-injective}
use gokv.Engine.Index.{Entry, Index, lookup, keep, IsAscending}
use gokv.Engine.Index.Each.{
  EachEntry, Every-EachEntry, EachEntry-keep, EachEntry-map, EachEntry-prefix, EachEntry-append,
}
use gokv.Engine.Index.Walk.{Chunk, next_chunk, visit_all, walk, past_end}
use gokv.Engine.Index.Walk.Ahead.{ahead, left, wanted}
use gokv.Engine.Index.Walk.Chunks.{Took, next_chunk-Took}
use gokv.Engine.Index.Walk.Still.{visit_all-append}
use gokv.Engine.Index.Walk.Order.{
  AllWanted, Holds, AllWanted-append, AllWanted-earlier, IsAscending-append, Took-IsAscending,
  Took-AllWanted, Took-Holds, Holds-later,
}

-- The index had this live entry at one of the looks.
abbrev pub IsSeen : (ℕ → Index) → List ℕ → Entry → Type 0
IsSeen looked k e = (j : ℕ) × (lookup k (looked j) ≡ some e) × (e.tomb ≡ false)

Took-IsSeen :
    (looked : ℕ → Index) (i : ℕ) (end_key cursor : List ℕ) (exclusive : Bool) (c : Chunk)
    → IsAscending (looked i)
    → Took end_key (looked i) cursor exclusive c
    → EachEntry (IsSeen looked) c.refs
Took-IsSeen looked i end_key cursor x c h t =
    let p = wanted end_key cursor x in
    let there : List ℕ → Entry → Type 0 = λ k e. lookup k (looked i) ≡ some e in
    EachEntry-prefix (IsSeen looked) c.refs _ (
      subst (EachEntry (IsSeen looked)) t.refs (
        EachEntry-map (λ k e. there k e × (p k e ≡ true)) (IsSeen looked) (keep p (looked i))
          (λ k e q. (i, q.0, ground (arith, q.1)))
          (EachEntry-keep there p (looked i) (Every-EachEntry there (looked i) h (λ k e q. q)))))

module _ {ℓ} {S : Type ℓ} (visit : List ℕ → Entry → S → S × Bool) where
  -- What a walk that has ended has done, with the references `refs` that it came by.
  pub record Walked (looked : ℕ → Index) (end_key cursor : List ℕ) (exclusive : Bool) (st st' : S)
      : Type ℓ where
    pub refs : Index
    pub sorted : IsAscending refs
    pub seen : EachEntry (IsSeen looked) refs
    pub wanted_all : AllWanted end_key cursor exclusive refs
    pub result : st' ≡ (visit_all visit refs st).0
    pub complete :
        (visit_all visit refs st).1 ≡ false
        → (k : List ℕ) → ahead cursor exclusive k ≡ true
        → past_end end_key k ≡ false
        → ((j : ℕ) → Holds (looked j) k)
        → Holds refs k

  visit_all-on :
      (xs ys : Index) (st : S)
      → (visit_all visit xs st).1 ≡ false
      → visit_all visit (xs ++ ys) st ≡ visit_all visit ys (visit_all visit xs st).0
  visit_all-on xs ys st h = visit_all-append visit xs ys st ∙ rw h refl

  ended-Walked :
      (looked : ℕ → Index) (i : ℕ) (end_key cursor : List ℕ) (exclusive : Bool) (c : Chunk)
      (st st' : S)
      → IsAscending (looked i)
      → Took end_key (looked i) cursor exclusive c
      → st' ≡ (visit_all visit c.refs st).0
      → ((visit_all visit c.refs st).1 ≡ false → left end_key c (looked i) ≡ [])
      → Walked looked end_key cursor exclusive st st'
  ended-Walked looked i end_key cursor x c st st' h t r l = record {
    refs = c.refs;
    sorted = Took-IsAscending end_key (looked i) cursor x c h t;
    seen = Took-IsSeen looked i end_key cursor x c h t;
    wanted_all = Took-AllWanted end_key (looked i) cursor x c t;
    result = r;
    complete = λ q k a p held.
        subst (λ z. Holds z k) (ap (λ z. c.refs ++ z) (l q) ∙ append-nil c.refs)
          (Took-Holds end_key (looked i) cursor x c k h t a p (held i));
  }

  on-Walked :
      (looked : ℕ → Index) (i : ℕ) (end_key cursor : List ℕ) (exclusive : Bool) (c : Chunk)
      (st st' : S)
      → IsAscending (looked i)
      → Took end_key (looked i) cursor exclusive c
      → (visit_all visit c.refs st).1 ≡ false
      → c.at_end ≡ false
      → Walked looked end_key c.cursor c.exclusive (visit_all visit c.refs st).0 st'
      → Walked looked end_key cursor exclusive st st'
  on-Walked looked i end_key cursor x c st st' h t q o w = record {
    refs = c.refs ++ w.refs;
    sorted =
        IsAscending-append end_key c c.refs w.refs
          (Took-IsAscending end_key (looked i) cursor x c h t) w.sorted t.behind w.wanted_all;
    seen =
        EachEntry-append (IsSeen looked) c.refs w.refs (Took-IsSeen looked i end_key cursor x c h t)
          w.seen;
    wanted_all =
        AllWanted-append end_key cursor x c.refs w.refs
          (Took-AllWanted end_key (looked i) cursor x c t)
          (AllWanted-earlier end_key cursor x c w.refs t.advances w.wanted_all);
    result = w.result ∙ sym (ap (λ (z : S × Bool). z.0) (visit_all-on c.refs w.refs st q));
    complete = λ r k a p held.
        Holds-later end_key (looked i) cursor x c w.refs k h t o a p (held i)
          (λ b. w.complete (rw (visit_all-on c.refs w.refs st q) at r) k b p held);
  }

  ended_result :
      (v : S × Bool) (o : Option S) (st' : S)
      → (if v.1 || true then some v.0 else o) ≡ some st'
      → st' ≡ v.0
  ended_result (st, true) o st' h = sym (some-injective _ _ h)
  ended_result (st, false) o st' h = sym (some-injective _ _ h)

  -- While the index changes, its keys in ascending order whenever it is looked at, a walk that
  -- ends has visited keys in strictly ascending order within its bounds, each with a live entry
  -- that the index had for it at one of the looks; unless a visit has ended it early, no key in
  -- its bounds that was live at every look has been missed.
  pub walk-Walked :
      (n i : ℕ) (looked : ℕ → Index) (end_key cursor : List ℕ) (exclusive : Bool) (st st' : S)
      → ((j : ℕ) → IsAscending (looked j))
      → walk visit n i looked end_key cursor exclusive st ≡ some st'
      → Walked looked end_key cursor exclusive st st'
  unfolding walk
  walk-Walked zero i looked end_key cursor x st st' h e = absurd (cc e)
  walk-Walked (suc n) i looked end_key cursor x st st' h e =
      let c : Chunk = next_chunk end_key (looked i) cursor x in
      let t : Took end_key (looked i) cursor x c =
        next_chunk-Took end_key (looked i) cursor x (h i) in
      elim (Bool-cases (c.examined == 0)) [
        | inl z ↦
            let u : c.refs ≡ [] = (t.none_left (ground arith)).1 in
            ended-Walked looked i end_key cursor x c st st' (h i) t
              (sym (some-injective _ _ (rw z at e)) ∙ rw u (unfold visit_all in refl))
              (λ _. (t.none_left (ground arith)).0)
        | inr z ↦ elim (Bool-cases c.at_end) [
          | inl o ↦
              ended-Walked looked i end_key cursor x c st st' (h i) t
                (ended_result _ _ _ (rw (z, o) at e)) (λ _. rw o refl)
          | inr o ↦ elim (Bool-cases (visit_all visit c.refs st).1) [
            | inl d ↦
                ended-Walked looked i end_key cursor x c st st' (h i) t
                  (sym (some-injective _ _ (rw (z, o, d) at e))) (λ f. absurd (cc (d, f)))
            | inr d ↦ on-Walked looked i end_key cursor x c st st' (h i) t d o (
                walk-Walked n (i + 1) looked end_key c.cursor c.exclusive _ st' h
                  (rw (z, o, d) at e))
          ]
        ]
      ]
