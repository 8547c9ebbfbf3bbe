-- ===== src/Engine/Index/Walk/Still.antt =====
-- The walk over an index that does not change while it goes on.
use gokv.Prelude.{
  ℕ, zero, suc, ◌+◌, ◌<◌, ◌≡◌, refl, ◌∙◌, Bool, true, false, ◌||◌, Option, some, List, [], ◌∷◌,
  ◌++◌, arith, if◌then◌else◌, ◌==◌, Bool-cases, inl, inr,
}
use gokv.Engine.Index.{Entry, Index, keep, IsAscending}
use gokv.Engine.Index.Walk.{Chunk, next_chunk, visit_all, walk}
use gokv.Engine.Index.Walk.Ahead.{wanted, count}
use gokv.Engine.Index.Walk.Chunks.{Took, next_chunk-Took}

positive : (n : ℕ) → (n == 0) ≡ false → 0 < n
positive n h = ground arith

module _ {ℓ} {S : Type ℓ} (visit : List ℕ → Entry → S → S × Bool) where
  pub visit_all-append :
      (xs ys : Index) (st : S)
      → visit_all visit (xs ++ ys) st ≡ (
          if (visit_all visit xs st).1
          then visit_all visit xs st
          else visit_all visit ys (visit_all visit xs st).0)
  unfolding visit_all
  visit_all-append [] ys st = refl
  visit_all-append ((k, e) ∷ xs) ys st = elim (Bool-cases (visit k e st).1) [
    | inl h ↦ rw h refl
    | inr h ↦ rw h (visit_all-append xs ys (visit k e st).0)
  ]

  turn_rest :
      (at_end : Bool) (v : S × Bool) (rest : Index)
      → Path
          (Option S)
          (if v.1 || at_end then some v.0 else some (visit_all visit rest v.0).0)
          (some (if v.1 then v else visit_all visit (if at_end then [] else rest) v.0).0)
  unfolding visit_all
  turn_rest at_end (st, true) rest = refl
  turn_rest true (st, false) rest = refl
  turn_rest false (st, false) rest = refl

  -- One turn of the loop, when what remains is known.
  turn :
      (c : Chunk) (all rest : Index) (st : S) (o : Option S)
      → all ≡ c.refs ++ (if c.at_end then [] else rest)
      → (c.examined ≡ 0 → all ≡ [])
      → ((c.examined == 0) ≡ false
          → o ≡ some (visit_all visit rest (visit_all visit c.refs st).0).0)
      → (if c.examined == 0
          then some st
          else if (visit_all visit c.refs st).1 || c.at_end
          then some (visit_all visit c.refs st).0
          else o)
        ≡ some (visit_all visit all st).0
  unfolding visit_all
  turn c all rest st o p q r = elim (Bool-cases (c.examined == 0)) [
    | inl h ↦ rw (h, q (ground arith)) refl
    | inr h ↦ rw (h, r h, p, visit_all-append) (turn_rest c.at_end (visit_all visit c.refs st) rest)
  ]

  -- The walk needs no more fuel than one for each key ahead and one to see the end. It visits what
  -- is wanted of the index, in its order.
  pub walk_still :
      (n i : ℕ) (m : Index) (end_key cursor : List ℕ) (exclusive : Bool) (st : S)
      → IsAscending m
      → count cursor exclusive m < n
      → walk visit n i (λ _. m) end_key cursor exclusive st
        ≡ some (visit_all visit (keep (wanted end_key cursor exclusive) m) st).0
  unfolding walk
  walk_still zero i m end_key cursor x st h f = absurd (omega arith)
  walk_still (suc n) i m end_key cursor x st h f =
      let c : Chunk = next_chunk end_key m cursor x in
      let t : Took end_key m cursor x c = next_chunk-Took end_key m cursor x h in
      turn c _ (keep (wanted end_key c.cursor c.exclusive) m) st _ t.refs
        (λ g. t.refs ∙ rw ((t.none_left g).0, (t.none_left g).1) refl)
        (λ g.
          walk_still n (i + 1) m end_key c.cursor c.exclusive (visit_all visit c.refs st).0 h
            (omega (arith, t.measure, positive c.examined g)))
