-- ===== src/Engine/Index/Walk/Chunks.antt =====
-- What one chunk of the walk takes from the index, against a filter of it.
use gokv.Prelude.{
  ℕ, ◌+◌, ◌≤◌, ◌≡◌, refl, ◌∙◌, sym, ap, Bool, true, false, List, [], ◌∷◌, ◌++◌, arith,
  if◌then◌else◌, Bool-cases, inl, inr,
}
use gokv.Prelude.Keys.{key_lt, key_lt_trans}
use gokv.Engine.Index.{Index, keep, seek, AllAbove, IsAscending}
use gokv.Engine.Index.Walk.{Chunk, begin, next_chunk}
use gokv.Engine.Index.Walk.Ahead.{ahead, wanted, AllFrom, key_lt_asym, count, left}
use gokv.Engine.Index.Walk.Collect.{Advances, AllBehind, Collected, collect-Collected}

AllAbove-AllFrom_down : (k j : List ℕ) (m : Index) → key_lt j k ≡ false → AllAbove j m → AllFrom k m
AllAbove-AllFrom_down k j [] p h = tt
AllAbove-AllFrom_down k j ((i, e) ∷ m) p h =
    (ground (arith, h.0, key_lt_trans j i k), AllAbove-AllFrom_down k j m p h.1)

seek-IsAscending : (k : List ℕ) (m : Index) → IsAscending m → IsAscending (seek k m)
unfolding seek
seek-IsAscending k [] h = h
seek-IsAscending k ((j, e) ∷ m) h = ground (arith, seek-IsAscending k m h.1)

-- The chain begins at the first key that is not below `k`.
seek-AllFrom : (k : List ℕ) (m : Index) → IsAscending m → AllFrom k (seek k m)
unfolding seek
seek-AllFrom k [] h = tt
seek-AllFrom k ((j, e) ∷ m) h = elim (Bool-cases (key_lt j k)) [
  | inl p ↦ rw p (seek-AllFrom k m h.1)
  | inr p ↦ rw p (p, AllAbove-AllFrom_down k j m p h.0)
]

behind_seek :
    (cursor j : List ℕ) (exclusive : Bool) (c : Chunk)
    → key_lt j cursor ≡ true
    → Advances cursor exclusive c
    → ahead c.cursor c.exclusive j ≡ false
behind_seek cursor j x c h adv = ground (arith, adv.only j, key_lt_asym j cursor)

keep-seek :
    (end_key cursor : List ℕ) (exclusive : Bool) (c : Chunk) (m : Index)
    → Advances cursor exclusive c
    → keep (wanted end_key c.cursor c.exclusive) (seek cursor m)
      ≡ keep (wanted end_key c.cursor c.exclusive) m
unfolding keep seek
keep-seek end_key cursor x c [] h = refl
keep-seek end_key cursor x c ((j, e) ∷ m) h = elim (Bool-cases (key_lt j cursor)) [
  | inl p ↦ rw (p, behind_seek cursor j x c p h) (keep-seek end_key cursor x c m h)
  | inr p ↦ rw p refl
]

count-seek :
    (cursor : List ℕ) (exclusive : Bool) (c : Chunk) (m : Index)
    → Advances cursor exclusive c
    → count c.cursor c.exclusive (seek cursor m) ≡ count c.cursor c.exclusive m
unfolding count seek
count-seek cursor x c [] h = refl
count-seek cursor x c ((j, e) ∷ m) h = elim (Bool-cases (key_lt j cursor)) [
  | inl p ↦ rw (p, behind_seek cursor j x c p h) (count-seek cursor x c m h)
  | inr p ↦ rw p refl
]

-- What a chunk takes of the index.
pub record Took (end_key : List ℕ) (m : Index) (cursor : List ℕ) (exclusive : Bool) (c : Chunk)
    : Type 0 where
  pub refs : keep (wanted end_key cursor exclusive) m ≡ c.refs ++ left end_key c m
  pub advances : Advances cursor exclusive c
  pub none_left : c.examined ≡ 0 → (left end_key c m ≡ []) × (c.refs ≡ [])
  pub measure : c.examined + count c.cursor c.exclusive m ≤ count cursor exclusive m
  pub behind : AllBehind c c.refs

pub next_chunk-Took :
    (end_key : List ℕ) (m : Index) (cursor : List ℕ) (exclusive : Bool)
    → IsAscending m
    → Took end_key m cursor exclusive (next_chunk end_key m cursor exclusive)
next_chunk-Took end_key m cursor x h =
    let b : Chunk = begin cursor x in
    let c : Chunk = next_chunk end_key m cursor x in
    let r : Collected end_key (seek cursor m) b c =
      collect-Collected end_key (seek cursor m) b (seek-IsAscending cursor m h)
        (seek-AllFrom cursor m h) refl in
    let l : left end_key c (seek cursor m) ≡ left end_key c m =
      ap (λ (z : Index). if c.at_end then [] else z) (keep-seek end_key cursor x c m r.advances) in
    let self : Advances cursor x b = record { only = λ k h. h } in
    record {
      refs = sym (keep-seek end_key cursor x b m self) ∙ r.refs ∙ ap (λ z. c.refs ++ z) l;
      advances = r.advances;
      none_left = λ q. (sym l ∙ (r.none_left q).0, (r.none_left q).1);
      behind = r.behind tt;
      measure =
          omega
            (arith, r.measure, count-seek cursor x b m self, count-seek cursor x c m r.advances);
    }
