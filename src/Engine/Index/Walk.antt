-- ===== src/Engine/Index/Walk.antt =====
-- The walk over the index in chunks that `Scan` of internal/engine/store.go and `SnapshotRecords` of
-- internal/engine/compact.go share: the index is looked at once per chunk, and a cursor says where the
-- next chunk begins. `SnapshotRecords` has no end key, which is the empty one here.
pub mod Ahead
pub mod Collect
pub mod Chunks
pub mod Still
pub mod Order
pub mod Moving
use gokv.Prelude.{
  ℕ, zero, suc, ◌+◌, ◌*◌, Bool, true, false, not, ◌&&◌, ◌||◌, Option, none, some, List, [], ◌∷◌,
  ◌++◌, ◌==◌, if◌then◌else◌, length,
}
use gokv.Prelude.Keys.{key_eq, key_lt}
use gokv.Engine.Index.{Entry, Index, seek}

-- scanChunk
abbrev pub scan_chunk : ℕ
scan_chunk = 512

-- The variables of the inner loop.
pub record Chunk : Type 0 where
  pub refs : Index
  pub cursor : List ℕ
  pub exclusive : Bool
  pub examined : ℕ
  pub at_end : Bool

abbrev pub past_end : List ℕ → List ℕ → Bool
past_end end_key k = not (length end_key == 0) && key_lt end_key k

abbrev pub examine : List ℕ → Entry → Chunk → Chunk
examine k e c = record {
  refs = if e.tomb then c.refs else c.refs ++ ((k, e) ∷ []);
  cursor = k;
  exclusive = true;
  examined = c.examined + 1;
  at_end = c.at_end;
}

abbrev pub is_full : Chunk → Bool
is_full c = length c.refs == scan_chunk || c.examined == scan_chunk * 8

-- The inner loop, along the chain `n.next[0]`.
unfoldable pub collect : List ℕ → Index → Chunk → Chunk
collect end_key [] c = c
collect end_key ((k, e) ∷ m) c =
    let skipped = collect end_key m c in
    let rest = collect end_key m (examine k e c) in
    if c.exclusive && key_eq k c.cursor
    then skipped
    else if past_end end_key k
    then record c { at_end = true }
    else if is_full (examine k e c)
    then examine k e c
    else rest

-- A chunk begins with no references.
abbrev pub begin : List ℕ → Bool → Chunk
begin cursor exclusive = record {
  refs = [];
  cursor = cursor;
  exclusive = exclusive;
  examined = 0;
  at_end = false;
}

abbrev pub next_chunk : List ℕ → Index → List ℕ → Bool → Chunk
next_chunk end_key m cursor exclusive = collect end_key (seek cursor m) (begin cursor exclusive)

module _ {ℓ} {S : Type ℓ} (visit : List ℕ → Entry → S → S × Bool) where
  -- The loop over the references of a chunk. `visit` says whether the whole walk returns.
  unfoldable pub visit_all : Index → S → S × Bool
  visit_all [] st = (st, false)
  visit_all ((k, e) ∷ rs) st =
      let (st', done) = visit k e st in
      let rest = visit_all rs st' in if done then (st', true) else rest

  -- The outer loop with fuel; `none` is that the fuel has run out. Chunk number `i` is collected from
  -- the index `looked i`.
  unfoldable pub walk : ℕ → ℕ → (ℕ → Index) → List ℕ → List ℕ → Bool → S → Option S
  unfolding collect visit_all
  walk zero i looked end_key cursor exclusive st = none
  walk (suc n) i looked end_key cursor exclusive st =
      let c = next_chunk end_key (looked i) cursor exclusive in
      let (st', done) = visit_all c.refs st in
      let rest = walk n (i + 1) looked end_key c.cursor c.exclusive st' in
      if c.examined == 0 then some st else if done || c.at_end then some st' else rest
