-- ===== src/Engine/Index/Walk/Ahead.antt =====
-- What a walk over the index has yet to visit, as a filter of it.
use gokv.Prelude.{
  ℕ, suc, ◌≡◌, refl, Bool, true, false, not, ◌&&◌, List, [], ◌∷◌, arith, if◌then◌else◌,
}
use gokv.Prelude.Keys.{key_lt, key_eq_iff, key_lt_irrefl, key_lt_trans, key_lt_total}
use gokv.Engine.Index.{Entry, Index, keep, AllAbove}
use gokv.Engine.Index.Walk.{Chunk, past_end}

-- The keys that a walk with this cursor has yet to come to.
abbrev pub ahead : List ℕ → Bool → List ℕ → Bool
ahead cursor exclusive k = if exclusive then key_lt cursor k else not (key_lt k cursor)

-- What the walk is to visit: live keys ahead, up to the end key.
abbrev pub wanted : List ℕ → List ℕ → Bool → List ℕ → Entry → Bool
wanted end_key cursor exclusive k e =
    (ahead cursor exclusive k && not (past_end end_key k)) && not e.tomb

-- No key is below `k`.
abbrev pub AllFrom : List ℕ → Index → Type 0
AllFrom k [] = Unit {0}
AllFrom k ((j, e) ∷ m) = (key_lt j k ≡ false) × AllFrom k m

pub key_lt_asym : (j k : List ℕ) → key_lt j k ≡ true → key_lt k j ≡ false
key_lt_asym j k h = ground (arith, key_lt_trans j k j, key_lt_irrefl j)

pub AllAbove-AllFrom : (k : List ℕ) (m : Index) → AllAbove k m → AllFrom k m
AllAbove-AllFrom k [] h = tt
AllAbove-AllFrom k ((j, e) ∷ m) h = (key_lt_asym k j h.0, AllAbove-AllFrom k m h.1)

pub keep_past :
    (end_key cursor j : List ℕ) (exclusive : Bool) (m : Index)
    → AllAbove j m
    → past_end end_key j ≡ true
    → keep (wanted end_key cursor exclusive) m ≡ []
unfolding keep
keep_past end_key cursor j x [] h p = refl
keep_past end_key cursor j x ((k, e) ∷ m) h p =
    ground (arith, keep_past end_key cursor j x m h.1 p, key_lt_trans end_key j k)

pub ahead_behind :
    (cursor j k : List ℕ) (exclusive : Bool)
    → key_lt j cursor ≡ false
    → key_lt j k ≡ true
    → ahead cursor exclusive k ≡ true
ahead_behind cursor j k x p h = ground (
  arith,
  key_lt_trans j k cursor,
  key_lt_trans cursor j k,
  key_lt_total j cursor,
  key_eq_iff j cursor,
)

-- Behind the key `j`, which is not below the cursor, it makes no difference to move the cursor to `j`.
pub keep_moved :
    (end_key cursor j : List ℕ) (exclusive : Bool) (m : Index)
    → key_lt j cursor ≡ false
    → AllAbove j m
    → keep (wanted end_key cursor exclusive) m ≡ keep (wanted end_key j true) m
unfolding keep
keep_moved end_key cursor j x [] p h = refl
keep_moved end_key cursor j x ((k, e) ∷ m) p h =
    rw (ahead_behind cursor j k x p h.0, h.0, keep_moved end_key cursor j x m p h.1) refl

-- How many keys a walk has yet to come to.
unfoldable pub count : List ℕ → Bool → Index → ℕ
count cursor exclusive [] = 0
count cursor exclusive ((k, e) ∷ m) =
    if ahead cursor exclusive k then suc (count cursor exclusive m) else count cursor exclusive m

pub count_moved :
    (cursor j : List ℕ) (exclusive : Bool) (m : Index)
    → key_lt j cursor ≡ false
    → AllAbove j m
    → count cursor exclusive m ≡ count j true m
unfolding count
count_moved cursor j x [] p h = refl
count_moved cursor j x ((k, e) ∷ m) p h =
    rw (ahead_behind cursor j k x p h.0, h.0, count_moved cursor j x m p h.1) refl

-- What is left to visit after a chunk.
abbrev pub left : List ℕ → Chunk → Index → Index
left end_key c m = if c.at_end then [] else keep (wanted end_key c.cursor c.exclusive) m
