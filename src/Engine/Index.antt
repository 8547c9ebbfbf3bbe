-- ===== src/Engine/Index.antt =====
-- The in-memory index of internal/engine/store.go. The map `keys` and the skip list `order` hold the
-- same nodes; both are one list of keys with their entries, in ascending order of the keys. The level
-- structure of the skip list, which only makes searches faster, is not part of it.
pub mod Laws
pub mod Newest
pub mod Counters
pub mod Walk
pub mod Each
use gokv.Prelude.{
  ℕ, ◌+◌, ◌-◌, ◌*◌, ◌%◌, ◌^◌, ◌≤◌, ◌<◌, ◌≡◌, Bool, true, false, not, ◌&&◌, Option, none, some, List,
  [], ◌∷◌, leb, ltb, if◌then◌else◌, refl,
}
use gokv.Prelude.Bytes.{u64_mod}
use gokv.Prelude.Keys.{key_eq, key_lt}

pub record Entry : Type 0 where
  pub pos : ℕ
  pub seq : ℕ
  pub file_id : ℕ
  pub size : ℕ
  pub tomb : Bool

abbrev pub Index : Type 0
Index = List (List ℕ × Entry)

-- s.keys[k]
unfoldable pub lookup : List ℕ → Index → Option Entry
lookup k [] = none
lookup k ((j, e) ∷ m) = if key_eq j k then some e else lookup k m

-- `skiplist.insert`, and the assignment to `n.ent` of a node that is there.
unfoldable pub insert : List ℕ → Entry → Index → Index
insert k e [] = (k, e) ∷ []
insert k e ((j, d) ∷ m) =
    if key_lt j k
    then (j, d) ∷ insert k e m
    else if key_eq j k
    then (k, e) ∷ m
    else (k, e) ∷ ((j, d) ∷ m)

-- `skiplist.remove` with `delete(s.keys, key)`.
unfoldable pub remove : List ℕ → Index → Index
remove k [] = []
remove k ((j, d) ∷ m) =
    if key_lt j k then (j, d) ∷ remove k m else if key_eq j k then m else (j, d) ∷ m

-- `skiplist.seek`: the chain from the first key >= k on.
unfoldable pub seek : List ℕ → Index → Index
seek k [] = []
seek k ((j, d) ∷ m) = if key_lt j k then seek k m else (j, d) ∷ m

-- The part of an index that a test picks.
unfoldable pub keep : (List ℕ → Entry → Bool) → Index → Index
keep p [] = []
keep p ((k, e) ∷ m) = if p k e then (k, e) ∷ keep p m else keep p m

-- Keys in strictly ascending order.
abbrev pub AllAbove : List ℕ → Index → Type 0
AllAbove k [] = Unit {0}
AllAbove k ((j, d) ∷ m) = (key_lt k j ≡ true) × AllAbove k m

abbrev pub IsAscending : Index → Type 0
IsAscending [] = Unit {0}
IsAscending ((j, d) ∷ m) = AllAbove j m × IsAscending m

-- int64 counters as their two's complement pattern.
abbrev pub add64 : ℕ → ℕ → ℕ
add64 a b = (a + b) % u64_mod

abbrev pub sub64 : ℕ → ℕ → ℕ
sub64 a b = (a + (u64_mod - b % u64_mod)) % u64_mod

-- The index with the counters `live` and `nLive`.
pub record Keydir : Type 0 where
  pub index : Index
  pub live : ℕ
  pub n_live : ℕ

unfoldable pub apply_recovered : Index → List ℕ → Entry → Bool → Index
apply_recovered m key e tomb =
    let e' = record e { tomb = tomb } in
    elim (lookup key m) [
      | some old ↦ if leb e'.seq old.seq then m else insert key e' m
      | none ↦ insert key e' m
    ]

-- What `indexApplyLocked` takes off the counters for the entry that it replaces, and what it adds.
abbrev discount : Keydir → Entry → Keydir
discount d old =
    if old.tomb then d else record d { live = sub64 d.live old.size; n_live = sub64 d.n_live 1 }

abbrev account : Keydir → Entry → Keydir
account d e =
    if e.tomb then d else record d { live = add64 d.live e.size; n_live = add64 d.n_live 1 }

unfoldable pub index_apply : Keydir → List ℕ → Entry → Bool → Keydir
index_apply d key e tomb =
    let e' = record e { tomb = tomb } in
    elim (lookup key d.index) [
      | some old ↦
          if leb e'.seq old.seq
          then d
          else account (record (discount d old) { index = insert key e' d.index }) e'
      | none ↦ account (record d { index = insert key e' d.index }) e'
    ]

-- The loop of `recountLocked`: the sum of a weight over the entries that are no tombstones.
unfoldable pub live_sum : (Entry → ℕ) → Index → ℕ
live_sum w [] = 0
live_sum w ((k, e) ∷ m) = if e.tomb then live_sum w m else add64 (live_sum w m) (w e)

unfoldable pub recount : Keydir → Keydir
recount d = record d { live = live_sum (λ e. e.size) d.index; n_live = live_sum (λ _. 1) d.index }
