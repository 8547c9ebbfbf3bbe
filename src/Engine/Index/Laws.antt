-- ===== src/Engine/Index/Laws.antt =====
-- The operations on the index as a map, and the order that they keep.
use gokv.Prelude.{ℕ, ◌≡◌, refl, Bool, true, none, some, List, [], ◌∷◌, arith, if◌then◌else◌}
use gokv.Prelude.Keys.{
  key_eq, key_lt, key_eq_iff, key_eq_refl, key_lt→ne, key_lt_trans, key_lt_total, key_eq→eq,
}
use gokv.Engine.Index.{Entry, Index, lookup, insert, remove, keep, AllAbove, IsAscending}

pub lookup-insert :
    (k j : List ℕ) (e : Entry) (m : Index)
    → lookup j (insert k e m) ≡ (if key_eq k j then some e else lookup j m)
unfolding lookup insert
lookup-insert k j e [] = refl
lookup-insert k j e ((i, d) ∷ m) =
    ground
      (arith, lookup-insert k j e m, key_eq_iff k j, key_eq_iff i k, key_eq_iff i j, key_lt→ne i k)

pub lookup-insert_self : (k : List ℕ) (e : Entry) (m : Index) → lookup k (insert k e m) ≡ some e
lookup-insert_self k e m = rw (lookup-insert, key_eq_refl)

-- A key below every key of the index is not in it.
pub lookup_above : (k : List ℕ) (m : Index) → AllAbove k m → lookup k m ≡ none
unfolding lookup
lookup_above k [] h = refl
lookup_above k ((j, d) ∷ m) h =
    ground (arith, lookup_above k m h.1, key_lt→ne k j, key_eq_iff j k, key_eq_iff k j)

pub AllAbove-trans : (i j : List ℕ) (m : Index) → key_lt i j ≡ true → AllAbove j m → AllAbove i m
AllAbove-trans i j [] h a = tt
AllAbove-trans i j ((k, d) ∷ m) h a = (key_lt_trans i j k h a.0, AllAbove-trans i j m h a.1)

pub lookup-remove :
    (k j : List ℕ) (m : Index)
    → IsAscending m
    → lookup j (remove k m) ≡ (if key_eq k j then none else lookup j m)
unfolding lookup remove
lookup-remove k j [] h = ground arith
lookup-remove k j ((i, d) ∷ m) h = ground (
  arith,
  lookup-remove k j m h.1,
  key_eq_iff k j,
  key_eq_iff i k,
  key_eq_iff i j,
  key_lt→ne i k,
  lookup_above i m h.0,
  lookup_above k m,
  AllAbove-trans k i m,
  key_lt_total i k,
)

AllAbove-insert :
    (i k : List ℕ) (e : Entry) (m : Index)
    → key_lt i k ≡ true
    → AllAbove i m
    → AllAbove i (insert k e m)
unfolding insert
AllAbove-insert i k e [] h a = (h, tt)
AllAbove-insert i k e ((j, d) ∷ m) h a = ground (arith, AllAbove-insert i k e m h a.1)

pub insert-IsAscending :
    (k : List ℕ) (e : Entry) (m : Index) → IsAscending m → IsAscending (insert k e m)
unfolding insert
insert-IsAscending k e [] h = (tt, tt)
insert-IsAscending k e ((j, d) ∷ m) h = ground (
  arith,
  insert-IsAscending k e m h.1,
  AllAbove-insert j k e m,
  key_lt_total j k,
  key_eq→eq j k,
  AllAbove-trans k j m,
)

keep-AllAbove :
    (p : List ℕ → Entry → Bool) (j : List ℕ) (m : Index) → AllAbove j m → AllAbove j (keep p m)
unfolding keep
keep-AllAbove p j [] h = tt
keep-AllAbove p j ((k, e) ∷ m) h = ground (arith, keep-AllAbove p j m h.1)

pub keep-IsAscending :
    (p : List ℕ → Entry → Bool) (m : Index) → IsAscending m → IsAscending (keep p m)
unfolding keep
keep-IsAscending p [] h = tt
keep-IsAscending p ((k, e) ∷ m) h =
    ground (arith, keep-IsAscending p m h.1, keep-AllAbove p k m h.0)

pub lookup-keep :
    (p : List ℕ → Entry → Bool) (m : Index) (k : List ℕ) (e : Entry)
    → IsAscending m
    → lookup k m ≡ some e
    → p k e ≡ true
    → lookup k (keep p m) ≡ some e
unfolding keep lookup
lookup-keep p [] k e h q w = q
lookup-keep p ((j, d) ∷ m) k e h q w = ground (arith, lookup-keep p m k e h.1, key_eq_iff j k)

AllAbove-remove : (i k : List ℕ) (m : Index) → AllAbove i m → AllAbove i (remove k m)
unfolding remove
AllAbove-remove i k [] a = tt
AllAbove-remove i k ((j, d) ∷ m) a = ground (arith, AllAbove-remove i k m a.1)

pub remove-IsAscending : (k : List ℕ) (m : Index) → IsAscending m → IsAscending (remove k m)
unfolding remove
remove-IsAscending k [] h = tt
remove-IsAscending k ((j, d) ∷ m) h =
    ground (arith, remove-IsAscending k m h.1, AllAbove-remove j k m h.0)
