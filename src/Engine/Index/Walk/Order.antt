-- ===== src/Engine/Index/Walk/Order.antt =====
-- The references of one chunk after another: their order and what is among them.
use gokv.Prelude.{
  ℕ, ◌≡◌, refl, ◌∙◌, sym, Bool, true, false, none, some, List, [], ◌∷◌, ◌++◌, arith, if◌then◌else◌,
  inl, inr, Option-cases,
}
use mathlib.Core.Path.{subst}
use gokv.Prelude.Keys.{key_lt, key_lt_total, key_lt_trans, key_eq_iff}
use gokv.Engine.Index.{Entry, Index, keep, lookup, AllAbove, IsAscending}
use gokv.Engine.Index.Laws.{keep-IsAscending, lookup-keep}
use gokv.Engine.Index.Walk.{Chunk, past_end}
use gokv.Engine.Index.Walk.Ahead.{wanted, ahead, left}
use gokv.Engine.Index.Walk.Collect.{AllBehind, Advances}
use gokv.Engine.Index.Walk.Chunks.{Took}

-- Every reference is wanted.
abbrev pub AllWanted : List ℕ → List ℕ → Bool → Index → Type 0
AllWanted end_key cursor exclusive [] = Unit {0}
AllWanted end_key cursor exclusive ((k, e) ∷ m) =
    (wanted end_key cursor exclusive k e ≡ true) × AllWanted end_key cursor exclusive m

-- The key has a live entry.
abbrev pub Holds : Index → List ℕ → Type 0
Holds m k = (e : Entry) × (lookup k m ≡ some e) × (e.tomb ≡ false)

AllWanted-cons :
    (end_key cursor : List ℕ) (x : Bool) (k : List ℕ) (e : Entry) (m : Index) (b : Bool)
    → wanted end_key cursor x k e ≡ b
    → AllWanted end_key cursor x m
    → AllWanted end_key cursor x (if b then (k, e) ∷ m else m)
AllWanted-cons end_key cursor x k e m true h a = (h, a)
AllWanted-cons end_key cursor x k e m false h a = a

keep-AllWanted :
    (end_key cursor : List ℕ) (exclusive : Bool) (m : Index)
    → AllWanted end_key cursor exclusive (keep (wanted end_key cursor exclusive) m)
unfolding keep
keep-AllWanted end_key cursor x [] = tt
keep-AllWanted end_key cursor x ((k, e) ∷ m) =
    AllWanted-cons end_key cursor x k e _ _ refl (keep-AllWanted end_key cursor x m)

AllWanted-prefix :
    (end_key cursor : List ℕ) (exclusive : Bool) (xs ys : Index)
    → AllWanted end_key cursor exclusive (xs ++ ys)
    → AllWanted end_key cursor exclusive xs
AllWanted-prefix end_key cursor x [] ys h = tt
AllWanted-prefix end_key cursor x (r ∷ xs) ys h = (h.0, AllWanted-prefix end_key cursor x xs ys h.1)

pub AllWanted-append :
    (end_key cursor : List ℕ) (exclusive : Bool) (xs ys : Index)
    → AllWanted end_key cursor exclusive xs
    → AllWanted end_key cursor exclusive ys
    → AllWanted end_key cursor exclusive (xs ++ ys)
AllWanted-append end_key cursor x [] ys h g = g
AllWanted-append end_key cursor x (r ∷ xs) ys h g =
    (h.0, AllWanted-append end_key cursor x xs ys h.1 g)

pub AllWanted-earlier :
    (end_key cursor : List ℕ) (exclusive : Bool) (c : Chunk) (m : Index)
    → Advances cursor exclusive c
    → AllWanted end_key c.cursor c.exclusive m
    → AllWanted end_key cursor exclusive m
AllWanted-earlier end_key cursor x c [] adv h = tt
AllWanted-earlier end_key cursor x c ((k, e) ∷ m) adv h =
    (ground (arith, adv.only k, h.0), AllWanted-earlier end_key cursor x c m adv h.1)

AllAbove-prefix : (k : List ℕ) (xs ys : Index) → AllAbove k (xs ++ ys) → AllAbove k xs
AllAbove-prefix k [] ys h = tt
AllAbove-prefix k (r ∷ xs) ys h = (h.0, AllAbove-prefix k xs ys h.1)

IsAscending-prefix : (xs ys : Index) → IsAscending (xs ++ ys) → IsAscending xs
IsAscending-prefix [] ys h = tt
IsAscending-prefix ((k, e) ∷ xs) ys h = (AllAbove-prefix k xs ys h.0, IsAscending-prefix xs ys h.1)

-- A key that the cursor has passed is below one that it has not.
passed_below :
    (cursor j k : List ℕ) (exclusive : Bool)
    → ahead cursor exclusive j ≡ false
    → ahead cursor exclusive k ≡ true
    → key_lt j k ≡ true
passed_below cursor j k x p h = ground (
  arith,
  key_lt_trans j cursor k,
  key_lt_total cursor j,
  key_eq_iff cursor j,
  key_lt_total j k,
  key_eq_iff j k,
  key_lt_trans k j cursor,
)

AllAbove-append :
    (k : List ℕ) (xs ys : Index) → AllAbove k xs → AllAbove k ys → AllAbove k (xs ++ ys)
AllAbove-append k [] ys h g = g
AllAbove-append k (r ∷ xs) ys h g = (h.0, AllAbove-append k xs ys h.1 g)

AllAbove-passed :
    (end_key : List ℕ) (c : Chunk) (j : List ℕ) (ys : Index)
    → ahead c.cursor c.exclusive j ≡ false
    → AllWanted end_key c.cursor c.exclusive ys
    → AllAbove j ys
AllAbove-passed end_key c j [] p h = tt
AllAbove-passed end_key c j ((k, e) ∷ ys) p h = (
  passed_below c.cursor j k c.exclusive p (ground (arith, h.0)),
  AllAbove-passed end_key c j ys p h.1,
)

pub IsAscending-append :
    (end_key : List ℕ) (c : Chunk) (xs ys : Index)
    → IsAscending xs
    → IsAscending ys
    → AllBehind c xs
    → AllWanted end_key c.cursor c.exclusive ys
    → IsAscending (xs ++ ys)
IsAscending-append end_key c [] ys hx hy b w = hy
IsAscending-append end_key c ((k, e) ∷ xs) ys hx hy b w = (
  AllAbove-append k xs ys hx.0 (AllAbove-passed end_key c k ys b.0 w),
  IsAscending-append end_key c xs ys hx.1 hy b.1 w,
)

lookup-append :
    (k : List ℕ) (xs ys : Index)
    → lookup k (xs ++ ys) ≡ elim (lookup k xs) [ some e ↦ some e | none ↦ lookup k ys ]
unfolding lookup
lookup-append k [] ys = refl
lookup-append k ((j, e) ∷ xs) ys = ground (arith, lookup-append k xs ys)

-- What a lookup finds has passed the test.
lookup-AllWanted :
    (end_key cursor : List ℕ) (exclusive : Bool) (m : Index) (k : List ℕ) (e : Entry)
    → AllWanted end_key cursor exclusive m
    → lookup k m ≡ some e
    → wanted end_key cursor exclusive k e ≡ true
unfolding lookup
lookup-AllWanted end_key cursor x [] k e h q = cc
lookup-AllWanted end_key cursor x ((j, d) ∷ m) k e h q =
    ground (arith, lookup-AllWanted end_key cursor x m k e h.1, key_eq_iff j k, h.0)

pub Took-IsAscending :
    (end_key : List ℕ) (m : Index) (cursor : List ℕ) (exclusive : Bool) (c : Chunk)
    → IsAscending m
    → Took end_key m cursor exclusive c
    → IsAscending c.refs
Took-IsAscending end_key m cursor x c h t =
    IsAscending-prefix c.refs _
      (subst IsAscending t.refs (keep-IsAscending (wanted end_key cursor x) m h))

pub Took-AllWanted :
    (end_key : List ℕ) (m : Index) (cursor : List ℕ) (exclusive : Bool) (c : Chunk)
    → Took end_key m cursor exclusive c
    → AllWanted end_key cursor exclusive c.refs
Took-AllWanted end_key m cursor x c t =
    AllWanted-prefix end_key cursor x c.refs _
      (subst (AllWanted end_key cursor x) t.refs (keep-AllWanted end_key cursor x m))

pub Took-Holds :
    (end_key : List ℕ) (m : Index) (cursor : List ℕ) (exclusive : Bool) (c : Chunk) (k : List ℕ)
    → IsAscending m
    → Took end_key m cursor exclusive c
    → ahead cursor exclusive k ≡ true
    → past_end end_key k ≡ false
    → Holds m k
    → Holds (c.refs ++ left end_key c m) k
Took-Holds end_key m cursor x c k h t a p (e, q, l) =
    subst (λ z. Holds z k) t.refs
      (e, lookup-keep (wanted end_key cursor x) m k e h q (rw (a, p, l) refl), l)

-- The keys of two parts of a walk.
Holds-either : (k : List ℕ) (xs ys : Index) → Holds xs k → Holds (xs ++ ys) k
Holds-either k xs ys (e, q, l) = (e, lookup-append k xs ys ∙ rw q refl, l)

Holds-first : (k : List ℕ) (xs ys : Index) → lookup k xs ≡ none → Holds (xs ++ ys) k → Holds ys k
Holds-first k xs ys h (e, q, l) = (e, sym (lookup-append k xs ys ∙ rw h refl) ∙ q, l)

Holds-second : (k : List ℕ) (xs ys : Index) → lookup k xs ≡ none → Holds ys k → Holds (xs ++ ys) k
Holds-second k xs ys h (e, q, l) = (e, lookup-append k xs ys ∙ rw h q, l)

-- A key that is not taken by a chunk is ahead of its cursor.
left-ahead :
    (end_key : List ℕ) (m : Index) (c : Chunk) (k : List ℕ)
    → c.at_end ≡ false
    → Holds (left end_key c m) k
    → ahead c.cursor c.exclusive k ≡ true
left-ahead end_key m c k o (e, q, l) = ground (
  arith,
  lookup-AllWanted end_key c.cursor c.exclusive (keep (wanted end_key c.cursor c.exclusive) m) k e
      (keep-AllWanted end_key c.cursor c.exclusive m) (rw o at q),
)

Holds-taken :
    (end_key cursor : List ℕ) (exclusive : Bool) (rs : Index) (k : List ℕ) (e : Entry)
    → AllWanted end_key cursor exclusive rs
    → lookup k rs ≡ some e
    → Holds rs k
Holds-taken end_key cursor x rs k e h q =
    (e, q, ground (arith, lookup-AllWanted end_key cursor x rs k e h q))

pub Holds-later :
    (end_key : List ℕ) (m : Index) (cursor : List ℕ) (exclusive : Bool) (c : Chunk) (rs : Index)
    (k : List ℕ)
    → IsAscending m
    → Took end_key m cursor exclusive c
    → c.at_end ≡ false
    → ahead cursor exclusive k ≡ true
    → past_end end_key k ≡ false
    → Holds m k
    → (ahead c.cursor c.exclusive k ≡ true → Holds rs k)
    → Holds (c.refs ++ rs) k
Holds-later end_key m cursor x c rs k h t o a p held later = elim (Option-cases (lookup k c.refs)) [
  | inl none_yet ↦ Holds-second k c.refs rs none_yet (
      later (
        left-ahead end_key m c k o
          (Holds-first k c.refs _ none_yet (Took-Holds end_key m cursor x c k h t a p held))))
  | inr (e, q) ↦
      Holds-either k c.refs rs
        (Holds-taken end_key cursor x c.refs k e (Took-AllWanted end_key m cursor x c t) q)
]
