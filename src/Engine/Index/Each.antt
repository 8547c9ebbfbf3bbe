-- ===== src/Engine/Index/Each.antt =====
-- Facts about every entry of an index: by its keys, and one by one in their order.
use gokv.Prelude.{ℕ, ◌≡◌, refl, Bool, true, false, some, List, [], ◌∷◌, ◌++◌, arith, if◌then◌else◌}
use gokv.Prelude.Keys.{key_eq_iff, key_eq_refl}
use gokv.Engine.Index.{Entry, Index, lookup, keep, IsAscending}
use gokv.Engine.Index.Laws.{lookup_above}

-- What holds of every entry of an index.
abbrev pub Every {ℓ} : (List ℕ → Entry → Type ℓ) → Index → Type ℓ
Every Q m = (k : List ℕ) (e : Entry) → lookup k m ≡ some e → Q k e

-- An index entry by entry.
abbrev pub EachEntry : (List ℕ → Entry → Type 0) → Index → Type 0
EachEntry Q [] = Unit {0}
EachEntry Q ((k, e) ∷ m) = Q k e × EachEntry Q m

pub Every-EachEntry :
    (Q : List ℕ → Entry → Type 0) (m : Index) → IsAscending m → Every Q m → EachEntry Q m
unfolding lookup
Every-EachEntry Q [] a h = tt
Every-EachEntry Q ((k, e) ∷ m) a h = (
  h k e (rw (key_eq_refl k) refl),
  Every-EachEntry Q m a.1
      (λ j x l. h j x (ground (arith, l, lookup_above k m a.0, key_eq_iff k j))),
)

kept_entry :
    (Q : List ℕ → Entry → Type 0) (p : List ℕ → Entry → Bool) (k : List ℕ) (e : Entry) (b : Bool)
    → p k e ≡ b
    → (m : Index) → Q k e
    → EachEntry (λ k e. Q k e × (p k e ≡ true)) m
    → EachEntry (λ k e. Q k e × (p k e ≡ true)) (if b then (k, e) ∷ m else m)
kept_entry Q p k e true h m q r = ((q, h), r)
kept_entry Q p k e false h m q r = r

pub EachEntry-keep :
    (Q : List ℕ → Entry → Type 0) (p : List ℕ → Entry → Bool) (m : Index)
    → EachEntry Q m
    → EachEntry (λ k e. Q k e × (p k e ≡ true)) (keep p m)
unfolding keep
EachEntry-keep Q p [] h = tt
EachEntry-keep Q p ((k, e) ∷ m) h = kept_entry Q p k e (p k e) refl _ h.0 (EachEntry-keep Q p m h.1)

pub EachEntry-map :
    (P Q : List ℕ → Entry → Type 0) (m : Index)
    → ((k : List ℕ) (e : Entry) → P k e → Q k e)
    → EachEntry P m
    → EachEntry Q m
EachEntry-map P Q [] f h = tt
EachEntry-map P Q ((k, e) ∷ m) f h = (f k e h.0, EachEntry-map P Q m f h.1)

pub EachEntry-prefix :
    (Q : List ℕ → Entry → Type 0) (xs ys : Index) → EachEntry Q (xs ++ ys) → EachEntry Q xs
EachEntry-prefix Q [] ys h = tt
EachEntry-prefix Q (x ∷ xs) ys h = (h.0, EachEntry-prefix Q xs ys h.1)

pub EachEntry-append :
    (Q : List ℕ → Entry → Type 0) (xs ys : Index)
    → EachEntry Q xs
    → EachEntry Q ys
    → EachEntry Q (xs ++ ys)
EachEntry-append Q [] ys h g = g
EachEntry-append Q (x ∷ xs) ys h g = (h.0, EachEntry-append Q xs ys h.1 g)
