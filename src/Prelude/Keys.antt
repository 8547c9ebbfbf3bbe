-- ===== src/Prelude/Keys.antt =====
-- Go strings and byte slices as lists of numbers: equality and the order of `<`.
use gokv.Prelude.{
  ℕ, ◌≡◌, refl, ◌↔◌, Bool, true, false, List, [], ◌∷◌, arith, ltb, ◌==◌, if◌then◌else◌, ◌&&◌,
}

unfoldable pub key_eq : List ℕ → List ℕ → Bool
key_eq [] [] = true
key_eq [] (b ∷ bs) = false
key_eq (a ∷ as') [] = false
key_eq (a ∷ as') (b ∷ bs) = a == b && key_eq as' bs

-- a < b
unfoldable pub key_lt : List ℕ → List ℕ → Bool
key_lt as' [] = false
key_lt [] (b ∷ bs) = true
key_lt (a ∷ as') (b ∷ bs) = if a == b then key_lt as' bs else ltb a b

pub key_eq_refl : (k : List ℕ) → key_eq k k ≡ true
unfolding key_eq
key_eq_refl [] = refl
key_eq_refl (a ∷ k) = ground (arith, key_eq_refl k)

pub key_eq→eq : (j k : List ℕ) → key_eq j k ≡ true → j ≡ k
unfolding key_eq
key_eq→eq [] [] h = refl
key_eq→eq [] (b ∷ bs) h = cc
key_eq→eq (a ∷ as') [] h = cc
key_eq→eq (a ∷ as') (b ∷ bs) h = ground (arith, key_eq→eq as' bs)

pub key_eq_iff : (j k : List ℕ) → (key_eq j k ≡ true) ↔ (j ≡ k)
key_eq_iff j k = (key_eq→eq j k, λ e. rw e (key_eq_refl k))

pub key_lt_irrefl : (k : List ℕ) → key_lt k k ≡ false
unfolding key_lt
key_lt_irrefl [] = refl
key_lt_irrefl (a ∷ k) = ground (arith, key_lt_irrefl k)

pub key_lt→ne : (j k : List ℕ) → key_lt j k ≡ true → key_eq j k ≡ false
unfolding key_lt key_eq
key_lt→ne [] [] h = cc
key_lt→ne [] (b ∷ bs) h = refl
key_lt→ne (a ∷ as') [] h = refl
key_lt→ne (a ∷ as') (b ∷ bs) h = ground (arith, key_lt→ne as' bs)

pub key_lt_trans : (i j k : List ℕ) → key_lt i j ≡ true → key_lt j k ≡ true → key_lt i k ≡ true
unfolding key_lt
key_lt_trans i [] k h h' = absurd (ground arith)
key_lt_trans i (b ∷ bs) [] h h' = h'
key_lt_trans [] (b ∷ bs) (c ∷ cs) h h' = refl
key_lt_trans (a ∷ as') (b ∷ bs) (c ∷ cs) h h' = ground (arith, key_lt_trans as' bs cs)

-- The order is total.
pub key_lt_total : (j k : List ℕ) → key_lt j k ≡ false → key_eq j k ≡ false → key_lt k j ≡ true
unfolding key_lt key_eq
key_lt_total [] [] h e = cc
key_lt_total [] (b ∷ bs) h e = cc
key_lt_total (a ∷ as') [] h e = refl
key_lt_total (a ∷ as') (b ∷ bs) h e = ground (arith, key_lt_total as' bs)
