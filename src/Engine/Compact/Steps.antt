-- ===== src/Engine/Compact/Steps.antt =====
-- One change of the index in phase two of a compaction: the entry is the one that was copied, or it stays.
use gokv.Prelude.{
  ℕ, ◌≡◌, ◌∙◌, ◌⊎◌, refl, sym, ap, Bool, true, false, Option, none, some, List, [], ◌∷◌, arith,
  if◌then◌else◌, Bool-cases, inl, inr,
}
use mathlib.Core.Option.{some-injective}
use mathlib.Core.Path.{subst}
use gokv.Prelude.Keys.{key_eq, key_eq_refl, key_eq→eq}
use gokv.Engine.Index.{Entry, Index, lookup, insert, remove, IsAscending}
use gokv.Engine.Index.Each.{Every}
use gokv.Engine.Index.Laws.{lookup-insert, lookup-remove}
use gokv.Engine.Compact.{Move, same_place, repoint, retire}

pub Every-insert {ℓ} :
    (Q : List ℕ → Entry → Type ℓ) (k : List ℕ) (new : Entry) (m : Index)
    → Every Q m
    → Q k new
    → Every Q (insert k new m)
Every-insert Q k new m h q j e l = elim (Bool-cases (key_eq k j)) [
  | inl same ↦
      let same_key : k ≡ j = key_eq→eq k j same in
      subst (λ z. Q z e) same_key
        (subst (Q k) (some-injective _ _ (sym (lookup-insert k j new m ∙ rw same refl) ∙ l)) q)
  | inr other ↦ h j e (sym (lookup-insert k j new m ∙ rw other refl) ∙ l)
]

pub Every-remove {ℓ} :
    (Q : List ℕ → Entry → Type ℓ) (k : List ℕ) (m : Index)
    → IsAscending m
    → Every Q m
    → Every Q (remove k m)
Every-remove Q k m a h j e l = h j e (ground (arith, lookup-remove k j m a, l))

-- The entry of the key has changed and the index stays as it is, or it is the one that is looked for.
pub data Checked (k : List ℕ) (old : Entry) (m changed : Index) : Index → Type 0 where
  untouched :
      ((e : Entry) → lookup k m ≡ some e → same_place e old ≡ false) → Checked k old m changed m
  replaced :
      (e : Entry) → lookup k m ≡ some e → same_place e old ≡ true → Checked k old m changed changed

Checked-entry :
    (k : List ℕ) (old : Entry) (m changed : Index) (e : Entry) (b : Bool)
    → lookup k m ≡ some e
    → same_place e old ≡ b
    → Checked k old m changed (if b then changed else m)
Checked-entry k old m changed e true h q = Checked.replaced e h q
Checked-entry k old m changed e false h q =
    Checked.untouched (λ d p. rw (some-injective e d (sym h ∙ p)) at q)

checked :
    (k : List ℕ) (old : Entry) (m changed : Index) (o : Option Entry)
    → lookup k m ≡ o
    → Checked k old m changed
        (elim o [ none ↦ m | some e ↦ if same_place e old then changed else m ])
checked k old m changed none h = Checked.untouched (λ e q. absurd (cc (h, q)))
checked k old m changed (some e) h = Checked-entry k old m changed e (same_place e old) h refl

pub repoint-Checked :
    (v : Move) (m : Index) → Checked v.key v.old m (insert v.key v.new m) (repoint v m)
unfolding repoint
repoint-Checked v m = checked v.key v.old m (insert v.key v.new m) (lookup v.key m) refl

pub retire-Checked :
    (k : List ℕ) (old : Entry) (m : Index) → Checked k old m (remove k m) (retire k old m)
unfolding retire
retire-Checked k old m = checked k old m (remove k m) (lookup k m) refl

-- The entries of an index that a list of work has yet to come to.
abbrev pub Waits : List ℕ → Entry → List (List ℕ × Entry) → Type 0
Waits k x [] = ⊥
Waits k x ((j, e) ∷ rest) = ((j ≡ k) × (e ≡ x)) ⊎ Waits k x rest

Waits-later :
    (k j : List ℕ) (x e : Entry) (rest : List (List ℕ × Entry))
    → (j ≡ k → e ≡ x → ⊥)
    → Waits k x ((j, e) ∷ rest)
    → Waits k x rest
Waits-later k j x e rest h (inl (p, q)) = absurd (h p q)
Waits-later k j x e rest h (inr w) = w

same_place_refl : (e : Entry) → same_place e e ≡ true
same_place_refl e = ground arith

-- The work of one step has been done: whatever of interest is in the index then waits in the rest.
pub step-Waits :
    (interesting : Entry → Bool) (k : List ℕ) (old : Entry) (rest : List (List ℕ × Entry))
    (m changed m' : Index)
    → Checked k old m changed m'
    → Every (λ j x. interesting x ≡ true → Waits j x ((k, old) ∷ rest)) m
    → Every (λ j x. interesting x ≡ true → (lookup j m ≡ some x) × (key_eq k j ≡ false)) changed
    → Every (λ j x. interesting x ≡ true → Waits j x rest) m'
step-Waits f k old rest m changed m' (Checked.untouched h) w g j x l i =
    Waits-later j k x old rest
      (λ p q.
        let c' : true ≡ false =
          sym (same_place_refl x) ∙ ap (same_place x) (sym q) ∙ h x (ap (λ z. lookup z m) p ∙ l) in
        cc c')
      (w j x l i)
step-Waits f k old rest m changed m' (Checked.replaced e h s) w g j x l i =
    let (l', other) = g j x l i in
    Waits-later j k x old rest
      (λ p q. let c' : true ≡ false = sym (key_eq_refl k) ∙ ap (key_eq k) p ∙ other in cc c')
      (w j x l' i)

pub Checked-Every {ℓ} :
    (Q : List ℕ → Entry → Type ℓ) (k : List ℕ) (old : Entry) (m changed m' : Index)
    → Checked k old m changed m'
    → Every Q m
    → Every Q changed
    → Every Q m'
Checked-Every Q k old m changed m' (Checked.untouched _) h g = h
Checked-Every Q k old m changed m' (Checked.replaced _ _ _) h g = g

pub inserted :
    (f : Entry → Bool) (k : List ℕ) (new : Entry) (m : Index)
    → f new ≡ false
    → Every (λ j x. f x ≡ true → (lookup j m ≡ some x) × (key_eq k j ≡ false)) (insert k new m)
inserted f k new m h j x l i = elim (Bool-cases (key_eq k j)) [
  | inl same ↦
      let e : new ≡ x = some-injective _ _ (sym (lookup-insert k j new m ∙ rw same refl) ∙ l) in
      let c' : true ≡ false = sym i ∙ ap f (sym e) ∙ h in absurd (cc c')
  | inr other ↦ (sym (lookup-insert k j new m ∙ rw other refl) ∙ l, other)
]

pub removed :
    (f : Entry → Bool) (k : List ℕ) (m : Index)
    → IsAscending m
    → Every (λ j x. f x ≡ true → (lookup j m ≡ some x) × (key_eq k j ≡ false)) (remove k m)
removed f k m a j x l i = ground (arith, lookup-remove k j m a, l)
