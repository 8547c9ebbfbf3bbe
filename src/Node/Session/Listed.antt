-- ===== src/Node/Session/Listed.antt =====
-- A listing of everything that a store holds, read as a map.
use gokv.Prelude.{
  ℕ, ◌≡◌, refl, ap, ◌∙◌, sym, false, Option, none, some, List, [], ◌∷◌, All, if◌then◌else◌,
  Bool-cases, Option-cases, inl, inr,
}
use gokv.Prelude.Keys.{key_eq, key_lt, key_lt→ne, key_eq→eq}
use gokv.Engine.Record.{Checksum}
use gokv.Engine.Index.{Index, Entry, lookup, AllAbove, IsAscending}
use gokv.Engine.Store.{Store}
use gokv.Engine.Store.Scan.Listed.{listing}
use gokv.Engine.Store.Sound.Defs.{value_of, value_in}

-- What some pairs say of a key.
unfoldable pub find : List ℕ → List (List ℕ × List ℕ) → Option (List ℕ)
find j [] = none
find j ((k, v) ∷ ps) = if key_eq k j then some v else find j ps

-- The keys of some pairs differ.
abbrev pub AreDistinct : List (List ℕ × List ℕ) → Type 0
AreDistinct [] = Unit {0}
AreDistinct ((k, v) ∷ ps) = All (λ p. key_eq k p.0 ≡ false) ps × AreDistinct ps

listing-cons :
    (value : List ℕ → Option (List ℕ)) (k : List ℕ) (e : Entry) (m : Index)
    → listing value [] [] ((k, e) ∷ m)
      ≡ elim (value k) [ some v ↦ (k, v) ∷ listing value [] [] m | none ↦ listing value [] [] m ]
unfolding listing key_lt
listing-cons value k e m = refl

All-above :
    (value : List ℕ → Option (List ℕ)) (k : List ℕ) (m : Index)
    → AllAbove k m
    → All (λ p. key_eq k p.0 ≡ false) (listing value [] [] m)
unfolding listing key_lt
All-above value k [] h = tt
All-above value k ((j, e) ∷ m) h = elim (Option-cases (value j)) [
  | inl gone ↦ rw gone (All-above value k m h.1)
  | inr (v, held) ↦ rw held (key_lt→ne k j h.0, All-above value k m h.1)
]

pub listing-AreDistinct :
    (value : List ℕ → Option (List ℕ)) (m : Index)
    → IsAscending m
    → AreDistinct (listing value [] [] m)
unfolding listing key_lt
listing-AreDistinct value [] h = tt
listing-AreDistinct value ((k, e) ∷ m) h = elim (Option-cases (value k)) [
  | inl gone ↦ rw gone (listing-AreDistinct value m h.1)
  | inr (v, held) ↦ rw held (All-above value k m h.0, listing-AreDistinct value m h.1)
]

missing_either_way :
    (value : List ℕ → Option (List ℕ)) (j : List ℕ) (o : Option Entry)
    → value j ≡ none
    → elim o [ some _ ↦ value j | none ↦ none ] ≡ value j
missing_either_way value j (some e) h = refl
missing_either_way value j none h = sym h

pub find-listing :
    (value : List ℕ → Option (List ℕ)) (m : Index) (j : List ℕ)
    → find j (listing value [] [] m) ≡ elim (lookup j m) [ some _ ↦ value j | none ↦ none ]
unfolding find lookup
find-listing value [] j = unfold listing in refl
find-listing value ((k, e) ∷ m) j =
    let rest = find-listing value m j in
    rw (listing-cons value k e m) (elim (Bool-cases (key_eq k j)) [
      | inl same ↦
          let kj : k ≡ j = key_eq→eq k j same in
          elim (Option-cases (value k)) [
            | inl gone ↦
                rw (same, gone)
                  (rest ∙ missing_either_way value j (lookup j m) (ap value (sym kj) ∙ gone))
            | inr (v, held) ↦ rw (same, held) (rw same (sym held ∙ ap value kj))
          ]
      | inr other ↦ elim (Option-cases (value k)) [
        | inl gone ↦ rw (other, gone) rest
        | inr (v, held) ↦ rw (other, held) (rw other rest)
      ]
    ])

module _ ⦃c : Checksum⦄ where
  -- The listing of everything is the map that the store holds.
  pub find-value_of :
      (s : Store) (j : List ℕ) → find j (listing (value_of s) [] [] s.keydir.index) ≡ value_of s j
  find-value_of s j =
      find-listing (value_of s) s.keydir.index j ∙ elim (Option-cases (lookup j s.keydir.index)) [
        | inl missing ↦ unfold value_in in rw (missing, value_in) refl
        | inr (e, found) ↦ rw found refl
      ]
