-- ===== src/Engine/Compact/Repoint.antt =====
-- Phase two of a compaction: the index moves onto the copies and forgets the tombstones.
use gokv.Prelude.{
  ℕ, ◌≤◌, ◌<◌, ◌≡◌, ◌∙◌, refl, sym, ap, true, false, Option, none, some, List, [], ◌∷◌, arith,
  length, Bool-cases, inl, inr,
}
use mathlib.Core.Path.{subst}
use gokv.Prelude.Keys.{key_eq, key_eq_refl, key_eq→eq}
use gokv.Engine.Record.{Checksum}
use gokv.Engine.Index.{Entry, Index, lookup, insert, remove, IsAscending}
use gokv.Engine.Index.Each.{Every}
use gokv.Engine.Index.Laws.{lookup-insert, insert-IsAscending, lookup-remove, remove-IsAscending}
use gokv.Engine.Files.{DataFile, Files, file_of, contains}
use gokv.Engine.Store.Sound.Defs.{Points, value_in, value_in-Points}
use gokv.Engine.Compact.{Move, is_item, is_retired, repoint, repoint_all, retire, retire_all}
use gokv.Engine.Compact.CopyAll.{AreMoves}
use gokv.Engine.Compact.Copied.{Moved}
use gokv.Engine.Compact.Steps.{
  Every-insert, Every-remove, Checked, repoint-Checked, retire-Checked, Waits, step-Waits,
  Checked-Every, inserted, removed,
}

module _ ⦃c : Checksum⦄ (files : Files) (n : ℕ) (value : List ℕ → Option (List ℕ)) where
  -- An index over files that gives these values, with no entry newer than `n`.
  pub record Good (m : Index) : Type 0 where
    pub sorted : IsAscending m
    pub points : Every (Points files) m
    pub below : Every (λ k e. e.seq ≤ n) m
    pub values : (j : List ℕ) → value_in files m j ≡ value j

  value_in-lookup :
      (m m' : Index) (j : List ℕ)
      → lookup j m ≡ lookup j m'
      → value_in files m j ≡ value_in files m' j
  unfolding value_in
  value_in-lookup m m' j h = rw (h, value_in) refl

  value_in-none : (m : Index) (j : List ℕ) → lookup j m ≡ none → value_in files m j ≡ none
  unfolding value_in
  value_in-none m j h = rw (h, value_in) refl

  abbrev pub AreOnDisk : Type 0
  AreOnDisk = (i : ℕ) (f : DataFile) → file_of i files ≡ some f → f.size ≤ length f.contents

  -- An entry of the value that the key has.
  insert-Good :
      (m : Index) (k : List ℕ) (new : Entry) (p : Points files k new)
      → AreOnDisk
      → Good m
      → new.tomb ≡ false
      → new.seq ≤ n
      → value k ≡ some p.rec.value
      → Good (insert k new m)
  insert-Good m k new p z h plain b v = record {
    sorted = insert-IsAscending k new m h.sorted;
    points = Every-insert (Points files) k new m h.points p;
    below = Every-insert (λ j e. e.seq ≤ n) k new m h.below b;
    values = λ j. elim (Bool-cases (key_eq k j)) [
      | inl same ↦
          let e : k ≡ j = key_eq→eq k j same in
          subst (λ i. value_in files (insert k new m) i ≡ value i) e
            (value_in-Points files (insert k new m) k new p (z new.file_id p.file p.found)
                (lookup-insert k k new m ∙ rw (key_eq_refl k) refl)
              ∙ rw plain (sym v))
      | inr other ↦
          value_in-lookup (insert k new m) m j (lookup-insert k j new m ∙ rw other refl)
          ∙ h.values j
    ];
  }

  -- A key that has no value.
  remove-Good : (m : Index) (k : List ℕ) → Good m → value k ≡ none → Good (remove k m)
  remove-Good m k h v = record {
    sorted = remove-IsAscending k m h.sorted;
    points = Every-remove (Points files) k m h.sorted h.points;
    below = Every-remove (λ j e. e.seq ≤ n) k m h.sorted h.below;
    values = λ j. elim (Bool-cases (key_eq k j)) [
      | inl same ↦
          let e : k ≡ j = key_eq→eq k j same in
          subst (λ i. value_in files (remove k m) i ≡ value i) e
            (value_in-none (remove k m) k (lookup-remove k k m h.sorted ∙ rw (key_eq_refl k) refl)
              ∙ sym v)
      | inr other ↦
          value_in-lookup (remove k m) m j (lookup-remove k j m h.sorted ∙ rw other refl)
          ∙ h.values j
    ];
  }

  moved-Good :
      (k : List ℕ) (old : Entry) (m : Index) (new : Entry) (m' : Index)
      → AreOnDisk
      → Good m
      → (p : Points files k new) → new.tomb ≡ false
      → new.seq ≡ old.seq
      → value k ≡ some p.rec.value
      → Checked k old m (insert k new m) m'
      → Good m'
  moved-Good k old m new m' z h p plain s v (Checked.untouched _) = h
  moved-Good k old m new m' z h p plain s v (Checked.replaced e q same) =
      insert-Good m k new p z h plain (ground (arith, s, same, h.below k e q)) v

  forgotten-Good :
      (k : List ℕ) (old : Entry) (m m' : Index)
      → Good m
      → value k ≡ none
      → Checked k old m (remove k m) m'
      → Good m'
  forgotten-Good k old m m' h v (Checked.untouched _) = h
  forgotten-Good k old m m' h v (Checked.replaced e q same) = remove-Good m k h v

  -- What phase two still has to do: `items` are the records to repoint and `retired` those to forget.
  pub record Phase (ids : List ℕ) (items retired m : Index) : Type 0 where
    pub good : Good m
    pub live : Every (λ j x. is_item ids j x ≡ true → Waits j x items) m
    pub dead : Every (λ j x. is_retired ids j x ≡ true → Waits j x retired) m

  not_item :
      (ids : List ℕ) (first : ℕ) (k : List ℕ) (new : Entry)
      → ((i : ℕ) → contains i ids ≡ true → i < first)
      → first ≤ new.file_id
      → contains new.file_id ids ≡ false
  not_item ids first k new h p = ground (arith, h new.file_id)

  repoint-Phase :
      (ids : List ℕ) (items retired m : Index) (before : Files) (first : ℕ) (k v : _)
      (old new : Entry)
      → AreOnDisk
      → ((i : ℕ) → contains i ids ≡ true → i < first)
      → value k ≡ some v
      → Moved before first files k old v new
      → Phase ids ((k, old) ∷ items) retired m
      → Phase ids items retired (repoint (record { key = k; old = old; new = new }) m)
  repoint-Phase ids items retired m before first k v old new z low q mv h =
      let move : Move = record { key = k; old = old; new = new } in
      let c' : Checked k old m (insert k new m) (repoint move m) = repoint-Checked move m in
      let away : contains new.file_id ids ≡ false = not_item ids first k new low mv.later in
      record {
        good =
            moved-Good k old m new _ z h.good mv.points mv.plain mv.seq (q ∙ ap some (sym mv.value))
              c';
        live =
            step-Waits (is_item ids []) k old items m (insert k new m) _ c' h.live
              (inserted (is_item ids []) k new m (rw away refl));
        dead =
            Checked-Every (λ j x. is_retired ids j x ≡ true → Waits j x retired) k old m
              (insert k new m) _ c' h.dead
              (Every-insert _ k new m h.dead (λ i. absurd (ground (arith, away, i))));
      }

  retire-Phase :
      (ids : List ℕ) (items retired m : Index) (k : List ℕ) (old : Entry)
      → value k ≡ none
      → Phase ids items ((k, old) ∷ retired) m
      → Phase ids items retired (retire k old m)
  retire-Phase ids items retired m k old v h =
      let c' : Checked k old m (remove k m) (retire k old m) = retire-Checked k old m in
      record {
        good = forgotten-Good k old m _ h.good v c';
        live =
            Checked-Every _ k old m (remove k m) _ c' h.live
              (Every-remove _ k m h.good.sorted h.live);
        dead =
            step-Waits (is_retired ids []) k old retired m (remove k m) _ c' h.dead
              (removed (is_retired ids []) k m h.good.sorted);
      }

  -- None of these keys has a value.
  abbrev pub AreGone : Index → Type 0
  AreGone [] = Unit {0}
  AreGone ((k, e) ∷ m) = (value k ≡ none) × AreGone m

  pub retire_all-Phase :
      (ids : List ℕ) (items retired m : Index)
      → AreGone retired
      → Phase ids items retired m
      → Phase ids items [] (retire_all retired m)
  unfolding retire_all
  retire_all-Phase ids items [] m g h = h
  retire_all-Phase ids items ((k, e) ∷ retired) m g h =
      retire_all-Phase ids items retired (retire k e m) g.1
        (retire-Phase ids items retired m k e g.0 h)

  pub repoint_all-Phase :
      (ids : List ℕ) (items retired m : Index) (before : Files) (first : ℕ) (moves : List Move)
      → AreOnDisk
      → ((i : ℕ) → contains i ids ≡ true → i < first)
      → AreMoves before first value files items moves
      → Phase ids items retired m
      → Phase ids [] retired (repoint_all moves m)
  unfolding repoint_all
  repoint_all-Phase ids [] retired m before first moves z low a h = rw a h
  repoint_all-Phase ids ((k, e) ∷ items) retired m before first moves z low
        (v, new, rest, q, w, mv, a) h =
      rw q (
        repoint_all-Phase ids items retired _ before first rest z low a
          (repoint-Phase ids items retired m before first k v e new z low w mv h))
