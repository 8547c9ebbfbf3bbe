-- ===== src/Engine/Open/Located.antt =====
-- `scanIntoIndex` on a file of any bytes: every entry it leaves locates a record, in this file below
-- the commit offset or where it was before.
use gokv.Prelude.{
  ℕ, ◌+◌, ◌%◌, ◌≤◌, ◌≡◌, refl, ap, ◌∙◌, Bool, some, List, [], ◌∷◌, ◌++◌, arith, length, drop, slice,
  All, length-append, length-drop, take-append, drop-append, drop-drop, inl, inr, ◌⊎◌,
}
use native.Mathlib.Nat.{add-sub_cancel_left}
use gokv.Prelude.Keys.{key_eq_iff}
use gokv.Engine.Record.{Checksum, Record, encode, IsStorable, is_tombstone}
use gokv.Engine.Record.Layout.{length-encode}
use gokv.Engine.Index.{Entry, Index, lookup, apply_recovered, IsAscending}
use gokv.Engine.Index.Newest.{
  Change, apply_all, marked, lookup-apply_recovered, apply_recovered-IsAscending,
}
use gokv.Engine.Files.{Files}
use gokv.Engine.Store.Sound.Defs.{Points}
use gokv.Engine.Recover.Groups.{change_at, short}

recovered_cases :
    (m : Index) (k j : List ℕ) (e : Entry) (tomb : Bool) (x : Entry)
    → lookup j (apply_recovered m k e tomb) ≡ some x
    → ((k ≡ j) × (x ≡ marked e tomb)) ⊎ (lookup j m ≡ some x)
recovered_cases m k j e tomb x h =
    ground (arith, lookup-apply_recovered m k j e tomb, key_eq_iff k j)

module _ ⦃c : Checksum⦄ where
  -- The entry `e` of the key `k` locates a record in the bytes of the file `id`, before `limit`.
  pub record Located (id : ℕ) (b : List ℕ) (limit : ℕ) (k : List ℕ) (e : Entry) : Type 0 where
    pub here : e.file_id ≡ id
    pub rec : Record
    pub inside : e.pos + e.size ≤ limit
    pub bytes : slice e.pos (e.pos + e.size) b ≡ encode rec
    pub storable : IsStorable rec
    pub key : rec.key ≡ k
    pub seq : rec.seq ≡ e.seq
    pub tomb : is_tombstone rec ≡ e.tomb

  Located-weaken :
      (id : ℕ) (b : List ℕ) (l l' : ℕ) (k : List ℕ) (e : Entry)
      → l ≤ l'
      → Located id b l k e
      → Located id b l' k e
  Located-weaken id b l l' k e h p = record {
    here = p.here;
    rec = p.rec;
    inside = omega (arith, h, p.inside);
    bytes = p.bytes;
    storable = p.storable;
    key = p.key;
    seq = p.seq;
    tomb = p.tomb;
  }

  -- Of an index: its keys ascend, and each entry is at most `n`, and locates a record in a file
  -- that was there before, or here.
  pub record Places (files : Files) (id : ℕ) (b : List ℕ) (limit n : ℕ) (m : Index) : Type 0 where
    pub sorted : IsAscending m
    pub place :
        (k : List ℕ) (e : Entry) → lookup k m ≡ some e → Points files k e ⊎ Located id b limit k e
    pub below : (k : List ℕ) (e : Entry) → lookup k m ≡ some e → e.seq ≤ n

  -- A change whose record is in the file.
  abbrev pub IsHere : ℕ → List ℕ → ℕ → ℕ → Change → Type 0
  IsHere id b limit n x = Located id b limit x.key (marked x.entry x.tomb) × (x.entry.seq ≤ n)

  module _ (files : Files) (id : ℕ) (b : List ℕ) where
    pub Places-weaken :
        (l l' n n' : ℕ) (m : Index)
        → l ≤ l'
        → n ≤ n'
        → Places files id b l n m
        → Places files id b l' n' m
    Places-weaken l l' n n' m hl hn p = record {
      sorted = p.sorted;
      place = λ k e q. elim (p.place k e q) [
        | inl old ↦ inl old
        | inr new ↦ inr (Located-weaken id b l l' k e hl new)
      ];
      below = λ k e q. omega (arith, hn, p.below k e q);
    }

    pub apply_one-Places :
        (l n : ℕ) (m : Index) (x : Change)
        → Places files id b l n m
        → IsHere id b l n x
        → Places files id b l n (apply_recovered m x.key x.entry x.tomb)
    apply_one-Places l n m x p (at, low) = record {
      sorted = apply_recovered-IsAscending m x.key x.entry x.tomb p.sorted;
      place = λ j e q. elim (recovered_cases m x.key j x.entry x.tomb e q) [
        | inl (same, new) ↦ inr (rw (← same, new) at)
        | inr old ↦ p.place j e old
      ];
      below = λ j e q. elim (recovered_cases m x.key j x.entry x.tomb e q) [
        | inl (same, new) ↦ rw new low
        | inr old ↦ p.below j e old
      ];
    }

    pub apply_all-Places :
        (l n : ℕ) (cs : List Change) (m : Index)
        → Places files id b l n m
        → All (IsHere id b l n) cs
        → Places files id b l n (apply_all cs m)
    unfolding apply_all
    apply_all-Places l n [] m p h = p
    apply_all-Places l n (x ∷ cs) m p h =
        apply_all-Places l n cs _ (apply_one-Places l n m x p h.0) h.1

    pub IsHere-weaken :
        (l l' n n' : ℕ) (cs : List Change)
        → l ≤ l'
        → n ≤ n'
        → All (IsHere id b l n) cs
        → All (IsHere id b l' n') cs
    IsHere-weaken l l' n n' [] hl hn h = tt
    IsHere-weaken l l' n n' (x ∷ cs) hl hn ((at, low), h) = (
      (Located-weaken id b l l' x.key (marked x.entry x.tomb) hl at, omega (arith, low, hn)),
      IsHere-weaken l l' n n' cs hl hn h,
    )

  pub drop-behind :
      (b : List ℕ) (pos : ℕ) (r : Record) (rest : List ℕ)
      → drop pos b ≡ encode r ++ rest
      → drop (pos + length (encode r)) b ≡ rest
  drop-behind b pos r rest h =
      drop-drop pos (length (encode r)) b
      ∙ ap (drop (length (encode r))) h
      ∙ drop-append (length (encode r)) (encode r) rest refl

  pub fits_behind :
      (b : List ℕ) (pos : ℕ) (r : Record) (rest : List ℕ)
      → drop pos b ≡ encode r ++ rest
      → pos + length (encode r) ≤ length b
  fits_behind b pos r rest h =
      omega (arith, length-drop pos b, ap length h, length-append (encode r) rest, length-encode r)

  pub change_at-IsHere :
      (id : ℕ) (b : List ℕ) (pos n : ℕ) (r : Record) (rest : List ℕ)
      → drop pos b ≡ encode r ++ rest
      → IsStorable r
      → r.seq ≤ n
      → IsHere id b (pos + length (encode r)) n (change_at id pos r)
  change_at-IsHere id b pos n r rest h s low =
      let size : length (encode r) % _ ≡ length (encode r) = short r s in
      (
        record {
          here = refl;
          rec = r;
          inside = omega (arith, size);
          bytes =
              rw (size, add-sub_cancel_left, h)
                (take-append (length (encode r)) (encode r) rest refl);
          storable = s;
          key = refl;
          seq = refl;
          tomb = refl;
        },
        low,
      )
