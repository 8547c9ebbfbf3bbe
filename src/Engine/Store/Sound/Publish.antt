-- ===== src/Engine/Store/Sound/Publish.antt =====
-- The index loop at the end of `writeLocked`: every new entry locates its record, and the store then
-- holds what the records say.
use gokv.Prelude.{
  ℕ, ◌+◌, ◌%◌, ◌≤◌, ◌<◌, ◌≡◌, refl, ap, sym, ◌∙◌, Bool, true, false, Option, none, some, List, [],
  ◌∷◌, ◌++◌, arith, if◌then◌else◌, length, All, append_assoc, append-nil, length-append,
  Option-cases, Bool-cases, inl, inr, ◌⊎◌,
}
use gokv.Prelude.Bytes.{u32_mod}
use gokv.Prelude.Keys.{key_eq, key_eq_iff, key_eq_refl, key_eq→eq}
use gokv.Engine.Record.{
  Checksum, Record, encode, IsStorable, is_tombstone, encoded_size, append_record,
}
use gokv.Engine.Record.Layout.{length-encode}
use gokv.Engine.Record.Scan.{encodes}
use gokv.Engine.Index.{Entry, Index, Keydir, lookup, index_apply}
use gokv.Engine.Index.Counters.{index_apply-IsCounted}
use gokv.Engine.Index.Newest.{
  newer, marked, lookup-apply_recovered, index-index_apply, apply_recovered-IsAscending,
}
use gokv.Engine.Files.{DataFile, Files, file_of, write_at}
use gokv.Engine.Files.Laws.{slice-write_at, length-write_at}
use gokv.Engine.Store.Append.{index_all, encode_all}
use gokv.Engine.Store.Sound.Defs.{Points, IsIndexing, IsBelow, IsBelowAt, value_in, value_in-Points}

pub lookup-index_apply :
    (d : Keydir) (k j : List ℕ) (e : Entry) (tomb : Bool)
    → lookup j (index_apply d k e tomb).index
      ≡ (if key_eq k j then newer (lookup j d.index) (marked e tomb) else lookup j d.index)
lookup-index_apply d k j e tomb = rw index-index_apply (lookup-apply_recovered d.index k j e tomb)

-- What an index entry after one application is: the new one, or one that was there.
entry_cases :
    (d : Keydir) (k j : List ℕ) (e : Entry) (tomb : Bool) (x : Entry)
    → lookup j (index_apply d k e tomb).index ≡ some x
    → ((k ≡ j) × (x ≡ marked e tomb)) ⊎ (lookup j d.index ≡ some x)
entry_cases d k j e tomb x h = ground (arith, lookup-index_apply d k j e tomb, key_eq_iff k j)

module _ ⦃c : Checksum⦄ where
  pub encode_all-encodes : (buf : List ℕ) (rs : List Record) → encode_all buf rs ≡ buf ++ encodes rs
  unfolding encode_all encodes append_record
  encode_all-encodes buf [] = sym (append-nil buf)
  encode_all-encodes buf (r ∷ rs) =
      encode_all-encodes (buf ++ encode r) rs ∙ append_assoc buf (encode r) (encodes rs)

  index_apply-IsIndexing :
      (files : Files) (d : Keydir) (k : List ℕ) (e : Entry) (tomb : Bool)
      → IsIndexing files d
      → Points files k (marked e tomb)
      → IsIndexing files (index_apply d k e tomb)
  index_apply-IsIndexing files d k e tomb h p = record {
    sorted = rw index-index_apply (apply_recovered-IsAscending d.index k e tomb h.sorted);
    counted = index_apply-IsCounted d k e tomb h.sorted h.counted;
    points = λ j x q. elim (entry_cases d k j e tomb x q) [
      | inl (same, new) ↦ rw (← same, new) p
      | inr old ↦ h.points j x old
    ];
  }

  value_in-lookup :
      (files : Files) (m m' : Index) (k : List ℕ)
      → lookup k m ≡ lookup k m'
      → value_in files m k ≡ value_in files m' k
  unfolding value_in
  value_in-lookup files m m' k h = rw (h, value_in)

  lookup_newest :
      (d : Keydir) (k : List ℕ) (e : Entry) (tomb : Bool) (n : ℕ)
      → IsBelowAt n k d.index
      → n ≤ e.seq
      → lookup k (index_apply d k e tomb).index ≡ some (marked e tomb)
  lookup_newest d k e tomb n below new = elim (Option-cases (lookup k d.index)) [
    | inl q ↦ rw (lookup-index_apply, key_eq_refl, q)
    | inr (old, q) ↦ rw (lookup-index_apply, key_eq_refl, q) (ground (arith, below.at old q))
  ]

  -- The value held after one entry has been put in, newer than what there was of its key.
  value_in-index_apply :
      (files : Files) (d : Keydir) (k j : List ℕ) (e : Entry) (tomb : Bool) (n : ℕ)
      → IsBelowAt n j d.index
      → (key_eq k j ≡ true → n ≤ e.seq)
      → (p : Points files k (marked e tomb)) → p.file.size ≤ length p.file.contents
      → value_in files (index_apply d k e tomb).index j ≡ (
          if key_eq k j
          then (if tomb then none else some p.rec.value)
          else value_in files d.index j)
  value_in-index_apply files d k j e tomb n below new p fits = elim (Bool-cases (key_eq k j)) [
    | inl same ↦
        let kj : k ≡ j = key_eq→eq k j same in
        rw (same, ← kj)
          (value_in-Points files (index_apply d k e tomb).index k (marked e tomb) p fits
            (lookup_newest d k e tomb n (rw kj below) (new same)))
    | inr other ↦ rw other (
        value_in-lookup files (index_apply d k e tomb).index d.index j
          (lookup-index_apply d k j e tomb ∙ rw other))
  ]

  index_apply-IsBelowAt :
      (d : Keydir) (k j : List ℕ) (e : Entry) (tomb : Bool) (n : ℕ)
      → IsBelowAt n j d.index
      → (key_eq k j ≡ true → n ≤ e.seq)
      → IsBelowAt (if key_eq k j then e.seq + 1 else n) j (index_apply d k e tomb).index
  index_apply-IsBelowAt d k j e tomb n below new = elim (Bool-cases (key_eq k j)) [
    | inl same ↦ rw same (record {
      at = λ x q. elim (entry_cases d k j e tomb x q) [
        | inl (_, is_new) ↦ rw is_new (omega arith)
        | inr old ↦ omega (arith, below.at x old, new same)
      ];
    })
    | inr other ↦
        rw other
          (record { at = λ x q. below.at x (sym (lookup-index_apply d k j e tomb ∙ rw other) ∙ q) })
  ]

  -- No entry of the index becomes newer than the records and what was there.
  pub index_all-IsBelow :
      (id base off m : ℕ) (rs : List Record) (d : Keydir)
      → IsBelow m d.index
      → All (λ r. r.seq ≤ m) rs
      → IsBelow m (index_all id base off rs d).index
  unfolding index_all
  index_all-IsBelow id base off m [] d below h = below
  index_all-IsBelow id base off m (r ∷ rs) d below h =
      let e : Entry = record {
        pos = base + off % u32_mod;
        seq = r.seq;
        file_id = id;
        size = encoded_size (length r.key) (length r.value);
        tomb = false;
      } in
      index_all-IsBelow id base (off + length (encode r)) m rs _
        (record {
          at = λ j x q. elim (entry_cases d r.key j e (is_tombstone r) x q) [
            | inl (same, is_new) ↦ rw is_new h.0
            | inr old ↦ below.at j x old
          ];
        })
        h.1

  -- Records of other keys leave the entry of a key alone.
  pub index_all-IsBelowAt :
      (id base off n : ℕ) (j : List ℕ) (rs : List Record) (d : Keydir)
      → IsBelowAt n j d.index
      → All (λ r. key_eq r.key j ≡ false) rs
      → IsBelowAt n j (index_all id base off rs d).index
  unfolding index_all
  index_all-IsBelowAt id base off n j [] d below h = below
  index_all-IsBelowAt id base off n j (r ∷ rs) d below h =
      let e : Entry = record {
        pos = base + off % u32_mod;
        seq = r.seq;
        file_id = id;
        size = encoded_size (length r.key) (length r.value);
        tomb = false;
      } in
      index_all-IsBelowAt id base (off + length (encode r)) n j rs _
        (record {
          at = λ x q.
              below.at x (sym (lookup-index_apply d r.key j e (is_tombstone r) ∙ rw h.0) ∙ q);
        })
        h.1

  -- Sequence numbers that go up from `n`.
  abbrev pub Ascends : ℕ → List Record → Type 0
  Ascends n [] = Unit {0}
  Ascends n (r ∷ rs) = (n < r.seq) × Ascends r.seq rs

  -- The same for the records of one key, from `n` on.
  abbrev pub AscendsAt : List ℕ → ℕ → List Record → Type 0
  AscendsAt j n [] = Unit {0}
  AscendsAt j n (r ∷ rs) =
      (key_eq r.key j ≡ true → n ≤ r.seq) × AscendsAt j (if key_eq r.key j then r.seq + 1 else n) rs

  pub Ascends-at :
      (j : List ℕ) (n m : ℕ) (rs : List Record) → Ascends n rs → m ≤ n + 1 → AscendsAt j m rs
  Ascends-at j n m [] up h = tt
  Ascends-at j n m (r ∷ rs) up h = (
    λ _. omega (arith, up.0),
    Ascends-at j r.seq (if key_eq r.key j then r.seq + 1 else m) rs up.1 (ground (arith, up.0)),
  )

  -- What a key holds after some records.
  abbrev pub latest : List ℕ → List Record → Option (List ℕ) → Option (List ℕ)
  latest j [] o = o
  latest j (r ∷ rs) o =
      latest j rs (if key_eq r.key j then (if is_tombstone r then none else some r.value) else o)

  -- The entry that the loop makes for the record behind `pre` in the buffer.
  abbrev entry_for : ℕ → ℕ → ℕ → Record → Entry
  entry_for id base off r = record {
    pos = base + off % u32_mod;
    seq = r.seq;
    file_id = id;
    size = encoded_size (length r.key) (length r.value);
    tomb = false;
  }

  module _ (files : Files) (id base : ℕ) (contents buf : List ℕ) (f : DataFile)
      (found : file_of id files ≡ some f) (written : f.contents ≡ write_at contents base buf)
      (sized : f.size ≡ base + length buf) (based : base ≤ length contents)
      (small : length buf < u32_mod) where
    entry_for-Points :
        (pre : List ℕ) (r : Record) (rs : List Record)
        → buf ≡ pre ++ (encode r ++ encodes rs)
        → IsStorable r
        → Points files r.key (marked (entry_for id base (length pre) r) (is_tombstone r))
    entry_for-Points pre r rs e h =
        let total : length buf ≡ length pre + (length (encode r) + length (encodes rs)) =
          ap length e
          ∙ omega (
            arith,
            length-append pre (encode r ++ encodes rs),
            length-append (encode r) (encodes rs),
          ) in
        let off : length pre % u32_mod ≡ length pre = omega arith in
        let size : encoded_size (length r.key) (length r.value) ≡ length (encode r) =
          omega (arith, length-encode r) in
        record {
          file = f;
          rec = r;
          found = found;
          inside = rw (off, size) (omega arith);
          bytes =
              rw (off, size, written)
                (slice-write_at contents buf base based pre (encode r) (encodes rs) e);
          storable = h;
          key = refl;
          seq = refl;
          tomb = refl;
        }

    next_piece :
        (pre : List ℕ) (r : Record) (rs : List Record)
        → buf ≡ pre ++ encodes (r ∷ rs)
        → (buf ≡ (pre ++ encode r) ++ encodes rs)
          × (length (pre ++ encode r) ≡ length pre + length (encode r))
    unfolding encodes
    next_piece pre r rs e =
        (e ∙ sym (append_assoc pre (encode r) (encodes rs)), length-append pre (encode r))

    pub index_all-IsIndexing :
        (pre : List ℕ) (rs : List Record) (d : Keydir)
        → buf ≡ pre ++ encodes rs
        → All IsStorable rs
        → IsIndexing files d
        → IsIndexing files (index_all id base (length pre) rs d)
    unfolding index_all
    index_all-IsIndexing pre [] d e h i = i
    index_all-IsIndexing pre (r ∷ rs) d e h i =
        let (e', size) = next_piece pre r rs e in
        rw (← size) (
          index_all-IsIndexing (pre ++ encode r) rs _ e' h.1 (
            index_apply-IsIndexing files d r.key (entry_for id base (length pre) r) (is_tombstone r)
              i (entry_for-Points pre r rs (unfold encodes in e) h.0)))

    f_fits : f.size ≤ length f.contents
    f_fits = rw (sized, written) (length-write_at contents buf base based)

    pub value_in-index_all :
        (pre : List ℕ) (rs : List Record) (d : Keydir) (n : ℕ) (j : List ℕ)
        → buf ≡ pre ++ encodes rs
        → All IsStorable rs
        → IsBelowAt n j d.index
        → AscendsAt j n rs
        → value_in files (index_all id base (length pre) rs d).index j
          ≡ latest j rs (value_in files d.index j)
    unfolding index_all entry_for-Points
    value_in-index_all pre [] d n j e h below up = refl
    value_in-index_all pre (r ∷ rs) d n j e h below up =
        let (e', size) = next_piece pre r rs e in
        let p = entry_for-Points pre r rs (unfold encodes in e) h.0 in
        rw (index_all, ← size)
          (value_in-index_all (pre ++ encode r) rs _ (if key_eq r.key j then r.seq + 1 else n) j e'
              h.1
              (index_apply-IsBelowAt d r.key j (entry_for id base (length pre) r) (is_tombstone r) n
                below up.0)
              up.1
            ∙ ap (latest j rs) (
                value_in-index_apply files d r.key j (entry_for id base (length pre) r)
                  (is_tombstone r) n below up.0 p f_fits))
