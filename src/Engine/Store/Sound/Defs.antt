-- ===== src/Engine/Store/Sound/Defs.antt =====
-- The invariant of the store, and what a read returns under it.
use gokv.Prelude.{
  ℕ, suc, ◌+◌, ◌≤◌, ◌<◌, ◌≡◌, ◌∙◌, Option, none, some, List, arith, if◌then◌else◌, length, slice,
  le→ltb, ==_refl, Option-cases, inl, inr,
}
use gokv.Engine.Record.{Checksum, Record, encode, IsStorable, is_tombstone}
use gokv.Engine.Record.RoundTrip.{decode-encode}
use gokv.Engine.Index.{Entry, Index, Keydir, lookup, IsAscending}
use gokv.Engine.Index.Counters.{IsCounted}
use gokv.Engine.Files.{DataFile, Files, file_of, read_at}
use gokv.Engine.Store.{Store, Outcome, ok, err, key_not_found, validate_key}
use gokv.Engine.Store.Reads.{read_value, get_attempts, get}

-- The files are on disk as far as the store has written them, and the next id is not taken.
pub record IsStocked (files : Files) (active next_id : ℕ) : Type 0 where
  pub sizes : (i : ℕ) (f : DataFile) → file_of i files ≡ some f → f.size ≤ length f.contents
  pub fresh : (i : ℕ) (f : DataFile) → file_of i files ≡ some f → i < next_id
  pub current : (f : DataFile) × (file_of active files ≡ some f)

-- No entry is newer than `n`.
pub record IsBelow (n : ℕ) (m : Index) : Type 0 where
  pub at : (k : List ℕ) (e : Entry) → lookup k m ≡ some e → e.seq ≤ n

-- The entry of one key is older than `n`.
pub record IsBelowAt (n : ℕ) (j : List ℕ) (m : Index) : Type 0 where
  pub at : (e : Entry) → lookup j m ≡ some e → e.seq < n

pub IsBelow-at : (n : ℕ) (j : List ℕ) (m : Index) → IsBelow n m → IsBelowAt (n + 1) j m
IsBelow-at n j m h = record { at = λ e q. omega (arith, h.at j e q) }

module _ ⦃c : Checksum⦄ where
  -- The entry `e` of the key `k` locates a record of that key on disk.
  pub record Points (files : Files) (k : List ℕ) (e : Entry) : Type 0 where
    pub file : DataFile
    pub rec : Record
    pub found : file_of e.file_id files ≡ some file
    pub inside : e.pos + e.size ≤ file.size
    pub bytes : slice e.pos (e.pos + e.size) file.contents ≡ encode rec
    pub storable : IsStorable rec
    pub key : rec.key ≡ k
    pub seq : rec.seq ≡ e.seq
    pub tomb : is_tombstone rec ≡ e.tomb

  -- The index is in order, its counters are right, and each entry locates its record.
  pub record IsIndexing (files : Files) (d : Keydir) : Type 0 where
    pub sorted : IsAscending d.index
    pub counted : IsCounted d
    pub points : (k : List ℕ) (e : Entry) → lookup k d.index ≡ some e → Points files k e

  pub record IsSound (s : Store) : Type 0 where
    pub indexing : IsIndexing s.files s.keydir
    pub stocked : IsStocked s.files s.active s.next_id

  -- The value that a store holds for a key: what the clients see of it.
  unfoldable pub value_in : Files → Index → List ℕ → Option (List ℕ)
  value_in files m k = elim (lookup k m) [
    | none ↦ none
    | some e ↦
        if e.tomb
        then none
        else elim (read_value files e) [ Outcome.ok v ↦ some v | Outcome.err _ ↦ none ]
  ]

  abbrev pub value_of : Store → List ℕ → Option (List ℕ)
  value_of s k = value_in s.files s.keydir.index k

  pub read_at-bytes :
      (f : DataFile) (pos size : ℕ) (b : List ℕ)
      → pos + size ≤ length f.contents
      → slice pos (pos + size) f.contents ≡ b
      → read_at f pos size ≡ some b
  read_at-bytes f pos size b h e = rw (le→ltb (length f.contents) (pos + size) h, e)

  -- Reading through an entry that locates its record.
  pub read_value-Points :
      (files : Files) (k : List ℕ) (e : Entry) (p : Points files k e)
      → p.file.size ≤ length p.file.contents
      → read_value files e ≡ (if e.tomb then err key_not_found else ok p.rec.value)
  unfolding read_value
  read_value-Points files k e p h = rw (
    p.found,
    read_value,
    read_at-bytes p.file e.pos e.size (encode p.rec) (omega (arith, p.inside)) p.bytes,
    decode-encode p.rec p.storable,
    p.seq,
    ==_refl e.seq,
    p.tomb,
  )

  pub value_in-Points :
      (files : Files) (m : Index) (k : List ℕ) (e : Entry) (p : Points files k e)
      → p.file.size ≤ length p.file.contents
      → lookup k m ≡ some e
      → value_in files m k ≡ (if e.tomb then none else some p.rec.value)
  unfolding value_in
  value_in-Points files m k e p h q =
      rw (q, value_in) (ground (arith, read_value-Points files k e p h))

  get_attempts_found :
      (n i : ℕ) (looked opened : ℕ → Store) (k : List ℕ) (e : Entry) (v : List ℕ)
      → lookup k (looked i).keydir.index ≡ some e
      → read_value (opened i).files e ≡ (if e.tomb then err key_not_found else ok v)
      → get_attempts (suc n) i looked opened k ≡ (if e.tomb then err key_not_found else ok v)
  unfolding get_attempts
  get_attempts_found n i looked opened k e v p q =
      unfold read_value in rw (p, get_attempts) (ground (arith, q))

  get_attempts_missing :
      (n i : ℕ) (looked opened : ℕ → Store) (k : List ℕ)
      → lookup k (looked i).keydir.index ≡ none
      → get_attempts (suc n) i looked opened k ≡ err key_not_found
  unfolding get_attempts
  get_attempts_missing n i looked opened k p = rw (p, get_attempts)

  -- The answer to a client for what the store holds.
  abbrev pub answer : Option (List ℕ) → Outcome (List ℕ)
  answer none = err key_not_found
  answer (some v) = ok v

  -- `Get` of a valid key on a sound store gives the value it holds, or that there is none; it meets
  -- no missing file, no damaged record and no race.
  pub get-value_of :
      (s : Store) (k : List ℕ)
      → IsSound s
      → validate_key k ≡ none
      → (get s k).1 ≡ answer (value_of s k)
  unfolding get
  get-value_of s k h v = elim (Option-cases (lookup k s.keydir.index)) [
    | inl e ↦
        rw (v, get)
          (get_attempts_missing 3 0 (λ _. s) (λ _. s) k e ∙ unfold value_in in rw (e, value_in))
    | inr (e, q) ↦
        let p : Points s.files k e = h.indexing.points k e q in
        let fits : p.file.size ≤ length p.file.contents =
          h.stocked.sizes e.file_id p.file p.found in
        rw (v, get, value_in-Points s.files s.keydir.index k e p fits q)
          (get_attempts_found 3 0 (λ _. s) (λ _. s) k e p.rec.value q
              (read_value-Points s.files k e p fits)
            ∙ ground arith)
  ]
