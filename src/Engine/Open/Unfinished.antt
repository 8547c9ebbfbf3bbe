-- ===== src/Engine/Open/Unfinished.antt =====
-- A data file that ends with a batch that was not finished: what `scanIntoIndex` and `readHint` make of
-- it, and what a replica with such a file asks its leader for (`RecordsSince` in compact.go).
use gokv.Prelude.{
  ℕ, ◌≤◌, ◌<◌, ◌≡◌, refl, ap, ◌∙◌, Bool, true, false, none, some, List, [], ◌∷◌, ◌++◌, arith,
  length, All,
}
use gokv.Prelude.Bytes.{u64_mod}
use gokv.Engine.Record.{Checksum, Record, encode, IsStorable, next_record}
use gokv.Engine.Record.Scan.{encodes}
use gokv.Engine.Index.{Index}
use gokv.Engine.Index.Newest.{apply_all}
use gokv.Engine.Recover.{ScanState, scan_into_index}
use gokv.Engine.Recover.Groups.{
  Group, IsGroup, IsInner, log_of, changes, after, after-append, end_of, inner_wait, log_settles,
  All-append-right,
}
use gokv.Engine.Recover.Agree.{scan_into_index-after, end_of-length}
use gokv.Engine.Replica.{max_seq}
use gokv.Engine.Replica.Follows.{max_seq_le}
use gokv.Engine.Since.{since_record}
use gokv.Engine.Hint.{HintIo, build_hint}
use gokv.Engine.Hint.RoundTrip.{build_hint-some, read_hint-hints_of}
use gokv.Engine.Open.{hint_change, apply_hint}
use gokv.Engine.Open.Replayed.{hinted-hint_change, max_seq-after}

module _ ⦃c : Checksum⦄ where
  -- Whole groups, then records of a batch without its last one, then bytes that hold no record.
  pub record IsUnfinished (contents : List ℕ) (gs : List Group) (rs : List Record) : Type 0 where
    pub tail : List ℕ
    pub contents_are : contents ≡ encodes (log_of gs ++ rs) ++ tail
    pub groups : All IsGroup gs
    pub inner : All IsInner rs
    pub storable : All IsStorable (log_of gs ++ rs)
    pub torn : next_record tail ≡ none
    pub small : length (encodes (log_of gs ++ rs)) < u64_mod

  scan-unfinished :
      (id seen : ℕ) (contents : List ℕ) (gs : List Group) (rs : List Record) (m : Index)
      → IsUnfinished contents gs rs
      → let found = scan_into_index id contents m seen in
        (found.index ≡ apply_all (changes id 0 (log_of gs)) m)
        × (found.commit ≡ length (encodes (log_of gs)))
        × (found.max_seq ≡ max_seq seen (log_of gs ++ rs))
  scan-unfinished id seen contents gs rs m h =
      let start : ScanState = record { index = m; max_seq = seen; pending = []; commit = 0 } in
      let (whole, _) = All-append-right (log_of gs) rs h.storable in
      let done = log_settles id 0 gs start h.groups whole refl refl in
      let (same, kept, _) =
        inner_wait id (end_of 0 (log_of gs)) rs (after id 0 (log_of gs) start) h.inner in
      let split = after-append id 0 (log_of gs) rs start in
      rw
        (h.contents_are, scan_into_index-after id seen (log_of gs ++ rs) h.tail m h.storable h.torn)
        (
          ap (λ x. x.index) split ∙ same ∙ done.index,
          ap (λ x. x.commit) split ∙ kept ∙ done.commit ∙ end_of-length 0 (log_of gs) ∙ omega arith,
          max_seq-after id 0 (log_of gs ++ rs) start,
        )

  hint-unfinished :
      (io : HintIo) (id seen : ℕ) (contents hint : List ℕ) (gs : List Group) (rs : List Record)
      (m : Index)
      → IsUnfinished contents gs rs
      → build_hint io id contents ≡ some hint
      → apply_hint id (some hint) (m, seen)
        ≡ ((apply_all (changes id 0 (log_of gs ++ rs)) m, max_seq seen (log_of gs ++ rs)), true)
  unfolding apply_hint
  hint-unfinished io id seen contents hint gs rs m h e =
      let built : build_hint io id (encodes (log_of gs ++ rs) ++ h.tail) ≡ some hint =
        rw (← h.contents_are) e in
      rw
        (
          build_hint-some io id (log_of gs ++ rs) h.tail hint h.storable h.torn built,
          read_hint-hints_of hint_change id (log_of gs ++ rs) (m, seen) h.storable h.small,
        )
        (ap (λ z. (z, true)) (hinted-hint_change id 0 (log_of gs ++ rs) m seen))

  -- A data file holds whole groups of storable records, then some records of a batch without its
  -- last one, in fewer than 2 ^ 64 bytes, and then bytes that hold no record, and `build_hint`
  -- makes a hint of it: `scan_into_index` leaves those records out of the index, but `apply_hint`
  -- puts them into it.
  pub hint_revives :
      (io : HintIo) (id seen : ℕ) (contents hint : List ℕ) (gs : List Group) (rs : List Record)
      (m : Index)
      → IsUnfinished contents gs rs
      → build_hint io id contents ≡ some hint
      → ((scan_into_index id contents m seen).index ≡ apply_all (changes id 0 (log_of gs)) m)
        × (apply_hint id (some hint) (m, seen) ≡ (
          (apply_all (changes id 0 (log_of gs ++ rs)) m, max_seq seen (log_of gs ++ rs)),
          true,
        ))
  hint_revives io id seen contents hint gs rs m h e = (
    (scan-unfinished id seen contents gs rs m h).0,
    hint-unfinished io id seen contents hint gs rs m h e,
  )

  module _ {ℓ} {F : Type ℓ} (fn : List ℕ → F → F × Bool) (acc : F) where
    -- The leader passes over these records.
    abbrev pub AllSkipped : ℕ → List Record → Type ℓ
    AllSkipped from_seq rs =
        All (λ r. since_record fn from_seq 0 (encode r) r acc ≡ (acc, false)) rs

    skipped : (n : ℕ) (rs qs : List Record) → All (λ r. r.seq ≤ n) (rs ++ qs) → AllSkipped n qs
    unfolding since_record
    skipped n (r ∷ rs) qs h = skipped n rs qs h.1
    skipped n [] [] h = tt
    skipped n [] (r ∷ qs) h = (ground (arith, h.0), skipped n [] qs h.1)

    -- A data file holds whole groups of storable records, then some records of a batch without
    -- its last one, in fewer than 2 ^ 64 bytes, and then bytes that hold no record:
    -- `scan_into_index` leaves those records out of the index and of the bytes that it commits,
    -- but from the sequence number that it finds on, `since_record` of a leader passes over every
    -- one of them.
    pub unfinished_lost :
        (id seen : ℕ) (contents : List ℕ) (gs : List Group) (rs : List Record) (m : Index)
        → IsUnfinished contents gs rs
        → let found = scan_into_index id contents m seen in
          (found.index ≡ apply_all (changes id 0 (log_of gs)) m)
          × (found.commit ≡ length (encodes (log_of gs)))
          × AllSkipped found.max_seq rs
    unfinished_lost id seen contents gs rs m h =
        let (same, kept, newest) = scan-unfinished id seen contents gs rs m h in
        (
          same,
          kept,
          rw newest (
              skipped (max_seq seen (log_of gs ++ rs)) (log_of gs) rs
                (max_seq_le seen (log_of gs ++ rs)).1),
        )
