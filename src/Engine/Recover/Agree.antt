-- ===== src/Engine/Recover/Agree.antt =====
-- Recovery against the running store: `scanIntoIndex` and the index loop of `writeLocked`.
use gokv.Prelude.{
  ℕ, ◌+◌, ◌%◌, ◌<◌, ◌≡◌, refl, ap, sym, ◌∙◌, none, List, [], ◌∷◌, ◌++◌, arith, length, All,
  length-append,
}
use gokv.Prelude.Bytes.{u32_mod}
use gokv.Engine.Record.{Checksum, Record, encode, IsStorable, next_record, encoded_size}
use gokv.Engine.Record.Layout.{length-encode}
use gokv.Engine.Record.Scan.{encodes, scan_file-encodes}
use gokv.Engine.Index.{Index, Keydir}
use gokv.Engine.Index.Newest.{apply_all, index-index_apply}
use gokv.Engine.Store.Append.{index_all}
use gokv.Engine.Recover.{ScanState, scan_into_index, replay_record}
use gokv.Engine.Recover.Groups.{Group, IsGroup, log_of, changes, end_of, after, log_settles}

module _ ⦃c : Checksum⦄ where
  pub end_of-length : (pos : ℕ) (rs : List Record) → end_of pos rs ≡ pos + length (encodes rs)
  unfolding encodes
  end_of-length pos [] = omega arith
  end_of-length pos (r ∷ rs) =
      end_of-length (pos + length (encode r)) rs
      ∙ omega (arith, length-append (encode r) (encodes rs))

  pub scan_into_index-after :
      (id max_seq : ℕ) (rs : List Record) (tail : List ℕ) (m : Index)
      → All IsStorable rs
      → next_record tail ≡ none
      → scan_into_index id (encodes rs ++ tail) m max_seq
        ≡ after id 0 rs (record { index = m; max_seq = max_seq; pending = []; commit = 0 })
  unfolding scan_into_index
  scan_into_index-after id max_seq rs tail m h torn =
      ap (λ x. x.0) (scan_file-encodes (replay_record id) rs tail _ h torn)

  -- The entries that the running store makes are those of the log.
  index-index_all :
      (id base off : ℕ) (rs : List Record) (d : Keydir)
      → All IsStorable rs
      → off + length (encodes rs) < u32_mod
      → (index_all id base off rs d).index ≡ apply_all (changes id (base + off) rs) d.index
  unfolding index_all apply_all encodes
  index-index_all id base off [] d h fits = refl
  index-index_all id base off (r ∷ rs) d h fits =
      let total = length-append (encode r) (encodes rs) in
      let size = length-encode r in
      let small : off % u32_mod ≡ off = omega arith in
      let assoc : base + (off + length (encode r)) ≡ base + off + length (encode r) = omega arith in
      let same : encoded_size (length r.key) (length r.value) ≡ length (encode r) % u32_mod =
        omega arith in
      index-index_all id base (off + length (encode r)) rs _ h.1 (omega arith)
      ∙ rw (small, same, index-index_apply, assoc) refl

  -- For a data file of less than 2 ^ 32 bytes of whole groups of storable records, with a tail
  -- that holds no record, `scan_into_index` finds the index that the index loop of the write path
  -- makes of the same records in the same file, and commits all their bytes.
  pub scan_into_index-index_all :
      (id max_seq : ℕ) (gs : List Group) (tail : List ℕ) (d : Keydir)
      → All IsGroup gs
      → All IsStorable (log_of gs)
      → next_record tail ≡ none
      → length (encodes (log_of gs)) < u32_mod
      → let found = scan_into_index id (encodes (log_of gs) ++ tail) d.index max_seq in
        (found.index ≡ (index_all id 0 0 (log_of gs) d).index)
        × (found.commit ≡ length (encodes (log_of gs)))
  scan_into_index-index_all id max_seq gs tail d hg h torn fits =
      let start : ScanState = record {
        index = d.index;
        max_seq = max_seq;
        pending = [];
        commit = 0;
      } in
      let done = log_settles id 0 gs start hg h refl refl in
      rw (scan_into_index-after id max_seq (log_of gs) tail d.index h torn) (
        done.index ∙ sym (index-index_all id 0 0 (log_of gs) d h (omega arith)),
        done.commit ∙ end_of-length 0 (log_of gs) ∙ omega arith,
      )
