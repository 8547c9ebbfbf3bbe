-- ===== src/Tests/Logs.antt =====
-- The log: encoding, scans, torn tails and recovery.
use gokv.Prelude.{ℕ, ◌≡◌, refl, Bool, false, List, [], ◌∷◌, ◌++◌, arith, length, take}
use gokv.Prelude.Bytes.{le}
use gokv.Engine.Record.{
  Checksum, Record, encode, decode_record, clear_batch_flags, scan_file, is_tombstone, has_flag,
  flag_batch, flag_batch_end,
}
use gokv.Engine.Record as Rec
use gokv.Engine.Record.Flags.{clear_batch_flags-encode, unbatched}
use gokv.Engine.Record.RoundTrip.{decode-encode}
use gokv.Engine.Record.Scan.{encodes, each}
use gokv.Engine.Record.Torn.{next_record-nil, scan_file-torn}
use gokv.Engine.Store.Append.{index_all}
use gokv.Engine.Store.Reset.{no_keys}
use gokv.Engine.Recover.{scan_into_index}
use gokv.Engine.Recover.Groups.{Group, single, batch, log_of}
use gokv.Engine.Recover.Agree.{scan_into_index-index_all}
use gokv.Engine.Recover.Crash.{scan_into_index-torn_batch}
use gokv.Tests.Samples.{
  byte_checksum, single_record, inner_record, end_record, single_record-IsStorable,
  inner_record-IsStorable, end_record-IsStorable,
}

-- A callback that collects the offsets.
abbrev offsets : ℕ → List ℕ → Record → List ℕ → List ℕ × Bool
offsets pos raw r seen = (seen ++ (pos ∷ []), false)

decode-encode_example : decode_record (encode end_record) ≡ Rec.ok end_record
decode-encode_example = decode-encode end_record end_record-IsStorable

clear_batch_flags-encode_example :
    (clear_batch_flags (encode end_record) ≡ encode (unbatched end_record))
    × (is_tombstone (unbatched end_record) ≡ is_tombstone end_record)
    × (has_flag (unbatched end_record).flags flag_batch ≡ false)
    × (has_flag (unbatched end_record).flags flag_batch_end ≡ false)
clear_batch_flags-encode_example = clear_batch_flags-encode end_record end_record-IsStorable

front_of : encode end_record ≡ take 30 (encode end_record) ++ (111 ∷ [])
unfolding le
front_of = refl

scan_file-torn_example :
    scan_file offsets (encodes (single_record ∷ []) ++ take 30 (encode end_record)) []
    ≡ each offsets 0 (single_record ∷ []) []
scan_file-torn_example =
    scan_file-torn offsets (single_record ∷ []) end_record (take 30 (encode end_record)) 111 [] []
      (single_record-IsStorable, tt) end_record-IsStorable front_of

-- A single record and a batch.
abbrev groups : List Group
groups = single single_record ∷ batch (inner_record ∷ []) end_record ∷ []

scan_into_index-index_all_example :
    let found = scan_into_index 1 (encodes (log_of groups) ++ []) [] 0 in
    (found.index ≡ (index_all 1 0 0 (log_of groups) no_keys).index)
    × (found.commit ≡ length (encodes (log_of groups)))
scan_into_index-index_all_example =
    scan_into_index-index_all 1 0 groups [] no_keys (refl, ((((refl, refl), tt), (refl, refl)), tt))
      (single_record-IsStorable, (inner_record-IsStorable, (end_record-IsStorable, tt)))
      next_record-nil (unfold encodes le in omega arith)

-- The batch has lost its last ten bytes.
scan_into_index-torn_batch_example :
    let log = encodes (log_of (single single_record ∷ [])) in
    let torn =
      scan_into_index 1
        (log ++ take 50 (encodes ((inner_record ∷ []) ++ (end_record ∷ []))))
        []
        0 in
    let whole = scan_into_index 1 log [] 0 in
    (torn.index ≡ whole.index) × (torn.commit ≡ whole.commit)
scan_into_index-torn_batch_example =
    scan_into_index-torn_batch 1 0 50 (single single_record ∷ []) (inner_record ∷ []) end_record []
      (refl, tt) (single_record-IsStorable, tt) (((refl, refl), tt), (refl, refl))
      (inner_record-IsStorable, (end_record-IsStorable, tt)) (unfold encodes le in omega arith)
