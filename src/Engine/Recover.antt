-- ===== src/Engine/Recover.antt =====
-- The recovery of internal/engine/store.go: `scanIntoIndex`, which replays one data file.
pub mod Groups
pub mod Agree
pub mod Crash
use gokv.Prelude.{
  ℕ, ◌+◌, ◌%◌, Bool, true, false, Option, none, some, List, [], ◌∷◌, ◌++◌, ltb, if◌then◌else◌,
  length, max,
}
use gokv.Prelude.Bytes.{u32_mod}
use gokv.Engine.Record.{
  Checksum, Record, is_tombstone, has_flag, flag_batch, flag_batch_end, scan_file,
}
use gokv.Engine.Index.{Entry, Index, apply_recovered}
use gokv.Engine.Index.Newest.{Change, apply_all}

-- The variables that the callback of `scanIntoIndex` shares with it, and the index of the store.
pub record ScanState : Type 0 where
  pub index : Index
  pub max_seq : ℕ
  pub pending : List Change
  pub commit : ℕ

abbrev pub entry_at : ℕ → ℕ → ℕ → Record → Entry
entry_at id pos size r = record { pos = pos; seq = r.seq; file_id = id; size = size; tomb = false }

-- The callback; it never fails.
unfoldable pub replay_record : ℕ → ℕ → List ℕ → Record → ScanState → ScanState × Bool
replay_record id pos raw r st =
    let size = length raw % u32_mod in
    let seen = if ltb st.max_seq r.seq then r.seq else st.max_seq in
    let e = entry_at id pos size r in
    let staged : List Change =
      st.pending ++ (record { key = r.key; entry = e; tomb = is_tombstone r } ∷ []) in
    if has_flag r.flags flag_batch
    then if has_flag r.flags flag_batch_end
      then (
        record {
          index = apply_all staged st.index;
          max_seq = seen;
          pending = [];
          commit = pos + size;
        },
        false,
      )
      else (record st { max_seq = seen; pending = staged }, false)
    else (
      record st {
        index = apply_recovered st.index r.key e (is_tombstone r);
        max_seq = seen;
        commit = pos + size;
      },
      false,
    )

module _ ⦃c : Checksum⦄ where
  -- The index and the largest sequence number after the file, and the offset up to which its records
  -- have been taken. A batch that has not ended is left out.
  unfoldable pub scan_into_index : ℕ → List ℕ → Index → ℕ → ScanState
  scan_into_index id contents index max_seq =
      (scan_file (replay_record id) contents
        (record { index = index; max_seq = max_seq; pending = []; commit = 0 })).0
