-- ===== src/Engine/Compact.antt =====
-- `Compact` of internal/engine/compact.go, from the seal of the active file to the recount. No other
-- goroutine changes the store between its steps here. The hint files that it writes along with the
-- data files are there only as calls that may fail.
pub mod Copy
pub mod Copied
pub mod CopyAll
pub mod Steps
pub mod Repoint
pub mod Drop
pub mod Whole
pub mod Refine
pub mod Reclaim
use gokv.Prelude.{
  ℕ, ◌+◌, ◌%◌, Bool, true, false, not, ◌&&◌, Option, none, some, List, [], ◌∷◌, ◌++◌, ltb, ◌==◌,
  if◌then◌else◌, length,
}
use gokv.Prelude.Bytes.{u32_mod}
use gokv.Engine.Record.{Checksum, Record, decode_record, clear_batch_flags}
use gokv.Engine.Record as Rec
use gokv.Engine.Index.{Entry, Index, lookup, insert, remove, keep, recount}
use gokv.Engine.Files.{
  DataFile, Files, empty_file, file_of, set_file, write_at, read_at, remove_files, usage, contains,
}
use gokv.Engine.Store.{
  Store, Options, Io, Outcome, ok, err, os_error, corrupt_record, closed_store, active_file,
}
use gokv.Engine.Store.Append.{open_new_active}

-- What the calls answer that copy one record, `true` for success: createDataFile and newHintWriter,
-- ReadAt, WriteAt and the hint writer's `add`.
pub record CopyIo : Type 0 where
  pub create : Bool
  pub hint : Bool
  pub read : Bool
  pub write : Bool
  pub note : Bool

-- The calls of a compaction: the fsync of the active file and the making of the next one, the copying
-- of record `i`, and what makes the outputs durable.
pub record CompactIo : Type 0 where
  pub sync_old : Bool
  pub fresh : Io
  pub copy : ℕ → CopyIo
  pub sync_outs : Bool
  pub commit : Bool
  pub sync_dir : Bool

-- The variables that `newOut` and `cleanup` share with the loop, and the files of the store.
pub record Output : Type 0 where
  pub files : Files
  pub next_id : ℕ
  pub out : Option ℕ
  pub outs : List ℕ

-- A record of the key, where it was and where it has been copied to.
pub record Move : Type 0 where
  pub key : List ℕ
  pub old : Entry
  pub new : Entry

unfoldable pub seal : Store → CompactIo → Store × Bool
unfolding open_new_active
seal s io =
    let (s', opened) = open_new_active s io.fresh in
    if not (ltb 0 (active_file s).size)
    then (s, true)
    else if not io.sync_old
    then (s, false)
    else if opened
    then (record s' { dirty = false }, true)
    else (s', false)

unfoldable pub merge_ids : ℕ → Files → List ℕ
merge_ids active [] = []
merge_ids active ((i, f) ∷ fs) =
    if i == active then merge_ids active fs else i ∷ merge_ids active fs

abbrev pub is_item : List ℕ → List ℕ → Entry → Bool
is_item ids k e = contains e.file_id ids && not e.tomb

abbrev pub is_retired : List ℕ → List ℕ → Entry → Bool
is_retired ids k e = contains e.file_id ids && e.tomb

-- `newOut`, with the id of the file that it opens.
unfoldable pub new_out : Output → CopyIo → Output × Option ℕ
new_out o io =
    let o' : Output = record o { next_id = (o.next_id + 1) % u32_mod } in
    if not (io.create && io.hint) then (o', none) else (
      record o' {
        files = set_file o.next_id empty_file o.files;
        out = some o.next_id;
        outs = o.outs ++ (o.next_id ∷ []);
      },
      some o.next_id,
    )

abbrev pub file_at : ℕ → Files → DataFile
file_at id files = elim (file_of id files) [ some f ↦ f | none ↦ empty_file ]

unfoldable pub pick_out : ℕ → ℕ → Output → CopyIo → Output × Option ℕ
unfolding new_out
pick_out max_size incoming o io = elim o.out [
  | none ↦ new_out o io
  | some id ↦
      if ltb max_size ((file_at id o.files).size + incoming) then new_out o io else (o, some id)
]

-- The write of the buffer to the file `id`. What a failed one leaves there is removed with the file.
unfoldable pub write_out : ℕ → ℕ → List ℕ → Output → CopyIo → Output × Outcome (Option Entry)
write_out id seq buf o io =
    let f = file_at id o.files in
    let grown : DataFile = record {
      contents = write_at f.contents f.size buf;
      size = f.size + length buf;
    } in
    let e : Entry = record {
      pos = f.size;
      seq = seq;
      file_id = id;
      size = length buf % u32_mod;
      tomb = false;
    } in
    if not io.write
    then (o, err os_error)
    else if not io.note
    then (record o { files = set_file id grown o.files }, err os_error)
    else (record o { files = set_file id grown o.files }, ok (some e))

module _ ⦃c : Checksum⦄ where
  -- One round of phase one: the entry of the copy, or none where the source file has gone.
  unfoldable pub copy_one : ℕ → Entry → Output → CopyIo → Output × Outcome (Option Entry)
  unfolding pick_out write_out
  copy_one max_size e o io = elim (file_of e.file_id o.files) [
    | none ↦ (o, ok none)
    | some f ↦ if not io.read then (o, err os_error) else elim (read_at f e.pos e.size) [
      | none ↦ (o, err os_error)
      | some buf ↦ elim (decode_record buf) [
        | Rec.Decoded.err _ ↦ (o, err corrupt_record)
        | Rec.Decoded.ok r ↦
            let (o', picked) = pick_out max_size (length (clear_batch_flags buf)) o io in
            elim picked [
              | none ↦ (o', err os_error)
              | some id ↦ write_out id r.seq (clear_batch_flags buf) o' io
            ]
      ]
    ]
  ]

  -- Phase one; a record that was not copied makes no move.
  unfoldable pub copy_all : ℕ → (ℕ → CopyIo) → ℕ → Index → Output → Output × Outcome (List Move)
  unfolding copy_one
  copy_all max_size io i [] o = (o, ok [])
  copy_all max_size io i ((k, e) ∷ items) o =
      let (o', copied) = copy_one max_size e o (io i) in
      let (o'', rest) = copy_all max_size io (i + 1) items o' in
      elim copied [
        | err x ↦ (o', err x)
        | ok none ↦ (o'', rest)
        | ok (some new) ↦ elim rest [
          | err x ↦ (o'', err x)
          | ok moves ↦ (o'', ok (record { key = k; old = e; new = new } ∷ moves))
        ]
      ]

-- Phase two, which leaves an entry alone that has changed since.
abbrev pub same_place : Entry → Entry → Bool
same_place e old = e.seq == old.seq && e.file_id == old.file_id

unfoldable pub repoint : Move → Index → Index
repoint v m = elim (lookup v.key m) [
  | none ↦ m
  | some e ↦ if same_place e v.old then insert v.key v.new m else m
]

unfoldable pub repoint_all : List Move → Index → Index
unfolding repoint
repoint_all [] m = m
repoint_all (v ∷ vs) m = repoint_all vs (repoint v m)

unfoldable pub retire : List ℕ → Entry → Index → Index
retire k old m = elim (lookup k m) [
  | none ↦ m
  | some e ↦ if same_place e old then remove k m else m
]

unfoldable pub retire_all : Index → Index → Index
unfolding retire
retire_all [] m = m
retire_all ((k, e) ∷ rs) m = retire_all rs (retire k e m)

-- `cleanup`; the ids that were handed out stay so.
unfoldable pub abandon : Store → Output → Store
abandon s o = record s { files = remove_files o.outs o.files; next_id = o.next_id }

-- From phase two on, with `recomputeUsage`. The manifest and the last sync of the directory may fail
-- without notice.
unfoldable pub finish : Store → List ℕ → List Move → Output → Store
unfolding repoint_all retire_all
finish s ids moves o =
    let index =
      retire_all (keep (is_retired ids) s.keydir.index) (repoint_all moves s.keydir.index) in
    let files = remove_files ids o.files in
    record s {
      keydir = recount (record s.keydir { index = index });
      files = files;
      next_id = o.next_id;
      total = usage files;
      merge_seq = s.seq;
    }

module _ ⦃c : Checksum⦄ where
  unfoldable pub merge : Store → List ℕ → CompactIo → Store × Outcome (Unit {0})
  unfolding copy_all abandon finish
  merge s ids io =
      let begin : Output = record { files = s.files; next_id = s.next_id; out = none; outs = [] } in
      let (o, copied) =
        copy_all s.opts.max_file_size io.copy 0 (keep (is_item ids) s.keydir.index) begin in
      elim copied [
        | err x ↦ (abandon s o, err x)
        | ok moves ↦
            if io.sync_outs && io.commit && io.sync_dir
            then (finish s ids moves o, ok tt)
            else (abandon s o, err os_error)
      ]

  unfoldable pub compact : Store → CompactIo → Store × Outcome (Unit {0})
  unfolding seal merge
  compact s io =
      let (t, sealed) = seal s io in
      let ids = merge_ids t.active t.files in
      if s.closed
      then (s, err closed_store)
      else if not sealed
      then (t, err os_error)
      else if length ids == 0
      then (t, ok tt)
      else merge t ids io
