-- ===== src/Engine/Store/Append.antt =====
-- `appendLocked`, `writeLocked`, `maybeRotateLocked` and `openNewActive`: the way of every record
-- into the log and the index. The callers hold `wmu`.
use gokv.Prelude.{
  ℕ, ◌+◌, ◌%◌, Bool, true, false, not, ◌||◌, List, [], ◌∷◌, ◌++◌, leb, ◌==◌, if◌then◌else◌, length,
  take,
}
use gokv.Prelude.Bytes.{u32_mod, u64_mod}
use gokv.Engine.Record.{
  Checksum, Record, is_tombstone, flag_tombstone, flag_batch, flag_batch_end, max_key_size,
  max_value_size, encoded_size, append_record, decode_record,
}
use gokv.Engine.Record as Rec
use gokv.Engine.Index.{Entry, Keydir, index_apply, add64}
use gokv.Engine.Files.{DataFile, empty_file, set_file, write_at}
use gokv.Engine.Store.{
  SyncMode, always, Store, Outcome, ok, err, os_error, Io, Written, whole, part, active_file,
}

-- The new file is made before its directory is synced, and stays when that fails.
unfoldable pub open_new_active : Store → Io → Store × Bool
open_new_active s io =
    if io.create
    then (
      record s {
        files = set_file s.next_id empty_file s.files;
        active = s.next_id;
        next_id = (s.next_id + 1) % u32_mod;
      },
      io.sync_dir,
    )
    else (s, false)

unfoldable pub maybe_rotate : Store → ℕ → Io → Store × Bool
maybe_rotate s incoming io =
    let cur = (active_file s).size in
    let (s', opened) = open_new_active s io in
    if cur == 0 || leb (cur + incoming) s.opts.max_file_size
    then (s, true)
    else if not io.sync_old
    then (s, false)
    else if opened
    then (record s' { dirty = false; hinting = s'.hinting ++ (s.active ∷ []) }, true)
    else (s', false)

-- The index loop of `writeLocked`; `off` is the offset of the first record in the buffer.
module _ ⦃c : Checksum⦄ where
  unfoldable pub index_all : ℕ → ℕ → ℕ → List Record → Keydir → Keydir
  index_all file_id base off [] d = d
  index_all file_id base off (r ∷ rs) d =
      let e : Entry = record {
        pos = base + off % u32_mod;
        seq = r.seq;
        file_id = file_id;
        size = encoded_size (length r.key) (length r.value);
        tomb = false;
      } in
      index_all file_id base (off + length (Rec.encode r)) rs
        (index_apply d r.key e (is_tombstone r))

  unfoldable pub encode_all : List ℕ → List Record → List ℕ
  encode_all buf [] = buf
  encode_all buf (r ∷ rs) = encode_all (append_record buf r) rs

  abbrev pub last_seq : List Record → ℕ
  last_seq [] = 0
  last_seq (r ∷ []) = r.seq
  last_seq (r ∷ q ∷ rs) = last_seq (q ∷ rs)

  -- The end of `writeLocked`, once the buffer is on disk.
  unfoldable pub publish : Store → ℕ → List Record → List ℕ → Store
  publish s base recs buf = record s {
    keydir = index_all s.active base 0 recs s.keydir;
    notified = s.notified ++ ((last_seq recs, buf) ∷ []);
  }

  -- `writeLocked` behind WriteAt: the fsync that SyncAlways asks for, and the index.
  unfoldable pub sync_and_publish :
      SyncMode → Bool → Store → ℕ → List Record → List ℕ → Store × Outcome (Unit {0})
  sync_and_publish always true s base recs buf =
      (publish (record s { dirty = false }) base recs buf, ok tt)
  sync_and_publish always false s base recs buf = (s, err os_error)
  sync_and_publish _ _ s base recs buf = (publish s base recs buf, ok tt)

  -- `writeLocked` from WriteAt on, by what it answers.
  unfoldable pub append_written :
      Written → Bool → Store → DataFile → List Record → List ℕ → Store × Outcome (Unit {0})
  append_written (part n cut) sync s f recs buf =
      let broken = write_at f.contents f.size (take n buf) in
      let left : DataFile = record f { contents = if cut then take f.size broken else broken } in
      (record s { files = set_file s.active left s.files }, err os_error)
  append_written whole sync s f recs buf =
      let grown : DataFile = record {
        contents = write_at f.contents f.size buf;
        size = f.size + length buf;
      } in
      let s' : Store = record s {
        files = set_file s.active grown s.files;
        total = add64 s.total (length buf);
        dirty = true;
      } in
      sync_and_publish s.opts.sync_mode sync s' f.size recs buf

  -- `writeLocked` after the rotation.
  unfoldable pub append_to_active : Store → List Record → List ℕ → Io → Store × Outcome (Unit {0})
  append_to_active s recs buf o = append_written o.write o.sync s (active_file s) recs buf

  unfoldable pub write_locked : Store → List Record → Io → Store × Outcome (Unit {0})
  write_locked s recs io =
      let buf = encode_all [] recs in
      let (s', rotated) = maybe_rotate s (length buf) io in
      if rotated then append_to_active s' recs buf io else (s', err os_error)

  -- The sequence numbers that `appendLocked` hands out.
  unfoldable pub number_from : ℕ → List Record → List Record
  number_from n [] = []
  number_from n (r ∷ rs) = let n' = (n + 1) % u64_mod in record r { seq = n' } ∷ number_from n' rs

  unfoldable pub append_locked : Store → List Record → Io → Store × Outcome (Unit {0})
  append_locked s recs io =
      let numbered = number_from s.seq recs in
      write_locked (record s { seq = (s.seq + length recs) % u64_mod }) numbered io
