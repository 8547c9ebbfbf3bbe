-- ===== src/Engine/Open.antt =====
-- `Open` and `recover` of internal/engine/store.go: a store from the files of its directory.
pub mod Located
pub mod Scanned
pub mod Indexed
pub mod Admitted
pub mod Alive
pub mod Replayed
pub mod Unfinished
use gokv.Prelude.{
  ℕ, ◌+◌, ◌*◌, ◌%◌, ◌^◌, Bool, true, false, not, ◌&&◌, ◌||◌, Option, none, some, List, [], ◌∷◌,
  ◌++◌, ltb, leb, ◌==◌, if◌then◌else◌, length, take,
}
use gokv.Prelude.Bytes.{u32_mod, u64_mod}
use gokv.Engine.Record.{Checksum, has_flag, flag_tombstone}
use gokv.Engine.Index.{Entry, Index, Keydir, apply_recovered, recount}
use gokv.Engine.Files.{DataFile, Files, set_file}
use gokv.Engine.Store.{Options, Store, Outcome, ok, err, os_error, Io}
use gokv.Engine.Store.Append.{open_new_active}
use gokv.Engine.Recover.{scan_into_index}
use gokv.Engine.Hint.{read_hint}

-- A data file in the directory, with the hint file of its id, if there is one.
pub record DirFile : Type 0 where
  pub id : ℕ
  pub contents : List ℕ
  pub hint : Option (List ℕ)

-- What the calls for the file of an id answer, each `true` for success, and those for the new active
-- file in `fresh`. `listed` is the answer of listDataFiles.
pub record OpenIo : Type 0 where
  pub mkdir : Bool
  pub lock : Bool
  pub listed : Bool
  pub scan : ℕ → Bool
  pub reopen : ℕ → Bool
  pub truncate : ℕ → Bool
  pub sync : ℕ → Bool
  pub fresh : Io

-- The callback for `readHint`.
unfoldable pub hint_change : List ℕ → Entry → ℕ → Index × ℕ → Index × ℕ
hint_change key e flags (m, seen) = (
  apply_recovered m key e (has_flag flags flag_tombstone),
  if ltb seen e.seq then e.seq else seen,
)

-- The variables of `recover`; `reuse` is the id of `reuseActive`.
pub record Recovering : Type 0 where
  pub index : Index
  pub max_seq : ℕ
  pub files : Files
  pub total : ℕ
  pub next_id : ℕ
  pub reuse : Option ℕ

-- The part about the hint: the index and maxSeq after it, and `scanned`.
unfoldable pub apply_hint : ℕ → Option (List ℕ) → Index × ℕ → (Index × ℕ) × Bool
unfolding hint_change
apply_hint id none st = (st, false)
apply_hint id (some h) st = let (st', failed) = read_hint hint_change id h st in (st', not failed)

module _ ⦃c : Checksum⦄ where
  -- The file in the index: the commit offset with it if it has been scanned here.
  unfoldable pub index_file : DirFile → Index × ℕ → (Index × ℕ) × Option ℕ
  unfolding apply_hint
  index_file f st =
      let (st', scanned) = apply_hint f.id f.hint st in
      let found = scan_into_index f.id f.contents st'.0 st'.1 in
      if scanned then (st', none) else ((found.index, found.max_seq), some found.commit)

  -- The rest of the loop's body, by what `index_file` returned. `cut` is what the torn tail leaves.
  unfoldable pub admit_file :
      OpenIo → Options → Bool → DirFile → Recovering → (Index × ℕ) × Option ℕ → Outcome Recovering
  admit_file io opts is_last f st ((m, seen), none) =
      if not (io.reopen f.id)
      then err os_error
      else ok (record {
        index = m;
        max_seq = seen;
        files = set_file f.id (record { contents = f.contents; size = length f.contents }) st.files;
        total = (st.total + length f.contents) % u64_mod;
        next_id = if leb st.next_id f.id then (f.id + 1) % u32_mod else st.next_id;
        reuse = st.reuse;
      })
  admit_file io opts is_last f st ((m, seen), some commit) =
      let torn = is_last && ltb commit (length f.contents) in
      let cut = if torn then take commit f.contents else f.contents in
      if not (io.scan f.id)
      then err os_error
      else if not (io.reopen f.id)
      then err os_error
      else if torn && not (io.truncate f.id && io.sync f.id)
      then err os_error
      else ok (record {
        index = m;
        max_seq = seen;
        files = set_file f.id (record { contents = cut; size = length cut }) st.files;
        total = (st.total + length cut) % u64_mod;
        next_id = if leb st.next_id f.id then (f.id + 1) % u32_mod else st.next_id;
        reuse = if is_last && ltb (length cut) opts.max_file_size then some f.id else st.reuse;
      })

  unfoldable pub recover_file : OpenIo → Options → Bool → DirFile → Recovering → Outcome Recovering
  unfolding index_file admit_file
  recover_file io opts is_last f st =
      admit_file io opts is_last f st (index_file f (st.index, st.max_seq))

  -- The loop over the files, in the order of their ids.
  unfoldable pub recover_files : OpenIo → Options → List DirFile → Recovering → Outcome Recovering
  recover_files io opts [] st = ok st
  recover_files io opts (f ∷ []) st = recover_file io opts true f st
  recover_files io opts (f ∷ (g ∷ fs)) st = elim (recover_file io opts false f st) [
    | err e ↦ err e
    | ok st' ↦ recover_files io opts (g ∷ fs) st'
  ]

-- The store that `recover` fills, before it has an active file.
abbrev pub recovered : Options → ℕ → Recovering → Store
recovered opts merge_seq st = record {
  opts = opts;
  keydir = recount (record { index = st.index; live = 0; n_live = 0 });
  files = st.files;
  active = 0;
  next_id = st.next_id;
  seq = st.max_seq;
  dirty = false;
  total = st.total;
  merge_seq = merge_seq;
  n_put = 0;
  n_get = 0;
  n_del = 0;
  n_miss = 0;
  closed = false;
  hinting = [];
  notified = [];
}

-- The end of `recover`: the file that is gone on with, or a new one.
unfoldable pub choose_active : Option ℕ → Store → Io → Outcome Store
choose_active (some id) s io = ok (record s { active = id })
choose_active none s io =
    let (s', opened) = open_new_active s io in if opened then ok s' else err os_error

abbrev pub nothing_recovered : Recovering
nothing_recovered = record {
  index = [];
  max_seq = 0;
  files = [];
  total = 0;
  next_id = 0;
  reuse = none;
}

-- `applyDefaults`, as far as the options of the model go.
unfoldable pub apply_defaults : Options → Options
apply_defaults o = record o {
  max_file_size = if o.max_file_size == 0 then 256 * 2 ^ 20 else o.max_file_size;
}

module _ ⦃c : Checksum⦄ where
  unfoldable pub recover : OpenIo → Options → ℕ → List DirFile → Outcome Store
  unfolding recover_files choose_active
  recover io opts merge_seq dir = elim (recover_files io opts dir nothing_recovered) [
    | err e ↦ err e
    | ok st ↦ choose_active st.reuse (recovered opts merge_seq st) io.fresh
  ]

  -- `Open` of a directory that has a name. Where `recover` fails, the files and the lock are let go.
  unfoldable pub open_store : OpenIo → Options → ℕ → List DirFile → Outcome Store
  unfolding recover apply_defaults
  open_store io opts merge_seq dir =
      if not io.mkdir
      then err os_error
      else if not io.lock
      then err os_error
      else if not io.listed
      then err os_error
      else recover io (apply_defaults opts) merge_seq dir
