-- ===== src/Engine/Store.antt =====
-- The state of internal/engine/store.go, its options and errors. Each method takes the store and
-- what the operating system answers to its calls, and returns the new store with its result.
pub mod Append
pub mod Methods
pub mod Reads
pub mod Sound
pub mod Reset
pub mod Scan
pub mod Housekeeping
use gokv.Prelude.{
  ℕ, zero, suc, ◌+◌, ◌*◌, ◌%◌, ◌^◌, Bool, true, false, not, ◌&&◌, ◌||◌, Option, none, some, List,
  [], ◌∷◌, ◌++◌, ltb, leb, ◌==◌, if◌then◌else◌, length, take,
}
use gokv.Prelude.Bytes.{u32_mod, u64_mod}
use gokv.Engine.Record.{
  Checksum, Record, is_tombstone, flag_tombstone, flag_batch, flag_batch_end, max_key_size,
  max_value_size, encoded_size, append_record, decode_record,
}
use gokv.Engine.Record as Rec
use gokv.Engine.Index.{Entry, Index, Keydir, lookup, index_apply, add64}
use gokv.Engine.Files.{DataFile, Files, empty_file, file_of, set_file, write_at, read_at}

pub data SyncMode : Type 0 where
  interval always never : SyncMode

pub record Options : Type 0 where
  pub max_file_size : ℕ
  pub sync_mode : SyncMode

-- `active` is the id of the active file, which is one of `files`. `hinting` lists the files for which
-- `buildHint` has been started, `notified` what the observers have been given, newest last.
pub record Store : Type 0 where
  pub opts : Options
  pub keydir : Keydir
  pub files : Files
  pub active : ℕ
  pub next_id : ℕ
  pub seq : ℕ
  pub dirty : Bool
  pub total : ℕ
  pub merge_seq : ℕ
  pub n_put : ℕ
  pub n_get : ℕ
  pub n_del : ℕ
  pub n_miss : ℕ
  pub closed : Bool
  pub hinting : List ℕ
  pub notified : List (ℕ × List ℕ)

pub data Error : Type 0 where
  key_not_found closed_store empty_key key_too_large value_too_long batch_len os_error
        corrupt_record :
      Error
  wrong_seq file_gone lost_race : Error

pub data Outcome {ℓ} (A : Type ℓ) : Type ℓ where
  ok : A → Outcome A
  err : Error → Outcome A

-- What WriteAt did: all of it, or `n` bytes, after which Truncate did its work or not.
pub data Written : Type 0 where
  whole : Written
  part : ℕ → Bool → Written

-- What the calls of one write answer, each `true` for success, and the clock.
pub record Io : Type 0 where
  pub now : ℕ
  pub sync_old : Bool
  pub create : Bool
  pub sync_dir : Bool
  pub write : Written
  pub sync : Bool

unfoldable pub validate_key : List ℕ → Option Error
validate_key key =
    if length key == 0
    then some empty_key
    else if ltb max_key_size (length key)
    then some key_too_large
    else none

abbrev pub active_file : Store → DataFile
active_file s = elim (file_of s.active s.files) [ some f ↦ f | none ↦ empty_file ]
