-- ===== src/Engine/Hint.antt =====
-- The hint files of internal/engine/datafile.go and `buildHint` of compact.go.
pub mod Layout
pub mod RoundTrip
use gokv.Prelude.{
  ℕ, zero, suc, ◌+◌, ◌*◌, ◌%◌, Bool, true, false, not, ◌||◌, Option, none, some, List, [], ◌∷◌,
  ◌++◌, ltb, ◌==◌, if◌then◌else◌, length, take, drop, slice,
}
use gokv.Prelude.Bytes.{le, un_le, u32_mod}
use gokv.Prelude.Keys.{key_eq}
use gokv.Engine.Record.{Checksum, Record, max_key_size, scan_file}
use gokv.Engine.Index.{Entry}
use gokv.Engine.Recover.{entry_at}

-- "GOKVHNT1"
abbrev pub hint_magic : List ℕ
hint_magic = 71 ∷ 79 ∷ 75 ∷ 86 ∷ 72 ∷ 78 ∷ 84 ∷ 49 ∷ []

abbrev pub hint_header_size : ℕ
hint_header_size = 25

-- `hintWriter.add`: what it writes.
abbrev pub hint_record : List ℕ → Entry → ℕ → List ℕ
hint_record key e flags =
    le 8 e.seq ++ (flags ∷ (le 8 e.pos ++ (le 4 e.size ++ (le 4 (length key) ++ key))))

-- What the calls of one `buildHint` answer, each `true` for success. `add i` is about the record that
-- `i` bytes stand before.
pub record HintIo : Type 0 where
  pub create : Bool
  pub magic : Bool
  pub add : ℕ → Bool
  pub flush : Bool
  pub sync : Bool
  pub close : Bool
  pub rename : Bool

-- `newHintWriter`: what is in the temporary file, or an error.
abbrev pub new_hint_writer : HintIo → Option (List ℕ)
new_hint_writer io = if not io.create then none else if not io.magic then none else some hint_magic

-- `hintWriter.commit`, by what it renames.
abbrev pub commit_hint : HintIo → List ℕ → Option (List ℕ)
commit_hint io buf =
    if not io.flush
    then none
    else if not io.sync
    then none
    else if not io.close
    then none
    else if not io.rename
    then none
    else some buf

-- The callback of the scan; `true` is that `add` has failed.
unfoldable pub hint_step : HintIo → ℕ → ℕ → List ℕ → Record → List ℕ → List ℕ × Bool
hint_step io id pos raw r buf =
    if io.add (length buf)
    then (buf ++ hint_record r.key (entry_at id pos (length raw % u32_mod) r) r.flags, false)
    else (buf, true)

module _ ⦃c : Checksum⦄ where
  -- The hint file that `buildHint` leaves under its name; `none` where it fails and leaves what was
  -- there. The directory is synced after it.
  unfoldable pub build_hint : HintIo → ℕ → List ℕ → Option (List ℕ)
  unfolding hint_step
  build_hint io id contents = elim (new_hint_writer io) [
    | none ↦ none
    | some start ↦
        let (buf, _, failed) = scan_file (hint_step io id) contents start in
        if failed then none else commit_hint io buf
  ]

module _ {ℓ} {S : Type ℓ} (fn : List ℕ → Entry → ℕ → S → S) where
  -- The loop of `readHint`, with the error as `true`; the first argument is fuel, and every round
  -- takes more than one byte.
  unfoldable pub read_hints : ℕ → ℕ → List ℕ → S → S × Bool
  read_hints zero id rest acc = (acc, true)
  read_hints (suc fuel) id rest acc =
      let key_len = un_le (slice 21 25 rest) in
      let key = take key_len (drop hint_header_size rest) in
      let e : Entry = record {
        pos = un_le (slice 9 17 rest);
        seq = un_le (slice 0 8 rest);
        file_id = id;
        size = un_le (slice 17 21 rest);
        tomb = false;
      } in
      let flags = un_le (slice 8 9 rest) in
      let next = read_hints fuel id (drop (hint_header_size + key_len) rest) (fn key e flags acc) in
      if length rest == 0
      then (acc, false)
      else if ltb (length rest) hint_header_size
      then (acc, true)
      else if key_len == 0 || ltb max_key_size key_len
      then (acc, true)
      else if ltb (length rest) (hint_header_size + key_len)
      then (acc, true)
      else next

  unfoldable pub read_hint : ℕ → List ℕ → S → S × Bool
  unfolding read_hints
  read_hint id file acc =
      let rest = drop (length hint_magic) file in
      if not (key_eq (take (length hint_magic) file) hint_magic)
      then (acc, true)
      else read_hints (suc (length rest)) id rest acc
