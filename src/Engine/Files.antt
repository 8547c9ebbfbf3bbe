-- ===== src/Engine/Files.antt =====
-- The data files of internal/engine/datafile.go, with what os.File's WriteAt and ReadAt do to them.
pub mod Laws
use gokv.Prelude.Bytes.{u64_mod}
use gokv.Prelude.{
  ℕ, ◌+◌, ◌%◌, ◌^◌, ◌||◌, Bool, true, false, Option, none, some, List, [], ◌∷◌, ◌++◌, ltb, ◌==◌,
  if◌then◌else◌, length, take, drop, slice,
}

-- `contents` is what is on disk; `size` is the append offset. They differ where a failed write could
-- not be cut off again.
pub record DataFile : Type 0 where
  pub contents : List ℕ
  pub size : ℕ

abbrev pub Files : Type 0
Files = List (ℕ × DataFile)

abbrev pub empty_file : DataFile
empty_file = record { contents = []; size = 0 }

unfoldable pub file_of : ℕ → Files → Option DataFile
file_of id [] = none
file_of id ((i, f) ∷ fs) = if i == id then some f else file_of id fs

unfoldable pub set_file : ℕ → DataFile → Files → Files
set_file id f [] = (id, f) ∷ []
set_file id f ((i, g) ∷ fs) = if i == id then (id, f) ∷ fs else (i, g) ∷ set_file id f fs

-- WriteAt: `base` is not past the end.
abbrev pub write_at : List ℕ → ℕ → List ℕ → List ℕ
write_at contents base buf = take base contents ++ (buf ++ drop (base + length buf) contents)

-- ReadAt of `n` bytes from `pos` on; `none` where the file ends before.
abbrev pub read_at : DataFile → ℕ → ℕ → Option (List ℕ)
read_at f pos n =
    if ltb (length f.contents) (pos + n) then none else some (slice pos (pos + n) f.contents)

-- delete(s.files, id), and the loop of it over some ids.
unfoldable pub remove_file : ℕ → Files → Files
remove_file id [] = []
remove_file id ((i, f) ∷ fs) = if i == id then remove_file id fs else (i, f) ∷ remove_file id fs

unfoldable pub remove_files : List ℕ → Files → Files
remove_files [] fs = fs
remove_files (id ∷ ids) fs = remove_files ids (remove_file id fs)

-- The sum of the append offsets, as an int64.
unfoldable pub usage : Files → ℕ
usage [] = 0
usage ((i, f) ∷ fs) = (usage fs + f.size) % u64_mod

-- A list of ids as a set.
unfoldable pub contains : ℕ → List ℕ → Bool
contains id [] = false
contains id (i ∷ ids) = i == id || contains id ids
