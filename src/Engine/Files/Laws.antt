-- ===== src/Engine/Files/Laws.antt =====
-- The file set as a map, and what an append leaves alone.
use gokv.Prelude.{
  ℕ, ◌+◌, ◌≤◌, ◌≡◌, refl, none, ◌∙◌, some, List, [], ◌∷◌, ◌++◌, arith, ◌==◌, if◌then◌else◌, length,
  take, drop, slice, take-append-drop, take-append, drop-append, drop-drop, length-take,
  slice-append_le, length-append, append_assoc, ==_refl,
}
use gokv.Engine.Files.{
  DataFile, Files, file_of, set_file, write_at, remove_file, remove_files, contains,
}
use native.Mathlib.Nat.{add-sub_cancel_left}

pub file_of-set_file :
    (i j : ℕ) (f : DataFile) (fs : Files)
    → file_of j (set_file i f fs) ≡ (if i == j then some f else file_of j fs)
unfolding file_of set_file
file_of-set_file i j f [] = refl
file_of-set_file i j f ((k, g) ∷ fs) = ground (arith, file_of-set_file i j f fs)

pub file_of-set_file_self :
    (i : ℕ) (f : DataFile) (fs : Files) → file_of i (set_file i f fs) ≡ some f
file_of-set_file_self i f fs = rw (file_of-set_file, ==_refl)

module _ (contents buf : List ℕ) (base : ℕ) (h : base ≤ length contents) where
  length_head : length (take base contents) ≡ base
  length_head = omega (arith, length-take base contents)

  -- What lies below the offset stays, and the bytes written stand behind it.
  pub slice-write_at_below :
      (a b : ℕ) → a ≤ b → b ≤ base → slice a b (write_at contents base buf) ≡ slice a b contents
  slice-write_at_below a b p q =
      slice-append_le a b (take base contents) _ p (omega (arith, length_head))
      ∙ rw (
        ← slice-append_le a b (take base contents) (drop base contents) p
            (omega (arith, length_head)),
        take-append-drop,
      )

  pub slice-write_at :
      (pre mid post : List ℕ)
      → buf ≡ pre ++ (mid ++ post)
      → slice (base + length pre) (base + length pre + length mid) (write_at contents base buf)
        ≡ mid
  slice-write_at pre mid post e = rw (
    add-sub_cancel_left,
    drop-drop,
    drop-append base (take base contents) (buf ++ drop (base + length buf) contents) length_head,
    e,
    append_assoc,
    drop-append (length pre) pre _ refl,
    append_assoc,
    take-append (length mid) mid _ refl,
  )

  pub length-write_at : base + length buf ≤ length (write_at contents base buf)
  length-write_at = omega (
    arith,
    length-append (take base contents) (buf ++ drop (base + length buf) contents),
    length-append buf (drop (base + length buf) contents),
    length_head,
  )

file_of-remove_file :
    (i j : ℕ) (fs : Files) → file_of j (remove_file i fs) ≡ (if i == j then none else file_of j fs)
unfolding file_of remove_file
file_of-remove_file i j [] = ground arith
file_of-remove_file i j ((k, g) ∷ fs) = ground (arith, file_of-remove_file i j fs)

pub file_of-remove_files :
    (ids : List ℕ) (j : ℕ) (fs : Files)
    → file_of j (remove_files ids fs) ≡ (if contains j ids then none else file_of j fs)
unfolding remove_files contains
file_of-remove_files [] j fs = refl
file_of-remove_files (i ∷ ids) j fs =
    ground (arith, file_of-remove_files ids j (remove_file i fs), file_of-remove_file i j fs)
