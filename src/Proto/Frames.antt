-- ===== src/Proto/Frames.antt =====
-- Frames on a stream.
use gokv.Prelude.{
  ℕ, ◌≤◌, ◌<◌, ◌≡◌, refl, ap, ◌∙◌, some, List, ◌∷◌, ◌++◌, arith, length, take, drop, ltb,
  append_assoc, length-append, take-append, drop-append, Bool-cases, inl, inr, ◌⊎◌, sym,
  take-append_le, length-drop,
}
use gokv.Prelude.Bytes.{be, un_be, un_be-be, length-be}
use gokv.Proto.{max_frame_size, write_frame, read_full, read_frame, ok, err, eof, unexpected_eof}

read_full-append :
    (xs rest : List ℕ) (n : ℕ) → length xs ≡ n → read_full n (xs ++ rest) ≡ ok (xs, rest)
unfolding read_full
read_full-append xs rest n e =
    ground (arith, length-append xs rest, take-append n xs rest e, drop-append n xs rest e)

-- The stream begins with a cut piece of `n` bytes.
read_full_short :
    (xs : List ℕ) (n : ℕ) → length xs < n → 0 < length xs → read_full n xs ≡ err unexpected_eof
unfolding read_full
read_full_short xs n h p = ground arith

-- `read_frame` gives back the payload that `write_frame` accepted, and leaves what follows on the
-- stream.
pub read-write_frame :
    (payload bytes rest : List ℕ)
    → write_frame payload ≡ some bytes
    → read_frame (bytes ++ rest) ≡ ok (payload, rest)
unfolding write_frame read_frame
read-write_frame payload bytes rest h = elim (Bool-cases (ltb max_frame_size (length payload))) [
  | inl over ↦ absurd (ground arith)
  | inr fits ↦
      let e : bytes ≡ be 4 (length payload) ++ payload = ground arith in
      rw (
        e,
        append_assoc,
        read_full-append (be 4 (length payload)) (payload ++ rest) 4 (length-be 4 (length payload)),
        un_be-be 4 (length payload) (ground arith),
        fits,
        read_full-append payload rest (length payload) refl,
      )
]

-- On a proper prefix of a frame that `write_frame` made, `read_frame` reports the end of the
-- stream, as eof or as unexpected_eof.
pub read_frame-torn :
    (payload bytes front : List ℕ) (x : ℕ) (back : List ℕ)
    → write_frame payload ≡ some bytes
    → bytes ≡ front ++ (x ∷ back)
    → (read_frame front ≡ err eof) ⊎ (read_frame front ≡ err unexpected_eof)
unfolding write_frame read_frame
read_frame-torn payload bytes front x back h e = elim (Bool-cases (ltb (length front) 4)) [
  | inl less ↦ unfold read_full in ground arith
  | inr more ↦
      let long : 4 ≤ length front = ground arith in
      let fits : length payload ≤ max_frame_size = ground arith in
      let whole : be 4 (length payload) ++ payload ≡ front ++ (x ∷ back) = ground arith in
      let head : take 4 front ≡ be 4 (length payload) =
        sym (take-append_le 4 front (x ∷ back) long)
        ∙ rw (← whole)
            (take-append 4 (be 4 (length payload)) payload (length-be 4 (length payload))) in
      let size : un_be (take 4 front) ≡ length payload =
        ap un_be head ∙ un_be-be 4 (length payload) (omega arith) in
      let left : length (drop 4 front) < length payload = omega (
        arith,
        length-drop 4 front,
        ap length whole,
        length-append front (x ∷ back),
        length-append (be 4 (length payload)) payload,
        length-be 4 (length payload),
      ) in
      unfold read_full in ground (arith, size, left)
]
