-- ===== src/Tests/Wire.antt =====
-- Frames and their bodies.
use gokv.Prelude.{ℕ, ◌+◌, ◌≤◌, ◌≡◌, ◌⊎◌, refl, false, some, List, [], ◌∷◌, ◌++◌, arith, length}
use gokv.Prelude.Bytes.{be, le, un_be, un_le}
use gokv.Proto.{new_dec, get_u32, get_bytes, write_frame, read_frame, ok, err, eof, unexpected_eof}
use gokv.Proto.Sticky.{get_bytes_bounds}
use gokv.Proto.Frames.{read-write_frame, read_frame-torn}

abbrev payload : List ℕ
payload = 1 ∷ 2 ∷ 3 ∷ []

abbrev framed : List ℕ
framed = 0 ∷ 0 ∷ 0 ∷ 3 ∷ payload

written : write_frame payload ≡ some framed
unfolding write_frame be le
written = refl

read-write_frame_example : read_frame (framed ++ (9 ∷ [])) ≡ ok (payload, 9 ∷ [])
read-write_frame_example = read-write_frame payload framed (9 ∷ []) written

read_frame-torn_example :
    (read_frame (0 ∷ 0 ∷ 0 ∷ 3 ∷ 1 ∷ []) ≡ err eof)
    ⊎ (read_frame (0 ∷ 0 ∷ 0 ∷ 3 ∷ 1 ∷ []) ≡ err unexpected_eof)
read_frame-torn_example =
    read_frame-torn payload framed (0 ∷ 0 ∷ 0 ∷ 3 ∷ 1 ∷ []) 2 (3 ∷ []) written refl

fine : (get_bytes (new_dec framed)).1.failed ≡ false
unfolding get_bytes get_u32 un_be un_le
fine = refl

get_bytes_bounds_example :
    let d = new_dec framed in
    ((get_bytes d).1.bytes ≡ d.bytes)
    × (d.failed ≡ false)
    × ((get_bytes d).1.pos ≡ d.pos + 4 + length (get_bytes d).0)
    × ((get_bytes d).1.pos ≤ length d.bytes)
get_bytes_bounds_example = get_bytes_bounds (new_dec framed) (omega arith) fine
