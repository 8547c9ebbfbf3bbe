-- ===== src/Proto/Sticky.antt =====
-- Decoding any bytes at all: errors stick, and no reader leaves the body.
use gokv.Prelude.{
  ℕ, ◌+◌, ◌-◌, ◌≤◌, ◌≡◌, true, false, List, [], arith, length, drop, slice, length-take,
  length-drop,
}
use gokv.Proto.{Decoder, get_u8, get_u32, get_u64, get_bytes, get_rest, done, remaining}

-- Every reader of a decoder that has failed returns nothing and leaves the decoder as it is;
-- `done` does not accept it and nothing remains.
pub failed_sticks :
    (d : Decoder)
    → d.failed ≡ true
    → (get_u8 d ≡ (0, d))
      × (get_u32 d ≡ (0, d))
      × (get_u64 d ≡ (0, d))
      × (get_bytes d ≡ ([], d))
      × (get_rest d ≡ ([], d))
      × (done d ≡ false)
      × (remaining d ≡ 0)
unfolding get_u8 get_u32 get_u64 get_bytes get_rest done remaining
failed_sticks d h = ground arith

get_u32_bounds :
    (d : Decoder)
    → d.pos ≤ length d.bytes
    → ((get_u32 d).1.bytes ≡ d.bytes)
      × (d.pos ≤ (get_u32 d).1.pos)
      × ((get_u32 d).1.pos ≤ length d.bytes)
      × ((get_u32 d).1.failed ≡ false → (d.failed ≡ false) × ((get_u32 d).1.pos ≡ d.pos + 4))
unfolding get_u32
get_u32_bounds d h = ground arith

length-slice : (n p : ℕ) (b : List ℕ) → p + n ≤ length b → length (slice p (p + n) b) ≡ n
length-slice n p b h = omega (arith, length-take (p + n - p) (drop p b), length-drop p b)

-- On any body with the position inside it, if `get_bytes` leaves a decoder that has not failed,
-- then it had not failed before, the position has moved by the length field and the bytes
-- returned, and it is still inside the body.
pub get_bytes_bounds :
    (d : Decoder)
    → d.pos ≤ length d.bytes
    → (get_bytes d).1.failed ≡ false
    → ((get_bytes d).1.bytes ≡ d.bytes)
      × (d.failed ≡ false)
      × ((get_bytes d).1.pos ≡ d.pos + 4 + length (get_bytes d).0)
      × ((get_bytes d).1.pos ≤ length d.bytes)
unfolding get_bytes
get_bytes_bounds d h fine =
    let d' : Decoder = (get_u32 d).1 in
    ground (arith, get_u32_bounds d h, length-slice (get_u32 d).0 d'.pos d'.bytes)
