-- ===== src/Proto/Read.antt =====
-- Each reader of a decoder gives back what the encoder wrote, and leaves what follows.
use gokv.Prelude.{
  ℕ, ◌+◌, ◌≤◌, ◌<◌, ◌≡◌, refl, ap, true, false, List, [], ◌∷◌, ◌++◌, arith, length, drop, slice,
  length-append, length-drop, take-append, drop-append, drop-drop, append_assoc, le→ltb,
}
use gokv.Prelude.Bytes.{le, be, un_be-be, length-be, u32_mod, u64_mod}
use gokv.Proto.{Decoder, new_dec, get_u8, get_u32, get_u64, get_bytes, done, lacks}
use native.Mathlib.Nat.{add-sub_cancel_left}

-- The decoder has not failed, and `rest` is what it has not read.
pub record Holds (d : Decoder) (rest : List ℕ) : Type 0 where
  pub fine : d.failed ≡ false
  pub unread : drop d.pos d.bytes ≡ rest
  pub within : d.pos ≤ length d.bytes

pub Holds-new_dec : (b : List ℕ) → Holds (new_dec b) b
Holds-new_dec b = record { fine = refl; unread = refl; within = omega arith }

module _ (d : Decoder) (xs rest : List ℕ) (h : Holds d (xs ++ rest)) where
  length_left : length d.bytes ≡ d.pos + (length xs + length rest)
  length_left =
      omega (arith, ap length h.unread, length-drop d.pos d.bytes, length-append xs rest, h.within)

  pub not_lacks : (n : ℕ) → length xs ≡ n → lacks d n ≡ false
  not_lacks n e = rw (h.fine, le→ltb (length d.bytes) (d.pos + n) (omega (arith, length_left)))

  pub slice_read : (n : ℕ) → length xs ≡ n → slice d.pos (d.pos + n) d.bytes ≡ xs
  slice_read n e = rw (add-sub_cancel_left, h.unread, take-append n xs rest e)

  pub Holds-step : (n : ℕ) → length xs ≡ n → Holds (record d { pos = d.pos + n }) rest
  Holds-step n e = record {
    fine = h.fine;
    unread = rw (drop-drop, h.unread, drop-append n xs rest e);
    within = omega (arith, length_left);
  }

module _ (d : Decoder) (v : ℕ) (rest : List ℕ) where
  pub get_u8-read :
      v < 256 → Holds d (be 1 v ++ rest) → get_u8 d ≡ (v, record d { pos = d.pos + 1 })
  unfolding get_u8
  get_u8-read fits h = rw (
    not_lacks d (be 1 v) rest h 1 (length-be 1 v),
    slice_read d (be 1 v) rest h 1 (length-be 1 v),
    un_be-be 1 v (omega arith),
  )

  pub get_u32-read :
      v < u32_mod → Holds d (be 4 v ++ rest) → get_u32 d ≡ (v, record d { pos = d.pos + 4 })
  unfolding get_u32
  get_u32-read fits h = rw (
    not_lacks d (be 4 v) rest h 4 (length-be 4 v),
    slice_read d (be 4 v) rest h 4 (length-be 4 v),
    un_be-be 4 v (omega arith),
  )

  pub get_u64-read :
      v < u64_mod → Holds d (be 8 v ++ rest) → get_u64 d ≡ (v, record d { pos = d.pos + 8 })
  unfolding get_u64
  get_u64-read fits h = rw (
    not_lacks d (be 8 v) rest h 8 (length-be 8 v),
    slice_read d (be 8 v) rest h 8 (length-be 8 v),
    un_be-be 8 v (omega arith),
  )

-- The bytes of a length-prefixed string.
abbrev pub prefixed : List ℕ → List ℕ
prefixed b = be 4 (length b) ++ b

-- If the rest of a decoder that has not failed begins with a string of fewer than 2 ^ 32 bytes
-- behind its length, `get_bytes` returns the string and the decoder holds what follows it.
pub get_bytes-read :
    (d : Decoder) (b rest : List ℕ)
    → length b < u32_mod
    → Holds d (prefixed b ++ rest)
    → (get_bytes d ≡ (b, record d { pos = d.pos + 4 + length b }))
      × Holds (record d { pos = d.pos + 4 + length b }) rest
unfolding get_bytes
get_bytes-read d b rest fits h =
    let h' : Holds d (be 4 (length b) ++ (b ++ rest)) = rw append_assoc at h in
    let d' : Decoder = record d { pos = d.pos + 4 } in
    let step : Holds d' (b ++ rest) =
      Holds-step d (be 4 (length b)) (b ++ rest) h' 4 (length-be 4 (length b)) in
    (
      rw (
        get_u32-read d (length b) (b ++ rest) fits h',
        not_lacks d' b rest step (length b) refl,
        slice_read d' b rest step (length b) refl,
      ),
      Holds-step d' b rest step (length b) refl,
    )

pub done-read : (d : Decoder) → Holds d [] → done d ≡ true
unfolding done
done-read d h = ground (arith, h.fine, ap length h.unread, length-drop d.pos d.bytes, h.within)

-- One reader after the other.
be-one : (v : ℕ) → v < 256 → be 1 v ≡ v ∷ []
unfolding be le
be-one v fits = ap (λ x. x ∷ []) (omega arith)

pub read_u8 :
    (d : Decoder) (v : ℕ) (rest : List ℕ)
    → v < 256
    → Holds d (v ∷ rest)
    → (d' : Decoder) × (get_u8 d ≡ (v, d')) × Holds d' rest
read_u8 d v rest fits h =
    let h' : Holds d (be 1 v ++ rest) = rw be-one h in
    (
      record d { pos = d.pos + 1 },
      get_u8-read d v rest fits h',
      Holds-step d (be 1 v) rest h' 1 (length-be 1 v),
    )

pub read_u64 :
    (d : Decoder) (v : ℕ) (rest : List ℕ)
    → v < u64_mod
    → Holds d (be 8 v ++ rest)
    → (d' : Decoder) × (get_u64 d ≡ (v, d')) × Holds d' rest
read_u64 d v rest fits h = (
  record d { pos = d.pos + 8 },
  get_u64-read d v rest fits h,
  Holds-step d (be 8 v) rest h 8 (length-be 8 v),
)

pub read_bytes :
    (d : Decoder) (b rest : List ℕ)
    → length b < u32_mod
    → Holds d (prefixed b ++ rest)
    → (d' : Decoder) × (get_bytes d ≡ (b, d')) × Holds d' rest
read_bytes d b rest fits h =
    let (e, h') = get_bytes-read d b rest fits h in (record d { pos = d.pos + 4 + length b }, e, h')

pub read_u32 :
    (d : Decoder) (v : ℕ) (rest : List ℕ)
    → v < u32_mod
    → Holds d (be 4 v ++ rest)
    → (d' : Decoder) × (get_u32 d ≡ (v, d')) × Holds d' rest
read_u32 d v rest fits h = (
  record d { pos = d.pos + 4 },
  get_u32-read d v rest fits h,
  Holds-step d (be 4 v) rest h 4 (length-be 4 v),
)
