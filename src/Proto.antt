-- ===== src/Proto.antt =====
-- internal/proto/proto.go: frames, and the encoder and decoder of their bodies.
pub mod Wire
pub mod Read
pub mod Sticky
pub mod Frames
use gokv.Prelude.{
  ℕ, zero, suc, ◌+◌, ◌-◌, ◌*◌, ◌%◌, ◌^◌, ◌≤◌, ◌<◌, Bool, true, false, ◌||◌, Option, none, some,
  List, [], ◌∷◌, ◌++◌, ltb, leb, ◌==◌, if◌then◌else◌, length, take, drop, slice,
}
use gokv.Prelude.Bytes.{be, un_be, u32_mod}

abbrev pub max_frame_size : ℕ
max_frame_size = 320 * 1024 * 1024

-- Enc: the bytes so far.
abbrev pub Enc : Type 0
Enc = List ℕ

abbrev pub new_enc : ℕ → Enc
new_enc first = first ∷ []

abbrev pub put_u8 : Enc → ℕ → Enc
put_u8 e v = e ++ (v ∷ [])

abbrev pub put_u32 : Enc → ℕ → Enc
put_u32 e v = e ++ be 4 v

abbrev pub put_u64 : Enc → ℕ → Enc
put_u64 e v = e ++ be 8 v

-- `Bytes` and `Str`: a length and the bytes.
abbrev pub put_bytes : Enc → List ℕ → Enc
put_bytes e b = put_u32 e (length b) ++ b

abbrev pub put_raw : Enc → List ℕ → Enc
put_raw e b = e ++ b

-- The only error of a decoder is ErrMalformed.
pub record Decoder : Type 0 where
  pub bytes : List ℕ
  pub pos : ℕ
  pub failed : Bool

abbrev pub new_dec : List ℕ → Decoder
new_dec b = record { bytes = b; pos = 0; failed = false }

abbrev pub fail : Decoder → Decoder
fail d = record d { failed = true }

-- The test that begins each reader, and what it reads: `n` bytes from `pos` on.
abbrev pub lacks : Decoder → ℕ → Bool
lacks d n = d.failed || ltb (length d.bytes) (d.pos + n)

unfoldable pub get_u8 : Decoder → ℕ × Decoder
get_u8 d =
    if lacks d 1
    then (0, fail d)
    else (un_be (slice d.pos (d.pos + 1) d.bytes), record d { pos = d.pos + 1 })

unfoldable pub get_u32 : Decoder → ℕ × Decoder
get_u32 d =
    if lacks d 4
    then (0, fail d)
    else (un_be (slice d.pos (d.pos + 4) d.bytes), record d { pos = d.pos + 4 })

unfoldable pub get_u64 : Decoder → ℕ × Decoder
get_u64 d =
    if lacks d 8
    then (0, fail d)
    else (un_be (slice d.pos (d.pos + 8) d.bytes), record d { pos = d.pos + 8 })

unfoldable pub get_bytes : Decoder → List ℕ × Decoder
get_bytes d =
    let (n, d') = get_u32 d in
    if lacks d' n
    then ([], fail d')
    else (slice d'.pos (d'.pos + n) d'.bytes, record d' { pos = d'.pos + n })

unfoldable pub get_rest : Decoder → List ℕ × Decoder
get_rest d = if d.failed then ([], d) else (drop d.pos d.bytes, record d { pos = length d.bytes })

-- `Done() == nil`
unfoldable pub done : Decoder → Bool
done d = if d.failed then false else d.pos == length d.bytes

unfoldable pub remaining : Decoder → ℕ
remaining d = if d.failed || ltb (length d.bytes) d.pos then 0 else length d.bytes - d.pos

unfoldable pub is_empty : Decoder → Bool
is_empty d = leb (length d.bytes) d.pos

-- WriteFrame: what goes into the buffered writer, or ErrFrameTooLarge.
unfoldable pub write_frame : List ℕ → Option (List ℕ)
write_frame payload =
    if ltb max_frame_size (length payload) then none else some (be 4 (length payload) ++ payload)

-- io.ReadFull: it returns io.EOF only if it read nothing.
pub data ReadError : Type 0 where
  eof unexpected_eof frame_too_large : ReadError

pub data ReadResult {ℓ} (A : Type ℓ) : Type ℓ where
  ok : A → ReadResult A
  err : ReadError → ReadResult A

infixl 5 ◌>>=◌
abbrev pub ◌>>=◌ {ℓ κ} :
    {A : Type ℓ} {B : Type κ} → ReadResult A → (A → ReadResult B) → ReadResult B
ok a >>= f = f a
err e >>= f = err e

unfoldable pub read_full : ℕ → List ℕ → ReadResult (List ℕ × List ℕ)
read_full n stream =
    if leb n (length stream)
    then ok (take n stream, drop n stream)
    else if length stream == 0
    then err eof
    else err unexpected_eof

-- ReadFrame: the next frame and what follows it on the stream.
unfoldable pub read_frame : List ℕ → ReadResult (List ℕ × List ℕ)
read_frame stream = do
  (hdr, rest) ← read_full 4 stream
  let n = un_be hdr
  if ltb max_frame_size n then err frame_too_large else read_full n rest
