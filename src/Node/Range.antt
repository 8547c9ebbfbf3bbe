-- ===== src/Node/Range.antt =====
-- Range requests: `serveRange` of internal/node/node.go, and the loop of `ScanKeyRange` in
-- client/client.go that reads its reply. What a request is answered is a list of payloads of frames.
pub mod Chunked
pub mod Client
pub mod Stream
use gokv.Prelude.{
  ℕ, zero, suc, ◌+◌, ◌*◌, ◌%◌, Bool, true, false, ◌||◌, Option, none, some, List, [], ◌∷◌, ◌++◌,
  ltb, leb, ◌==◌, if◌then◌else◌, length,
}
use gokv.Prelude.Bytes.{u32_mod, u64_mod}
use gokv.Engine.Record.{Checksum}
use gokv.Engine.Store.{Outcome, ok, err, Error, os_error}
use gokv.Engine.Store.Scan.{Moments, scan}
use gokv.Proto.{
  Enc, Decoder, new_enc, new_dec, put_u32, put_u64, put_bytes, get_u32, get_bytes, done, is_empty,
}
use gokv.Proto.Wire.{op_range, status_range_chunk, status_range_end, status_error}
use gokv.Node.{ErrorTexts, malformed, engine, write_error}

-- rangeChunkBytes
abbrev pub range_chunk_bytes : ℕ
range_chunk_bytes = 256 * 1024

-- The variables that the callback shares with `serveRange`, the frames written so far, and whether
-- sendErr is set.
pub record Ranging : Type 0 where
  pub chunk : Enc
  pub total : ℕ
  pub frames : List (List ℕ)
  pub broken : Bool

-- The callback. `sends i` is whether frame number `i` can be written and flushed.
unfoldable pub range_pair : (ℕ → Bool) → List ℕ → List ℕ → Ranging → Ranging × Option Error
range_pair sends k v st =
    let chunk = put_bytes (put_bytes st.chunk k) v in
    let total = (st.total + 1) % u64_mod in
    if leb range_chunk_bytes (length chunk)
    then (if sends (length st.frames)
        then (
          record st {
            chunk = new_enc status_range_chunk;
            total = total;
            frames = st.frames ++ (chunk ∷ []);
          },
          none,
        )
        else (record st { chunk = chunk; total = total; broken = true }, some os_error))
    else (record st { chunk = chunk; total = total }, none)

-- One more frame; the result is whether the connection is still good.
abbrev pub write_last : (ℕ → Bool) → List (List ℕ) → List ℕ → List (List ℕ) × Bool
write_last sends frames payload =
    if sends (length frames) then (frames ++ (payload ∷ []), true) else (frames, false)

abbrev pub range_end : (ℕ → Bool) → List (List ℕ) → ℕ → List (List ℕ) × Bool
range_end sends frames total = write_last sends frames (put_u64 (new_enc status_range_end) total)

-- `serveRange` behind the scan.
unfoldable pub finish_range : (ℕ → Bool) → Ranging → List (List ℕ) × Bool
finish_range sends st =
    if ltb 1 (length st.chunk)
    then (if sends (length st.frames)
        then range_end sends (st.frames ++ (st.chunk ∷ [])) st.total
        else (st.frames, false))
    else range_end sends st.frames st.total

abbrev pub begin_range : Ranging
begin_range = record { chunk = new_enc status_range_chunk; total = 0; frames = []; broken = false }

-- n.cfg.MaxRangeResults caps the limit.
abbrev pub capped : ℕ → ℕ → ℕ
capped max_results limit = if limit == 0 || ltb max_results limit then max_results else limit

module _ ⦃c : Checksum⦄ ⦃texts : ErrorTexts⦄ where
  -- With fuel for the scan, and the highest number of results.
  unfoldable pub serve_range :
      ℕ → Moments → ℕ → (ℕ → Bool) → List ℕ → List ℕ → ℕ → Option (List (List ℕ) × Bool)
  unfolding scan range_pair finish_range
  serve_range fuel at max_results sends start end_key limit =
      elim (scan (range_pair sends) fuel at start end_key (capped max_results limit) begin_range) [
        | none ↦ none
        | some (st, res) ↦ some (
            if st.broken then (st.frames, false) else elim res [
              | ok _ ↦ finish_range sends st
              | err e ↦ write_last sends st.frames (write_error (engine e))
            ])
      ]

  -- The request as `handle` decodes it.
  unfoldable pub handle_range :
      ℕ → Moments → ℕ → (ℕ → Bool) → List ℕ → Option (List (List ℕ) × Bool)
  unfolding serve_range
  handle_range fuel at max_results sends body =
      let (start, d1) = get_bytes (new_dec body) in
      let (end_key, d2) = get_bytes d1 in
      let (limit, d3) = get_u32 d2 in
      if done d3
      then serve_range fuel at max_results sends start end_key limit
      else some (write_last sends [] (write_error malformed))

-- The frame of the request; a negative limit is sent as 0.
abbrev pub range_request : List ℕ → List ℕ → ℕ → List ℕ
range_request start end_key limit =
    put_u32 (put_bytes (put_bytes (new_enc op_range) start) end_key) (limit % u32_mod)

-- The client's loop over one chunk; a pair takes more than one byte of fuel.
unfoldable pub read_chunk : ℕ → Decoder → List (List ℕ × List ℕ) → List (List ℕ × List ℕ) × Decoder
read_chunk zero d out = (out, d)
read_chunk (suc n) d out =
    let (k, d1) = get_bytes d in
    let (v, d2) = get_bytes d1 in
    let rest = read_chunk n d2 (out ++ ((k, v) ∷ [])) in
    if d.failed || is_empty d then (out, d) else if d2.failed then (out, d2) else rest

-- How the client's loop over the frames ends: at the end frame, with an error of the server, or with a
-- connection that is of no more use.
pub data RangeReply : Type 0 where
  complete : List (List ℕ × List ℕ) → RangeReply
  remote : List ℕ → RangeReply
  poisoned : RangeReply

unfoldable pub read_range : List (List ℕ) → List (List ℕ × List ℕ) → RangeReply
unfolding read_chunk
read_range [] out = poisoned
read_range ([] ∷ frames) out = poisoned
read_range ((status ∷ body) ∷ frames) out =
    let (out', d) = read_chunk (suc (length body)) (new_dec body) out in
    let rest = read_range frames out' in
    if status == status_range_end
    then complete out
    else if status == status_range_chunk
    then (if d.failed then poisoned else rest)
    else if status == status_error
    then remote (get_bytes (new_dec body)).0
    else poisoned
