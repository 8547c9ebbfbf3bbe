-- ===== src/Node/Serve.antt =====
-- The requests of clients in `handle` of internal/node/node.go, and how client/client.go builds them.
-- Each handler takes the body of the frame and returns the payload of the reply.
pub mod Follower
pub mod Requests
use gokv.Prelude.{
  ℕ, zero, suc, ◌+◌, ◌/◌, ◌%◌, Bool, true, false, Option, none, some, List, [], ◌∷◌, ◌++◌, ltb,
  ◌==◌, if◌then◌else◌, length,
}
use gokv.Prelude.Bytes.{u32_mod}
use gokv.Engine.Record.{Checksum}
use gokv.Engine.Store.{Store, Io, Outcome, ok, err, Error, key_not_found}
use gokv.Engine.Store.Methods.{put, delete, batch_put}
use gokv.Engine.Store.Reads.{get}
use gokv.Proto.{
  Enc, Decoder, new_enc, new_dec, put_u32, put_bytes, get_u32, get_bytes, done, remaining,
}
use gokv.Proto.Wire.{
  op_put, op_get, op_delete, op_batch_put, status_ok, status_not_found, status_redirect,
}
use gokv.Node.{
  Node, leader, ErrorTexts, Failure, malformed, batch_count, engine, write_status, write_error,
}

abbrev pub redirect : Node → List ℕ
redirect n = put_bytes (new_enc status_redirect) n.leader_addr

-- client.go: the frames of Get, Put, Delete and BatchPut.
abbrev pub key_request : ℕ → List ℕ → List ℕ
key_request op key = put_bytes (new_enc op) key

abbrev pub put_request : List ℕ → List ℕ → List ℕ
put_request key value = put_bytes (put_bytes (new_enc op_put) key) value

unfoldable pub put_pairs : Enc → List (List ℕ) → List (List ℕ) → Enc
put_pairs e (k ∷ ks) (v ∷ vs) = put_pairs (put_bytes (put_bytes e k) v) ks vs
put_pairs e _ _ = e

abbrev pub batch_request : List (List ℕ) → List (List ℕ) → List ℕ
batch_request keys values =
    put_pairs (put_u32 (new_enc op_batch_put) (length keys % u32_mod)) keys values

module _ ⦃c : Checksum⦄ ⦃texts : ErrorTexts⦄ where
  unfoldable pub serve_get : Node → List ℕ → Node × List ℕ
  serve_get n body =
      let (key, d) = get_bytes (new_dec body) in
      let (s', res) = get n.store key in
      if done d
      then (
        record n { store = s' },
        elim res [
          | ok v ↦ put_bytes (new_enc status_ok) v
          | err key_not_found ↦ write_status status_not_found
          | err e ↦ write_error (engine e)
        ],
      )
      else (n, write_error malformed)

  -- A write: the method of the store on a leader, the address of the leader on a follower.
  unfoldable pub write_on : Node → Store × Outcome (Unit {0}) → List ℕ → Node × List ℕ
  write_on n (s', ok _) missing = (record n { store = s' }, write_status status_ok)
  write_on n (s', err key_not_found) missing = (record n { store = s' }, missing)
  write_on n (s', err e) missing = (record n { store = s' }, write_error (engine e))

  unfoldable pub serve_put : Node → Io → List ℕ → Node × List ℕ
  serve_put n io body =
      let (key, d1) = get_bytes (new_dec body) in
      let (val, d2) = get_bytes d1 in
      if done d2
      then (if n.role == leader
          then write_on n (put n.store key val io) (write_error (engine key_not_found))
          else (n, redirect n))
      else (n, write_error malformed)

  unfoldable pub serve_delete : Node → Io → List ℕ → Node × List ℕ
  serve_delete n io body =
      let (key, d) = get_bytes (new_dec body) in
      if done d
      then (if n.role == leader
          then write_on n (delete n.store key io) (write_status status_not_found)
          else (n, redirect n))
      else (n, write_error malformed)

  -- The loop over the pairs; it ends early when the decoder fails.
  unfoldable pub read_pairs : ℕ → Decoder → List (List ℕ) × List (List ℕ) × Decoder
  read_pairs zero d = ([], [], d)
  read_pairs (suc n) d =
      let (k, d1) = get_bytes d in
      let (v, d2) = get_bytes d1 in
      let (ks, vs, d3) = read_pairs n d2 in if d2.failed then ([], [], d2) else (k ∷ ks, v ∷ vs, d3)

  unfoldable pub serve_batch_put : Node → Io → List ℕ → Node × List ℕ
  serve_batch_put n io body =
      let (count, d) = get_u32 (new_dec body) in
      let (keys, vals, d') = read_pairs count d in
      if d.failed
      then (n, write_error malformed)
      else if ltb (remaining d / 8) count
      then (n, write_error (batch_count count (remaining d)))
      else if done d'
      then (if n.role == leader
          then write_on n (batch_put n.store keys vals io) (write_error (engine key_not_found))
          else (n, redirect n))
      else (n, write_error malformed)
