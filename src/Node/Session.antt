-- ===== src/Node/Session.antt =====
-- A replication session of internal/node/replication.go: `serveReplication` up to the point where the
-- leader streams, and `replicateFrom`, the follower's side.
pub mod Listed
pub mod Synced
pub mod Full
use gokv.Prelude.{
  ℕ, ◌+◌, Bool, true, false, not, ◌&&◌, Option, none, some, List, [], ◌∷◌, ◌++◌, ◌==◌,
  if◌then◌else◌, length,
}
use gokv.Engine.Record.{Checksum}
use gokv.Engine.Store.{Store, Io, Outcome, ok, err, Error}
use gokv.Engine.Store.Reset.{reset}
use gokv.Engine.Replica.{apply_raw}
use gokv.Engine.Snapshot.{Sights}
use gokv.Proto.{new_enc, new_dec, put_u64, put_bytes, get_u64, get_bytes}
use gokv.Proto.Wire.{
  op_replicate, status_live, status_heartbeat, status_full_sync, status_repl_data, status_redirect,
  status_error,
}
use gokv.Node.{Node, leader, write_status}
use gokv.Node.Election.{adopt_epoch, open_session, redirected}
use gokv.Node.CatchUp.{catch_up}

-- Why `replicateFrom` returns; `unreachable` is that it cannot connect or send its request, and
-- `stream_closed` that no further frame can be read.
pub data SessionEnd : Type 0 where
  unreachable stream_closed empty_frame not_leader leader_error unexpected_frame : SessionEnd
  store_failed : Error → SessionEnd

abbrev pub replicate_request : ℕ → List ℕ
replicate_request from_seq = put_u64 (new_enc op_replicate) from_seq

-- `writeHeartbeat`: the payload.
abbrev pub heartbeat_frame : Node → List ℕ
heartbeat_frame n = put_bytes (put_u64 (new_enc status_heartbeat) n.epoch) n.leader_addr

abbrev pub redirect_frame : Node → List ℕ
redirect_frame n = put_bytes (new_enc status_redirect) n.leader_addr

-- The branch for StatusHeartbeat.
unfoldable pub take_heartbeat : Node → List ℕ → Node
take_heartbeat n body =
    let (epoch, d) = get_u64 (new_dec body) in
    let (addr, d') = get_bytes d in if d'.failed then n else adopt_epoch n addr epoch

-- What a call of the store leaves to the loop.
unfoldable pub stored {ℓ} : {A : Type ℓ} → Node → Store × Outcome A → Node × Option SessionEnd
stored n (s, ok _) = (record n { store = s }, none)
stored n (s, err e) = (record n { store = s }, some (store_failed e))

module _ ⦃c : Checksum⦄ where
  -- One round of the loop, from the frame on; `none` is that it goes on.
  unfoldable pub on_frame : Node → List ℕ → Io → List ℕ → Node × Option SessionEnd
  unfolding take_heartbeat stored
  on_frame n addr io [] = (n, some empty_frame)
  on_frame n addr io (status ∷ body) =
      let n' = record n { last_contact = io.now } in
      if status == status_live
      then (n', none)
      else if status == status_heartbeat
      then (take_heartbeat n' body, none)
      else if status == status_full_sync
      then stored n' (reset n'.store io)
      else if status == status_repl_data
      then stored n' (apply_raw n'.store body io)
      else if status == status_redirect
      then (redirected n' addr (get_bytes (new_dec body)).0, some not_leader)
      else if status == status_error
      then (n', some leader_error)
      else (n', some unexpected_frame)

  -- The loop over the frames that arrive until the connection ends; the `i`-th round has `io i`.
  unfoldable pub read_stream : Node → List ℕ → (ℕ → Io) → ℕ → List (List ℕ) → Node × SessionEnd
  unfolding on_frame
  read_stream n addr io i [] = (n, stream_closed)
  read_stream n addr io i (f ∷ fs) =
      let (n', ended) = on_frame n addr (io i) f in
      let rest = read_stream n' addr io (i + 1) fs in elim ended [ some e ↦ (n', e) | none ↦ rest ]

  -- `connected` and `sent` are whether it reaches the leader and can send its request.
  unfoldable pub replicate_from :
      Node → List ℕ → Bool → Bool → (ℕ → Io) → List (List ℕ) → Node × SessionEnd
  unfolding read_stream
  replicate_from n addr connected sent io frames =
      let (n', _) = open_session n in
      if not connected
      then (n, unreachable)
      else if not sent
      then (n', unreachable)
      else read_stream n' addr io 0 frames

  -- The frames of `serveReplication` before it streams, and whether it gets that far. `sends i` is
  -- whether the writer works after `i` frames; `none` is that the fuel of the snapshot has run out.
  unfoldable pub serve_replication :
      ℕ → Sights → (ℕ → Bool) → Node → ℕ → Option (List (List ℕ) × Bool)
  serve_replication fuel at sends n from_seq =
      if not (n.role == leader)
      then some (redirect_frame n ∷ [], false)
      else if not (sends 0)
      then some ([], false)
      else elim (catch_up fuel at (λ i. sends (i + 1)) n.store from_seq) [
        | none ↦ none
        | some (frames, caught_up) ↦
            let sent = heartbeat_frame n ∷ frames in
            if caught_up && sends (length sent)
            then some (sent ++ (write_status status_live ∷ []), true)
            else some (sent, false)
      ]
