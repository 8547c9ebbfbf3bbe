-- ===== src/Node/Streams.antt =====
-- The live streams of a leader in internal/node/replication.go: the queue that `fanout` fills for each
-- follower, and the loop of `serveReplication` that empties it.
pub mod Unbroken
use gokv.Prelude.{
  ℕ, ◌≡◌, Bool, true, false, Option, none, some, List, [], ◌∷◌, ◌++◌, ltb, ◌==◌, if◌then◌else◌,
  length,
}

-- streamBuffer.
abbrev pub stream_buffer : ℕ
stream_buffer = 4096

-- `queue` is what the channel holds, `done` whether it has been closed.
pub record Stream : Type 0 where
  pub queue : List (List ℕ)
  pub done : Bool

abbrev pub new_stream : Stream
new_stream = record { queue = []; done = false }

-- The map `streams`, by the streams' identities.
abbrev pub Streams : Type 0
Streams = List (ℕ × Stream)

-- One round of the loop of `fanout`: a full queue costs the follower its stream.
unfoldable pub offer : List ℕ → Stream → Stream
offer raw s =
    if ltb (length s.queue) stream_buffer
    then record s { queue = s.queue ++ (raw ∷ []) }
    else record s { done = true }

unfoldable pub fanout : List ℕ → Streams → Streams
unfolding offer
fanout raw [] = []
fanout raw ((i, s) ∷ ss) = (i, offer raw s) ∷ fanout raw ss

unfoldable pub add_stream : ℕ → Streams → Streams
add_stream i ss = (i, new_stream) ∷ ss

unfoldable pub remove_stream : ℕ → Streams → Streams
remove_stream i [] = []
remove_stream i ((j, s) ∷ ss) = if j == i then remove_stream i ss else (j, s) ∷ remove_stream i ss

unfoldable pub close_all_streams : Streams → Streams
close_all_streams [] = []
close_all_streams ((i, s) ∷ ss) = (i, record s { done = true }) ∷ close_all_streams ss

-- A stream with what `serveReplication` has written of it.
pub record Feed : Type 0 where
  pub stream : Stream
  pub sent : List (List ℕ)

abbrev pub new_feed : Feed
new_feed = record { stream = new_stream; sent = [] }

-- A buffer is received from the channel and written, at the top of the loop or while it drains.
unfoldable pub send_next : Feed → Option Feed
send_next g = elim g.stream.queue [
  | [] ↦ none
  | x ∷ q ↦ some (record { stream = record (g.stream) { queue = q }; sent = g.sent ++ (x ∷ []) })
]

-- What happens to a stream, with the buffers that `fanout` has been given meanwhile. Where both the
-- channel and `done` are ready, `select` may take either, so a closed stream is still sent from.
pub data Run (f : Feed) : List (List ℕ) → Feed → Type 0 where
  here : Run f [] f
  offered :
      {xs : List (List ℕ)} {g : Feed} (raw : List ℕ)
      → Run f xs g
      → Run f (xs ++ (raw ∷ [])) (record g { stream = offer raw g.stream })
  sends : {xs : List (List ℕ)} {g g' : Feed} → Run f xs g → send_next g ≡ some g' → Run f xs g'
  closes :
      {xs : List (List ℕ)} {g : Feed}
      → Run f xs g
      → Run f xs (record g { stream = record (g.stream) { done = true } })
