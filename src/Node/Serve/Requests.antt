-- ===== src/Node/Serve/Requests.antt =====
-- Requests of clients on a leader: what the client writes into a frame is what the store is asked.
use gokv.Prelude.{
  ℕ, ◌*◌, ◌/◌, ◌%◌, ◌≤◌, ◌<◌, ◌≡◌, refl, ap, sym, ◌∙◌, false, none, List, [], ◌∷◌, ◌++◌, arith,
  length, drop, All, append_assoc, append-nil, ltb, length-append, length-drop, le→ltb,
}
use gokv.Prelude.Bytes.{be, length-be, u32_mod, u64_mod}
use gokv.Prelude.Keys.{key_eq_refl}
use gokv.Engine.Record.{Checksum, max_value_size}
use gokv.Engine.Store.{Store, Io, Outcome, ok, err, key_not_found, validate_key}
use gokv.Engine.Store.Methods.{put, batch_put}
use gokv.Engine.Store.Reads.{get}
use gokv.Engine.Store.Sound.Refine.{IsLive, HasRoom, valid_key}
use gokv.Engine.Store.Sound.Served.{well, get-put}
use gokv.Proto.{put_bytes, put_u32, new_enc, Enc, Decoder, new_dec, remaining}
use gokv.Proto.Read.{Holds, Holds-new_dec, read_u32, read_bytes, done-read, prefixed}
use gokv.Proto.Wire.{op_get, op_batch_put, status_ok}
use gokv.Node.{Node, leader, ErrorTexts, engine, write_error}
use gokv.Node.Serve.{
  key_request, put_request, put_pairs, batch_request, serve_get, serve_put, write_on, read_pairs,
  serve_batch_put,
}

module _ ⦃c : Checksum⦄ ⦃texts : ErrorTexts⦄ where
  serve_put-request :
      (n : Node) (io : Io) (key value : List ℕ)
      → n.role ≡ leader
      → length key < u32_mod
      → length value < u32_mod
      → serve_put n io (drop 1 (put_request key value))
        ≡ write_on n (put n.store key value io) (write_error (engine key_not_found))
  unfolding serve_put
  serve_put-request n io key value led hk hv =
      let body = prefixed key ++ (prefixed value ++ []) in
      let same : drop 1 (put_request key value) ≡ body = simp (append_assoc, append-nil) refl in
      let (d1, e1, h1) =
        read_bytes (new_dec body) key (prefixed value ++ []) hk (Holds-new_dec body) in
      let (d2, e2, h2) = read_bytes d1 value [] hv h1 in
      rw (same, serve_put, e1, e2, done-read d2 h2, led)

  serve_get-request :
      (n : Node) (key value : List ℕ)
      → length key < u32_mod
      → (get n.store key).1 ≡ ok value
      → (serve_get n (drop 1 (key_request op_get key))).1 ≡ status_ok ∷ prefixed value
  unfolding serve_get
  serve_get-request n key value hk found =
      let body = prefixed key ++ [] in
      let same : drop 1 (key_request op_get key) ≡ body = simp (append_assoc, append-nil) refl in
      let (d1, e1, h1) = read_bytes (new_dec body) key [] hk (Holds-new_dec body) in
      rw (same, serve_get, e1, done-read d1 h1, found)

  write_on-ok :
      (n : Node) (res : Store × Outcome (Unit {0})) (missing : List ℕ)
      → res.1 ≡ ok tt
      → write_on n res missing ≡ (record n { store = res.0 }, status_ok ∷ [])
  unfolding write_on
  write_on-ok n (s, ok u) missing h = refl
  write_on-ok n (s, err e) missing h = absurd cc

  -- On a leader whose store is live and open, with a file id and a sequence number left, a
  -- working operating system and a clock of 64 bits, the frame that a client makes for a PUT of a
  -- valid pair is answered by StatusOK, and the frame for a GET of the key that follows by
  -- StatusOK and the value.
  pub serve_get-serve_put :
      (n : Node) (key value : List ℕ) (now : ℕ)
      → n.role ≡ leader
      → IsLive n.store
      → HasRoom n.store 1
      → now < u64_mod
      → validate_key key ≡ none
      → length value ≤ max_value_size
      → n.store.closed ≡ false
      → let (n', reply) = serve_put n (well now) (drop 1 (put_request key value)) in
        (reply ≡ status_ok ∷ [])
        × ((serve_get n' (drop 1 (key_request op_get key))).1 ≡ status_ok ∷ prefixed value)
  serve_get-serve_put n key value now led live room fits valid short opened =
      let (done_put, found) =
        get-put n.store key value key now live room fits valid short opened valid in
      let (pos, small) = valid_key key valid in
      let t = put n.store key value (well now) in
      let e =
        serve_put-request n (well now) key value led (omega arith) (omega arith)
        ∙ write_on-ok n t (write_error (engine key_not_found)) done_put in
      rw e (
        refl,
        serve_get-request (record n { store = t.0 }) key value (omega arith)
            (rw key_eq_refl at found),
      )

  -- The pairs of a batch, one behind the other.
  pairs_bytes : List (List ℕ) → List (List ℕ) → List ℕ
  pairs_bytes (k ∷ ks) (v ∷ vs) = prefixed k ++ (prefixed v ++ pairs_bytes ks vs)
  pairs_bytes _ _ = []

  put_pairs-bytes : (e : Enc) (ks vs : List (List ℕ)) → put_pairs e ks vs ≡ e ++ pairs_bytes ks vs
  unfolding put_pairs pairs_bytes
  put_pairs-bytes e [] vs = sym (append-nil e)
  put_pairs-bytes e (k ∷ ks) [] = sym (append-nil e)
  put_pairs-bytes e (k ∷ ks) (v ∷ vs) =
      put_pairs-bytes (put_bytes (put_bytes e k) v) ks vs ∙ simp append_assoc refl

  abbrev Fits : List ℕ → Type 0
  Fits b = length b < u32_mod

  read_pairs-bytes :
      (ks vs : List (List ℕ)) (d : Decoder)
      → length ks ≡ length vs
      → All Fits ks
      → All Fits vs
      → Holds d (pairs_bytes ks vs)
      → (d' : Decoder) × (read_pairs (length ks) d ≡ (ks, vs, d')) × Holds d' []
  unfolding read_pairs pairs_bytes
  read_pairs-bytes [] [] d e hk hv h = (d, refl, h)
  read_pairs-bytes [] (v ∷ vs) d e hk hv h = absurd (omega arith)
  read_pairs-bytes (k ∷ ks) [] d e hk hv h = absurd (omega arith)
  read_pairs-bytes (k ∷ ks) (v ∷ vs) d e hk hv h =
      let (d1, e1, h1) = read_bytes d k _ hk.0 h in
      let (d2, e2, h2) = read_bytes d1 v _ hv.0 h1 in
      let (d3, e3, h3) = read_pairs-bytes ks vs d2 (omega arith) hk.1 hv.1 h2 in
      (d3, rw (read_pairs, e1, e2, e3, h2.fine), h3)

  length-pairs_bytes :
      (ks vs : List (List ℕ)) → length ks ≡ length vs → 8 * length ks ≤ length (pairs_bytes ks vs)
  unfolding pairs_bytes
  length-pairs_bytes [] vs e = omega arith
  length-pairs_bytes (k ∷ ks) [] e = absurd (omega arith)
  length-pairs_bytes (k ∷ ks) (v ∷ vs) e = omega (
    arith,
    length-append (prefixed k) (prefixed v ++ pairs_bytes ks vs),
    length-append (prefixed v) (pairs_bytes ks vs),
    length-append (be 4 (length k)) k,
    length-append (be 4 (length v)) v,
    length-be 4 (length k),
    length-be 4 (length v),
    length-pairs_bytes ks vs (omega arith),
  )

  remaining-Holds : (d : Decoder) (rest : List ℕ) → Holds d rest → remaining d ≡ length rest
  unfolding remaining
  remaining-Holds d rest h =
      ground (arith, h.fine, h.within, ap length h.unread, length-drop d.pos d.bytes)

  -- On a leader, the frame that a client makes for a BATCHPUT of equally many keys and values,
  -- their number and lengths below 2 ^ 32, passes the bound on the count, and the store is given
  -- those keys and values.
  pub serve_batch_put-request :
      (n : Node) (io : Io) (keys values : List (List ℕ))
      → n.role ≡ leader
      → length keys ≡ length values
      → length keys < u32_mod
      → All (λ k. length k < u32_mod) keys
      → All (λ v. length v < u32_mod) values
      → serve_batch_put n io (drop 1 (batch_request keys values))
        ≡ write_on n (batch_put n.store keys values io) (write_error (engine key_not_found))
  unfolding serve_batch_put
  serve_batch_put-request n io keys values led same_length few hk hv =
      let count = length keys in
      let body = be 4 count ++ pairs_bytes keys values in
      let small : count % u32_mod ≡ count = omega arith in
      let same : drop 1 (batch_request keys values) ≡ body =
        ap (drop 1) (put_pairs-bytes (put_u32 (new_enc op_batch_put) (count % u32_mod)) keys values)
        ∙ ap (λ x. be 4 x ++ pairs_bytes keys values) small in
      let (d, e, h) =
        read_u32 (new_dec body) count (pairs_bytes keys values) few (Holds-new_dec body) in
      let (d', e', h') = read_pairs-bytes keys values d same_length hk hv h in
      let room : ltb (remaining d / 8) count ≡ false =
        le→ltb (remaining d / 8) count
          (omega (arith, remaining-Holds d _ h, length-pairs_bytes keys values same_length)) in
      rw (same, serve_batch_put, e, e', h.fine, room, done-read d' h', led)
