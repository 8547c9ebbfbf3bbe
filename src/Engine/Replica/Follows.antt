-- ===== src/Engine/Replica/Follows.antt =====
-- A replica that is handed what the leader has appended: `writeLocked` notifies the observers of a
-- buffer, `ApplyRaw` takes it.
use gokv.Prelude.{
  ℕ, zero, suc, ◌+◌, ◌≤◌, ◌<◌, ◌≡◌, refl, Bool, true, false, some, List, [], ◌∷◌, ◌++◌, arith, ltb,
  if◌then◌else◌, length, drop, All, length-append, take-append, drop-append,
}
use gokv.Prelude.Bytes.{u32_mod}
use gokv.Engine.Record.{Checksum, Record, header_size, encode, IsStorable}
use gokv.Engine.Record.Layout.{length-encode}
use gokv.Engine.Record.RoundTrip.{key_len_read, value_len_read, decode-encode}
use gokv.Engine.Record.Scan.{encodes}
use gokv.Engine.Store.{Store, Io, Outcome, ok, err, closed_store}
use gokv.Engine.Store.Append.{write_locked, encode_all}
use gokv.Engine.Store.Sound.Defs.{value_of, IsBelow-at}
use gokv.Engine.Store.Sound.Publish.{latest, Ascends, Ascends-at, encode_all-encodes}
use gokv.Engine.Store.Sound.Refine.{IsLive}
use gokv.Engine.Store.Sound.Write.{Wrote, write_locked-Wrote}
use gokv.Engine.Replica.{next_raw, read_records, max_seq, raise_seq, apply_records, apply_raw}

module _ ⦃c : Checksum⦄ where
  next_raw-encode :
      (r : Record) (rest : List ℕ)
      → IsStorable r
      → next_raw (encode r ++ rest) ≡ some (length (encode r), r)
  unfolding next_raw
  next_raw-encode r rest h = ground (
    arith,
    key_len_read r h rest,
    value_len_read r h rest,
    take-append (header_size + length r.key + length r.value) (encode r) rest (length-encode r),
    length-append (encode r) rest,
    length-encode r,
    decode-encode r h,
    h.key_pos,
    h.key_fits,
    h.value_fits,
  )

  read_step :
      (f : ℕ) (rest : List ℕ) (size : ℕ) (r : Record) (rs : List Record)
      → next_raw rest ≡ some (size, r)
      → 0 < length rest
      → read_records f (drop size rest) ≡ some rs
      → read_records (suc f) rest ≡ some (r ∷ rs)
  unfolding read_records
  read_step f [] size r rs e pos later = absurd (omega arith)
  read_step f (b ∷ rest) size r rs e pos later = rw (read_records, e, later)

  pub read_records-encodes :
      (f : ℕ) (rs : List Record)
      → All IsStorable rs
      → length (encodes rs) < f
      → read_records f (encodes rs) ≡ some rs
  unfolding read_records encodes
  read_records-encodes zero rs h fuel = absurd (omega arith)
  read_records-encodes (suc f) [] h fuel = refl
  read_records-encodes (suc f) (r ∷ rs) h fuel =
      let total = length-append (encode r) (encodes rs) in
      let size = length-encode r in
      read_step f (encode r ++ encodes rs) (length (encode r)) r rs
        (next_raw-encode r (encodes rs) h.0) (omega arith)
        (rw (drop-append (length (encode r)) (encode r) (encodes rs) refl)
          (read_records-encodes f rs h.1 (omega arith)))

  pub max_seq_le :
      (m : ℕ) (rs : List Record) → (m ≤ max_seq m rs) × All (λ r. r.seq ≤ max_seq m rs) rs
  unfolding max_seq
  max_seq_le m [] = (omega arith, tt)
  max_seq_le m (r ∷ rs) =
      let m' = if ltb m r.seq then r.seq else m in
      let (grows, all) = max_seq_le m' rs in (ground (arith, grows), (ground (arith, grows), all))

  All-le : (m n : ℕ) (rs : List Record) → m ≤ n → All (λ r. r.seq ≤ m) rs → All (λ r. r.seq ≤ n) rs
  All-le m n [] le h = tt
  All-le m n (r ∷ rs) le h = (omega (arith, h.0), All-le m n rs le h.1)

  -- What a replica has become by applying some records, or by failing to.
  pub record Followed (s : Store) (rs : List Record) (res : Store × Outcome ℕ) : Type 0 where
    pub live : IsLive res.0
    pub values :
        (j : List ℕ)
        → value_of res.0 j ≡ elim res.1 [ ok u ↦ latest j rs (value_of s j) | err e ↦ value_of s j ]

  Followed-if :
      (s : Store) (rs : List Record) (b : Bool) (res : Store × Outcome (Unit {0}))
      → IsLive s
      → Ascends s.seq rs
      → Wrote s rs res
      → Followed s rs (if b then (s, err closed_store) else raise_seq (max_seq 0 rs) res)
  unfolding raise_seq
  Followed-if s rs true res h up w = record { live = h; values = λ j. refl }
  Followed-if s rs false (t, err e) h up w = record {
    live = record { sound = w.sound; newest = rw (w.seq, w.failed e refl) h.newest };
    values = λ j.
        w.holds (s.seq + 1) j (IsBelow-at s.seq j s.keydir.index h.newest)
          (Ascends-at j s.seq (s.seq + 1) rs up (omega arith));
  }
  Followed-if s rs false (t, ok u) h up w =
      let top = max_seq 0 rs in
      let raised = if ltb t.seq top then top else t.seq in
      let above : (s.seq ≤ raised) × (top ≤ raised) = ground (arith, w.seq) in
      record {
        live = record {
          sound = record { indexing = w.sound.indexing; stocked = w.sound.stocked };
          newest =
              w.below raised (record { at = λ k x q. omega (arith, h.newest.at k x q, above) })
                (All-le top raised rs above.1 (max_seq_le 0 rs).1);
        };
        values = λ j.
            w.holds (s.seq + 1) j (IsBelow-at s.seq j s.keydir.index h.newest)
              (Ascends-at j s.seq (s.seq + 1) rs up (omega arith));
      }

  Followed-records :
      (s : Store) (rs : List Record) (io : Io)
      → IsLive s
      → Ascends s.seq rs
      → Wrote s rs (write_locked s rs io)
      → Followed s rs (apply_records s rs io)
  unfolding apply_records
  Followed-records s [] io h up w = record { live = h; values = λ j. refl }
  Followed-records s (r ∷ rs) io h up w = Followed-if s (r ∷ rs) s.closed _ h up w

  -- A live replica with a file id left applies the buffer of storable records of less than 2 ^ 32
  -- bytes whose sequence numbers go up from its own: it stays live, and holds for every key what
  -- the records say if `apply_raw` succeeds, and what it held if not.
  pub apply_raw-encode_all :
      (s : Store) (rs : List Record) (io : Io)
      → IsLive s
      → s.next_id + 1 < u32_mod
      → All IsStorable rs
      → length (encodes rs) < u32_mod
      → Ascends s.seq rs
      → Followed s rs (apply_raw s (encode_all [] rs) io)
  unfolding apply_raw
  apply_raw-encode_all s rs io h room storable fits up =
      let read = read_records-encodes (suc (length (encodes rs))) rs storable (omega arith) in
      rw (encode_all-encodes, apply_raw, read)
        (Followed-records s rs io h up (write_locked-Wrote s rs io h.sound room storable fits))
