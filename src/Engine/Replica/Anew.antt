-- ===== src/Engine/Replica/Anew.antt =====
-- A replica that is handed records of keys that it does not have, in any order of their sequence
-- numbers, as the frames of a snapshot are.
use gokv.Prelude.{
  ℕ, suc, ◌+◌, ◌≤◌, ◌<◌, ◌≡◌, refl, ap, ◌∙◌, sym, Bool, true, false, some, List, [], ◌∷◌, arith,
  length, append-nil, ltb, if◌then◌else◌, Bool-cases, inl, inr,
}
use gokv.Prelude.Bytes.{u32_mod}
use gokv.Prelude.Keys.{key_eq, key_eq→eq}
use gokv.Engine.Record.{Checksum, Record, encode, IsStorable, is_tombstone}
use gokv.Engine.Record.Layout.{length-encode}
use gokv.Engine.Record.Scan.{encodes}
use gokv.Engine.Store.{
  Store, Io, Outcome, ok, err, closed_store, SyncMode, always, interval, never, Written, whole,
  part,
}
use gokv.Engine.Store.Append.{
  write_locked, encode_all, maybe_rotate, open_new_active, append_to_active, append_written,
  sync_and_publish, publish,
}
use gokv.Engine.Store.Sound.Defs.{IsBelowAt, IsBelow-at, value_of}
use gokv.Engine.Store.Sound.Refine.{IsLive}
use gokv.Engine.Store.Sound.Served.{well, synced_ok, rotate_ok}
use gokv.Engine.Store.Sound.Write.{Wrote, write_locked-Wrote}
use gokv.Engine.Replica.{read_records, max_seq, raise_seq, apply_records, apply_raw}
use gokv.Engine.Replica.Follows.{read_records-encodes}

module _ ⦃c : Checksum⦄ where
  rotate-next_id : (s : Store) (n : ℕ) (io : Io) → (maybe_rotate s n io).0.next_id ≤ s.next_id + 1
  unfolding maybe_rotate open_new_active
  rotate-next_id s n io = ground arith

  synced-next_id :
      (m : SyncMode) (sync : Bool) (s : Store) (base : ℕ) (rs : List Record) (buf : List ℕ)
      → (sync_and_publish m sync s base rs buf).0.next_id ≡ s.next_id
  unfolding sync_and_publish publish
  synced-next_id always true s base rs buf = refl
  synced-next_id always false s base rs buf = refl
  synced-next_id interval sync s base rs buf = refl
  synced-next_id never sync s base rs buf = refl

  append-next_id :
      (w : Written) (s : Store) (rs : List Record) (buf : List ℕ) (io : Io)
      → w ≡ io.write
      → (append_to_active s rs buf io).0.next_id ≡ s.next_id
  unfolding append_to_active append_written
  append-next_id (part n cut) s rs buf io e = rw (← e) refl
  append-next_id whole s rs buf io e = rw (← e) (synced-next_id _ _ _ _ _ _)

  -- One write takes one file id at most.
  pub write_locked-next_id :
      (s : Store) (rs : List Record) (io : Io) → (write_locked s rs io).0.next_id ≤ s.next_id + 1
  unfolding write_locked
  write_locked-next_id s rs io =
      let n = length (encode_all [] rs) in
      let s' = (maybe_rotate s n io).0 in
      elim (Bool-cases (maybe_rotate s n io).1) [
        | inl on ↦ rw on (
            omega (
              arith,
              append-next_id io.write s' rs (encode_all [] rs) io refl,
              rotate-next_id s n io,
            ))
        | inr off ↦ rw off (rotate-next_id s n io)
      ]

  write_locked_ok :
      (s : Store) (rs : List Record) (now : ℕ) → (write_locked s rs (well now)).1 ≡ ok tt
  unfolding write_locked append_to_active append_written
  write_locked_ok s rs now = rw (rotate_ok s (length (encode_all [] rs)) now) (synced_ok _ _ _ _ _)

  -- What a replica has become by taking one record of a key that it did not have.
  pub record Took (s : Store) (r : Record) (res : Store × Outcome ℕ) : Type 0 where
    pub live : IsLive res.0
    pub fine : res.1 ≡ ok r.seq
    pub open_still : res.0.closed ≡ s.closed
    pub ids : res.0.next_id ≤ s.next_id + 1
    pub values :
        (j : List ℕ) → value_of res.0 j ≡ (if key_eq r.key j then some r.value else value_of s j)
    pub absent :
        (j : List ℕ)
        → IsBelowAt 0 j s.keydir.index
        → key_eq r.key j ≡ false
        → IsBelowAt 0 j res.0.keydir.index

  Took-raised :
      (s : Store) (r : Record) (res : Store × Outcome (Unit {0}))
      → IsLive s
      → is_tombstone r ≡ false
      → IsBelowAt 0 r.key s.keydir.index
      → Wrote s (r ∷ []) res
      → res.1 ≡ ok tt
      → res.0.next_id ≤ s.next_id + 1
      → Took s r (raise_seq (max_seq 0 (r ∷ [])) res)
  unfolding raise_seq max_seq
  Took-raised s r (t, err e) h plain new w fine ids = absurd cc
  Took-raised s r (t, ok u) h plain new w fine ids =
      let top : ℕ = if ltb 0 r.seq then r.seq else 0 in
      let is : top ≡ r.seq = ground arith in
      let raised : ℕ = if ltb t.seq top then top else t.seq in
      let above : (s.seq ≤ raised) × (r.seq ≤ raised) = ground (arith, w.seq) in
      record {
        live = record {
          sound = record { indexing = w.sound.indexing; stocked = w.sound.stocked };
          newest =
              w.below raised (record { at = λ k x q. omega (arith, h.newest.at k x q, above) })
                (above.1, tt);
        };
        fine = ap ok is;
        open_still = w.open_still;
        ids = ids;
        values = λ j. elim (Bool-cases (key_eq r.key j)) [
          | inl same ↦
              w.holds 0 j (rw (← key_eq→eq r.key j same) new) ((λ _. omega arith), tt)
              ∙ rw (same, plain) refl
          | inr other ↦
              w.holds (s.seq + 1) j (IsBelow-at s.seq j s.keydir.index h.newest)
                ((λ same. absurd (cc (sym same ∙ other))), tt)
              ∙ rw other refl
        ];
        absent = λ j b other. w.below_at 0 j b (other, tt);
      }

  Took-if :
      (s : Store) (r : Record) (b : Bool) (res : Store × Outcome ℕ)
      → b ≡ false
      → Took s r res
      → Took s r (if b then (s, err closed_store) else res)
  Took-if s r true res e t = absurd cc
  Took-if s r false res e t = t

  pub apply_raw-Took :
      (s : Store) (r : Record) (now : ℕ)
      → IsLive s
      → s.closed ≡ false
      → s.next_id + 1 < u32_mod
      → IsStorable r
      → is_tombstone r ≡ false
      → IsBelowAt 0 r.key s.keydir.index
      → Took s r (apply_raw s (encode r) (well now))
  unfolding apply_raw apply_records
  apply_raw-Took s r now h opened room storable plain new =
      let one : encodes (r ∷ []) ≡ encode r = unfold encodes in append-nil (encode r) in
      let read : read_records (suc (length (encode r))) (encode r) ≡ some (r ∷ []) = rw one at (
        read_records-encodes (suc (length (encodes (r ∷ [])))) (r ∷ []) (storable, tt)
          (omega arith)) in
      let small : length (encodes (r ∷ [])) < u32_mod =
        omega (arith, ap length one, length-encode r, storable.key_fits, storable.value_fits) in
      rw (apply_raw, read)
        (Took-if s r s.closed _ opened (
          Took-raised s r (write_locked s (r ∷ []) (well now)) h plain new
            (write_locked-Wrote s (r ∷ []) (well now) h.sound room (storable, tt) small)
            (write_locked_ok s (r ∷ []) now) (write_locked-next_id s (r ∷ []) (well now))))
