-- ===== src/Engine/Replica/Hostile.antt =====
-- `ApplyRaw` on any bytes: what it lets through can be written.
use gokv.Prelude.{
  ℕ, zero, suc, ◌+◌, ◌≤◌, ◌<◌, ◌≡◌, refl, ap, sym, Bool, true, false, ◌||◌, Option, none, some,
  List, [], ◌∷◌, arith, ltb, ◌==◌, if◌then◌else◌, length, take, drop, slice, All-take, All-drop,
  slice-take, All, length-append, length-drop, Option-cases, inl, inr,
}
use gokv.Prelude.Bytes.{un_le, IsByte, u32_mod}
use gokv.Engine.Record.{
  Checksum, Record, header_size, max_key_size, max_value_size, encode, IsStorable, decode_record,
}
use gokv.Engine.Record as Rec
use gokv.Engine.Record.Accepted.{decode_record-fields}
use gokv.Engine.Record.Layout.{length-encode}
use gokv.Engine.Record.Scan.{encodes}
use gokv.Engine.Store.{Store, Io, Outcome, ok, err, closed_store}
use gokv.Engine.Store.Append.{write_locked}
use gokv.Engine.Store.Sound.Defs.{IsSound}
use gokv.Engine.Store.Sound.Write.{write_locked-Wrote}
use gokv.Engine.Replica.{next_raw, read_records, max_seq, raise_seq, apply_records, apply_raw}

module _ ⦃c : Checksum⦄ where
  abbrev sized : ℕ → Rec.Decoded → Option (ℕ × Record)
  sized size (Rec.ok r) = some (size, r)
  sized size (Rec.err e) = none

  raw_branches :
      (a b d : Bool) (o : Rec.Decoded) (size size' : ℕ) (r : Record)
      → (if a then none else if b then none else if d then none else sized size o) ≡ some (size', r)
      → (b ≡ false) × (d ≡ false) × (size ≡ size') × (o ≡ Rec.ok r)
  raw_branches true b d o size size' r h = absurd cc
  raw_branches false true d o size size' r h = absurd cc
  raw_branches false false true o size size' r h = absurd cc
  raw_branches false false false (Rec.err e) size size' r h = absurd cc
  raw_branches false false false (Rec.ok q) size size' r h = (refl, refl, cc, cc)

  raw_from :
      (rest : List ℕ) (size : ℕ) (r : Record)
      → next_raw rest ≡ some (size, r)
      → let kl = un_le (slice 21 25 rest) in
        let vl = un_le (slice 25 29 rest) in
        (size ≡ header_size + kl + vl)
        × (0 < kl)
        × (kl ≤ max_key_size)
        × (vl ≤ max_value_size)
        × (size ≤ length rest)
        × (decode_record (take size rest) ≡ Rec.ok r)
  unfolding next_raw
  raw_from rest size r h =
      let kl = un_le (slice 21 25 rest) in
      let vl = un_le (slice 25 29 rest) in
      let n = header_size + kl + vl in
      let (bounds, whole, same, decoded) =
        raw_branches (ltb (length rest) header_size)
          (kl == 0 || ltb max_key_size kl || ltb max_value_size vl) (ltb (length rest) n)
          (decode_record (take n rest)) n size r h in
      (
        sym same,
        ground (arith, bounds),
        ground (arith, bounds),
        ground (arith, bounds),
        ground (arith, whole, same),
        rw (← same) decoded,
      )

  next_raw-IsStorable :
      (rest : List ℕ) (size : ℕ) (r : Record)
      → next_raw rest ≡ some (size, r)
      → All IsByte rest
      → IsStorable r × (size ≡ length (encode r)) × (size ≤ length rest)
  next_raw-IsStorable rest size r h bytes =
      let (e, pos, small, short, inside, decoded) = raw_from rest size r h in
      let buf = take size rest in
      let (ts, seq, flags, key, value) =
        decode_record-fields buf r decoded (All-take IsByte size rest bytes) in
      let kl : un_le (slice 21 25 buf) ≡ un_le (slice 21 25 rest) =
        ap un_le (slice-take 21 25 size rest (omega arith) (omega arith) inside) in
      let vl : un_le (slice 25 29 buf) ≡ un_le (slice 25 29 rest) =
        ap un_le (slice-take 25 29 size rest (omega arith) (omega arith) inside) in
      (
        record {
          ts_fits = ts;
          seq_fits = seq;
          flags_fits = flags;
          key_pos = omega arith;
          key_fits = omega arith;
          value_fits = omega arith;
        },
        omega (arith, length-encode r),
        inside,
      )

  pub read_records-IsStorable :
      (fuel : ℕ) (raw : List ℕ) (rs : List Record)
      → read_records fuel raw ≡ some rs
      → All IsByte raw
      → All IsStorable rs × (length (encodes rs) ≡ length raw)
  unfolding read_records encodes
  read_records-IsStorable zero raw rs h bytes = absurd cc
  read_records-IsStorable (suc f) [] rs h bytes = let e : [] ≡ rs = cc in rw (← e) (tt, refl)
  read_records-IsStorable (suc f) (b ∷ rest) rs h bytes =
      elim (Option-cases (next_raw (b ∷ rest))) [
        | inl e ↦ absurd (cc (rw (read_records, e) at h))
        | inr ((size, r), e) ↦ elim (Option-cases (read_records f (drop size (b ∷ rest)))) [
          | inl e' ↦ absurd (cc (rw (read_records, e, e') at h))
          | inr (qs, e') ↦
              let same : some (r ∷ qs) ≡ some rs = rw (read_records, e, e') at h in
              let rest_of : r ∷ qs ≡ rs = cc in
              let (storable, size_of, inside) = next_raw-IsStorable (b ∷ rest) size r e bytes in
              let (all, total) =
                read_records-IsStorable f (drop size (b ∷ rest)) qs e'
                  (All-drop IsByte size (b ∷ rest) bytes) in
              rw (← rest_of) (
                (storable, all),
                omega (arith, length-append (encode r) (encodes qs), length-drop size (b ∷ rest)),
              )
        ]
      ]

  IsSound-if :
      (s : Store) (n : ℕ) (b : Bool) (res : Store × Outcome (Unit {0}))
      → IsSound s
      → IsSound res.0
      → IsSound (if b then (s, err closed_store) else raise_seq n res).0
  unfolding raise_seq
  IsSound-if s n true res h h' = h
  IsSound-if s n false (t, ok u) h h' = record { indexing = h'.indexing; stocked = h'.stocked }
  IsSound-if s n false (t, err e) h h' = h'

  apply_records-IsSound :
      (s : Store) (rs : List Record) (io : Io)
      → IsSound s
      → s.next_id + 1 < u32_mod
      → All IsStorable rs
      → length (encodes rs) < u32_mod
      → IsSound (apply_records s rs io).0
  unfolding apply_records
  apply_records-IsSound s [] io h room storable fits = h
  apply_records-IsSound s (r ∷ rs) io h room storable fits =
      IsSound-if s (max_seq 0 (r ∷ rs)) s.closed (write_locked s (r ∷ rs) io) h
        (write_locked-Wrote s (r ∷ rs) io h room storable fits).sound

  -- Whatever bytes, fewer than 2 ^ 32, a sound store with a file id left is given, and whatever
  -- the operating system answers, `apply_raw` leaves a sound store.
  pub apply_raw-IsSound :
      (s : Store) (raw : List ℕ) (io : Io)
      → IsSound s
      → s.next_id + 1 < u32_mod
      → All IsByte raw
      → length raw < u32_mod
      → IsSound (apply_raw s raw io).0
  unfolding apply_raw
  apply_raw-IsSound s raw io h room bytes fits =
      elim (Option-cases (read_records (suc (length raw)) raw)) [
        | inl e ↦ rw (apply_raw, e) h
        | inr (rs, e) ↦
            let (storable, size) = read_records-IsStorable (suc (length raw)) raw rs e bytes in
            rw (apply_raw, e) (apply_records-IsSound s rs io h room storable (omega arith))
      ]
