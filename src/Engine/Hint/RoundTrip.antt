-- ===== src/Engine/Hint/RoundTrip.antt =====
-- A whole hint file: what `buildHint` writes of a data file, and what `readHint` makes of it.
use gokv.Prelude.{
  ℕ, zero, suc, ◌+◌, ◌%◌, ◌<◌, ◌≡◌, refl, ap, ◌∙◌, sym, Bool, true, false, none, some, List, [],
  ◌∷◌, ◌++◌, arith, length, All, append_assoc, append-nil, length-append, if◌then◌else◌, Bool-cases,
  inl, inr,
}
use gokv.Prelude.Bytes.{u32_mod, u64_mod}
use gokv.Prelude.Keys.{key_eq_refl}
use gokv.Engine.Record.{Checksum, Record, encode, IsStorable, next_record, scan_file}
use gokv.Engine.Record.Scan.{encodes, each, scan_file-encodes}
use gokv.Engine.Index.{Entry}
use gokv.Engine.Recover.{entry_at}
use gokv.Engine.Hint.{
  hint_magic, hint_record, HintIo, hint_step, commit_hint, build_hint, read_hints, read_hint,
}
use gokv.Engine.Hint.Layout.{all_written, length-hint_record, read_hints-nil, read_hints-record}

module _ ⦃c : Checksum⦄ where
  -- The entry for a record at its offset.
  abbrev pub located : ℕ → ℕ → Record → Entry
  located id pos r = entry_at id pos (length (encode r) % u32_mod) r

  -- The part of a hint file for some records.
  abbrev pub hints_of : ℕ → ℕ → List Record → List ℕ
  hints_of id pos [] = []
  hints_of id pos (r ∷ rs) =
      hint_record r.key (located id pos r) r.flags ++ hints_of id (pos + length (encode r)) rs

  each-hint_step :
      (io : HintIo) (id pos : ℕ) (rs : List Record) (buf : List ℕ)
      → (each (hint_step io id) pos rs buf).2 ≡ false
      → (each (hint_step io id) pos rs buf).0 ≡ buf ++ hints_of id pos rs
  unfolding each hint_step
  each-hint_step io id pos [] buf h = sym (append-nil buf)
  each-hint_step io id pos (r ∷ rs) buf h = elim (Bool-cases (io.add (length buf))) [
    | inl added ↦
        rw added (
          each-hint_step io id (pos + length (encode r)) rs _ (rw added at h)
          ∙ append_assoc buf _ _)
    | inr lost ↦ absurd (cc (rw lost at h))
  ]

  commit_hint-some : (io : HintIo) (buf h : List ℕ) → commit_hint io buf ≡ some h → h ≡ buf
  commit_hint-some io buf h e = ground arith

  ended :
      (io : HintIo) (h : List ℕ) (res : List ℕ × ℕ × Bool)
      → (if res.2 then none else commit_hint io res.0) ≡ some h
      → (res.2 ≡ false) × (h ≡ res.0)
  ended io h (buf, at, true) e = absurd cc
  ended io h (buf, at, false) e = (refl, commit_hint-some io buf h e)

  scanned_hint :
      (io : HintIo) (id : ℕ) (contents h : List ℕ)
      → build_hint io id contents ≡ some h
      → let res = scan_file (hint_step io id) contents hint_magic in (res.2 ≡ false) × (h ≡ res.0)
  unfolding build_hint
  scanned_hint io id contents h e = elim (Bool-cases io.create) [
    | inr no_file ↦ absurd (cc (rw (build_hint, no_file) at e))
    | inl made ↦ elim (Bool-cases io.magic) [
      | inr no_magic ↦ absurd (cc (rw (build_hint, made, no_magic) at e))
      | inl ready ↦
          ended io h (scan_file (hint_step io id) contents hint_magic)
            (rw (build_hint, made, ready) at e)
    ]
  ]

  -- A hint that is put in place is complete, whatever the operating system answers.
  pub build_hint-some :
      (io : HintIo) (id : ℕ) (rs : List Record) (tail h : List ℕ)
      → All IsStorable rs
      → next_record tail ≡ none
      → build_hint io id (encodes rs ++ tail) ≡ some h
      → h ≡ hint_magic ++ hints_of id 0 rs
  build_hint-some io id rs tail h storable torn e =
      let same = scan_file-encodes (hint_step io id) rs tail hint_magic storable torn in
      let (fine, is) = scanned_hint io id (encodes rs ++ tail) h e in
      is
      ∙ ap (λ x. x.0) same
      ∙ each-hint_step io id 0 rs hint_magic (sym (ap (λ x. x.2) same) ∙ fine)

  module _ {ℓ} {S : Type ℓ} (fn : List ℕ → Entry → ℕ → S → S) where
    -- The callback of `readHint` over some records.
    abbrev pub hinted : ℕ → ℕ → List Record → S → S
    hinted id pos [] acc = acc
    hinted id pos (r ∷ rs) acc =
        hinted id (pos + length (encode r)) rs (fn r.key (located id pos r) r.flags acc)

    read_hints-hints_of :
        (f id pos : ℕ) (rs : List Record) (acc : S)
        → All IsStorable rs
        → pos + length (encodes rs) < u64_mod
        → length (hints_of id pos rs) < f
        → read_hints fn f id (hints_of id pos rs) acc ≡ (hinted id pos rs acc, false)
    unfolding encodes
    read_hints-hints_of zero id pos rs acc h small fuel = absurd (omega arith)
    read_hints-hints_of (suc f) id pos [] acc h small fuel = read_hints-nil fn f id acc
    read_hints-hints_of (suc f) id pos (r ∷ rs) acc h small fuel =
        let total = length-append (encode r) (encodes rs) in
        let size = length-hint_record r.key (located id pos r) r.flags in
        read_hints-record fn f id r.key (located id pos r) r.flags _ acc (record {
          key_pos = h.0.key_pos;
          key_fits = h.0.key_fits;
          seq_fits = h.0.seq_fits;
          pos_fits = omega arith;
          size_fits = omega arith;
        })
        ∙ read_hints-hints_of f id (pos + length (encode r)) rs _ h.1 (omega arith) (
            omega (
              arith,
              fuel,
              size,
              length-append (hint_record r.key (located id pos r) r.flags)
                  (hints_of id (pos + length (encode r)) rs),
            ))

    -- A complete hint is read to its end.
    pub read_hint-hints_of :
        (id : ℕ) (rs : List Record) (acc : S)
        → All IsStorable rs
        → length (encodes rs) < u64_mod
        → read_hint fn id (hint_magic ++ hints_of id 0 rs) acc ≡ (hinted id 0 rs acc, false)
    unfolding read_hint
    read_hint-hints_of id rs acc h small = rw key_eq_refl (
        read_hints-hints_of (suc (length (hints_of id 0 rs))) id 0 rs acc h (omega arith)
          (omega arith))

  each-all_written :
      (id pos : ℕ) (rs : List Record) (buf : List ℕ)
      → (each (hint_step all_written id) pos rs buf).2 ≡ false
  unfolding each hint_step
  each-all_written id pos [] buf = refl
  each-all_written id pos (r ∷ rs) buf = each-all_written id (pos + length (encode r)) rs _

  -- Where every call succeeds there is a hint.
  pub build_hint-all_written :
      (id : ℕ) (rs : List Record) (tail : List ℕ)
      → All IsStorable rs
      → next_record tail ≡ none
      → build_hint all_written id (encodes rs ++ tail) ≡ some (hint_magic ++ hints_of id 0 rs)
  unfolding build_hint
  build_hint-all_written id rs tail storable torn =
      let fine = each-all_written id 0 rs hint_magic in
      rw (scan_file-encodes (hint_step all_written id) rs tail hint_magic storable torn, fine)
        (ap some (each-hint_step all_written id 0 rs hint_magic fine))
