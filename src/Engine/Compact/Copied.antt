-- ===== src/Engine/Compact/Copied.antt =====
-- Phase one of a compaction: each copy is the record that it was made from, without its batch flags.
use gokv.Prelude.{
  ℕ, ◌+◌, ◌%◌, ◌≤◌, ◌<◌, ◌≡◌, ◌∙◌, refl, sym, ap, Bool, true, false, not, ◌&&◌, Option, none, some,
  List, [], append-nil, arith, if◌then◌else◌, length, Bool-cases, inl, inr,
}
use native.Mathlib.Nat.{add-zero}
use gokv.Prelude.Bytes.{u32_mod}
use gokv.Engine.Record.{Checksum, Record, encode, IsStorable, is_tombstone, clear_batch_flags}
use gokv.Engine.Record.Layout.{length-encode}
use gokv.Engine.Record.RoundTrip.{decode-encode}
use gokv.Engine.Record.Flags.{unbatched, unbatched-IsStorable, clear_batch_flags-encode}
use gokv.Engine.Index.{Entry}
use gokv.Engine.Files.{DataFile, Files, file_of, set_file}
use gokv.Engine.Files.Laws.{file_of-set_file_self, slice-write_at}
use gokv.Engine.Store.{Outcome, ok, err, os_error}
use gokv.Engine.Store.Sound.Defs.{Points, read_at-bytes}
use gokv.Engine.Store.Sound.Grow.{
  Extends, Extends-refl, Extends-trans, Points-Extends, Points-Extends-rec,
}
use gokv.Engine.Compact.{CopyIo, Output, pick_out, write_out, file_at, copy_one}
use gokv.Engine.Compact.Copy.{
  Copying, Grew, Grew-refl, Picked, pick_out-Picked, appended, appended-Grew,
}

-- All calls of one copying succeed.
abbrev pub all_good : CopyIo → Bool
all_good io = io.create && (io.hint && (io.read && (io.write && io.note)))

module _ ⦃c : Checksum⦄ (before : Files) (n : ℕ) where
  -- The entry `new` locates a copy of the record of `old`, whose value is `v`, in an output file.
  pub record Moved (files : Files) (k : List ℕ) (old : Entry) (v : List ℕ) (new : Entry)
      : Type 0 where
    pub points : Points files k new
    pub value : points.rec.value ≡ v
    pub seq : new.seq ≡ old.seq
    pub plain : new.tomb ≡ false
    pub later : n ≤ new.file_id

  pub Moved-Extends :
      (files files' : Files) (k : List ℕ) (old : Entry) (v : List ℕ) (new : Entry)
      → Extends files files'
      → Moved files k old v new
      → Moved files' k old v new
  Moved-Extends files files' k old v new x m = record {
    points = Points-Extends files files' k new x m.points;
    value =
        ap (λ (r : Record). r.value) (Points-Extends-rec files files' k new x m.points) ∙ m.value;
    seq = m.seq;
    plain = m.plain;
    later = m.later;
  }

  -- Either the copying has failed because a call has, or there is such a copy.
  pub data CopyResult (io : CopyIo) (files : Files) (k : List ℕ) (old : Entry) (v : List ℕ)
      : Outcome (Option Entry) → Type 0 where
    failed : (x : _) → all_good io ≡ false → CopyResult io files k old v (err x)
    copied : (new : Entry) → Moved files k old v new → CopyResult io files k old v (ok (some new))

  pub record CopiedOne (io : CopyIo) (k : List ℕ) (old : Entry) (v : List ℕ) (o : Output)
      (res : Output × Outcome (Option Entry)) : Type 0 where
    pub grew : Grew before n o res.0
    pub result : CopyResult io res.0.files k old v res.1

  small_encoding : (r : Record) → IsStorable r → length (encode r) % u32_mod ≡ length (encode r)
  small_encoding r h = omega (arith, length-encode r, h.key_fits, h.value_fits)

  -- A copy of the record `r`.
  written-Moved :
      (o : Output) (id : ℕ) (f : DataFile) (r : Record) (k : List ℕ) (old : Entry)
      → Copying before n o
      → n ≤ id
      → file_of id o.files ≡ some f
      → IsStorable r
      → r.key ≡ k
      → r.seq ≡ old.seq
      → is_tombstone r ≡ false
      → Moved (set_file id (appended f (encode r)) o.files) k old r.value (record {
        pos = f.size;
        seq = r.seq;
        file_id = id;
        size = length (encode r) % u32_mod;
        tomb = false;
      })
  written-Moved o id f r k old h p q storable key seq live = record {
    points = record {
      file = appended f (encode r);
      rec = r;
      found = file_of-set_file_self id _ o.files;
      inside = omega (arith, small_encoding r storable);
      bytes = rw (small_encoding r storable) (
          rw add-zero at (
            slice-write_at f.contents (encode r) f.size (h.sizes id f q) [] (encode r) []
              (sym (append-nil (encode r)))));
      storable = storable;
      key = key;
      seq = refl;
      tomb = live;
    };
    value = refl;
    seq = seq;
    plain = refl;
    later = p;
  }

  write_out-CopyResult :
      (o : Output) (io : CopyIo) (id : ℕ) (r : Record) (k : List ℕ) (old : Entry)
      → Copying before n o
      → n ≤ id
      → (f : DataFile) × (file_of id o.files ≡ some f)
      → IsStorable r
      → r.key ≡ k
      → r.seq ≡ old.seq
      → is_tombstone r ≡ false
      → (Copying before n (write_out id r.seq (encode r) o io).0)
        × Extends o.files (write_out id r.seq (encode r) o io).0.files
        × ((write_out id r.seq (encode r) o io).0.next_id ≡ o.next_id)
        × CopyResult io
            (write_out id r.seq (encode r) o io).0.files
            k
            old
            r.value
            (write_out id r.seq (encode r) o io).1
  unfolding write_out
  write_out-CopyResult o io id r k old h p (f, q) storable key seq live =
      let g : Grew before n o (record o { files = set_file id (appended f (encode r)) o.files }) =
        appended-Grew before n o id f (encode r) h p q in
      let at : file_at id o.files ≡ f = rw (q, file_at) refl in
      elim (Bool-cases io.write) [
        | inr bad ↦
            rw bad (h, Extends-refl o.files, refl, CopyResult.failed _ (ground (arith, bad)))
        | inl good ↦ elim (Bool-cases io.note) [
          | inr bad ↦
              rw (good, bad, at)
                (g.copying, g.extends, refl, CopyResult.failed _ (ground (arith, bad)))
          | inl fine ↦
              rw (good, fine, at)
                (
                  g.copying,
                  g.extends,
                  refl,
                  CopyResult.copied _ (written-Moved o id f r k old h p q storable key seq live),
                )
        ]
      ]

  -- The copy goes to the file that has been picked.
  placed :
      (o : Output) (io : CopyIo) (r : Record) (k : List ℕ) (old : Entry) (buf : List ℕ)
      (picked : Output × Option ℕ)
      → buf ≡ encode r
      → Picked before n io o picked
      → IsStorable r
      → r.key ≡ k
      → r.seq ≡ old.seq
      → is_tombstone r ≡ false
      → CopiedOne io k old r.value o (elim picked.1 [
        | none ↦ (picked.0, err os_error)
        | some id ↦ write_out id r.seq buf picked.0 io
      ])
  placed o io r k old buf (o', none) e h storable key seq live = record {
    grew = h.grew;
    result = CopyResult.failed _ (ground (arith, h.missing refl));
  }
  placed o io r k old buf (o', some id) e h storable key seq live = rw e (
      let (later, there) = h.chosen id refl in
      let (copying, extends, same, result) =
        write_out-CopyResult o' io id r k old h.grew.copying later there storable key seq live in
      record {
        grew = record {
          copying = copying;
          extends = Extends-trans o.files o'.files _ h.grew.extends extends;
          ids = omega (arith, h.grew.ids, same);
        };
        result = result;
      })

  read_either :
      (io : CopyIo) (k : List ℕ) (old : Entry) (v : List ℕ) (o : Output) (b : Bool)
      (next : Output × Outcome (Option Entry))
      → (b ≡ false → CopiedOne io k old v o (o, err os_error))
      → CopiedOne io k old v o next
      → CopiedOne io k old v o (if not b then (o, err os_error) else next)
  read_either io k old v o true next f h = h
  read_either io k old v o false next f h = f refl

  pub copy_one-CopiedOne :
      (max_size : ℕ) (o : Output) (io : CopyIo) (k : List ℕ) (old : Entry)
      (p : Points o.files k old)
      → Copying before n o
      → o.next_id + 1 < u32_mod
      → old.tomb ≡ false
      → CopiedOne io k old p.rec.value o (copy_one max_size old o io)
  unfolding copy_one
  copy_one-CopiedOne max_size o io k old p h room live =
      let fits : p.file.size ≤ length p.file.contents = h.sizes old.file_id p.file p.found in
      let same_flags = clear_batch_flags-encode p.rec p.storable in
      rw
        (
          p.found,
          copy_one,
          read_at-bytes p.file old.pos old.size (encode p.rec) (omega (arith, p.inside)) p.bytes,
          decode-encode p.rec p.storable,
        )
        (read_either io k old p.rec.value o io.read _
          (λ bad. record {
            grew = Grew-refl before n o h;
            result = CopyResult.failed _ (ground (arith, bad));
          })
          (placed o io (unbatched p.rec) k old (clear_batch_flags (encode p.rec))
            (pick_out max_size (length (clear_batch_flags (encode p.rec))) o io) same_flags.0
            (pick_out-Picked before n max_size _ o io h room) (unbatched-IsStorable p.storable)
            p.key p.seq (same_flags.1 ∙ p.tomb ∙ live)))
