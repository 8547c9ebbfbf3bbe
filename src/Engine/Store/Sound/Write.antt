-- ===== src/Engine/Store/Sound/Write.antt =====
-- `writeLocked` keeps the invariant on every branch, and changes what the store holds only when it
-- succeeds.
use gokv.Prelude.{
  ℕ, ◌+◌, ◌≤◌, ◌<◌, ◌≡◌, refl, ap, ◌∙◌, Bool, true, false, some, List, [], arith, if◌then◌else◌,
  length, take, All,
}
use mathlib.Core.Path.{subst}
use gokv.Prelude.Bytes.{u32_mod}
use gokv.Prelude.Keys.{key_eq}
use gokv.Engine.Record.{Checksum, Record, IsStorable}
use gokv.Engine.Record.Scan.{encodes}
use gokv.Engine.Index.{add64}
use gokv.Engine.Files.{DataFile, file_of, set_file}
use gokv.Engine.Files.Laws.{file_of-set_file}
use gokv.Engine.Store.{
  Store, SyncMode, always, interval, never, Io, Written, whole, part, Outcome, ok, err, Error,
  os_error, active_file,
}
use gokv.Engine.Store.Append.{
  maybe_rotate, append_to_active, append_written, sync_and_publish, write_locked, publish,
}
use gokv.Engine.Store.Sound.Defs.{IsSound, IsBelow, IsBelowAt, value_of}
use gokv.Engine.Store.Sound.Publish.{
  encode_all-encodes, index_all-IsIndexing, index_all-IsBelow, index_all-IsBelowAt,
  value_in-index_all, AscendsAt, latest,
}
use gokv.Engine.Store.Sound.Keep.{
  Kept, Kept-value, maybe_rotate-Kept, active_file-found, grown, failed-Kept, grown-Kept,
}

module _ ⦃c : Checksum⦄ where
  -- What a write does to a sound store: it stays sound, and what it holds changes with success alone.
  pub record Wrote (s : Store) (rs : List Record) (res : Store × Outcome (Unit {0})) : Type 0 where
    pub sound : IsSound res.0
    pub holds :
        (n : ℕ) (j : List ℕ)
        → IsBelowAt n j s.keydir.index
        → AscendsAt j n rs
        → value_of res.0 j ≡ elim res.1 [ ok u ↦ latest j rs (value_of s j) | err e ↦ value_of s j ]
    pub below :
        (m : ℕ) → IsBelow m s.keydir.index → All (λ r. r.seq ≤ m) rs → IsBelow m res.0.keydir.index
    pub below_at :
        (m : ℕ) (j : List ℕ)
        → IsBelowAt m j s.keydir.index
        → All (λ r. key_eq r.key j ≡ false) rs
        → IsBelowAt m j res.0.keydir.index
    pub seq : res.0.seq ≡ s.seq
    pub open_still : res.0.closed ≡ s.closed
    pub failed : (e : Error) → res.1 ≡ err e → res.0.keydir ≡ s.keydir

  Wrote-err :
      (s t : Store) (rs : List Record) (e : Error) → IsSound s → Kept s t → Wrote s rs (t, err e)
  Wrote-err s t rs e h k = record {
    sound = k.sound;
    holds = λ n j below up. Kept-value s t j h k;
    below = λ m b a. rw k.same b;
    below_at = λ m j b a. rw k.same b;
    seq = k.seq;
    open_still = k.open_still;
    failed = λ x q. k.same;
  }

  -- From a store whose active file has been written to the end of `writeLocked`.
  published :
      (s t : Store) (rs : List Record) (f : DataFile)
      → IsSound s
      → Kept s t
      → t.files ≡ set_file t.active (grown f (encodes rs)) s.files
      → f.size ≤ length f.contents
      → All IsStorable rs
      → length (encodes rs) < u32_mod
      → Wrote s rs (publish t f.size rs (encodes rs), ok tt)
  unfolding publish
  published s t rs f h k e fits storable small =
      let g : DataFile = grown f (encodes rs) in
      let found : file_of t.active t.files ≡ some g =
        rw e (ground (arith, file_of-set_file t.active t.active g s.files)) in
      let index =
        index_all-IsIndexing t.files t.active f.size f.contents (encodes rs) g found refl refl fits
          small [] rs t.keydir refl storable k.sound.indexing in
      record {
        sound = record { indexing = index; stocked = k.sound.stocked };
        holds = λ n j below up.
            value_in-index_all t.files t.active f.size f.contents (encodes rs) g found refl refl
              fits small [] rs t.keydir n j refl storable (rw k.same below) up
            ∙ ap (latest j rs) (Kept-value s t j h k);
        below = λ m b a. index_all-IsBelow t.active f.size 0 m rs t.keydir (rw k.same b) a;
        below_at = λ m j b a. index_all-IsBelowAt t.active f.size 0 m j rs t.keydir (rw k.same b) a;
        seq = k.seq;
        open_still = k.open_still;
        failed = λ x q. absurd cc;
      }

  synced-Wrote :
      (m : SyncMode) (sync : Bool) (s t : Store) (rs : List Record) (f : DataFile)
      → IsSound s
      → Kept s t
      → t.files ≡ set_file t.active (grown f (encodes rs)) s.files
      → f.size ≤ length f.contents
      → All IsStorable rs
      → length (encodes rs) < u32_mod
      → Wrote s rs (sync_and_publish m sync t f.size rs (encodes rs))
  unfolding sync_and_publish
  synced-Wrote always true s t rs f h k e fits storable small =
      published s (record t { dirty = false }) rs f h
        (record {
          sound = record { indexing = k.sound.indexing; stocked = k.sound.stocked };
          extends = k.extends;
          same = k.same;
          seq = k.seq;
          open_still = k.open_still;
        })
        e fits storable small
  synced-Wrote always false s t rs f h k e fits storable small = Wrote-err s t rs os_error h k
  synced-Wrote interval sync s t rs f h k e fits storable small =
      published s t rs f h k e fits storable small
  synced-Wrote never sync s t rs f h k e fits storable small =
      published s t rs f h k e fits storable small

  append_written-Wrote :
      (w : Written) (sync : Bool) (s : Store) (f : DataFile) (rs : List Record)
      → IsSound s
      → file_of s.active s.files ≡ some f
      → All IsStorable rs
      → length (encodes rs) < u32_mod
      → Wrote s rs (append_written w sync s f rs (encodes rs))
  unfolding append_written
  append_written-Wrote (part n cut) sync s f rs h found storable small =
      Wrote-err s _ rs os_error h (failed-Kept s h f (take n (encodes rs)) cut found)
  append_written-Wrote whole sync s f rs h found storable small =
      synced-Wrote s.opts.sync_mode sync s _ rs f h
        (grown-Kept s h f (encodes rs) (add64 s.total (length (encodes rs))) true found) refl
        (h.stocked.sizes s.active f found) storable small

  -- The store between two steps: what the second does, the two do.
  Wrote-after :
      (s t : Store) (rs : List Record) (res : Store × Outcome (Unit {0}))
      → IsSound s
      → Kept s t
      → Wrote t rs res
      → Wrote s rs res
  Wrote-after s t rs res h k w = record {
    sound = w.sound;
    holds = λ n j below up.
        subst (λ v. value_of res.0 j ≡ elim res.1 [ ok u ↦ latest j rs v | err e ↦ v ])
          (Kept-value s t j h k) (w.holds n j (rw k.same below) up);
    below = λ m b a. w.below m (rw k.same b) a;
    below_at = λ m j b a. w.below_at m j (rw k.same b) a;
    seq = w.seq ∙ k.seq;
    open_still = w.open_still ∙ k.open_still;
    failed = λ x q. w.failed x q ∙ k.same;
  }

  branches-Wrote :
      (s t : Store) (rs : List Record) (rotated : Bool) (res : Store × Outcome (Unit {0}))
      → IsSound s
      → Kept s t
      → Wrote t rs res
      → Wrote s rs (if rotated then res else (t, err os_error))
  branches-Wrote s t rs true res h k w = Wrote-after s t rs res h k w
  branches-Wrote s t rs false res h k w = Wrote-err s t rs os_error h k

  -- `writeLocked`, whatever the operating system answers.
  pub write_locked-Wrote :
      (s : Store) (rs : List Record) (o : Io)
      → IsSound s
      → s.next_id + 1 < u32_mod
      → All IsStorable rs
      → length (encodes rs) < u32_mod
      → Wrote s rs (write_locked s rs o)
  unfolding write_locked append_to_active
  write_locked-Wrote s rs o h room storable small =
      let k : Kept s (maybe_rotate s (length (encodes rs)) o).0 =
        maybe_rotate-Kept s (length (encodes rs)) o h room in
      let t : Store = (maybe_rotate s (length (encodes rs)) o).0 in
      rw (encode_all-encodes [] rs) (
        branches-Wrote s t rs (maybe_rotate s (length (encodes rs)) o).1 _ h k (
          append_written-Wrote o.write o.sync t (active_file t) rs k.sound
            (active_file-found t k.sound) storable small))
