-- ===== src/Engine/Store/Sound/Keep.antt =====
-- Steps of the write path that leave the index alone: a rotation, and the bytes of a write.
use gokv.Prelude.{
  ℕ, ◌+◌, ◌%◌, ◌≤◌, ◌<◌, ◌≡◌, refl, ◌∙◌, Bool, true, false, some, List, [], ◌∷◌, ◌++◌, arith, ◌==◌,
  if◌then◌else◌, length, slice, slice-take, take, length-take, Bool-cases, inl, inr, leb, not, ◌||◌,
}
use gokv.Prelude.Bytes.{u32_mod}
use gokv.Engine.Record.{Checksum}
use gokv.Engine.Files.{DataFile, Files, file_of, set_file, write_at, empty_file}
use gokv.Engine.Files.Laws.{file_of-set_file, slice-write_at_below, length-write_at}
use gokv.Engine.Store.{Store, Io, active_file}
use gokv.Engine.Store.Append.{open_new_active, maybe_rotate}
use gokv.Engine.Store.Sound.Defs.{IsStocked, IsSound, value_of}
use gokv.Engine.Store.Sound.Grow.{
  Extends, Extends-refl, Extends-new, Extends-write, IsIndexing-Extends, value_in-Extends,
}

IsStocked-write :
    (files : Files) (active next_id : ℕ) (g : DataFile)
    → IsStocked files active next_id
    → g.size ≤ length g.contents
    → IsStocked (set_file active g files) active next_id
IsStocked-write files active next_id g h fits =
    let (f, found) = h.current in
    record {
      sizes = λ i x p. ground (arith, file_of-set_file active i g files, h.sizes i x);
      fresh = λ i x p.
          ground (arith, file_of-set_file active i g files, h.fresh i x, h.fresh active f found);
      current = (g, ground (arith, file_of-set_file active active g files));
    }

IsStocked-new :
    (files : Files) (active next_id : ℕ)
    → IsStocked files active next_id
    → next_id + 1 < u32_mod
    → IsStocked (set_file next_id empty_file files) next_id ((next_id + 1) % u32_mod)
IsStocked-new files active next_id h room = record {
  sizes = λ i x p. ground (arith, file_of-set_file next_id i empty_file files, h.sizes i x);
  fresh = λ i x p. ground (arith, file_of-set_file next_id i empty_file files, h.fresh i x);
  current = (empty_file, ground (arith, file_of-set_file next_id next_id empty_file files));
}

module _ ⦃c : Checksum⦄ where
  -- The store after a step that leaves the index alone.
  pub record Kept (s t : Store) : Type 0 where
    pub sound : IsSound t
    pub extends : Extends s.files t.files
    pub same : t.keydir ≡ s.keydir
    pub seq : t.seq ≡ s.seq
    pub open_still : t.closed ≡ s.closed

  pub Kept-value : (s t : Store) (j : List ℕ) → IsSound s → Kept s t → value_of t j ≡ value_of s j
  Kept-value s t j h k = rw k.same (
      value_in-Extends s.files t.files s.keydir j k.extends h.indexing h.stocked.sizes
        k.sound.stocked.sizes)

  pub Kept-self : (s : Store) → IsSound s → Kept s s
  Kept-self s h = record {
    sound = h;
    extends = Extends-refl s.files;
    same = refl;
    seq = refl;
    open_still = refl;
  }

  keep :
      (s t : Store)
      → IsSound s
      → Extends s.files t.files
      → t.keydir ≡ s.keydir
      → IsStocked t.files t.active t.next_id
      → t.seq ≡ s.seq
      → t.closed ≡ s.closed
      → Kept s t
  keep s t h x e st q z = record {
    sound = record {
      indexing = rw e (IsIndexing-Extends s.files t.files s.keydir x h.indexing);
      stocked = st;
    };
    extends = x;
    same = e;
    seq = q;
    open_still = z;
  }

  pub open_new_active-Kept :
      (s : Store) (o : Io) → IsSound s → s.next_id + 1 < u32_mod → Kept s (open_new_active s o).0
  unfolding open_new_active
  open_new_active-Kept s o h room = elim (Bool-cases o.create) [
    | inl made ↦ rw made (
        keep s _ h (Extends-new s.files s.next_id empty_file h.stocked.fresh) refl
          (IsStocked-new s.files s.active s.next_id h.stocked room) refl refl)
    | inr failed ↦ rw failed (keep s s h (Extends-refl s.files) refl h.stocked refl refl)
  ]

  pub branches-Kept :
      (s made hinted : Store) (a b d : Bool)
      → Kept s s
      → Kept s made
      → Kept s hinted
      → Kept s
          (if◌then◌else◌ {A = Store × Bool} a
            (s, true)
            (if not b then (s, false) else if d then (hinted, true) else (made, false))).0
  branches-Kept s made hinted true b d k m n = k
  branches-Kept s made hinted false false d k m n = k
  branches-Kept s made hinted false true true k m n = n
  branches-Kept s made hinted false true false k m n = m

  pub maybe_rotate-Kept :
      (s : Store) (n : ℕ) (o : Io)
      → IsSound s
      → s.next_id + 1 < u32_mod
      → Kept s (maybe_rotate s n o).0
  unfolding maybe_rotate
  maybe_rotate-Kept s n o h room =
      let made : Kept s (open_new_active s o).0 = open_new_active-Kept s o h room in
      branches-Kept s (open_new_active s o).0
        (record (open_new_active s o).0 {
          dirty = false;
          hinting = (open_new_active s o).0.hinting ++ (s.active ∷ []);
        })
        ((active_file s).size == 0 || leb ((active_file s).size + n) s.opts.max_file_size)
        o.sync_old (open_new_active s o).1
        (keep s s h (Extends-refl s.files) refl h.stocked refl refl) made
        (record {
          sound = record { indexing = made.sound.indexing; stocked = made.sound.stocked };
          extends = made.extends;
          same = made.same;
          seq = made.seq;
          open_still = made.open_still;
        })

  pub active_file-found : (s : Store) → IsSound s → file_of s.active s.files ≡ some (active_file s)
  active_file-found s h = let (f, e) = h.stocked.current in ground arith

  -- The file that a failed write leaves.
  abbrev pub left_by : DataFile → List ℕ → Bool → DataFile
  left_by f buf cut = record f {
    contents =
        if cut
        then take f.size (write_at f.contents f.size buf)
        else write_at f.contents f.size buf;
  }

  failed_write :
      (f : DataFile) (buf : List ℕ) (cut : Bool)
      → f.size ≤ length f.contents
      → (f.size ≤ length (left_by f buf cut).contents)
        × ((a b : ℕ)
            → a ≤ b
            → b ≤ f.size
            → slice a b (left_by f buf cut).contents ≡ slice a b f.contents)
  failed_write f buf false h = (
    omega (arith, length-write_at f.contents buf f.size h),
    slice-write_at_below f.contents buf f.size h,
  )
  failed_write f buf true h =
      let long = length-write_at f.contents buf f.size h in
      (
        omega (arith, length-take f.size (write_at f.contents f.size buf), long),
        λ a b p q.
            slice-take a b f.size _ p q (omega (arith, long))
            ∙ slice-write_at_below f.contents buf f.size h a b p q,
      )

  -- The store with the active file written, before the index is touched.
  abbrev pub grown : DataFile → List ℕ → DataFile
  grown f buf = record { contents = write_at f.contents f.size buf; size = f.size + length buf }

  module _ (s : Store) (h : IsSound s) where
    pub failed-Kept :
        (f : DataFile) (buf : List ℕ) (cut : Bool)
        → file_of s.active s.files ≡ some f
        → Kept s (record s { files = set_file s.active (left_by f buf cut) s.files })
    failed-Kept f buf cut found =
        let fits : f.size ≤ length f.contents = h.stocked.sizes s.active f found in
        let (sized, same) = failed_write f buf cut fits in
        keep s _ h
          (Extends-write s.files s.active f (left_by f buf cut) found fits (omega arith) same) refl
          (IsStocked-write s.files s.active s.next_id (left_by f buf cut) h.stocked sized) refl refl

    pub grown-Kept :
        (f : DataFile) (buf : List ℕ) (total : ℕ) (dirty : Bool)
        → file_of s.active s.files ≡ some f
        → Kept s (record s {
          files = set_file s.active (grown f buf) s.files;
          total = total;
          dirty = dirty;
        })
    grown-Kept f buf total dirty found =
        let fits : f.size ≤ length f.contents = h.stocked.sizes s.active f found in
        keep s _ h
          (Extends-write s.files s.active f (grown f buf) found fits (omega arith)
            (slice-write_at_below f.contents buf f.size fits))
          refl
          (IsStocked-write s.files s.active s.next_id (grown f buf) h.stocked
            (length-write_at f.contents buf f.size fits))
          refl refl
