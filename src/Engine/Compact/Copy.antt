-- ===== src/Engine/Compact/Copy.antt =====
-- The output files of a compaction: what was there before is left alone, and what is written there
-- stays there.
use gokv.Prelude.{
  ℕ, ◌+◌, ◌%◌, ◌≤◌, ◌<◌, ◌≡◌, ◌∙◌, refl, true, false, ◌&&◌, ◌||◌, Option, none, some, List, [], ◌∷◌,
  ◌++◌, arith, ltb, ◌==◌, if◌then◌else◌, length, Bool-cases, inl, inr,
}
use mathlib.Core.Option.{some-injective}
use gokv.Prelude.Bytes.{u32_mod}
use gokv.Engine.Files.{DataFile, Files, empty_file, file_of, set_file, write_at, contains}
use gokv.Engine.Files.Laws.{
  file_of-set_file, file_of-set_file_self, slice-write_at_below, length-write_at,
}
use gokv.Engine.Store.Sound.Grow.{Extends, Extends-refl, Extends-new, Extends-write}
use gokv.Engine.Compact.{CopyIo, Output, new_out, pick_out, file_at}

-- The output in the middle of the copying, which began with the files `before` and the next id `n`.
pub record Copying (before : Files) (n : ℕ) (o : Output) : Type 0 where
  pub kept : (i : ℕ) → i < n → file_of i o.files ≡ file_of i before
  pub sizes : (i : ℕ) (f : DataFile) → file_of i o.files ≡ some f → f.size ≤ length f.contents
  pub fresh : (i : ℕ) (f : DataFile) → file_of i o.files ≡ some f → i < o.next_id
  pub listed :
      (i : ℕ) (f : DataFile) → file_of i o.files ≡ some f → n ≤ i → contains i o.outs ≡ true
  pub later : (i : ℕ) → contains i o.outs ≡ true → n ≤ i
  pub current :
      (id : ℕ) → o.out ≡ some id → (n ≤ id) × ((f : DataFile) × (file_of id o.files ≡ some f))
  pub grown : n ≤ o.next_id

-- One step of it.
pub record Grew (before : Files) (n : ℕ) (o o' : Output) : Type 0 where
  pub copying : Copying before n o'
  pub extends : Extends o.files o'.files
  pub ids : o'.next_id ≤ o.next_id + 1

pub Grew-refl : (before : Files) (n : ℕ) (o : Output) → Copying before n o → Grew before n o o
Grew-refl before n o h = record { copying = h; extends = Extends-refl o.files; ids = omega arith }

contains-append :
    (i j : ℕ) (ids : List ℕ) → contains i (ids ++ (j ∷ [])) ≡ (contains i ids || j == i)
unfolding contains
contains-append i j [] = ground arith
contains-append i j (k ∷ ids) = ground (arith, contains-append i j ids)

abbrev opened : Output → Output
opened o = record o {
  files = set_file o.next_id empty_file o.files;
  next_id = (o.next_id + 1) % u32_mod;
  out = some o.next_id;
  outs = o.outs ++ (o.next_id ∷ []);
}

-- The file `id` with the buffer behind what it held.
abbrev pub appended : DataFile → List ℕ → DataFile
appended f buf = record { contents = write_at f.contents f.size buf; size = f.size + length buf }

module _ (before : Files) (n : ℕ) where
  opened-Grew :
      (o : Output) → Copying before n o → o.next_id + 1 < u32_mod → Grew before n o (opened o)
  opened-Grew o h room = record {
    copying = record {
      kept = λ i p. rw file_of-set_file (ground (arith, h.kept i p, h.grown));
      sizes =
          λ i f q. ground (arith, file_of-set_file o.next_id i empty_file o.files, h.sizes i f, q);
      fresh =
          λ i f q. ground (arith, file_of-set_file o.next_id i empty_file o.files, h.fresh i f, q);
      listed = λ i f q p.
          rw contains-append
            (ground (arith, file_of-set_file o.next_id i empty_file o.files, h.listed i f, q, p));
      later = λ i q. ground (arith, contains-append i o.next_id o.outs, h.later i, q, h.grown);
      current = λ id q.
          rw (← some-injective _ _ q)
            (h.grown, (empty_file, file_of-set_file_self o.next_id empty_file o.files));
      grown = omega (arith, h.grown);
    };
    extends = Extends-new o.files o.next_id empty_file h.fresh;
    ids = omega arith;
  }

  -- An output file to write to, or none.
  pub record Picked (io : CopyIo) (o : Output) (r : Output × Option ℕ) : Type 0 where
    pub grew : Grew before n o r.0
    pub missing : r.1 ≡ none → (io.create && io.hint) ≡ false
    pub chosen :
        (id : ℕ) → r.1 ≡ some id → (n ≤ id) × ((f : DataFile) × (file_of id r.0.files ≡ some f))

  skipped-Copying :
      (o : Output)
      → Copying before n o
      → o.next_id + 1 < u32_mod
      → Copying before n (record o { next_id = (o.next_id + 1) % u32_mod })
  skipped-Copying o h room = record {
    kept = h.kept;
    sizes = h.sizes;
    fresh = λ i f q. omega (arith, h.fresh i f q);
    listed = h.listed;
    later = h.later;
    current = h.current;
    grown = omega (arith, h.grown);
  }

  new_out-Picked :
      (o : Output) (io : CopyIo)
      → Copying before n o
      → o.next_id + 1 < u32_mod
      → Picked io o (new_out o io)
  unfolding new_out
  new_out-Picked o io h room = elim (Bool-cases (io.create && io.hint)) [
    | inl made ↦
        let g : Grew before n o (opened o) = opened-Grew o h room in
        rw made (record { grew = g; missing = λ q. absurd (cc q); chosen = g.copying.current })
    | inr failed ↦ rw failed (record {
      grew = record {
        copying = skipped-Copying o h room;
        extends = Extends-refl o.files;
        ids = omega arith;
      };
      missing = λ q. failed;
      chosen = λ id q. absurd (cc q);
    })
  ]

  Picked-by :
      (max_size incoming : ℕ) (o : Output) (io : CopyIo) (out : Option ℕ)
      → o.out ≡ out
      → Copying before n o
      → o.next_id + 1 < u32_mod
      → Picked io o (elim out [
        | none ↦ new_out o io
        | some id ↦
            if ltb max_size ((file_at id o.files).size + incoming)
            then new_out o io
            else (o, some id)
      ])
  Picked-by max_size incoming o io none q h room = new_out-Picked o io h room
  Picked-by max_size incoming o io (some id) q h room =
      elim (Bool-cases (ltb max_size ((file_at id o.files).size + incoming))) [
        | inl b ↦ rw b (new_out-Picked o io h room)
        | inr b ↦ rw b (record {
          grew = Grew-refl before n o h;
          missing = λ p. absurd (cc p);
          chosen = λ j p. rw (← some-injective _ _ p) (h.current id q);
        })
      ]

  pub pick_out-Picked :
      (max_size incoming : ℕ) (o : Output) (io : CopyIo)
      → Copying before n o
      → o.next_id + 1 < u32_mod
      → Picked io o (pick_out max_size incoming o io)
  unfolding pick_out
  pick_out-Picked max_size incoming o io h room = Picked-by max_size incoming o io o.out refl h room

  appended-Extends :
      (fs : Files) (id : ℕ) (f : DataFile) (buf : List ℕ)
      → file_of id fs ≡ some f
      → f.size ≤ length f.contents
      → Extends fs (set_file id (appended f buf) fs)
  appended-Extends fs id f buf q s =
      Extends-write fs id f (appended f buf) q s (omega arith)
        (λ a b p r. slice-write_at_below f.contents buf f.size s a b p r)

  still_there :
      (id j : ℕ) (g : DataFile) (fs : Files)
      → (f : DataFile) × (file_of j fs ≡ some f)
      → (f : DataFile) × (file_of j (set_file id g fs) ≡ some f)
  still_there id j g fs (f, q) = elim (Bool-cases (id == j)) [
    | inl here ↦ (g, file_of-set_file id j g fs ∙ rw here refl)
    | inr there ↦ (f, file_of-set_file id j g fs ∙ rw there q)
  ]

  pub appended-Grew :
      (o : Output) (id : ℕ) (f : DataFile) (buf : List ℕ)
      → Copying before n o
      → n ≤ id
      → file_of id o.files ≡ some f
      → Grew before n o (record o { files = set_file id (appended f buf) o.files })
  appended-Grew o id f buf h p q =
      let look : (i : ℕ)
          → file_of i (set_file id (appended f buf) o.files)
            ≡ (if id == i then some (appended f buf) else file_of i o.files) =
        λ i. file_of-set_file id i (appended f buf) o.files in
      record {
        copying = record {
          kept = λ i r. ground (arith, look i, h.kept i r, p);
          sizes = λ i g r. ground (
            arith,
            look i,
            h.sizes i g,
            length-write_at f.contents buf f.size (h.sizes id f q),
            r,
          );
          fresh = λ i g r. ground (arith, look i, h.fresh i g, h.fresh id f q, r);
          listed = λ i g r l. ground (arith, look i, h.listed i g, h.listed id f q, r, l);
          later = h.later;
          current = λ j r.
              ((h.current j r).0, still_there id j (appended f buf) o.files (h.current j r).1);
          grown = h.grown;
        };
        extends = appended-Extends o.files id f buf q (h.sizes id f q);
        ids = omega arith;
      }
