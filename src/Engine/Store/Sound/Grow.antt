-- ===== src/Engine/Store/Sound/Grow.antt =====
-- Files only grow: what an entry locates stays where it is when a file is added or appended to.
use gokv.Prelude.{
  ℕ, ◌+◌, ◌≤◌, ◌<◌, ◌≡◌, refl, sym, ◌∙◌, some, List, arith, ◌==◌, length, slice, ==_iff,
  Option-cases, Bool-cases, inl, inr,
}
use gokv.Engine.Record.{Checksum}
use gokv.Engine.Index.{Entry, Keydir, lookup}
use gokv.Engine.Files.{DataFile, Files, file_of, set_file}
use gokv.Engine.Files.Laws.{file_of-set_file}
use gokv.Engine.Store.Sound.Defs.{Points, IsIndexing, value_in, value_in-Points}

-- Every file is still there, and its written bytes are as they were.
pub record Extends (files files' : Files) : Type 0 where
  pub at :
      (i : ℕ) (f : DataFile)
      → file_of i files ≡ some f
      → (g : DataFile) × (file_of i files' ≡ some g)
        × (f.size ≤ g.size)
        × ((a b : ℕ) → a ≤ b → b ≤ f.size → slice a b g.contents ≡ slice a b f.contents)

pub Extends-refl : (files : Files) → Extends files files
Extends-refl files = record { at = λ i f h. (f, h, omega arith, λ a b p q. refl) }

pub Extends-trans : (a b d : Files) → Extends a b → Extends b d → Extends a d
Extends-trans a b d x y = record {
  at = λ i f h.
      let (g, found, grown, same) = x.at i f h in
      let (g', found', grown', same') = y.at i g found in
      (g', found', omega arith, λ p q u v. same' p q u (omega arith) ∙ same p q u v);
}

-- A file under a new id.
pub Extends-new :
    (files : Files) (id : ℕ) (f : DataFile)
    → ((i : ℕ) (g : DataFile) → file_of i files ≡ some g → i < id)
    → Extends files (set_file id f files)
Extends-new files id f fresh = record {
  at = λ i g h.
      let other : i < id = fresh i g h in
      (g, rw file_of-set_file (ground (arith, h)), omega arith, λ a b p q. refl);
}

-- A file written from its append offset on.
pub Extends-write :
    (files : Files) (id : ℕ) (f g : DataFile)
    → file_of id files ≡ some f
    → f.size ≤ length f.contents
    → f.size ≤ g.size
    → ((a b : ℕ) → a ≤ b → b ≤ f.size → slice a b g.contents ≡ slice a b f.contents)
    → Extends files (set_file id g files)
Extends-write files id f g found sized grown same = record {
  at = λ i h p. elim (Bool-cases (id == i)) [
    | inl here ↦
        let same_id : id ≡ i = (==_iff id i).0 here in
        let e : h ≡ f = cc in (g, rw (file_of-set_file, here), rw e grown, rw e same)
    | inr there ↦ (h, rw (file_of-set_file, there) p, omega arith, λ a b q r. refl)
  ];
}

module _ ⦃c : Checksum⦄ where
  pub Points-Extends :
      (files files' : Files) (k : List ℕ) (e : Entry)
      → Extends files files'
      → Points files k e
      → Points files' k e
  Points-Extends files files' k e x p =
      let (g, found, grown, same) = x.at e.file_id p.file p.found in
      record {
        file = g;
        rec = p.rec;
        found = found;
        inside = omega (arith, p.inside);
        bytes = same e.pos (e.pos + e.size) (omega arith) p.inside ∙ p.bytes;
        storable = p.storable;
        key = p.key;
        seq = p.seq;
        tomb = p.tomb;
      }

  pub Points-Extends-rec :
      (files files' : Files) (k : List ℕ) (e : Entry) (x : Extends files files')
      (p : Points files k e)
      → (Points-Extends files files' k e x p).rec ≡ p.rec
  unfolding Points-Extends
  Points-Extends-rec files files' k e x p = refl

  pub IsIndexing-Extends :
      (files files' : Files) (d : Keydir)
      → Extends files files'
      → IsIndexing files d
      → IsIndexing files' d
  IsIndexing-Extends files files' d x h = record {
    sorted = h.sorted;
    counted = h.counted;
    points = λ k e q. Points-Extends files files' k e x (h.points k e q);
  }

  -- What the store holds for a key does not change when files grow.
  pub value_in-Extends :
      (files files' : Files) (d : Keydir) (k : List ℕ)
      → Extends files files'
      → IsIndexing files d
      → ((i : ℕ) (f : DataFile) → file_of i files ≡ some f → f.size ≤ length f.contents)
      → ((i : ℕ) (f : DataFile) → file_of i files' ≡ some f → f.size ≤ length f.contents)
      → value_in files' d.index k ≡ value_in files d.index k
  unfolding Points-Extends
  value_in-Extends files files' d k x h old new = elim (Option-cases (lookup k d.index)) [
    | inl e ↦ unfold value_in in rw (e, value_in)
    | inr (e, q) ↦
        let p : Points files k e = h.points k e q in
        let p' : Points files' k e = Points-Extends files files' k e x p in
        value_in-Points files' d.index k e p' (new e.file_id p'.file p'.found) q
        ∙ sym (value_in-Points files d.index k e p (old e.file_id p.file p.found) q)
  ]
