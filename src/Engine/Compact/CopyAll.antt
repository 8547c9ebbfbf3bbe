-- ===== src/Engine/Compact/CopyAll.antt =====
-- Phase one of a compaction as a whole: a move for each record, or a failure.
use gokv.Prelude.{
  ℕ, ◌+◌, ◌<◌, ◌≡◌, ◌∙◌, refl, sym, ap, false, Option, none, some, List, [], ◌∷◌, arith, length,
}
use gokv.Prelude.Bytes.{u32_mod}
use gokv.Engine.Record.{Checksum, Record}
use gokv.Engine.Index.{Entry, Index}
use gokv.Engine.Files.{Files}
use gokv.Engine.Store.{Outcome, ok, err}
use gokv.Engine.Store.Sound.Defs.{Points}
use gokv.Engine.Store.Sound.Grow.{
  Extends, Extends-refl, Extends-trans, Points-Extends, Points-Extends-rec,
}
use gokv.Engine.Compact.{CopyIo, Output, Move, copy_one, copy_all}
use gokv.Engine.Compact.Copy.{Copying}
use gokv.Engine.Compact.Copied.{
  Moved, Moved-Extends, CopyResult, CopiedOne, copy_one-CopiedOne, all_good,
}

module _ ⦃c : Checksum⦄ (before : Files) (n : ℕ) where
  -- The records to copy, on disk before it began, and what the store holds for their keys.
  abbrev pub AreCopyable : (List ℕ → Option (List ℕ)) → Index → Type 0
  AreCopyable value [] = Unit {0}
  AreCopyable value ((k, e) ∷ items) =
      ((p : Points before k e) × (value k ≡ some p.rec.value) × (e.tomb ≡ false))
      × AreCopyable value items

  -- One move for each of them.
  abbrev pub AreMoves : (List ℕ → Option (List ℕ)) → Files → Index → List Move → Type 0
  AreMoves value files [] moves = moves ≡ []
  AreMoves value files ((k, e) ∷ items) moves =
      (v : List ℕ) × (new : Entry) × (rest : List Move) × (moves
        ≡ record { key = k; old = e; new = new } ∷ rest)
      × (value k ≡ some v)
      × Moved before n files k e v new
      × AreMoves value files items rest

  -- The copying has failed because a call has, or there is a move for each record.
  pub data CopyResults (io : ℕ → CopyIo) (value : List ℕ → Option (List ℕ)) (files : Files)
      (items : Index) : Outcome (List Move) → Type 0 where
    failed : (x : _) (j : ℕ) → all_good (io j) ≡ false → CopyResults io value files items (err x)
    copied :
        (moves : List Move)
        → AreMoves value files items moves
        → CopyResults io value files items (ok moves)

  pub record CopiedAll (io : ℕ → CopyIo) (value : List ℕ → Option (List ℕ)) (items : Index)
      (o : Output) (res : Output × Outcome (List Move)) : Type 0 where
    pub copying : Copying before n res.0
    pub extends : Extends o.files res.0.files
    pub result : CopyResults io value res.0.files items res.1

  cons_copied :
      (io : ℕ → CopyIo) (value : List ℕ → Option (List ℕ)) (k : List ℕ) (e : Entry) (v : List ℕ)
      (new : Entry) (items : Index) (start o last : Output) (all : Outcome (List Move))
      → value k ≡ some v
      → Extends start.files o.files
      → Copying before n last
      → Extends o.files last.files
      → Moved before n o.files k e v new
      → CopyResults io value last.files items all
      → CopiedAll io value ((k, e) ∷ items) start (elim all [
        | err x ↦ (last, err x)
        | ok moves ↦ (last, ok (record { key = k; old = e; new = new } ∷ moves))
      ])
  cons_copied io value k e v new items start o last all q x h y m (CopyResults.failed z j b) =
      record {
        copying = h;
        extends = Extends-trans start.files o.files last.files x y;
        result = CopyResults.failed z j b;
      }
  cons_copied io value k e v new items start o last all q x h y m (CopyResults.copied moves a) =
      record {
        copying = h;
        extends = Extends-trans start.files o.files last.files x y;
        result =
            CopyResults.copied _
              (v, new, moves, refl, q, Moved-Extends before n o.files last.files k e v new y m, a);
      }

  cons-CopiedAll :
      (io : ℕ → CopyIo) (i : ℕ) (value : List ℕ → Option (List ℕ)) (k : List ℕ) (e : Entry)
      (v : List ℕ) (items : Index) (start o : Output) (one : Outcome (Option Entry)) (last : Output)
      (all : Outcome (List Move))
      → value k ≡ some v
      → Copying before n o
      → Extends start.files o.files
      → CopyResult before n (io i) o.files k e v one
      → CopiedAll io value items o (last, all)
      → CopiedAll io value ((k, e) ∷ items) start (elim one [
        | err x ↦ (o, err x)
        | ok none ↦ (last, all)
        | ok (some new) ↦ elim all [
          | err x ↦ (last, err x)
          | ok moves ↦ (last, ok (record { key = k; old = e; new = new } ∷ moves))
        ]
      ])
  cons-CopiedAll io i value k e v items start o one last all q h x (CopyResult.failed y b) a =
      record { copying = h; extends = x; result = CopyResults.failed y i b }
  cons-CopiedAll io i value k e v items start o one last all q h x (CopyResult.copied new m) a =
      cons_copied io value k e v new items start o last all q x a.copying a.extends m a.result

  pub copy_all-CopiedAll :
      (value : List ℕ → Option (List ℕ)) (max_size : ℕ) (io : ℕ → CopyIo) (i : ℕ) (items : Index)
      (o : Output)
      → Extends before o.files
      → Copying before n o
      → o.next_id + length items < u32_mod
      → AreCopyable value items
      → CopiedAll io value items o (copy_all max_size io i items o)
  unfolding copy_all
  copy_all-CopiedAll value max_size io i [] o x h room a = record {
    copying = h;
    extends = Extends-refl o.files;
    result = CopyResults.copied [] refl;
  }
  copy_all-CopiedAll value max_size io i ((k, e) ∷ items) o x h room ((p, q, live), a) =
      let p' : Points o.files k e = Points-Extends before o.files k e x p in
      let one : CopiedOne before n (io i) k e p'.rec.value o (copy_one max_size e o (io i)) =
        copy_one-CopiedOne before n max_size o (io i) k e p' h (omega arith) live in
      let o' : Output = (copy_one max_size e o (io i)).0 in
      let rest : CopiedAll io value items o' (copy_all max_size io (i + 1) items o') =
        copy_all-CopiedAll value max_size io (i + 1) items o'
          (Extends-trans before o.files o'.files x one.grew.extends) one.grew.copying
          (omega (arith, one.grew.ids)) a in
      cons-CopiedAll io i value k e p'.rec.value items o o' _ _ _
        (q ∙ ap (λ (r : Record). some r.value) (sym (Points-Extends-rec before o.files k e x p)))
        one.grew.copying one.grew.extends one.result rest
