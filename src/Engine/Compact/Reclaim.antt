-- ===== src/Engine/Compact/Reclaim.antt =====
-- What a compaction is for: when its calls succeed it succeeds, and the old files are gone.
use gokv.Prelude.{
  ℕ, ◌+◌, ◌≤◌, ◌<◌, ◌≡◌, ◌∙◌, ◌⊎◌, refl, sym, Bool, true, false, not, ◌&&◌, some, List, [], ◌∷◌,
  arith, ltb, ltb→lt, ltb→le, ◌==◌, if◌then◌else◌, length, Bool-cases, inl, inr,
}
use gokv.Prelude.Bytes.{u32_mod}
use gokv.Engine.Record.{Checksum}
use gokv.Engine.Files.{DataFile, Files, file_of, contains}
use gokv.Engine.Files.Laws.{file_of-remove_files}
use gokv.Engine.Store.{Store, Outcome, ok, err, os_error, closed_store}
use gokv.Engine.Store.Append.{open_new_active}
use gokv.Engine.Store.Sound.Defs.{value_of}
use gokv.Engine.Store.Sound.Keep.{Kept}
use gokv.Engine.Store.Sound.Refine.{IsLive}
use gokv.Engine.Compact.{CompactIo, Output, Move, merge_ids, abandon, finish, merge, seal, compact}
use gokv.Engine.Compact.Copy.{Copying}
use gokv.Engine.Compact.CopyAll.{CopyResults}
use gokv.Engine.Compact.Copied.{all_good}
use gokv.Engine.Compact.Drop.{contains-merge_ids}
use gokv.Engine.Compact.Whole.{merged, items}
use gokv.Engine.Compact.Refine.{copied_all, seal-Kept, seal_ids, Kept-Live}

-- Every call of the compaction succeeds.
pub record IsWell (io : CompactIo) : Type 0 where
  pub sealed : (io.sync_old ≡ true) × (io.fresh.create ≡ true) × (io.fresh.sync_dir ≡ true)
  pub copies : (j : ℕ) → all_good (io.copy j) ≡ true
  pub durable : (io.sync_outs && io.commit && io.sync_dir) ≡ true

-- The files of the store are the active one and those with an id from `n` on.
abbrev pub OnlyFrom : ℕ → Store → Type 0
OnlyFrom n s = (i : ℕ) (f : DataFile) → file_of i s.files ≡ some f → (i ≡ s.active) ⊎ (n ≤ i)

only_active :
    (active i : ℕ) (f : DataFile) (fs : Files)
    → contains i (merge_ids active fs) ≡ false
    → file_of i fs ≡ some f
    → i ≡ active
only_active active i f fs h q = ground (arith, contains-merge_ids active i fs, h, q)

later_from : (a b i active : ℕ) → a ≤ b → (i ≡ active) ⊎ (b ≤ i) → (i ≡ active) ⊎ (a ≤ i)
later_from a b i active h p = ground arith

module _ ⦃c : Checksum⦄ where
  finish-OnlyFrom :
      (s : Store) (moves : List Move) (o : Output)
      → Copying s.files s.next_id o
      → OnlyFrom s.next_id (finish s (merge_ids s.active s.files) moves o)
  unfolding finish
  finish-OnlyFrom s moves o k i f q =
      let ids = merge_ids s.active s.files in
      let out : contains i ids ≡ false = ground (arith, file_of-remove_files ids i o.files, q) in
      let there : file_of i o.files ≡ some f =
        ground (arith, file_of-remove_files ids i o.files, q) in
      elim (Bool-cases (ltb i s.next_id)) [
        | inl old ↦
            inl (
              only_active s.active i f s.files out
                (sym (k.kept i (ltb→lt i s.next_id old)) ∙ there))
        | inr new ↦ inr (ltb→le i s.next_id new)
      ]

  merged_well :
      (s : Store) (h : IsLive s) (io : CompactIo) (o : Output) (copied : Outcome (List Move))
      → IsWell io
      → Copying s.files s.next_id o
      → CopyResults s.files s.next_id io.copy (value_of s) o.files (items s h) copied
      → let res : Store × Outcome (Unit {0}) = elim copied [
        | err x ↦ (abandon s o, err x)
        | ok moves ↦
            if io.sync_outs && io.commit && io.sync_dir
            then (finish s (merged s h) moves o, ok tt)
            else (abandon s o, err os_error)
      ] in
        (res.1 ≡ ok tt) × OnlyFrom s.next_id res.0
  merged_well s h io o copied w k (CopyResults.failed y j b) = absurd (cc (w.copies j, b))
  merged_well s h io o copied w k (CopyResults.copied moves a) =
      rw w.durable (refl, finish-OnlyFrom s moves o k)

  merge_well :
      (s : Store) (io : CompactIo)
      → IsLive s
      → s.next_id + length s.keydir.index < u32_mod
      → IsWell io
      → ((merge s (merge_ids s.active s.files) io).1 ≡ ok tt)
        × OnlyFrom s.next_id (merge s (merge_ids s.active s.files) io).0
  unfolding merge
  merge_well s io h room w =
      let r = copied_all s h io room in merged_well s h io _ _ w r.copying r.result

  seal_well :
      (s : Store) (io : CompactIo)
      → s.next_id + 1 < u32_mod
      → IsWell io
      → ((seal s io).1 ≡ true) × (s.next_id ≤ (seal s io).0.next_id)
  unfolding seal open_new_active
  seal_well s io room w = ground (arith, w.sealed)

  no_ids : (ids : List ℕ) (i : ℕ) → (length ids == 0) ≡ true → contains i ids ≡ false
  unfolding contains
  no_ids [] i h = refl
  no_ids (j ∷ ids) i h = absurd (ground (arith, h))

  -- The branches of `compact`.
  either_well :
      (n : ℕ) (s t : Store) (closed sealed empty : Bool) (res : Store × Outcome (Unit {0}))
      → closed ≡ false
      → sealed ≡ true
      → (empty ≡ true → OnlyFrom n t)
      → (res.1 ≡ ok tt) × OnlyFrom n res.0
      → let r : Store × Outcome (Unit {0}) =
          if closed
          then (s, err closed_store)
          else if not sealed
          then (t, err os_error)
          else if empty
          then (t, ok tt)
          else res in
        (r.1 ≡ ok tt) × OnlyFrom n r.0
  either_well n s t true b e res o p g h = absurd (cc o)
  either_well n s t false false e res o p g h = absurd (cc p)
  either_well n s t false true true res o p g h = (refl, g refl)
  either_well n s t false true false res o p g h = h

  -- A compaction of an open, live store that has ids left for a new active file and for one
  -- output file per key, and of which every call succeeds, succeeds, and then the store has no
  -- file but the active one and files whose ids had not been handed out before it began.
  pub compact_reclaims :
      (s : Store) (io : CompactIo)
      → IsLive s
      → (s.next_id + 1) + length s.keydir.index < u32_mod
      → IsWell io
      → s.closed ≡ false
      → ((compact s io).1 ≡ ok tt) × OnlyFrom s.next_id (compact s io).0
  unfolding compact
  compact_reclaims s io h room w opened =
      let t : Store = (seal s io).0 in
      let k : Kept s t = seal-Kept s io h.sound (omega arith) in
      let (sealed, later) = seal_well s io (omega arith) w in
      let m =
        merge_well t io (Kept-Live s t h k)
          (rw k.same (omega (arith, room, seal_ids s io (omega arith)))) w in
      either_well s.next_id s t s.closed (seal s io).1 (length (merge_ids t.active t.files) == 0) _
        opened sealed
        (λ empty i f q.
          inl (only_active t.active i f t.files (no_ids (merge_ids t.active t.files) i empty) q))
        (m.0, λ i f q. later_from s.next_id t.next_id i _ later (m.1 i f q))
