-- ===== src/Engine/Compact/Refine.antt =====
-- What a compaction, whether it succeeds or fails, makes of the store.
use gokv.Prelude.{
  ℕ, ◌+◌, ◌≤◌, ◌<◌, ◌≡◌, ◌∙◌, refl, sym, Bool, true, false, not, ◌&&◌, Option, some, List, [], ◌∷◌,
  arith, ltb, ◌==◌, ==_refl, if◌then◌else◌, length, Bool-cases, inl, inr,
}
use gokv.Prelude.Bytes.{u32_mod}
use gokv.Engine.Record.{Checksum}
use gokv.Engine.Index.{Entry, Index, keep, recount}
use gokv.Engine.Files.{DataFile, file_of, remove_files, contains}
use gokv.Engine.Files.Laws.{file_of-remove_files}
use gokv.Engine.Store.{Store, Outcome, ok, err, os_error, closed_store, active_file}
use gokv.Engine.Store.Sound.Defs.{IsSound, value_of}
use gokv.Engine.Store.Sound.Grow.{Extends, Extends-refl}
use gokv.Engine.Store.Sound.Keep.{Kept, Kept-self, Kept-value, branches-Kept, open_new_active-Kept}
use gokv.Engine.Store.Append.{open_new_active}
use gokv.Engine.Store.Sound.Refine.{IsLive, Refines}
use gokv.Engine.Compact.{
  CompactIo, Output, Move, is_item, merge_ids, copy_all, abandon, finish, merge, seal, compact,
}
use gokv.Engine.Compact.Copy.{Copying}
use gokv.Engine.Compact.CopyAll.{AreMoves, CopyResults, CopiedAll, copy_all-CopiedAll}
use gokv.Engine.Index.Each.{Every, EachEntry-keep}
use gokv.Engine.Compact.Repoint.{Phase}
use gokv.Engine.Compact.Drop.{file_of-cleanup, contains-merge_ids, Points-same, value_in-same}
use gokv.Engine.Compact.Whole.{
  start, start-Copying, merged, items, moved_index, done, moved_away, copyable, Located, located,
}

module _ ⦃c : Checksum⦄ (s : Store) (h : IsLive s) where
  -- `cleanup` leaves the store as it was, but for the ids that have been handed out.
  abandon-Live :
      (o : Output)
      → Copying s.files s.next_id o
      → IsLive (abandon s o) × ((j : List ℕ) → value_of (abandon s o) j ≡ value_of s j)
  unfolding abandon
  abandon-Live o k =
      let same : (i : ℕ) → file_of i (remove_files o.outs o.files) ≡ file_of i s.files =
        λ i. file_of-cleanup s.files s.next_id o i h.sound.stocked.fresh k in
      (
        record {
          sound = record {
            indexing = record {
              sorted = h.sound.indexing.sorted;
              counted = h.sound.indexing.counted;
              points = λ j e l.
                  Points-same s.files _ j e (same e.file_id) (h.sound.indexing.points j e l);
            };
            stocked = record {
              sizes = λ i f q. h.sound.stocked.sizes i f (sym (same i) ∙ q);
              fresh = λ i f q. omega (arith, h.sound.stocked.fresh i f (sym (same i) ∙ q), k.grown);
              current = (h.sound.stocked.current.0, same s.active ∙ h.sound.stocked.current.1);
            };
          };
          newest = record { at = h.newest.at };
        },
        λ j. value_in-same s.files _ s.keydir.index j (λ e l. same e.file_id),
      )

  not_merged :
      (o : Output) (i : ℕ)
      → contains i (merged s h) ≡ false
      → file_of i (remove_files (merged s h) o.files) ≡ file_of i o.files
  not_merged o i q = file_of-remove_files (merged s h) i o.files ∙ rw q refl

  pub left_there :
      (o : Output) (i : ℕ) (f : DataFile)
      → file_of i (remove_files (merged s h) o.files) ≡ some f
      → file_of i o.files ≡ some f
  left_there o i f q = ground (arith, file_of-remove_files (merged s h) i o.files, q)

  active_stays :
      (o : Output)
      → Copying s.files s.next_id o
      → (f : DataFile) × (file_of s.active (remove_files (merged s h) o.files) ≡ some f)
  active_stays o k =
      let (f, there) = h.sound.stocked.current in
      let kept : contains s.active (merged s h) ≡ false =
        contains-merge_ids s.active s.active s.files ∙ rw (==_refl s.active) refl in
      (
        f,
        not_merged o s.active kept
            ∙ k.kept s.active (h.sound.stocked.fresh s.active f there)
            ∙ there,
      )

  finish-Live :
      (o : Output) (moves : List Move)
      → Copying s.files s.next_id o
      → Extends s.files o.files
      → AreMoves s.files s.next_id (value_of s) o.files (items s h) moves
      → IsLive (finish s (merged s h) moves o)
        × ((j : List ℕ) → value_of (finish s (merged s h) moves o) j ≡ value_of s j)
  unfolding finish recount
  finish-Live o moves k x a =
      let d : Phase o.files s.seq (value_of s) (merged s h) [] [] (moved_index s h moves) =
        done s h o moves k x a in
      let away : Every (λ j e. contains e.file_id (merged s h) ≡ false) (moved_index s h moves) =
        moved_away s h o _ d in
      (
        record {
          sound = record {
            indexing = record {
              sorted = d.good.sorted;
              counted = record { bytes = refl; count = refl };
              points = λ j e l.
                  Points-same o.files _ j e (not_merged o e.file_id (away j e l))
                    (d.good.points j e l);
            };
            stocked = record {
              sizes = λ i f q. k.sizes i f (left_there o i f q);
              fresh = λ i f q. k.fresh i f (left_there o i f q);
              current = active_stays o k;
            };
          };
          newest = record { at = d.good.below };
        },
        λ j.
            value_in-same o.files _ (moved_index s h moves) j
              (λ e l. not_merged o e.file_id (away j e l))
            ∙ d.good.values j,
      )

  merge_by :
      (io : CompactIo) (o : Output) (copied : Outcome (List Move))
      → Copying s.files s.next_id o
      → Extends s.files o.files
      → CopyResults s.files s.next_id io.copy (value_of s) o.files (items s h) copied
      → Refines s (value_of s) (elim copied [
        | err x ↦ (abandon s o, err x)
        | ok moves ↦
            if io.sync_outs && io.commit && io.sync_dir
            then (finish s (merged s h) moves o, ok tt)
            else (abandon s o, err os_error)
      ])
  merge_by io o copied k x (CopyResults.failed y j b) =
      let (l, v) = abandon-Live o k in record { live = l; values = v }
  merge_by io o copied k x (CopyResults.copied moves a) =
      elim (Bool-cases (io.sync_outs && io.commit && io.sync_dir)) [
        | inl good ↦
            let (l, v) = finish-Live o moves k x a in rw good (record { live = l; values = v })
        | inr bad ↦ let (l, v) = abandon-Live o k in rw bad (record { live = l; values = v })
      ]

length-keep : (p : List ℕ → Entry → Bool) (m : Index) → length (keep p m) ≤ length m
unfolding keep
length-keep p [] = omega arith
length-keep p ((k, e) ∷ m) = ground (arith, length-keep p m)

either_value :
    (o : Outcome (Unit {0})) (a b d : Option (List ℕ))
    → a ≡ elim o [ ok u ↦ b | err e ↦ b ]
    → b ≡ d
    → a ≡ elim o [ ok u ↦ d | err e ↦ d ]
either_value (ok u) a b d p q = p ∙ q
either_value (err e) a b d p q = p ∙ q

module _ ⦃c : Checksum⦄ where
  pub copied_all :
      (s : Store) (h : IsLive s) (io : CompactIo)
      → s.next_id + length s.keydir.index < u32_mod
      → CopiedAll s.files s.next_id io.copy
          (value_of s)
          (items s h)
          (start s)
          (copy_all s.opts.max_file_size io.copy 0 (items s h) (start s))
  copied_all s h io room =
      copy_all-CopiedAll s.files s.next_id (value_of s) s.opts.max_file_size io.copy 0 (items s h)
        (start s) (Extends-refl s.files) (start-Copying s h.sound.stocked)
        (omega (arith, room, length-keep (is_item (merged s h)) s.keydir.index))
        (copyable s h _
          (EachEntry-keep (Located s h) (is_item (merged s h)) s.keydir.index (located s h)))

  merge-Refines :
      (s : Store) (io : CompactIo)
      → IsLive s
      → s.next_id + length s.keydir.index < u32_mod
      → Refines s (value_of s) (merge s (merge_ids s.active s.files) io)
  unfolding merge
  merge-Refines s io h room =
      let r = copied_all s h io room in merge_by s h io _ _ r.copying r.extends r.result

  pub seal-Kept :
      (s : Store) (io : CompactIo) → IsSound s → s.next_id + 1 < u32_mod → Kept s (seal s io).0
  unfolding seal
  seal-Kept s io h room =
      let made : Kept s (open_new_active s io.fresh).0 = open_new_active-Kept s io.fresh h room in
      branches-Kept s (open_new_active s io.fresh).0
        (record (open_new_active s io.fresh).0 { dirty = false }) (not (ltb 0 (active_file s).size))
        io.sync_old (open_new_active s io.fresh).1 (Kept-self s h) made
        (record {
          sound = record { indexing = made.sound.indexing; stocked = made.sound.stocked };
          extends = made.extends;
          same = made.same;
          seq = made.seq;
          open_still = made.open_still;
        })

  pub seal_ids :
      (s : Store) (io : CompactIo) → s.next_id + 1 < u32_mod → (seal s io).0.next_id ≤ s.next_id + 1
  unfolding seal open_new_active
  seal_ids s io room = ground arith

  pub Kept-Live : (s t : Store) → IsLive s → Kept s t → IsLive t
  Kept-Live s t h k = record { sound = k.sound; newest = rw (k.seq, k.same) h.newest }

  -- The branches of `compact`.
  either-Refines :
      (s t : Store) (closed sealed empty : Bool) (res : Store × Outcome (Unit {0}))
      → IsLive s
      → Kept s t
      → Refines t (value_of t) res
      → Refines s (value_of s) (
          if closed
          then (s, err closed_store)
          else if not sealed
          then (t, err os_error)
          else if empty
          then (t, ok tt)
          else res)
  either-Refines s t true b e res h k r = record { live = h; values = λ j. refl }
  either-Refines s t false false e res h k r = record {
    live = Kept-Live s t h k;
    values = λ j. Kept-value s t j h.sound k;
  }
  either-Refines s t false true true res h k r = record {
    live = Kept-Live s t h k;
    values = λ j. Kept-value s t j h.sound k;
  }
  either-Refines s t false true false res h k r = record {
    live = r.live;
    values = λ j. either_value res.1 _ _ _ (r.values j) (Kept-value s t j h.sound k);
  }

  -- A compaction of a live store that has ids left for a new active file and for one output file
  -- per key leaves a live store that holds what it held, whether it succeeds or any of its calls
  -- fails.
  pub compact-Refines :
      (s : Store) (io : CompactIo)
      → IsLive s
      → (s.next_id + 1) + length s.keydir.index < u32_mod
      → Refines s (value_of s) (compact s io)
  unfolding compact
  compact-Refines s io h room =
      let t : Store = (seal s io).0 in
      let k : Kept s t = seal-Kept s io h.sound (omega arith) in
      either-Refines s t s.closed (seal s io).1 (length (merge_ids t.active t.files) == 0) _ h k (
        merge-Refines t io (Kept-Live s t h k)
          (rw k.same (omega (arith, room, seal_ids s io (omega arith)))))
