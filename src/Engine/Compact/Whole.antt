-- ===== src/Engine/Compact/Whole.antt =====
-- A compaction as the clients and the next compaction see it.
use gokv.Prelude.{
  ℕ, ◌<◌, ◌≡◌, refl, true, false, none, some, List, [], ◌∷◌, arith, if◌then◌else◌, Bool-cases,
  Option-cases, inl, inr,
}
use mathlib.Core.Option.{some-injective}
use gokv.Prelude.Keys.{key_eq, key_eq_iff}
use gokv.Engine.Record.{Checksum}
use gokv.Engine.Index.{Entry, Index, lookup, keep}
use gokv.Engine.Index.Each.{Every, EachEntry, Every-EachEntry, EachEntry-keep}
use gokv.Engine.Index.Laws.{lookup-keep}
use gokv.Engine.Files.{file_of, contains}
use gokv.Engine.Store.{Store}
use gokv.Engine.Store.Sound.Defs.{Points, IsStocked, value_of, value_in-Points}
use gokv.Engine.Store.Sound.Grow.{Extends, Points-Extends, value_in-Extends}
use gokv.Engine.Store.Sound.Refine.{IsLive}
use gokv.Engine.Compact.{Output, Move, is_item, is_retired, merge_ids, repoint_all, retire_all}
use gokv.Engine.Compact.Copy.{Copying}
use gokv.Engine.Compact.CopyAll.{AreCopyable, AreMoves}
use gokv.Engine.Compact.Steps.{Waits}
use gokv.Engine.Compact.Repoint.{Phase, AreGone, retire_all-Phase, repoint_all-Phase}
use gokv.Engine.Compact.Drop.{contains-merge_ids}

lookup-Waits : (m : Index) (k : List ℕ) (e : Entry) → lookup k m ≡ some e → Waits k e m
unfolding lookup
lookup-Waits [] k e h = absurd (cc h)
lookup-Waits ((j, d) ∷ m) k e h = elim (Bool-cases (key_eq j k)) [
  | inl same ↦ inl ((key_eq_iff j k).0 same, some-injective d e (rw same at h))
  | inr other ↦ inr (lookup-Waits m k e (rw other at h))
]

-- The output before the first copy.
abbrev pub start : Store → Output
start s = record { files = s.files; next_id = s.next_id; out = none; outs = [] }

pub start-Copying :
    (s : Store) → IsStocked s.files s.active s.next_id → Copying s.files s.next_id (start s)
unfolding contains
start-Copying s h = record {
  kept = λ i p. refl;
  sizes = h.sizes;
  fresh = h.fresh;
  listed = λ i f q p. absurd (omega (arith, h.fresh i f q));
  later = λ i q. absurd (cc q);
  current = λ id q. absurd (cc q);
  grown = omega arith;
}

module _ ⦃c : Checksum⦄ (s : Store) (h : IsLive s) where
  abbrev pub merged : List ℕ
  merged = merge_ids s.active s.files

  abbrev pub Located : List ℕ → Entry → Type 0
  Located k e = Points s.files k e × (lookup k s.keydir.index ≡ some e)

  pub located : EachEntry Located s.keydir.index
  located =
      Every-EachEntry Located s.keydir.index h.sound.indexing.sorted
        (λ k e l. (h.sound.indexing.points k e l, l))

  value_at :
      (k : List ℕ) (e : Entry) (p : Points s.files k e)
      → lookup k s.keydir.index ≡ some e
      → value_of s k ≡ (if e.tomb then none else some p.rec.value)
  value_at k e p l =
      value_in-Points s.files s.keydir.index k e p (h.sound.stocked.sizes e.file_id p.file p.found)
        l

  pub copyable :
      (m : Index)
      → EachEntry (λ k e. Located k e × (is_item merged k e ≡ true)) m
      → AreCopyable s.files s.next_id (value_of s) m
  copyable [] a = tt
  copyable ((k, e) ∷ m) (((p, l), i), a) =
      ((p, ground (arith, value_at k e p l, i), ground (arith, i)), copyable m a)

  gone :
      (m : Index)
      → EachEntry (λ k e. Located k e × (is_retired merged k e ≡ true)) m
      → AreGone s.files s.seq (value_of s) m
  gone [] a = tt
  gone ((k, e) ∷ m) (((p, l), i), a) = (ground (arith, value_at k e p l, i), gone m a)

  abbrev pub items : Index
  items = keep (is_item merged) s.keydir.index

  abbrev pub retired : Index
  retired = keep (is_retired merged) s.keydir.index

  -- The merged files are older than the outputs.
  older : (i : ℕ) → contains i merged ≡ true → i < s.next_id
  older i q = elim (Option-cases (file_of i s.files)) [
    | inl none_there ↦ absurd (ground (arith, contains-merge_ids s.active i s.files, none_there, q))
    | inr (f, there) ↦ h.sound.stocked.fresh i f there
  ]

  phase :
      (o : Output)
      → Copying s.files s.next_id o
      → Extends s.files o.files
      → Phase o.files s.seq (value_of s) merged items retired s.keydir.index
  phase o k x = record {
    good = record {
      sorted = h.sound.indexing.sorted;
      points = λ j e l. Points-Extends s.files o.files j e x (h.sound.indexing.points j e l);
      below = h.newest.at;
      values = λ j.
          value_in-Extends s.files o.files s.keydir j x h.sound.indexing h.sound.stocked.sizes
            k.sizes;
    };
    live = λ j e l i.
        lookup-Waits items j e
          (lookup-keep (is_item merged) s.keydir.index j e h.sound.indexing.sorted l i);
    dead = λ j e l i.
        lookup-Waits retired j e
          (lookup-keep (is_retired merged) s.keydir.index j e h.sound.indexing.sorted l i);
  }

  -- What the index is once the moves have been made.
  abbrev pub moved_index : List Move → Index
  moved_index moves = retire_all retired (repoint_all moves s.keydir.index)

  pub done :
      (o : Output) (moves : List Move)
      → Copying s.files s.next_id o
      → Extends s.files o.files
      → AreMoves s.files s.next_id (value_of s) o.files items moves
      → Phase o.files s.seq (value_of s) merged [] [] (moved_index moves)
  done o moves k x a =
      retire_all-Phase o.files s.seq (value_of s) merged [] retired
        (repoint_all moves s.keydir.index)
        (gone retired (EachEntry-keep Located (is_retired merged) s.keydir.index located))
        (repoint_all-Phase o.files s.seq (value_of s) merged items retired s.keydir.index s.files
          s.next_id moves k.sizes older a (phase o k x))

  -- No entry is left in a merged file.
  pub moved_away :
      (o : Output) (m : Index)
      → Phase o.files s.seq (value_of s) merged [] [] m
      → Every (λ j e. contains e.file_id merged ≡ false) m
  moved_away o m d j e l = elim (Bool-cases (contains e.file_id merged)) [
    | inr away ↦ away
    | inl inside ↦ elim (Bool-cases e.tomb) [
      | inl t ↦ absurd (d.dead j e l (rw (inside, t) refl))
      | inr t ↦ absurd (d.live j e l (rw (inside, t) refl))
    ]
  ]
