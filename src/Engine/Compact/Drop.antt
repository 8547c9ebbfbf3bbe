-- ===== src/Engine/Compact/Drop.antt =====
-- The files that a compaction removes: its own outputs when it fails, the merged ones when it is done.
use gokv.Prelude.{
  ℕ, ◌≤◌, ◌<◌, ◌≡◌, ◌∙◌, refl, sym, true, false, none, some, List, [], ◌∷◌, arith, ◌==◌,
  if◌then◌else◌, Bool-cases, Option-cases, inl, inr, ltb, ltb→lt, ltb→le,
}
use gokv.Engine.Record.{Checksum}
use gokv.Engine.Index.{Entry, Index, lookup}
use gokv.Engine.Files.{DataFile, Files, file_of, remove_files, contains}
use gokv.Engine.Files.Laws.{file_of-remove_files}
use gokv.Engine.Store.Sound.Defs.{Points, value_in}
use gokv.Engine.Store.Reads.{read_value}
use gokv.Engine.Compact.{Output, merge_ids}
use gokv.Engine.Compact.Copy.{Copying}

below_unless : (i n : ℕ) → (n ≤ i → ⊥) → i < n
below_unless i n h = elim (Bool-cases (ltb i n)) [
  | inl p ↦ ltb→lt i n p
  | inr p ↦ absurd (h (ltb→le i n p))
]

-- The files that were there when the copying began are what `cleanup` leaves.
pub file_of-cleanup :
    (before : Files) (n : ℕ) (o : Output) (i : ℕ)
    → ((i : ℕ) (f : DataFile) → file_of i before ≡ some f → i < n)
    → Copying before n o
    → file_of i (remove_files o.outs o.files) ≡ file_of i before
file_of-cleanup before n o i fresh h =
    file_of-remove_files o.outs i o.files ∙ elim (Option-cases (file_of i o.files)) [
      | inl gone ↦ elim (Option-cases (file_of i before)) [
        | inl never ↦ rw (gone, never) (ground arith)
        | inr (g, r) ↦
            let c' : none ≡ some g = sym gone ∙ h.kept i (fresh i g r) ∙ r in absurd (cc c')
      ]
      | inr (f, q) ↦ elim (Bool-cases (contains i o.outs)) [
        | inl out ↦ elim (Option-cases (file_of i before)) [
          | inl never ↦ rw (out, never) refl
          | inr (g, r) ↦ absurd (omega (arith, h.later i out, fresh i g r))
        ]
        | inr old ↦ rw old (h.kept i (below_unless i n (λ p. absurd (cc (h.listed i f q p, old)))))
      ]
    ]

-- The merged files are all but the active one.
pub contains-merge_ids :
    (active i : ℕ) (fs : Files)
    → contains i (merge_ids active fs)
      ≡ (if i == active then false else elim (file_of i fs) [ some f ↦ true | none ↦ false ])
unfolding contains merge_ids file_of
contains-merge_ids active i [] = ground arith
contains-merge_ids active i ((j, f) ∷ fs) = ground (arith, contains-merge_ids active i fs)

module _ ⦃c : Checksum⦄ where
  -- A read depends on the one file only.
  pub Points-same :
      (files files' : Files) (k : List ℕ) (e : Entry)
      → file_of e.file_id files' ≡ file_of e.file_id files
      → Points files k e
      → Points files' k e
  Points-same files files' k e q p = record {
    file = p.file;
    rec = p.rec;
    found = q ∙ p.found;
    inside = p.inside;
    bytes = p.bytes;
    storable = p.storable;
    key = p.key;
    seq = p.seq;
    tomb = p.tomb;
  }

  pub value_in-same :
      (files files' : Files) (m : Index) (k : List ℕ)
      → ((e : Entry) → lookup k m ≡ some e → file_of e.file_id files' ≡ file_of e.file_id files)
      → value_in files' m k ≡ value_in files m k
  unfolding value_in read_value
  value_in-same files files' m k h = elim (Option-cases (lookup k m)) [
    | inl q ↦ rw (q, value_in) refl
    | inr (e, q) ↦ rw (q, value_in, h e q) refl
  ]
