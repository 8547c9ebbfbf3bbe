-- ===== src/Engine/Open/Indexed.antt =====
-- The index after one file of any bytes, by its hint or by a scan.
use gokv.Prelude.{
  ℕ, ◌≤◌, ◌<◌, ◌≡◌, ap, sym, ◌∙◌, true, Option, none, some, List, [], ◌++◌, arith, length, All,
  Option-cases, inl, inr, length-append,
}
use gokv.Prelude.Bytes.{u64_mod, IsByte}
use gokv.Engine.Record.{Checksum}
use gokv.Engine.Record.Scan.{encodes}
use gokv.Engine.Record.Parse.{Parsed, parse}
use gokv.Engine.Index.{Index}
use gokv.Engine.Index.Newest.{apply_all}
use gokv.Engine.Files.{Files}
use gokv.Engine.Recover.{ScanState, scan_into_index}
use gokv.Engine.Recover.Groups.{changes, after}
use gokv.Engine.Recover.Agree.{scan_into_index-after}
use gokv.Engine.Replica.{max_seq}
use gokv.Engine.Hint.{HintIo, build_hint}
use gokv.Engine.Hint.RoundTrip.{build_hint-some, read_hint-hints_of}
use gokv.Engine.Open.{DirFile, hint_change, apply_hint, index_file}
use gokv.Engine.Open.Located.{Places, Places-weaken}
use gokv.Engine.Open.Scanned.{after-IsScanning, changes-Places}
use gokv.Engine.Open.Replayed.{hinted-hint_change}

module _ ⦃c : Checksum⦄ where
  -- A data file of any bytes, and a hint that `buildHint` made of it, or none.
  pub record IsReadable (f : DirFile) : Type 0 where
    pub bytes : All IsByte f.contents
    pub small : length f.contents < u64_mod
    pub made : HintIo
    pub hint : f.hint ≡ build_hint made f.id f.contents

  -- How much of the file is taken, by what `index_file` returns.
  abbrev pub taken : DirFile → Option ℕ → ℕ
  taken f none = length f.contents
  taken f (some commit) = commit

  abbrev pub Indexes : Files → DirFile → (Index × ℕ) × Option ℕ → Type 0
  Indexes files f ((m, seen), o) =
      (taken f o ≤ length f.contents) × Places files f.id f.contents (taken f o) seen m

  scanned-Indexes :
      (files : Files) (f : DirFile) (m : Index) (seen : ℕ)
      → All IsByte f.contents
      → Places files f.id f.contents 0 seen m
      → let found = scan_into_index f.id f.contents m seen in
        Indexes files f ((found.index, found.max_seq), some found.commit)
  scanned-Indexes files f m seen bytes h =
      let p = parse f.contents bytes in
      let start : ScanState = record { index = m; max_seq = seen; pending = []; commit = 0 } in
      let same : scan_into_index f.id f.contents m seen ≡ after f.id 0 p.recs start =
        ap (λ b. scan_into_index f.id b m seen) p.bytes
        ∙ scan_into_index-after f.id seen p.recs p.tail m p.storable p.torn in
      rw same (
        after-IsScanning files f.id f.contents 0 p.recs p.tail start p.bytes p.storable
          (record { places = h; waiting = tt; behind = omega arith; inside = omega arith }))

  apply_hint_any :
      (f : DirFile) (m : Index) (seen : ℕ) (x : List ℕ) (h : IsReadable f) (p : Parsed f.contents)
      → f.hint ≡ some x
      → apply_hint f.id f.hint (m, seen)
        ≡ ((apply_all (changes f.id 0 p.recs) m, max_seq seen p.recs), true)
  unfolding apply_hint
  apply_hint_any f m seen x h p e =
      let built : build_hint h.made f.id (encodes p.recs ++ p.tail) ≡ some x =
        ap (build_hint h.made f.id) (sym p.bytes) ∙ sym h.hint ∙ e in
      let fits : length (encodes p.recs) < u64_mod =
        omega (arith, h.small, ap length p.bytes, length-append (encodes p.recs) p.tail) in
      rw
        (
          e,
          build_hint-some h.made f.id p.recs p.tail x p.storable p.torn built,
          read_hint-hints_of hint_change f.id p.recs (m, seen) p.storable fits,
        )
        (ap (λ z. (z, true)) (hinted-hint_change f.id 0 p.recs m seen))

  pub index_file-Indexes :
      (files : Files) (f : DirFile) (m : Index) (seen : ℕ)
      → IsReadable f
      → Places files f.id f.contents 0 seen m
      → Indexes files f (index_file f (m, seen))
  unfolding index_file
  index_file-Indexes files f m seen h pl = elim (Option-cases f.hint) [
    | inl bare ↦ unfold apply_hint in rw bare (scanned-Indexes files f m seen h.bytes pl)
    | inr (x, e) ↦
        let p = parse f.contents h.bytes in
        rw (apply_hint_any f m seen x h p e) (
          omega arith,
          changes-Places files f.id f.contents 0 p.recs p.tail m seen p.bytes p.storable (
              Places-weaken files f.id f.contents 0 (length f.contents) seen seen m (omega arith)
                (omega arith) pl),
        )
  ]
