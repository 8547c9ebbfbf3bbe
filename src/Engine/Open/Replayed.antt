-- ===== src/Engine/Open/Replayed.antt =====
-- `recover` on files as the write path makes them: the hints change nothing.
use gokv.Prelude.{
  ℕ, ◌+◌, ◌%◌, ◌<◌, ◌≡◌, refl, ap, ◌∙◌, sym, Bool, true, false, ◌&&◌, Option, none, some, List, [],
  ◌∷◌, ◌++◌, arith, length, All, if◌then◌else◌, Bool-cases, Option-cases, inl, inr, ltb,
}
use gokv.Prelude.Bytes.{u32_mod, u64_mod}
use gokv.Engine.Record.{Checksum, Record, encode, IsStorable, next_record}
use gokv.Engine.Record.Scan.{encodes, each}
use gokv.Engine.Index.{Index, recount}
use gokv.Engine.Index.Newest.{apply_all}
use gokv.Engine.Files.{empty_file, set_file}
use gokv.Engine.Store.{Store, Options, Outcome, ok, err}
use gokv.Engine.Store.Append.{open_new_active}
use gokv.Engine.Recover.{ScanState, scan_into_index, replay_record}
use gokv.Engine.Recover.Groups.{Group, IsGroup, log_of, changes, after, after-cons, log_settles}
use gokv.Engine.Recover.Agree.{scan_into_index-after}
use gokv.Engine.Replica.{max_seq}
use gokv.Engine.Hint.{HintIo, build_hint}
use gokv.Engine.Hint.RoundTrip.{hinted, build_hint-some, read_hint-hints_of}
use gokv.Engine.Open.{
  DirFile, OpenIo, Recovering, hint_change, apply_hint, index_file, admit_file, recover_file,
  recover_files, recovered, choose_active, nothing_recovered, recover,
}

module _ ⦃c : Checksum⦄ where
  pub hinted-hint_change :
      (id pos : ℕ) (rs : List Record) (m : Index) (seen : ℕ)
      → hinted hint_change id pos rs (m, seen) ≡ (apply_all (changes id pos rs) m, max_seq seen rs)
  unfolding hint_change apply_all max_seq
  hinted-hint_change id pos [] m seen = refl
  hinted-hint_change id pos (r ∷ rs) m seen = hinted-hint_change id (pos + length (encode r)) rs _ _

  seen_step :
      (id pos : ℕ) (r : Record) (st : ScanState)
      → (replay_record id pos (encode r) r st).0.max_seq
        ≡ (if ltb st.max_seq r.seq then r.seq else st.max_seq)
  unfolding replay_record
  seen_step id pos r st = ground arith

  pub max_seq-after :
      (id pos : ℕ) (rs : List Record) (st : ScanState)
      → (after id pos rs st).max_seq ≡ max_seq st.max_seq rs
  unfolding max_seq each
  max_seq-after id pos [] st = refl
  max_seq-after id pos (r ∷ rs) st =
      ap (λ x. x.max_seq) (after-cons id pos r rs st)
      ∙ max_seq-after id (pos + length (encode r)) rs _
      ∙ ap (λ n. max_seq n rs) (seen_step id pos r st)

  -- A data file of whole groups with a tail that holds no record, and a hint that `buildHint` made of
  -- it, or none.
  pub record IsLogged (f : DirFile) (gs : List Group) : Type 0 where
    pub tail : List ℕ
    pub made : HintIo
    pub contents : f.contents ≡ encodes (log_of gs) ++ tail
    pub hint : f.hint ≡ build_hint made f.id f.contents
    pub groups : All IsGroup gs
    pub storable : All IsStorable (log_of gs)
    pub torn : next_record tail ≡ none
    pub small : length (encodes (log_of gs)) < u64_mod

  -- The index and the largest sequence number after a file.
  abbrev pub with_file : ℕ → List Group → Index × ℕ → Index × ℕ
  with_file id gs (m, seen) = (apply_all (changes id 0 (log_of gs)) m, max_seq seen (log_of gs))

  scan-with_file :
      (f : DirFile) (gs : List Group) (m : Index) (seen : ℕ)
      → IsLogged f gs
      → let found = scan_into_index f.id f.contents m seen in
        (found.index, found.max_seq) ≡ with_file f.id gs (m, seen)
  scan-with_file f gs m seen h =
      let start : ScanState = record { index = m; max_seq = seen; pending = []; commit = 0 } in
      let done = log_settles f.id 0 gs start h.groups h.storable refl refl in
      rw
        (
          h.contents,
          scan_into_index-after f.id seen (log_of gs) h.tail m h.storable h.torn,
          done.index,
          max_seq-after,
        )
        refl

  apply_hint-with_file :
      (f : DirFile) (gs : List Group) (m : Index) (seen : ℕ) (x : List ℕ)
      → IsLogged f gs
      → f.hint ≡ some x
      → apply_hint f.id f.hint (m, seen) ≡ (with_file f.id gs (m, seen), true)
  unfolding apply_hint
  apply_hint-with_file f gs m seen x h e =
      let built : build_hint h.made f.id (encodes (log_of gs) ++ h.tail) ≡ some x =
        rw (← h.contents) (sym h.hint ∙ e) in
      rw
        (
          e,
          build_hint-some h.made f.id (log_of gs) h.tail x h.storable h.torn built,
          read_hint-hints_of hint_change f.id (log_of gs) (m, seen) h.storable h.small,
        )
        (ap (λ z. (z, true)) (hinted-hint_change f.id 0 (log_of gs) m seen))

  index_file-with_file :
      (f : DirFile) (gs : List Group) (m : Index) (seen : ℕ)
      → IsLogged f gs
      → (index_file f (m, seen)).0 ≡ with_file f.id gs (m, seen)
  unfolding index_file
  index_file-with_file f gs m seen h = elim (Option-cases f.hint) [
    | inl bare ↦ unfold apply_hint in rw bare (scan-with_file f gs m seen h)
    | inr (x, e) ↦ rw (apply_hint-with_file f gs m seen x h e)
  ]

-- Every call succeeds.
pub record Works (io : OpenIo) : Type 0 where
  pub scan : (id : ℕ) → io.scan id ≡ true
  pub reopen : (id : ℕ) → io.reopen id ≡ true
  pub truncate : (id : ℕ) → io.truncate id ≡ true
  pub sync : (id : ℕ) → io.sync id ≡ true
  pub create : io.fresh.create ≡ true
  pub sync_dir : io.fresh.sync_dir ≡ true

-- The loop has gone on, with this index and largest sequence number.
abbrev pub Goes : Index × ℕ → Outcome Recovering → Type 0
Goes x (ok st) = (st.index, st.max_seq) ≡ x
Goes x (err e) = ⊥

abbrev pub has_seen : Recovering → Index × ℕ
has_seen st = (st.index, st.max_seq)

module _ ⦃c : Checksum⦄ where
  admit_file-Goes :
      (io : OpenIo) (opts : Options) (is_last : Bool) (f : DirFile) (st : Recovering)
      (x : Index × ℕ) (o : Option ℕ)
      → Works io
      → Goes x (admit_file io opts is_last f st (x, o))
  unfolding admit_file
  admit_file-Goes io opts is_last f st (m, seen) none w = rw (w.reopen f.id) refl
  admit_file-Goes io opts is_last f st (m, seen) (some commit) w =
      rw (w.scan f.id, w.reopen f.id, w.truncate f.id, w.sync f.id)
        (elim (Bool-cases (is_last && ltb commit (length f.contents))) [
          | inl torn ↦ rw torn refl
          | inr whole ↦ rw whole refl
        ])

  recover_file-Goes :
      (io : OpenIo) (opts : Options) (is_last : Bool) (f : DirFile) (gs : List Group)
      (st : Recovering)
      → Works io
      → IsLogged f gs
      → Goes (with_file f.id gs (has_seen st)) (recover_file io opts is_last f st)
  unfolding recover_file
  recover_file-Goes io opts is_last f gs st w h =
      let found = index_file f (st.index, st.max_seq) in
      rw (← index_file-with_file f gs st.index st.max_seq h)
        (admit_file-Goes io opts is_last f st found.0 found.1 w)

  -- The files of a directory, each with the groups that it holds.
  abbrev pub AllLogged : List (DirFile × List Group) → Type 0
  AllLogged [] = Unit {0}
  AllLogged ((f, gs) ∷ fs) = IsLogged f gs × AllLogged fs

  abbrev pub files_of : List (DirFile × List Group) → List DirFile
  files_of [] = []
  files_of ((f, gs) ∷ fs) = f ∷ files_of fs

  -- Every record of the directory, in the order of the files.
  abbrev pub replay_all : List (DirFile × List Group) → Index × ℕ → Index × ℕ
  replay_all [] x = x
  replay_all ((f, gs) ∷ fs) x = replay_all fs (with_file f.id gs x)

  going_on :
      (io : OpenIo) (opts : Options) (fs : List (DirFile × List Group)) (x : Index × ℕ)
      (res : Outcome Recovering)
      → ((st : Recovering)
          → Goes (replay_all fs (has_seen st)) (recover_files io opts (files_of fs) st))
      → Goes x res
      → Goes
          (replay_all fs x)
          (elim res [ err e ↦ err e | ok st ↦ recover_files io opts (files_of fs) st ])
  going_on io opts fs x (ok st) k h = rw (← h) (k st)
  going_on io opts fs x (err e) k h = h

  recover_files-Goes :
      (io : OpenIo) (opts : Options) (fs : List (DirFile × List Group)) (st : Recovering)
      → Works io
      → AllLogged fs
      → Goes (replay_all fs (has_seen st)) (recover_files io opts (files_of fs) st)
  unfolding recover_files
  recover_files-Goes io opts [] st w h = refl
  recover_files-Goes io opts ((f, gs) ∷ []) st w h = recover_file-Goes io opts true f gs st w h.0
  recover_files-Goes io opts ((f, gs) ∷ ((g, hs) ∷ fs)) st w h =
      going_on io opts ((g, hs) ∷ fs) _ (recover_file io opts false f st)
        (λ st'. recover_files-Goes io opts ((g, hs) ∷ fs) st' w h.1)
        (recover_file-Goes io opts false f gs st w h.0)

  -- What `recover` returns where it succeeds.
  pub record Recovers (x : Index × ℕ) (res : Outcome Store) : Type 0 where
    pub store : Store
    pub found : res ≡ ok store
    pub keydir : store.keydir ≡ recount (record { index = x.0; live = 0; n_live = 0 })
    pub seq : store.seq ≡ x.1

  choose_active-Recovers :
      (o : Option ℕ) (opts : Options) (merge_seq : ℕ) (st : Recovering) (io : OpenIo)
      → Works io
      → Recovers (has_seen st) (choose_active o (recovered opts merge_seq st) io.fresh)
  unfolding choose_active open_new_active
  choose_active-Recovers (some id) opts merge_seq st io w = record {
    store = record (recovered opts merge_seq st) { active = id };
    found = refl;
    keydir = refl;
    seq = refl;
  }
  choose_active-Recovers none opts merge_seq st io w =
      let s = recovered opts merge_seq st in
      rw (w.create, w.sync_dir)
        (record {
          store = record s {
            files = set_file s.next_id empty_file s.files;
            active = s.next_id;
            next_id = (s.next_id + 1) % u32_mod;
          };
          found = refl;
          keydir = refl;
          seq = refl;
        })

  finished-Recovers :
      (io : OpenIo) (opts : Options) (merge_seq : ℕ) (x : Index × ℕ) (res : Outcome Recovering)
      → Works io
      → Goes x res
      → Recovers x (elim res [
        | err e ↦ err e
        | ok st ↦ choose_active st.reuse (recovered opts merge_seq st) io.fresh
      ])
  finished-Recovers io opts merge_seq x (ok st) w h =
      rw (← h) (choose_active-Recovers st.reuse opts merge_seq st io w)
  finished-Recovers io opts merge_seq x (err e) w h = absurd h

  -- Every file of a directory holds whole groups of storable records, fewer than 2 ^ 64 bytes,
  -- with a tail that holds no record, and has a hint only if `build_hint` has made one of it,
  -- whatever failed there; every call of `recover` succeeds. Then `recover` succeeds, its index
  -- is that of all records of the files applied in their order, with its counters recounted, and
  -- its sequence number the largest of theirs: a hint changes neither.
  pub recover-replay_all :
      (io : OpenIo) (opts : Options) (merge_seq : ℕ) (fs : List (DirFile × List Group))
      → Works io
      → AllLogged fs
      → Recovers (replay_all fs ([], 0)) (recover io opts merge_seq (files_of fs))
  unfolding recover
  recover-replay_all io opts merge_seq fs w h =
      finished-Recovers io opts merge_seq _ _ w
        (recover_files-Goes io opts fs nothing_recovered w h)
