-- ===== src/Engine/Open/Scanned.antt =====
-- What a scan of any bytes, and a hint of them, leave in the index.
use gokv.Prelude.{
  ℕ, ◌+◌, ◌%◌, ◌≤◌, ◌≡◌, ◌∙◌, List, [], ◌∷◌, ◌++◌, arith, length, drop, All, All-append,
  append_assoc, if◌then◌else◌, ltb, Bool-cases, inl, inr,
}
use gokv.Prelude.Bytes.{u32_mod}
use gokv.Engine.Record.{Checksum, Record, encode, IsStorable, has_flag, flag_batch, flag_batch_end}
use gokv.Engine.Record.Scan.{encodes, each}
use gokv.Engine.Index.{Index}
use gokv.Engine.Index.Newest.{Change, apply_all}
use gokv.Engine.Files.{Files}
use gokv.Engine.Replica.{max_seq}
use gokv.Engine.Recover.{ScanState, replay_record}
use gokv.Engine.Recover.Groups.{changes, change_at, after, after-cons, short}
use gokv.Engine.Open.Located.{
  Places, IsHere, Places-weaken, IsHere-weaken, apply_one-Places, apply_all-Places,
  change_at-IsHere, drop-behind, fits_behind,
}

module _ ⦃c : Checksum⦄ where
  -- A scan that has come to the offset `pos`.
  pub record IsScanning (files : Files) (id : ℕ) (b : List ℕ) (pos : ℕ) (st : ScanState)
      : Type 0 where
    pub places : Places files id b st.commit st.max_seq st.index
    pub waiting : All (IsHere id b pos st.max_seq) st.pending
    pub behind : st.commit ≤ pos
    pub inside : pos ≤ length b

  module _ (files : Files) (id : ℕ) (b : List ℕ) where
    step-IsScanning :
        (pos : ℕ) (r : Record) (rest : List ℕ) (st : ScanState)
        → drop pos b ≡ encode r ++ rest
        → IsStorable r
        → IsScanning files id b pos st
        → IsScanning files id b (pos + length (encode r)) (replay_record id pos (encode r) r st).0
    unfolding replay_record apply_all
    step-IsScanning pos r rest st split s h =
        let n = length (encode r) in
        let seen : ℕ = if ltb st.max_seq r.seq then r.seq else st.max_seq in
        let up : st.max_seq ≤ seen = ground arith in
        let fits : pos + n ≤ length b = fits_behind b pos r rest split in
        let size : n % u32_mod ≡ n = short r s in
        let end = pos + n % u32_mod in
        let new : IsHere id b end seen (change_at id pos r) =
          (IsHere-weaken files id b (pos + n) end seen seen (change_at id pos r ∷ [])
            (omega (arith, size)) (omega arith)
            (change_at-IsHere id b pos seen r rest split s (ground arith), tt)).0 in
        let waited : All (IsHere id b end seen) st.pending =
          IsHere-weaken files id b pos end st.max_seq seen st.pending (omega arith) up h.waiting in
        let staged : All (IsHere id b end seen) (st.pending ++ (change_at id pos r ∷ [])) =
          All-append (IsHere id b end seen) st.pending (change_at id pos r ∷ []) waited (new, tt) in
        let on : (l : ℕ) → st.commit ≤ l → Places files id b l seen st.index =
          λ l le. Places-weaken files id b st.commit l st.max_seq seen st.index le up h.places in
        let still : (cs : List Change)
            → All (IsHere id b end seen) cs
            → All (IsHere id b (pos + n) seen) cs =
          λ cs a.
            IsHere-weaken files id b end (pos + n) seen seen cs (omega (arith, size)) (omega arith)
              a in
        elim (Bool-cases (has_flag r.flags flag_batch)) [
          | inl in_batch ↦ elim (Bool-cases (has_flag r.flags flag_batch_end)) [
            | inl last ↦
                rw (in_batch, last)
                  (record {
                    places =
                        apply_all-Places files id b end seen _ st.index
                          (on end (omega (arith, h.behind))) staged;
                    waiting = tt;
                    behind = omega (arith, size);
                    inside = fits;
                  })
            | inr inner ↦
                rw (in_batch, inner)
                  (record {
                    places = on st.commit (omega arith);
                    waiting = still _ staged;
                    behind = omega (arith, h.behind);
                    inside = fits;
                  })
          ]
          | inr plain ↦ rw plain (record {
            places =
                apply_one-Places files id b end seen st.index (change_at id pos r)
                  (on end (omega (arith, h.behind))) new;
            waiting = still _ waited;
            behind = omega (arith, size);
            inside = fits;
          })
        ]

    pub after-IsScanning :
        (pos : ℕ) (rs : List Record) (tail : List ℕ) (st : ScanState)
        → drop pos b ≡ encodes rs ++ tail
        → All IsStorable rs
        → IsScanning files id b pos st
        → ((after id pos rs st).commit ≤ length b)
          × Places files id b
              (after id pos rs st).commit
              (after id pos rs st).max_seq
              (after id pos rs st).index
    unfolding each encodes
    after-IsScanning pos [] tail st split s h = (omega (arith, h.behind, h.inside), h.places)
    after-IsScanning pos (r ∷ rs) tail st split s h =
        let split' : drop pos b ≡ encode r ++ (encodes rs ++ tail) =
          split ∙ append_assoc (encode r) (encodes rs) tail in
        rw after-cons (
          after-IsScanning (pos + length (encode r)) rs tail _ (drop-behind b pos r _ split') s.1
            (step-IsScanning pos r _ st split' s.0 h))

    -- All records at once, as a hint has them.
    pub changes-Places :
        (pos : ℕ) (rs : List Record) (tail : List ℕ) (m : Index) (seen : ℕ)
        → drop pos b ≡ encodes rs ++ tail
        → All IsStorable rs
        → Places files id b (length b) seen m
        → Places files id b (length b) (max_seq seen rs) (apply_all (changes id pos rs) m)
    unfolding apply_all max_seq encodes
    changes-Places pos [] tail m seen split s h = h
    changes-Places pos (r ∷ rs) tail m seen split s h =
        let split' : drop pos b ≡ encode r ++ (encodes rs ++ tail) =
          split ∙ append_assoc (encode r) (encodes rs) tail in
        let seen' : ℕ = if ltb seen r.seq then r.seq else seen in
        let up : seen ≤ seen' = ground arith in
        let (at, low) =
          change_at-IsHere id b pos seen' r (encodes rs ++ tail) split' s.0 (ground arith) in
        let whole =
          IsHere-weaken files id b (pos + length (encode r)) (length b) seen' seen'
            (change_at id pos r ∷ []) (fits_behind b pos r _ split') (omega arith)
            ((at, low), tt) in
        changes-Places (pos + length (encode r)) rs tail _ seen' (drop-behind b pos r _ split') s.1
          (apply_one-Places files id b (length b) seen' m (change_at id pos r)
            (Places-weaken files id b (length b) (length b) seen seen' m (omega arith) up h)
            whole.0)
