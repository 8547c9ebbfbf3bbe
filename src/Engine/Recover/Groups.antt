-- ===== src/Engine/Recover/Groups.antt =====
-- Logs as the write path makes them: single records, and whole batches.
use gokv.Prelude.{
  ℕ, ◌+◌, ◌%◌, ◌≡◌, refl, ap, sym, ◌∙◌, true, false, List, [], ◌∷◌, ◌++◌, arith, length, All,
  append_assoc, append-nil,
}
use gokv.Prelude.Bytes.{u32_mod}
use gokv.Engine.Record.{
  Checksum, Record, encode, IsStorable, is_tombstone, has_flag, flag_batch, flag_batch_end,
}
use gokv.Engine.Record.Layout.{length-encode}
use gokv.Engine.Record.Scan.{each}
use gokv.Engine.Index.{Index}
use gokv.Engine.Index.Newest.{Change, apply_all}
use gokv.Engine.Recover.{ScanState, entry_at, replay_record}

abbrev pub IsPlain : Record → Type 0
IsPlain r = has_flag r.flags flag_batch ≡ false

-- Inside a batch and not its end.
abbrev pub IsInner : Record → Type 0
IsInner r = (has_flag r.flags flag_batch ≡ true) × (has_flag r.flags flag_batch_end ≡ false)

abbrev pub IsEnd : Record → Type 0
IsEnd r = (has_flag r.flags flag_batch ≡ true) × (has_flag r.flags flag_batch_end ≡ true)

-- What `Put` and `Delete` append, or what `BatchPut` does.
pub data Group : Type 0 where
  single : Record → Group
  batch : List Record → Record → Group

abbrev pub IsGroup : Group → Type 0
IsGroup (single r) = IsPlain r
IsGroup (batch rs r) = All IsInner rs × IsEnd r

abbrev pub records_of : Group → List Record
records_of (single r) = r ∷ []
records_of (batch rs r) = rs ++ (r ∷ [])

abbrev pub log_of : List Group → List Record
log_of [] = []
log_of (g ∷ gs) = records_of g ++ log_of gs

module _ ⦃c : Checksum⦄ where
  -- The change that a record stands for, at its offset.
  abbrev pub change_at : ℕ → ℕ → Record → Change
  change_at id pos r = record {
    key = r.key;
    entry = entry_at id pos (length (encode r) % u32_mod) r;
    tomb = is_tombstone r;
  }

  abbrev pub changes : ℕ → ℕ → List Record → List Change
  changes id pos [] = []
  changes id pos (r ∷ rs) = change_at id pos r ∷ changes id (pos + length (encode r)) rs

  abbrev pub end_of : ℕ → List Record → ℕ
  end_of pos [] = pos
  end_of pos (r ∷ rs) = end_of (pos + length (encode r)) rs

  abbrev pub after : ℕ → ℕ → List Record → ScanState → ScanState
  after id pos rs st = (each (replay_record id) pos rs st).0

  replay_never_fails :
      (id pos : ℕ) (raw : List ℕ) (r : Record) (st : ScanState)
      → (replay_record id pos raw r st).1 ≡ false
  unfolding replay_record
  replay_never_fails id pos raw r st = ground arith

  pub after-cons :
      (id pos : ℕ) (r : Record) (rs : List Record) (st : ScanState)
      → after id pos (r ∷ rs) st
        ≡ after id (pos + length (encode r)) rs (replay_record id pos (encode r) r st).0
  unfolding each
  after-cons id pos r rs st = rw (after, replay_never_fails id pos (encode r) r st)

  each_nil : (id pos : ℕ) (st : ScanState) → after id pos [] st ≡ st
  unfolding each
  each_nil id pos st = refl

  pub after-append :
      (id pos : ℕ) (rs qs : List Record) (st : ScanState)
      → after id pos (rs ++ qs) st ≡ after id (end_of pos rs) qs (after id pos rs st)
  after-append id pos [] qs st = unfold each in refl
  after-append id pos (r ∷ rs) qs st =
      after-cons id pos r (rs ++ qs) st
      ∙ after-append id (pos + length (encode r)) rs qs _
      ∙ ap (after id (end_of (pos + length (encode r)) rs) qs) (sym (after-cons id pos r rs st))

  -- The callback on each kind of record.
  inner_step :
      (id pos : ℕ) (r : Record) (st : ScanState)
      → IsInner r
      → let st' = (replay_record id pos (encode r) r st).0 in
        (st'.index ≡ st.index)
        × (st'.commit ≡ st.commit)
        × (st'.pending ≡ st.pending ++ (change_at id pos r ∷ []))
  unfolding replay_record
  inner_step id pos r st h = rw (h.0, h.1) (refl, refl, refl)

  end_step :
      (id pos : ℕ) (r : Record) (st : ScanState)
      → IsEnd r
      → let st' = (replay_record id pos (encode r) r st).0 in
        (st'.index ≡ apply_all (st.pending ++ (change_at id pos r ∷ [])) st.index)
        × (st'.commit ≡ pos + length (encode r) % u32_mod)
        × (st'.pending ≡ [])
  unfolding replay_record
  end_step id pos r st h = rw (h.0, h.1) (refl, refl, refl)

  plain_step :
      (id pos : ℕ) (r : Record) (st : ScanState)
      → IsPlain r
      → let st' = (replay_record id pos (encode r) r st).0 in
        (st'.index ≡ apply_all (change_at id pos r ∷ []) st.index)
        × (st'.commit ≡ pos + length (encode r) % u32_mod)
        × (st'.pending ≡ st.pending)
  unfolding replay_record apply_all
  plain_step id pos r st h = rw h (refl, refl, refl)

  -- Records inside a batch wait.
  pub inner_wait :
      (id pos : ℕ) (rs : List Record) (st : ScanState)
      → All IsInner rs
      → ((after id pos rs st).index ≡ st.index)
        × ((after id pos rs st).commit ≡ st.commit)
        × ((after id pos rs st).pending ≡ st.pending ++ changes id pos rs)
  inner_wait id pos [] st h = unfold each in (refl, refl, sym (append-nil st.pending))
  inner_wait id pos (r ∷ rs) st h =
      let (i, c, p) = inner_step id pos r st h.0 in
      let (i', c', p') =
        inner_wait id (pos + length (encode r)) rs (replay_record id pos (encode r) r st).0 h.1 in
      rw after-cons (
        i' ∙ i,
        c' ∙ c,
        p'
            ∙ ap (λ x. x ++ changes id (pos + length (encode r)) rs) p
            ∙ append_assoc st.pending (change_at id pos r ∷ []) _,
      )

  apply_all-append :
      (cs ds : List Change) (m : Index) → apply_all (cs ++ ds) m ≡ apply_all ds (apply_all cs m)
  unfolding apply_all
  apply_all-append [] ds m = refl
  apply_all-append (x ∷ cs) ds m = apply_all-append cs ds _

  changes-append :
      (id pos : ℕ) (rs qs : List Record)
      → changes id pos (rs ++ qs) ≡ changes id pos rs ++ changes id (end_of pos rs) qs
  changes-append id pos [] qs = refl
  changes-append id pos (r ∷ rs) qs =
      ap (λ x. change_at id pos r ∷ x) (changes-append id (pos + length (encode r)) rs qs)

  end_of-append :
      (pos : ℕ) (rs qs : List Record) → end_of pos (rs ++ qs) ≡ end_of (end_of pos rs) qs
  end_of-append pos [] qs = refl
  end_of-append pos (r ∷ rs) qs = end_of-append (pos + length (encode r)) rs qs

  -- What a scan knows at the end of whole groups: nothing waits, and all is in the index.
  pub record Settled (id pos : ℕ) (rs : List Record) (st st' : ScanState) : Type 0 where
    pub index : st'.index ≡ apply_all (changes id pos rs) st.index
    pub commit : st'.commit ≡ end_of pos rs
    pub pending : st'.pending ≡ []

  pub short : (r : Record) → IsStorable r → length (encode r) % u32_mod ≡ length (encode r)
  short r h = omega (arith, h.key_fits, h.value_fits, length-encode r)

  one_settles :
      (id pos : ℕ) (r : Record) (st : ScanState)
      → IsPlain r
      → IsStorable r
      → st.pending ≡ []
      → Settled id pos (r ∷ []) st (after id pos (r ∷ []) st)
  unfolding each
  one_settles id pos r st plain h e =
      let (i, c, p) = plain_step id pos r st plain in
      rw after-cons
        (record { index = i; commit = c ∙ ap (λ x. pos + x) (short r h); pending = p ∙ e })

  pub All-append-right :
      (rs qs : List Record) → All IsStorable (rs ++ qs) → All IsStorable rs × All IsStorable qs
  All-append-right [] qs h = (tt, h)
  All-append-right (r ∷ rs) qs h = let (a, b) = All-append-right rs qs h.1 in ((h.0, a), b)

  batch_settles :
      (id pos : ℕ) (rs : List Record) (r : Record) (st : ScanState)
      → All IsInner rs
      → IsEnd r
      → IsStorable r
      → st.pending ≡ []
      → Settled id pos (rs ++ (r ∷ [])) st (after id pos (rs ++ (r ∷ [])) st)
  batch_settles id pos rs r st inner last h e =
      let mid = after id pos rs st in
      let at = end_of pos rs in
      let (i, c, p) = end_step id at r mid last in
      let (i', c', p') = inner_wait id pos rs st inner in
      let staged : mid.pending ++ (change_at id at r ∷ []) ≡ changes id pos (rs ++ (r ∷ [])) =
        ap (λ x. x ++ (change_at id at r ∷ [])) (p' ∙ ap (λ x. x ++ changes id pos rs) e)
        ∙ sym (changes-append id pos rs (r ∷ [])) in
      rw (after-append, after-cons, each_nil)
        (record {
          index =
              i
              ∙ ap (λ x. apply_all x mid.index) staged
              ∙ ap (apply_all (changes id pos (rs ++ (r ∷ [])))) i';
          commit = c ∙ ap (λ x. at + x) (short r h) ∙ sym (end_of-append pos rs (r ∷ []));
          pending = p;
        })

  group_settles :
      (id pos : ℕ) (g : Group) (st : ScanState)
      → IsGroup g
      → All IsStorable (records_of g)
      → st.pending ≡ []
      → Settled id pos (records_of g) st (after id pos (records_of g) st)
  group_settles id pos (single r) st g h e = one_settles id pos r st g h.0 e
  group_settles id pos (batch rs r) st g h e =
      batch_settles id pos rs r st g.0 g.1 (All-append-right rs (r ∷ []) h).1.0 e

  -- A log of whole groups leaves nothing waiting.
  pub log_settles :
      (id pos : ℕ) (gs : List Group) (st : ScanState)
      → All IsGroup gs
      → All IsStorable (log_of gs)
      → st.pending ≡ []
      → st.commit ≡ pos
      → Settled id pos (log_of gs) st (after id pos (log_of gs) st)
  log_settles id pos [] st hg h e c =
      rw each_nil (record { index = unfold apply_all in refl; commit = c; pending = e })
  log_settles id pos (g ∷ gs) st hg h e c =
      let (h0, h1) = All-append-right (records_of g) (log_of gs) h in
      let one = group_settles id pos g st hg.0 h0 e in
      let rest =
        log_settles id (end_of pos (records_of g)) gs (after id pos (records_of g) st) hg.1 h1
          one.pending one.commit in
      rw after-append (record {
        index =
            rest.index
            ∙ ap (apply_all (changes id (end_of pos (records_of g)) (log_of gs))) one.index
            ∙ sym (apply_all-append (changes id pos (records_of g)) _ st.index)
            ∙ ap (λ x. apply_all x st.index)
                (sym (changes-append id pos (records_of g) (log_of gs)));
        commit = rest.commit ∙ sym (end_of-append pos (records_of g) (log_of gs));
        pending = rest.pending;
      })
