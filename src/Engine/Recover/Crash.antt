-- ===== src/Engine/Recover/Crash.antt =====
-- A crash in the middle of `BatchPut`: the bytes of the batch are cut short.
use gokv.Prelude.{
  ℕ, zero, suc, ◌-◌, ◌≤◌, ◌<◌, ◌≡◌, refl, ap, sym, ◌∙◌, List, [], ◌∷◌, ◌++◌, arith, length, take,
  drop, All, none, length-append, length-drop, take-append-drop, take-append_le, append_assoc,
  append-nil, ltb, ltb→lt, ltb→le, Bool-cases, inl, inr, All-append,
}
use gokv.Engine.Record.{Checksum, Record, encode, IsStorable, next_record}
use gokv.Engine.Record.Scan.{encodes}
use gokv.Engine.Record.Torn.{next_record-torn, next_record-nil}
use gokv.Engine.Index.{Index}
use gokv.Engine.Recover.{ScanState, scan_into_index}
use gokv.Engine.Recover.Groups.{
  IsInner, IsGroup, Group, log_of, after, after-append, inner_wait, end_of,
}
use gokv.Engine.Recover.Agree.{scan_into_index-after}

minus_zero : (n : ℕ) → n - 0 ≡ n
minus_zero n = omega arith

take_past :
    {A : Type 0} (n : ℕ) (xs ys : List A)
    → length xs ≤ n
    → take n (xs ++ ys) ≡ xs ++ take (n - length xs) ys
take_past n [] ys h = ap (λ i. take i ys) (sym (minus_zero n))
take_past zero (x ∷ xs) ys h = absurd (omega arith)
take_past (suc n) (x ∷ xs) ys h =
    ap (λ l. x ∷ l) (take_past n xs ys (omega arith) ∙ ap (λ i. xs ++ take i ys) (omega arith))

module _ ⦃c : Checksum⦄ where
  -- The front of a batch: whole records, none of which ends the batch, and bytes that hold no record.
  record Cut (front : List ℕ) : Type 0 where
    whole : List Record
    tail : List ℕ
    inner : All IsInner whole
    storable : All IsStorable whole
    bytes : front ≡ encodes whole ++ tail
    stops : next_record tail ≡ none

  stops_before :
      (r : Record) (front back : List ℕ)
      → IsStorable r
      → encode r ≡ front ++ back
      → 0 < length back
      → next_record front ≡ none
  stops_before r front [] h e some_left = absurd (omega arith)
  stops_before r front (x ∷ back) h e some_left = next_record-torn r front x back h e

  take_stops :
      (n : ℕ) (r : Record)
      → IsStorable r
      → n < length (encode r)
      → next_record (take n (encode r)) ≡ none
  take_stops n r h small =
      stops_before r (take n (encode r)) (drop n (encode r)) h (sym (take-append-drop n (encode r)))
        (omega (arith, length-drop n (encode r)))

  Cut-inside :
      (n : ℕ) (r : Record) (rest : List ℕ)
      → IsStorable r
      → n < length (encode r)
      → Cut (take n (encode r ++ rest))
  Cut-inside n r rest h small = record {
    whole = [];
    tail = take n (encode r);
    inner = tt;
    storable = tt;
    bytes = unfold encodes in take-append_le n (encode r) rest (omega arith);
    stops = take_stops n r h small;
  }

  Cut-batch :
      (n : ℕ) (qs : List Record) (r : Record)
      → All IsInner qs
      → All IsStorable (qs ++ (r ∷ []))
      → n < length (encodes (qs ++ (r ∷ [])))
      → Cut (take n (encodes (qs ++ (r ∷ []))))
  unfolding encodes
  Cut-batch n [] r inner h small =
      Cut-inside n r [] h.0 (omega (arith, length-append (encode r) []))
  Cut-batch n (q ∷ qs) r inner h small = elim (Bool-cases (ltb n (length (encode q)))) [
    | inl inside ↦ Cut-inside n q (encodes (qs ++ (r ∷ []))) h.0 (ltb→lt _ _ inside)
    | inr past ↦
        let rest = encodes (qs ++ (r ∷ [])) in
        let le = ltb→le n (length (encode q)) past in
        let later =
          Cut-batch (n - length (encode q)) qs r inner.1 h.1
            (omega (arith, length-append (encode q) rest)) in
        record {
          whole = q ∷ later.whole;
          tail = later.tail;
          inner = (inner.0, later.inner);
          storable = (h.0, later.storable);
          bytes =
              take_past n (encode q) rest le
              ∙ ap (λ x. encode q ++ x) later.bytes
              ∙ sym (append_assoc (encode q) (encodes later.whole) later.tail);
          stops = later.stops;
        }
  ]

  encodes-append : (rs qs : List Record) → encodes (rs ++ qs) ≡ encodes rs ++ encodes qs
  unfolding encodes
  encodes-append [] qs = refl
  encodes-append (r ∷ rs) qs =
      ap (λ x. encode r ++ x) (encodes-append rs qs)
      ∙ sym (append_assoc (encode r) (encodes rs) (encodes qs))

  -- A data file of whole groups of storable records is followed by the first bytes, but not all,
  -- of a batch of storable records: `scan_into_index` finds the index and the commit offset that
  -- it finds without those bytes.
  pub scan_into_index-torn_batch :
      (id max_seq n : ℕ) (gs : List Group) (qs : List Record) (r : Record) (m : Index)
      → All IsGroup gs
      → All IsStorable (log_of gs)
      → IsGroup (Group.batch qs r)
      → All IsStorable (qs ++ (r ∷ []))
      → n < length (encodes (qs ++ (r ∷ [])))
      → let torn =
          scan_into_index id (encodes (log_of gs) ++ take n (encodes (qs ++ (r ∷ [])))) m max_seq in
        let whole = scan_into_index id (encodes (log_of gs)) m max_seq in
        (torn.index ≡ whole.index) × (torn.commit ≡ whole.commit)
  scan_into_index-torn_batch id max_seq n gs qs r m hg h batch hb small =
      let x = Cut-batch n qs r batch.0 hb small in
      let start : ScanState = record { index = m; max_seq = max_seq; pending = []; commit = 0 } in
      let (i, c, p) =
        inner_wait id (end_of 0 (log_of gs)) x.whole (after id 0 (log_of gs) start) x.inner in
      let bytes : encodes (log_of gs) ++ take n (encodes (qs ++ (r ∷ [])))
          ≡ encodes (log_of gs ++ x.whole) ++ x.tail =
        ap (λ y. encodes (log_of gs) ++ y) x.bytes
        ∙ sym (append_assoc (encodes (log_of gs)) (encodes x.whole) x.tail)
        ∙ ap (λ y. y ++ x.tail) (sym (encodes-append (log_of gs) x.whole)) in
      let torn =
        ap (λ b. scan_into_index id b m max_seq) bytes
        ∙ scan_into_index-after id max_seq (log_of gs ++ x.whole) x.tail m
            (All-append IsStorable (log_of gs) x.whole h x.storable) x.stops
        ∙ after-append id 0 (log_of gs) x.whole start in
      let full =
        ap (λ b. scan_into_index id b m max_seq) (sym (append-nil (encodes (log_of gs))))
        ∙ scan_into_index-after id max_seq (log_of gs) [] m h next_record-nil in
      (
        ap (λ st. st.index) torn ∙ i ∙ ap (λ st. st.index) (sym full),
        ap (λ st. st.commit) torn ∙ c ∙ ap (λ st. st.commit) (sym full),
      )
