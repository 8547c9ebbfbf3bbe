-- ===== src/Engine/Store/Scan/Listed.antt =====
-- A scan of a store that does not change lists what the store holds.
use gokv.Prelude.{
  ℕ, zero, suc, ◌+◌, ◌≤◌, ◌<◌, ◌≡◌, ◌∙◌, refl, sym, ap, Bool, true, false, not, ◌&&◌, ◌||◌, Option,
  none, some, List, [], ◌∷◌, ◌++◌, append_assoc, append-nil, arith, ltb, leb, ◌==◌, if◌then◌else◌,
  length, take, Bool-cases, inl, inr,
}
use gokv.Prelude.Keys.{key_lt, key_eq_iff, key_eq_refl, key_lt_trans, key_lt_total}
use gokv.Engine.Record.{Checksum}
use gokv.Engine.Index.{Entry, Index, keep, lookup, IsAscending}
use gokv.Engine.Index.Laws.{lookup_above}
use gokv.Engine.Index.Walk.{visit_all, past_end}
use gokv.Engine.Index.Walk.Ahead.{wanted, count}
use gokv.Engine.Index.Walk.Still.{walk_still}
use gokv.Engine.Files.{Files}
use gokv.Engine.Store.{Store, Outcome, ok, err, Error, key_not_found}
use gokv.Engine.Store.Reads.{read_value}
use gokv.Engine.Store.Scan.{Scanned, still, scan_ref, scan, push_pair, deliver, scan_slice}
use gokv.Engine.Store.Sound.Defs.{Points, IsSound, value_of, read_value-Points, value_in-Points}

-- The keys of the range that have a value, with their values.
unfoldable pub listing :
    (List ℕ → Option (List ℕ)) → List ℕ → List ℕ → Index → List (List ℕ × List ℕ)
listing value start end_key [] = []
listing value start end_key ((k, e) ∷ m) =
    let rest = listing value start end_key m in
    if key_lt k start || past_end end_key k
    then rest
    else elim (value k) [ some v ↦ (k, v) ∷ rest | none ↦ rest ]

-- What a limit leaves of a list; 0 is no limit.
abbrev pub limited {ℓ} : {A : Type ℓ} → ℕ → List A → List A
limited n xs = if n == 0 then xs else take n xs

-- The callback on each pair, as far as the limit and its failures let the scan go.
module _ {ℓ} {F : Type ℓ} (fn : List ℕ → List ℕ → F → F × Option Error) where
  unfoldable pub deliver_all : ℕ → List (List ℕ × List ℕ) → Scanned F → Scanned F × Bool
  deliver_all limit [] st = (st, false)
  deliver_all limit ((k, v) ∷ ps) st =
      let (st', done) = deliver fn limit k v st in
      if done then (st', true) else deliver_all limit ps st'

-- What `ScanSlice` keeps of the pairs.
push_unlimited :
    (ps out : List (List ℕ × List ℕ)) (sent : ℕ)
    → let r = (deliver_all push_pair 0 ps (record { acc = out; sent = sent; result = ok tt })).0 in
      (r.acc ≡ out ++ ps) × (r.result ≡ ok tt)
unfolding deliver_all
push_unlimited [] out sent = (sym (append-nil out), refl)
push_unlimited ((k, v) ∷ ps) out sent =
    let r = push_unlimited ps (out ++ ((k, v) ∷ [])) (sent + 1) in
    (r.0 ∙ append_assoc out ((k, v) ∷ []) ps, r.1)

push_limited :
    (limit r : ℕ) (ps out : List (List ℕ × List ℕ)) (sent : ℕ)
    → limit ≡ sent + suc r
    → let r' =
        (deliver_all push_pair limit ps (record { acc = out; sent = sent; result = ok tt })).0 in
      (r'.acc ≡ out ++ take (suc r) ps) × (r'.result ≡ ok tt)
unfolding deliver_all
push_limited limit r [] out sent h = (sym (append-nil out), refl)
push_limited limit zero ((k, v) ∷ ps) out sent h =
    let d : (ltb 0 limit && leb limit (sent + 1)) ≡ true = ground arith in rw d (refl, refl)
push_limited limit (suc r) ((k, v) ∷ ps) out sent h =
    let d : (ltb 0 limit && leb limit (sent + 1)) ≡ false = ground arith in
    let g = push_limited limit r ps (out ++ ((k, v) ∷ [])) (sent + 1) (omega arith) in
    rw d (g.0 ∙ append_assoc out ((k, v) ∷ []) (take (suc r) ps), g.1)

slice_result :
    (limit : ℕ) (ps : List (List ℕ × List ℕ))
    → let r = (deliver_all push_pair limit ps (record { acc = []; sent = 0; result = ok tt })).0 in
      (r.acc ≡ limited limit ps) × (r.result ≡ ok tt)
slice_result zero ps = push_unlimited ps [] 0
slice_result (suc n) ps =
    let e : (suc n == 0) ≡ false = ground arith in
    rw e (push_limited (suc n) n ps [] 0 (omega arith))

pub count_le :
    (cursor : List ℕ) (exclusive : Bool) (m : Index) → count cursor exclusive m ≤ length m
unfolding count
count_le cursor x [] = omega arith
count_le cursor x ((k, e) ∷ m) = ground (arith, count_le cursor x m)

-- Where the end is before the start there is nothing to list.
listing_empty :
    (value : List ℕ → Option (List ℕ)) (start end_key : List ℕ) (m : Index)
    → past_end end_key start ≡ true
    → listing value start end_key m ≡ []
unfolding listing
listing_empty value start end_key [] h = refl
listing_empty value start end_key ((k, e) ∷ m) h = ground (
  arith,
  listing_empty value start end_key m h,
  key_lt_trans end_key start k,
  key_lt_total k start,
  key_eq_iff k start,
)

module _ ⦃c : Checksum⦄ where
  -- The entries of a part of the index: reading them gives what the store holds.
  abbrev Answers : Files → (List ℕ → Option (List ℕ)) → Index → Type 0
  Answers files value [] = Unit {0}
  Answers files value ((k, e) ∷ m) =
      (if e.tomb
        then value k ≡ none
        else (v : List ℕ) × (value k ≡ some v) × (read_value files e ≡ ok v))
      × Answers files value m

  -- Reading these references gives these pairs.
  abbrev Pairs : Files → Index → List (List ℕ × List ℕ) → Type 0
  Pairs files [] ps = ps ≡ []
  Pairs files ((k, e) ∷ m) ps =
      (v : List ℕ) × (qs : List (List ℕ × List ℕ)) × (ps ≡ (k, v) ∷ qs)
      × (read_value files e ≡ ok v)
      × Pairs files m qs

  listed_one :
      (files : Files) (value : List ℕ → Option (List ℕ)) (below past tomb : Bool) (k : List ℕ)
      (e : Entry) (m : Index) (ps : List (List ℕ × List ℕ))
      → (if tomb
          then value k ≡ none
          else (v : List ℕ) × (value k ≡ some v) × (read_value files e ≡ ok v))
      → Pairs files m ps
      → Pairs files
          (if (not below && not past) && not tomb then (k, e) ∷ m else m)
          (if below || past then ps else elim (value k) [ some v ↦ (k, v) ∷ ps | none ↦ ps ])
  listed_one files value true past tomb k e m ps h r = r
  listed_one files value false true tomb k e m ps h r = r
  listed_one files value false false true k e m ps h r = rw h r
  listed_one files value false false false k e m ps (v, q, g) r = rw q (v, ps, refl, g, r)

  Pairs-listing :
      (files : Files) (value : List ℕ → Option (List ℕ)) (start end_key : List ℕ) (m : Index)
      → Answers files value m
      → Pairs files (keep (wanted end_key start false) m) (listing value start end_key m)
  unfolding keep listing
  Pairs-listing files value start end_key [] h = refl
  Pairs-listing files value start end_key ((k, e) ∷ m) h =
      listed_one files value (key_lt k start) (past_end end_key k) e.tomb k e _ _ h.0
        (Pairs-listing files value start end_key m h.1)

  scan_ref_read {ℓ} :
      {F : Type ℓ} (fn : List ℕ → List ℕ → F → F × Option Error) (s : Store) (limit : ℕ)
      (k v : List ℕ) (e : Entry) (st : Scanned F)
      → read_value s.files e ≡ ok v
      → scan_ref fn (still s) limit k e st ≡ deliver fn limit k v st
  unfolding scan_ref
  scan_ref_read fn s limit k v e st h = rw (h, scan_ref) refl

  visit-Pairs {ℓ} :
      {F : Type ℓ} (fn : List ℕ → List ℕ → F → F × Option Error) (s : Store) (limit : ℕ) (m : Index)
      (ps : List (List ℕ × List ℕ)) (st : Scanned F)
      → Pairs s.files m ps
      → visit_all (scan_ref fn (still s) limit) m st ≡ deliver_all fn limit ps st
  unfolding visit_all deliver_all
  visit-Pairs fn s limit [] ps st h = rw h refl
  visit-Pairs fn s limit ((k, e) ∷ m) ps st (v, qs, e', r, h) =
      rw (e', scan_ref_read fn s limit k v e st r)
        (ap
          (λ (z : Scanned _ × Bool).
            if (deliver fn limit k v st).1 then ((deliver fn limit k v st).0, true) else z)
          (visit-Pairs fn s limit m qs (deliver fn limit k v st).0 h))

  answer_either :
      (tomb : Bool) (o : Option (List ℕ)) (r : Outcome (List ℕ)) (v : List ℕ)
      → o ≡ (if tomb then none else some v)
      → r ≡ (if tomb then err key_not_found else ok v)
      → (if tomb then o ≡ none else (w : List ℕ) × (o ≡ some w) × (r ≡ ok w))
  answer_either true o r v p q = p
  answer_either false o r v p q = (v, p, q)

  answer_one :
      (s : Store)
      → IsSound s
      → (k : List ℕ) (e : Entry) → lookup k s.keydir.index ≡ some e
      → (if e.tomb
          then value_of s k ≡ none
          else (v : List ℕ) × (value_of s k ≡ some v) × (read_value s.files e ≡ ok v))
  answer_one s h k e q =
      let p : Points s.files k e = h.indexing.points k e q in
      let fits : p.file.size ≤ length p.file.contents = h.stocked.sizes e.file_id p.file p.found in
      answer_either e.tomb _ _ p.rec.value (value_in-Points s.files s.keydir.index k e p fits q)
        (read_value-Points s.files k e p fits)

  -- The index below, with what reading its entries gives.
  Answers-from :
      (s : Store)
      → IsSound s
      → (m : Index)
      → ((k : List ℕ) (e : Entry) → lookup k m ≡ some e → lookup k s.keydir.index ≡ some e)
      → IsAscending m
      → Answers s.files (value_of s) m
  unfolding lookup
  Answers-from s h [] sub o = tt
  Answers-from s h ((k, e) ∷ m) sub o = (
    answer_one s h k e (sub k e (rw (key_eq_refl k) refl)),
    Answers-from s h m (λ j d q. sub j d (ground (arith, q, lookup_above k m o.0, key_eq_iff k j)))
        o.1,
  )

  abbrev pub listing_of : Store → List ℕ → List ℕ → List (List ℕ × List ℕ)
  listing_of s start end_key = listing (value_of s) start end_key s.keydir.index

  -- With more fuel than there are keys, a scan of a sound store that does not change calls the
  -- callback on the pairs of the range, in the order of their keys, as far as the limit and the
  -- callback's own failures let it, and meets no error of its own.
  pub scan-still {ℓ} :
      {F : Type ℓ} (fn : List ℕ → List ℕ → F → F × Option Error) (fuel : ℕ) (s : Store)
      (start end_key : List ℕ) (limit : ℕ) (acc : F)
      → IsSound s
      → length s.keydir.index < fuel
      → let r =
          (deliver_all fn limit
            (listing_of s start end_key)
            (record { acc = acc; sent = 0; result = ok tt })).0 in
        scan fn fuel (still s) start end_key limit acc ≡ some (r.acc, r.result)
  unfolding scan deliver_all
  scan-still fn fuel s start end_key limit acc h f = elim (Bool-cases (past_end end_key start)) [
    | inl p ↦ rw (p, listing_empty (value_of s) start end_key s.keydir.index p) refl
    | inr p ↦
        rw
          (
            p,
            walk_still (scan_ref fn (still s) limit) fuel 0 s.keydir.index end_key start false
                (record { acc = acc; sent = 0; result = ok tt }) h.indexing.sorted
                (omega (arith, f, count_le start false s.keydir.index)),
            visit-Pairs fn s limit _ _ (record { acc = acc; sent = 0; result = ok tt })
                (Pairs-listing s.files (value_of s) start end_key s.keydir.index
                  (Answers-from s h s.keydir.index (λ k e q. q) h.indexing.sorted)),
          )
          refl
  ]

  -- With more fuel than there are keys, `scan_slice` on a sound store that does not change ends
  -- without an error and returns the pairs of the range in the order of their keys, the first
  -- `limit` of them where there is a limit.
  pub scan_slice-still :
      (fuel : ℕ) (s : Store) (start end_key : List ℕ) (limit : ℕ)
      → IsSound s
      → length s.keydir.index < fuel
      → scan_slice fuel (still s) start end_key limit
        ≡ some (limited limit (listing_of s start end_key), ok tt)
  scan_slice-still fuel s start end_key limit h f =
      let d = slice_result limit (listing_of s start end_key) in
      scan-still push_pair fuel s start end_key limit [] h f ∙ rw (d.0, d.1) refl
