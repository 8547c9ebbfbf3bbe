-- ===== src/Engine/Store/Scan/Beside.antt =====
-- What a scan returns whatever other goroutines do to the store while it runs.
use gokv.Prelude.{
  ℕ, ◌+◌, ◌≤◌, ◌<◌, ◌≡◌, ◌∙◌, ◌⊎◌, refl, sym, ap, Bool, true, false, ◌&&◌, Option, some, List, [],
  ◌∷◌, ◌++◌, append_assoc, append-nil, arith, ltb, leb, if◌then◌else◌, length, Bool-cases,
  Option-cases, inl, inr,
}
use mathlib.Core.Option.{some-injective}
use gokv.Prelude.Keys.{key_lt, key_lt_trans}
use gokv.Engine.Record.{Checksum}
use gokv.Engine.Index.{Entry, Index, IsAscending, AllAbove}
use gokv.Engine.Index.Walk.{walk, visit_all, past_end}
use gokv.Engine.Index.Walk.Order.{AllWanted}
use gokv.Engine.Index.Walk.Moving.{Walked, walk-Walked}
use gokv.Engine.Store.{Outcome, ok, err, key_not_found, file_gone}
use gokv.Engine.Store.Scan.{
  Moments, deliver, Scanned, scan_ref, scan, push_pair, scan_slice, read_ref,
}

-- Pairs with strictly ascending keys inside the range.
abbrev pub AreAbove : List ℕ → List (List ℕ × List ℕ) → Type 0
AreAbove k [] = Unit {0}
AreAbove k ((j, v) ∷ ps) = (key_lt k j ≡ true) × AreAbove k ps

abbrev pub AreOrdered : List ℕ → List ℕ → List (List ℕ × List ℕ) → Type 0
AreOrdered start end_key [] = Unit {0}
AreOrdered start end_key ((k, v) ∷ ps) =
    (key_lt k start ≡ false)
    × (past_end end_key k ≡ false)
    × AreAbove k ps
    × AreOrdered start end_key ps

AreAbove-trans :
    (i j : List ℕ) (ps : List (List ℕ × List ℕ)) → key_lt i j ≡ true → AreAbove j ps → AreAbove i ps
AreAbove-trans i j [] h a = tt
AreAbove-trans i j ((k, v) ∷ ps) h a = (key_lt_trans i j k h a.0, AreAbove-trans i j ps h a.1)

nat_cases : (n : ℕ) → (n ≡ 0) ⊎ (0 < n)
nat_cases n = ground arith

few_sent : (limit n k : ℕ) → k ≡ n → (limit ≡ 0) ⊎ (k ≤ limit) → (limit ≡ 0) ⊎ (n ≤ limit)
few_sent limit n k e h = ground arith

-- The first component of a result.
out_of {ℓ} :
    {A B : Type ℓ} (a a' : A) (b b' : B)
    → Path (Option (A × B)) (some (a, b)) (some (a', b'))
    → a ≡ a'
out_of a a' b b' e = ap (λ (z : _ × _). z.0) (some-injective (a, b) (a', b') e)

module _ ⦃c : Checksum⦄ where
  -- The scan has appended `new` to `out`: pairs of the keys of `m`.
  record Appended (start end_key : List ℕ) (limit : ℕ) (m : Index)
      (st st' : Scanned (List (List ℕ × List ℕ))) : Type 0 where
    new : List (List ℕ × List ℕ)
    grown : st'.acc ≡ st.acc ++ new
    counted : st'.sent ≡ st.sent + length new
    ordered : AreOrdered start end_key new
    above : (k : List ℕ) → AllAbove k m → AreAbove k new
    few : (limit ≡ 0) ⊎ (st.sent < limit) → (limit ≡ 0) ⊎ (st'.sent ≤ limit)

  none-Appended :
      (start end_key : List ℕ) (limit : ℕ) (m : Index) (st : Scanned (List (List ℕ × List ℕ)))
      (r : Outcome (Unit {0}))
      → Appended start end_key limit m st (record st { result = r })
  none-Appended start end_key limit m st r = record {
    new = [];
    grown = sym (append-nil st.acc);
    counted = omega arith;
    ordered = tt;
    above = λ k h. tt;
    few = λ p. ground arith;
  }

  -- A reference adds nothing, or the value that was read for it.
  data Step (limit : ℕ) (k : List ℕ) (st : Scanned (List (List ℕ × List ℕ)))
      : Scanned (List (List ℕ × List ℕ)) × Bool → Type 0 where
    nothing : (r : Outcome (Unit {0})) (b : Bool) → Step limit k st (record st { result = r }, b)
    pair : (v : List ℕ) → Step limit k st (deliver push_pair limit k v st)

  abbrev scan_outcome :
      ℕ
      → List ℕ
      → Scanned (List (List ℕ × List ℕ))
      → Outcome (List ℕ)
      → Scanned (List (List ℕ × List ℕ)) × Bool
  scan_outcome limit k st o = elim o [
    | ok v ↦ deliver push_pair limit k v st
    | err file_gone ↦ (st, false)
    | err key_not_found ↦ (st, false)
    | err x ↦ (record st { result = err x }, true)
  ]

  Step-outcome :
      (limit : ℕ) (k : List ℕ) (st : Scanned (List (List ℕ × List ℕ))) (o : Outcome (List ℕ))
      → Step limit k st (scan_outcome limit k st o)
  Step-outcome limit k st (ok v) = Step.pair v
  Step-outcome limit k st (err file_gone) = Step.nothing st.result false
  Step-outcome limit k st (err key_not_found) = Step.nothing st.result false
  Step-outcome limit k st (err x) = Step.nothing (err x) true

  scan_ref-Step :
      (at : Moments) (limit : ℕ) (k : List ℕ) (e : Entry) (st : Scanned (List (List ℕ × List ℕ)))
      → Step limit k st (scan_ref push_pair at limit k e st)
  unfolding scan_ref
  scan_ref-Step at limit k e st = Step-outcome limit k st (read_ref at k e)

  -- What one reference and the rest of them do.
  cons-Appended :
      (start end_key : List ℕ) (limit : ℕ) (k : List ℕ) (e : Entry) (m : Index)
      (st : Scanned (List (List ℕ × List ℕ))) (r : Scanned (List (List ℕ × List ℕ)) × Bool)
      (rest : Scanned (List (List ℕ × List ℕ)) × Bool)
      → IsAscending ((k, e) ∷ m)
      → AllWanted end_key start false ((k, e) ∷ m)
      → Step limit k st r
      → Appended start end_key limit m r.0 rest.0
      → Appended start end_key limit ((k, e) ∷ m) st (if r.1 then (r.0, true) else rest).0
  cons-Appended start end_key limit k e m st r rest h w (Step.nothing o true) a =
      none-Appended start end_key limit ((k, e) ∷ m) st o
  cons-Appended start end_key limit k e m st r rest h w (Step.nothing o false) a = record {
    new = a.new;
    grown = a.grown;
    counted = a.counted;
    ordered = a.ordered;
    above = λ j p. a.above j p.1;
    few = a.few;
  }
  cons-Appended start end_key limit k e m st r rest h w (Step.pair v) a =
      elim (Bool-cases (ltb 0 limit && leb limit (st.sent + 1))) [
        | inl d ↦ rw d (record {
          new = (k, v) ∷ [];
          grown = refl;
          counted = omega arith;
          ordered = (ground (arith, w.0), ground (arith, w.0), tt, tt);
          above = λ j p. (p.0, tt);
          few = λ p. ground arith;
        })
        | inr d ↦ rw d (record {
          new = (k, v) ∷ a.new;
          grown = a.grown ∙ append_assoc st.acc ((k, v) ∷ []) a.new;
          counted = omega (arith, a.counted);
          ordered = (ground (arith, w.0), ground (arith, w.0), a.above k h.0, a.ordered);
          above = λ j p. (p.0, AreAbove-trans j k a.new p.0 (a.above k h.0));
          few = λ p. a.few (ground arith);
        })
      ]

  visit_all-Appended :
      (at : Moments) (start end_key : List ℕ) (limit : ℕ) (m : Index)
      (st : Scanned (List (List ℕ × List ℕ)))
      → IsAscending m
      → AllWanted end_key start false m
      → Appended start end_key limit m st (visit_all (scan_ref push_pair at limit) m st).0
  unfolding visit_all
  visit_all-Appended at start end_key limit [] st h w =
      none-Appended start end_key limit [] st st.result
  visit_all-Appended at start end_key limit ((k, e) ∷ m) st h w =
      cons-Appended start end_key limit k e m st _ _ h w (scan_ref-Step at limit k e st)
        (visit_all-Appended at start end_key limit m _ h.1 w.1)

  Walked-ordered :
      (at : Moments) (start end_key : List ℕ) (limit : ℕ) (st' : Scanned (List (List ℕ × List ℕ)))
      → Walked
          (scan_ref push_pair at limit)
          (λ i. (at.looked i).keydir.index)
          end_key
          start
          false
          (record { acc = []; sent = 0; result = ok tt })
          st'
      → AreOrdered start end_key st'.acc × ((limit ≡ 0) ⊎ (length st'.acc ≤ limit))
  Walked-ordered at start end_key limit st' w =
      let a =
        visit_all-Appended at start end_key limit w.refs
          (record { acc = []; sent = 0; result = ok tt }) w.sorted w.wanted_all in
      rw w.result (
        rw a.grown
          (a.ordered, few_sent limit _ _ (omega (arith, a.counted)) (a.few (nat_cases limit))))

  -- Whatever other goroutines do while a scan runs, as long as the keys of the index ascend
  -- whenever it is looked at: the pairs that a `scan_slice` which ends returns, with an error or
  -- without, have keys in the range in strictly ascending order, and where there is a limit they
  -- are not more than it.
  pub scan_slice_beside :
      (fuel : ℕ) (at : Moments) (start end_key : List ℕ) (limit : ℕ) (out : List (List ℕ × List ℕ))
      (result : Outcome (Unit {0}))
      → ((j : ℕ) → IsAscending (at.looked j).keydir.index)
      → scan_slice fuel at start end_key limit ≡ some (out, result)
      → AreOrdered start end_key out × ((limit ≡ 0) ⊎ (length out ≤ limit))
  unfolding scan
  scan_slice_beside fuel at start end_key limit out result h e =
      let looked : ℕ → Index = λ i. (at.looked i).keydir.index in
      elim (Bool-cases (past_end end_key start)) [
        | inl p ↦ rw (← out_of _ _ _ _ (rw p at e)) (tt, ground arith)
        | inr p ↦
            elim (Option-cases (
              walk (scan_ref push_pair at limit) fuel 0 looked end_key start false
                (record { acc = []; sent = 0; result = ok tt }))) [
                  | inl n ↦ absurd (cc (rw (p, n) at e))
                  | inr (st, q) ↦ rw (← out_of _ _ _ _ (rw (p, q) at e)) (
                      Walked-ordered at start end_key limit st (
                        walk-Walked (scan_ref push_pair at limit) fuel 0 looked end_key start false
                          _ st h q))
                ]
      ]
