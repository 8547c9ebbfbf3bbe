-- ===== src/Node/Range/Stream.antt =====
-- The reply to a range request, from the scan of the server to the loop of the client.
use gokv.Prelude.{
  ℕ, zero, suc, ◌+◌, ◌-◌, ◌%◌, ◌<◌, ◌≡◌, ◌∙◌, refl, sym, ap, Bool, true, false, ◌||◌, Option, none,
  some, List, [], ◌∷◌, ◌++◌, append_assoc, append-nil, arith, if◌then◌else◌, length, take, drop,
  min,
}
use mathlib.Core.Path.{subst}
use gokv.Prelude.Bytes.{be, u32_mod}
use gokv.Prelude.Keys.{key_lt}
use gokv.Engine.Record.{Checksum, Record, IsStorable}
use gokv.Engine.Index.{Index, lookup}
use gokv.Engine.Index.Each.{EachEntry, Every-EachEntry}
use gokv.Engine.Index.Walk.{past_end}
use gokv.Engine.Store.{Store, Outcome, ok, err}
use gokv.Engine.Store.Sound.Defs.{IsSound, Points, value_of, value_in-Points}
use gokv.Engine.Store.Scan.{Moments, Scanned, still, scan}
use gokv.Engine.Store.Scan.Listed.{deliver_all, listing, listing_of, scan-still}
use gokv.Proto.{new_dec}
use gokv.Proto.Read.{Holds-new_dec, read_bytes, read_u32, done-read, prefixed}
use gokv.Node.{ErrorTexts, engine, write_error}
use gokv.Node.Range.{
  Ranging, range_pair, write_last, finish_range, begin_range, capped, range_request, handle_range,
  serve_range, complete, read_range,
}
use gokv.Node.Range.Chunked.{
  deliver_all-through, Passed, always_sent, range_pair-plain, through-Passed,
}
use gokv.Node.Range.Client.{FitPairs, read_finished}

-- The keys and values of a sound store fit into their length fields.
fit_either :
    (out : Bool) (value : Option (List ℕ)) (k : List ℕ) (tomb : Bool) (r : Record)
    → r.key ≡ k
    → IsStorable r
    → value ≡ (if tomb then none else some r.value)
    → (ps : List (List ℕ × List ℕ)) → FitPairs ps
    → FitPairs (if out then ps else elim value [ some v ↦ (k, v) ∷ ps | none ↦ ps ])
fit_either true value k tomb r e st q ps f = f
fit_either false value k true r e st q ps f = rw q f
fit_either false value k false r e st q ps f =
    rw q (rw (← e) (omega (arith, st.key_fits)), omega (arith, st.value_fits), f)

module _ ⦃c : Checksum⦄ (s : Store) (h : IsSound s) where
  FitPairs-listing :
      (start end_key : List ℕ) (m : Index)
      → EachEntry (λ k e. Points s.files k e × (lookup k s.keydir.index ≡ some e)) m
      → FitPairs (listing (value_of s) start end_key m)
  unfolding listing
  FitPairs-listing start end_key [] a = tt
  FitPairs-listing start end_key ((k, e) ∷ m) ((p, l), a) =
      fit_either (key_lt k start || past_end end_key k) (value_of s k) k e.tomb p.rec
        (rw p.key refl) p.storable
        (value_in-Points s.files s.keydir.index k e p (h.stocked.sizes e.file_id p.file p.found) l)
        _ (FitPairs-listing start end_key m a)

take-FitPairs : (n : ℕ) (ps : List (List ℕ × List ℕ)) → FitPairs ps → FitPairs (take n ps)
take-FitPairs zero ps f = tt
take-FitPairs (suc n) [] f = tt
take-FitPairs (suc n) ((k, v) ∷ ps) f = (f.0, f.1, take-FitPairs n ps f.2)

begin-Passed : Passed begin_range []
begin-Passed = record {
  groups = [];
  last = [];
  frames = refl;
  chunk = refl;
  whole = refl;
  fine = refl;
}

unbroken {ℓ} : {A : Type ℓ} (b : Bool) (x y : A) → b ≡ false → (if b then x else y) ≡ y
unbroken true x y h = absurd (cc h)
unbroken false x y h = refl

capped_pos :
    (max_results limit : ℕ)
    → 0 < max_results
    → capped max_results limit ≡ 0 + suc (capped max_results limit - 1)
capped_pos max_results limit p = ground arith

-- How many pairs a client gets at most: no limit is the cap, and a limit the smaller of the two.
unfoldable pub page : ℕ → ℕ → ℕ
page max_results zero = max_results
page max_results (suc n) = min max_results (suc n)

page-capped : (max_results limit : ℕ) → page max_results limit ≡ capped max_results limit
unfolding page
page-capped max_results zero = refl
page-capped max_results (suc n) = ground arith

module _ ⦃c : Checksum⦄ ⦃texts : ErrorTexts⦄ where
  answered :
      (o : Option (Ranging × Outcome (Unit {0}))) (st : Ranging) (ps : List (List ℕ × List ℕ))
      → o ≡ some (st, ok tt)
      → Passed st ps
      → FitPairs ps
      → (frames : List (List ℕ)) × (Path
          (Option (List (List ℕ) × Bool))
          (elim o [
            | none ↦ none
            | some (st, res) ↦ some (
                if st.broken then (st.frames, false) else elim res [
                  | ok _ ↦ finish_range always_sent st
                  | err e ↦ write_last always_sent st.frames (write_error (engine e))
                ])
          ])
          (some (frames, true)))
        × (read_range frames [] ≡ complete ps)
  answered o st ps e h f =
      let (frames, fin, read) = read_finished st ps h f in
      (frames, rw e (ap some (unbroken st.broken _ _ h.fine ∙ fin)), read)

  read_range-serve_range :
      (fuel : ℕ) (s : Store) (max_results : ℕ) (start end_key : List ℕ) (limit : ℕ)
      → IsSound s
      → length s.keydir.index < fuel
      → 0 < max_results
      → (frames : List (List ℕ)) × (serve_range fuel
            (still s)
            max_results
            always_sent
            start
            end_key
            limit
          ≡ some (frames, true))
        × (read_range frames []
            ≡ complete (take (capped max_results limit) (listing_of s start end_key)))
  unfolding serve_range
  read_range-serve_range fuel s max_results start end_key limit h f p =
      let most : ℕ = capped max_results limit in
      let all = listing_of s start end_key in
      let begin : Scanned Ranging = record { acc = begin_range; sent = 0; result = ok tt } in
      let last : Scanned Ranging = (deliver_all (range_pair always_sent) most all begin).0 in
      let (pairs, good) =
        deliver_all-through (range_pair always_sent) range_pair-plain most (most - 1) all
          begin_range 0 (capped_pos max_results limit p) in
      let fits : FitPairs (take (suc (most - 1)) all) = take-FitPairs (suc (most - 1)) all (
        FitPairs-listing s h start end_key s.keydir.index (
          Every-EachEntry _ s.keydir.index h.indexing.sorted
            (λ k e l. (h.indexing.points k e l, l)))) in
      let same : suc (most - 1) ≡ most = omega (arith, capped_pos max_results limit p) in
      subst
        (λ n.
          (frames : List (List ℕ)) × (serve_range fuel (still s) max_results always_sent start
              end_key limit
            ≡ some (frames, true))
          × (read_range frames [] ≡ complete (take n all)))
        same
        (answered (scan (range_pair always_sent) fuel (still s) start end_key most begin_range)
          last.acc (take (suc (most - 1)) all)
          (scan-still (range_pair always_sent) fuel s start end_key most begin_range h f
            ∙ rw good refl)
          (subst (λ z. Passed z (take (suc (most - 1)) all)) (sym pairs)
            (through-Passed (take (suc (most - 1)) all) [] begin_range begin-Passed))
          fits)

  decoded_request :
      (fuel : ℕ) (at : Moments) (max_results : ℕ) (start end_key : List ℕ) (limit : ℕ)
      → length start < u32_mod
      → length end_key < u32_mod
      → limit < u32_mod
      → handle_range fuel at max_results always_sent (drop 1 (range_request start end_key limit))
        ≡ serve_range fuel at max_results always_sent start end_key limit
  unfolding handle_range
  decoded_request fuel at max_results start end_key limit fs fe fl =
      let body = prefixed start ++ (prefixed end_key ++ (be 4 limit ++ [])) in
      let kept : limit % u32_mod ≡ limit = omega (arith, fl) in
      let same : drop 1 (range_request start end_key limit) ≡ body =
        rw kept (simp (append_assoc, append-nil) refl) in
      let (d1, e1, h1) =
        read_bytes (new_dec body) start (prefixed end_key ++ (be 4 limit ++ [])) fs
          (Holds-new_dec body) in
      let (d2, e2, h2) = read_bytes d1 end_key (be 4 limit ++ []) fe h1 in
      let (d3, e3, h3) = read_u32 d2 limit [] fl h2 in
      rw (same, handle_range, e1, e2, e3, done-read d3 h3) refl

  -- With more fuel than there are keys, a sound store that does not change, a cap above 0, every
  -- frame written, and the lengths of both keys and the limit below 2 ^ 32: the frame that a
  -- client makes for a range request is answered in full, and the client's loop over the frames
  -- of the reply ends with the pairs of the range, in the order of their keys: where the limit is
  -- 0 the first of them up to the cap, and otherwise up to the smaller of the limit and the cap.
  pub read_range-handle_range :
      (fuel : ℕ) (s : Store) (max_results : ℕ) (start end_key : List ℕ) (limit : ℕ)
      → IsSound s
      → length s.keydir.index < fuel
      → 0 < max_results
      → length start < u32_mod
      → length end_key < u32_mod
      → limit < u32_mod
      → (frames : List (List ℕ)) × (handle_range fuel
            (still s)
            max_results
            always_sent
            (drop 1 (range_request start end_key limit))
          ≡ some (frames, true))
        × (read_range frames []
            ≡ complete (take (page max_results limit) (listing_of s start end_key)))
  read_range-handle_range fuel s max_results start end_key limit h f p fs fe fl =
      rw
        (
          page-capped max_results limit,
          decoded_request fuel (still s) max_results start end_key limit fs fe fl,
        )
        (read_range-serve_range fuel s max_results start end_key limit h f p)
