-- ===== src/Node/Range/Chunked.antt =====
-- The callback of serveRange: what it has passed on, in whole chunks and one that is not full.
use gokv.Prelude.{
  ℕ, zero, suc, ◌+◌, ◌≡◌, ◌∙◌, refl, sym, ap, Bool, true, false, ◌&&◌, Option, none, List, [], ◌∷◌,
  ◌++◌, append_assoc, append-nil, arith, ltb, leb, length, take, Bool-cases, inl, inr,
}
use mathlib.Core.Path.{subst}
use gokv.Engine.Store.{ok, Error}
use gokv.Engine.Store.Scan.{deliver}
use gokv.Engine.Store.Scan.Listed.{deliver_all}
use gokv.Proto.{put_bytes}
use gokv.Proto.Read.{prefixed}
use gokv.Proto.Wire.{status_range_chunk}
use gokv.Node.Range.{Ranging, range_pair, range_chunk_bytes}

-- A scan whose callback never fails passes the pairs through it.
module _ {ℓ} {F : Type ℓ} (fn : List ℕ → List ℕ → F → F × Option Error)
    (plain : (k v : List ℕ) (a : F) → (fn k v a).1 ≡ none) where
  pub through : F → List (List ℕ × List ℕ) → F
  through a [] = a
  through a ((k, v) ∷ ps) = through (fn k v a).0 ps

  deliver_plain :
      (limit : ℕ) (k v : List ℕ) (a : F) (sent : ℕ)
      → deliver fn limit k v (record { acc = a; sent = sent; result = ok tt }) ≡ (
        record { acc = (fn k v a).0; sent = sent + 1; result = ok tt },
        ltb 0 limit && leb limit (sent + 1),
      )
  deliver_plain limit k v a sent = rw (plain k v a, deliver) refl

  pub deliver_all-through :
      (limit r : ℕ) (ps : List (List ℕ × List ℕ)) (a : F) (sent : ℕ)
      → limit ≡ sent + suc r
      → let res = (deliver_all fn limit ps (record { acc = a; sent = sent; result = ok tt })).0 in
        (res.acc ≡ through a (take (suc r) ps)) × (res.result ≡ ok tt)
  unfolding deliver_all through
  deliver_all-through limit r [] a sent h = (refl, refl)
  deliver_all-through limit zero ((k, v) ∷ ps) a sent h =
      let d : (ltb 0 limit && leb limit (sent + 1)) ≡ true = ground arith in
      rw (deliver_plain limit k v a sent, d) (refl, refl)
  deliver_all-through limit (suc r) ((k, v) ∷ ps) a sent h =
      let d : (ltb 0 limit && leb limit (sent + 1)) ≡ false = ground arith in
      rw (deliver_plain limit k v a sent, d)
        (deliver_all-through limit r ps (fn k v a).0 (sent + 1) (omega arith))

-- The pairs of a chunk as bytes.
abbrev pub pairs_bytes : List (List ℕ × List ℕ) → List ℕ
pairs_bytes [] = []
pairs_bytes ((k, v) ∷ ps) = prefixed k ++ (prefixed v ++ pairs_bytes ps)

pairs_bytes-append :
    (ps : List (List ℕ × List ℕ)) (k v : List ℕ)
    → pairs_bytes (ps ++ ((k, v) ∷ [])) ≡ pairs_bytes ps ++ (prefixed k ++ prefixed v)
pairs_bytes-append [] k v = ap (λ z. prefixed k ++ z) (append-nil (prefixed v))
pairs_bytes-append ((j, w) ∷ ps) k v = rw (pairs_bytes-append ps k v) (simp append_assoc refl)

abbrev pub chunk_of : List (List ℕ × List ℕ) → List ℕ
chunk_of ps = status_range_chunk ∷ pairs_bytes ps

abbrev pub chunks_of : List (List (List ℕ × List ℕ)) → List (List ℕ)
chunks_of [] = []
chunks_of (g ∷ gs) = chunk_of g ∷ chunks_of gs

abbrev pub flat : List (List (List ℕ × List ℕ)) → List (List ℕ × List ℕ)
flat [] = []
flat (g ∷ gs) = g ++ flat gs

-- The server has passed on the pairs `ps`: whole chunks, and one that is not full.
pub record Passed (st : Ranging) (ps : List (List ℕ × List ℕ)) : Type 0 where
  pub groups : List (List (List ℕ × List ℕ))
  pub last : List (List ℕ × List ℕ)
  pub frames : st.frames ≡ chunks_of groups
  pub chunk : st.chunk ≡ chunk_of last
  pub whole : flat groups ++ last ≡ ps
  pub fine : st.broken ≡ false

chunks_of-append :
    (gs : List (List (List ℕ × List ℕ))) (g : List (List ℕ × List ℕ))
    → chunks_of (gs ++ (g ∷ [])) ≡ chunks_of gs ++ (chunk_of g ∷ [])
chunks_of-append [] g = refl
chunks_of-append (h ∷ gs) g = ap (λ z. chunk_of h ∷ z) (chunks_of-append gs g)

flat-append :
    (gs : List (List (List ℕ × List ℕ))) (g : List (List ℕ × List ℕ))
    → flat (gs ++ (g ∷ [])) ≡ flat gs ++ g
flat-append [] g = append-nil g
flat-append (h ∷ gs) g = rw (flat-append gs g) (sym (append_assoc h (flat gs) g))

-- Every frame can be written.
abbrev pub always_sent : ℕ → Bool
always_sent _ = true

pub range_pair-plain : (k v : List ℕ) (st : Ranging) → (range_pair always_sent k v st).1 ≡ none
unfolding range_pair
range_pair-plain k v st = ground arith

range_pair-Passed :
    (k v : List ℕ) (st : Ranging) (ps : List (List ℕ × List ℕ))
    → Passed st ps
    → Passed (range_pair always_sent k v st).0 (ps ++ ((k, v) ∷ []))
unfolding range_pair
range_pair-Passed k v st ps h =
    let chunk : put_bytes (put_bytes st.chunk k) v ≡ chunk_of (h.last ++ ((k, v) ∷ [])) =
      rw (h.chunk, pairs_bytes-append h.last k v) (simp append_assoc refl) in
    let onward : flat h.groups ++ (h.last ++ ((k, v) ∷ [])) ≡ ps ++ ((k, v) ∷ []) =
      sym (append_assoc (flat h.groups) h.last ((k, v) ∷ []))
      ∙ ap (λ z. z ++ ((k, v) ∷ [])) h.whole in
    elim (Bool-cases (leb range_chunk_bytes (length (put_bytes (put_bytes st.chunk k) v)))) [
      | inl full ↦ rw full (record {
        groups = h.groups ++ ((h.last ++ ((k, v) ∷ [])) ∷ []);
        last = [];
        frames = rw (chunks_of-append, h.frames, chunk) refl;
        chunk = refl;
        whole = append-nil _ ∙ flat-append h.groups _ ∙ onward;
        fine = h.fine;
      })
      | inr partial ↦ rw partial (record {
        groups = h.groups;
        last = h.last ++ ((k, v) ∷ []);
        frames = h.frames;
        chunk = chunk;
        whole = onward;
        fine = h.fine;
      })
    ]

pub through-Passed :
    (qs ps : List (List ℕ × List ℕ)) (st : Ranging)
    → Passed st ps
    → Passed (through (range_pair always_sent) range_pair-plain st qs) (ps ++ qs)
unfolding through
through-Passed [] ps st h = subst (Passed st) (sym (append-nil ps)) h
through-Passed ((k, v) ∷ qs) ps st h =
    subst (Passed _) (append_assoc ps ((k, v) ∷ []) qs)
      (through-Passed qs (ps ++ ((k, v) ∷ [])) _ (range_pair-Passed k v st ps h))
