-- ===== src/Node/Range/Client.antt =====
-- The client's loop over the frames of a range reply.
use gokv.Prelude.{
  ℕ, zero, suc, ◌<◌, ◌≡◌, ◌∙◌, refl, sym, ap, true, false, ◌||◌, List, [], ◌∷◌, ◌++◌, append_assoc,
  append-nil, arith, ltb, length, length-append, length-drop, Bool-cases, inl, inr,
}
use mathlib.Core.Path.{subst}
use gokv.Prelude.Bytes.{be, length-be, u32_mod}
use gokv.Proto.{Decoder, new_enc, new_dec, put_u64, is_empty}
use gokv.Proto.Read.{Holds, Holds-new_dec, read_bytes, prefixed}
use gokv.Proto.Wire.{status_range_end}
use gokv.Node.Range.{Ranging, finish_range, complete, read_chunk, read_range}
use gokv.Node.Range.Chunked.{pairs_bytes, chunk_of, chunks_of, flat, Passed, always_sent}

abbrev pub FitPairs : List (List ℕ × List ℕ) → Type 0
FitPairs [] = Unit {0}
FitPairs ((k, v) ∷ ps) = (length k < u32_mod) × (length v < u32_mod) × FitPairs ps

length_pair :
    (k v : List ℕ) (rest : List ℕ) → length rest < length (prefixed k ++ (prefixed v ++ rest))
length_pair k v rest = omega (
  arith,
  length-append (prefixed k) (prefixed v ++ rest),
  length-append (prefixed v) rest,
  length-append (be 4 (length k)) k,
  length-be 4 (length k),
)

not_empty : (d : Decoder) (xs : List ℕ) → Holds d xs → 0 < length xs → is_empty d ≡ false
unfolding is_empty
not_empty d xs h p = ground (arith, ap length h.unread, length-drop d.pos d.bytes, p)

is_empty-nil : (d : Decoder) → Holds d [] → is_empty d ≡ true
unfolding is_empty
is_empty-nil d h = ground (arith, ap length h.unread, length-drop d.pos d.bytes)

read_chunk-bytes :
    (n : ℕ) (ps out : List (List ℕ × List ℕ)) (d : Decoder)
    → FitPairs ps
    → Holds d (pairs_bytes ps)
    → length (pairs_bytes ps) < n
    → (d' : Decoder) × (read_chunk n d out ≡ (out ++ ps, d')) × (d'.failed ≡ false)
unfolding read_chunk
read_chunk-bytes zero ps out d f h p = absurd (omega arith)
read_chunk-bytes (suc n) [] out d f h p =
    let over : (d.failed || is_empty d) ≡ true = ground (arith, is_empty-nil d h) in
    (d, rw (over, read_chunk, append-nil) refl, h.fine)
read_chunk-bytes (suc n) ((k, v) ∷ ps) out d (fk, fv, f) h p =
    let (d1, e1, h1) = read_bytes d k _ fk h in
    let (d2, e2, h2) = read_bytes d1 v _ fv h1 in
    let (d3, e3, h3) =
      read_chunk-bytes n ps (out ++ ((k, v) ∷ [])) d2 f h2
        (omega (arith, p, length_pair k v (pairs_bytes ps))) in
    let more : (d.failed || is_empty d) ≡ false =
      ground (arith, h.fine, not_empty d _ h (omega (arith, length_pair k v (pairs_bytes ps)))) in
    (
      d3,
      rw (more, read_chunk, e1, e2, h2.fine, e3)
          (ap (λ z. (z, d3)) (append_assoc out ((k, v) ∷ []) ps)),
      h3,
    )

AllFit : List (List (List ℕ × List ℕ)) → Type 0
AllFit [] = Unit {0}
AllFit (g ∷ gs) = FitPairs g × AllFit gs

read_range-chunk :
    (g out : List (List ℕ × List ℕ)) (frames : List (List ℕ))
    → FitPairs g
    → read_range (chunk_of g ∷ frames) out ≡ read_range frames (out ++ g)
unfolding read_range
read_range-chunk g out frames f =
    let (d, e, fine) =
      read_chunk-bytes (suc (length (pairs_bytes g))) g out (new_dec (pairs_bytes g)) f
        (Holds-new_dec (pairs_bytes g)) (omega arith) in
    rw (e, read_range, fine) refl

read_range-chunks :
    (gs : List (List (List ℕ × List ℕ))) (out : List (List ℕ × List ℕ)) (frames : List (List ℕ))
    → AllFit gs
    → read_range (chunks_of gs ++ frames) out ≡ read_range frames (out ++ flat gs)
unfolding AllFit
read_range-chunks [] out frames f = ap (read_range frames) (sym (append-nil out))
read_range-chunks (g ∷ gs) out frames f =
    read_range-chunk g out (chunks_of gs ++ frames) f.0
    ∙ read_range-chunks gs (out ++ g) frames f.1
    ∙ ap (read_range frames) (append_assoc out g (flat gs))

read_range-end :
    (total : ℕ) (out : List (List ℕ × List ℕ))
    → read_range (put_u64 (new_enc status_range_end) total ∷ []) out ≡ complete out
unfolding read_range
read_range-end total out = refl

FitPairs-split : (xs ys : List (List ℕ × List ℕ)) → FitPairs (xs ++ ys) → FitPairs xs × FitPairs ys
FitPairs-split [] ys f = (tt, f)
FitPairs-split ((k, v) ∷ xs) ys f = let (a, b) = FitPairs-split xs ys f.2 in ((f.0, f.1, a), b)

AllFit-flat : (gs : List (List (List ℕ × List ℕ))) → FitPairs (flat gs) → AllFit gs
unfolding AllFit
AllFit-flat [] f = tt
AllFit-flat (g ∷ gs) f = let (a, b) = FitPairs-split g (flat gs) f in (a, AllFit-flat gs b)

no_pairs : (g : List (List ℕ × List ℕ)) → ltb 1 (length (chunk_of g)) ≡ false → g ≡ []
no_pairs [] h = refl
no_pairs ((k, v) ∷ g) h = absurd (ground (arith, length_pair k v (pairs_bytes g), h))

-- What the client makes of the frames when the server is done.
pub read_finished :
    (st : Ranging) (ps : List (List ℕ × List ℕ))
    → Passed st ps
    → FitPairs ps
    → (frames : List (List ℕ)) × (finish_range always_sent st ≡ (frames, true))
      × (read_range frames [] ≡ complete ps)
unfolding finish_range
read_finished st ps h f =
    let whole : FitPairs (flat h.groups ++ h.last) = subst FitPairs (sym h.whole) f in
    let (fg, fl) = FitPairs-split (flat h.groups) h.last whole in
    elim (Bool-cases (ltb 1 (length st.chunk))) [
      | inl more ↦ (
        (st.frames ++ (st.chunk ∷ [])) ++ (put_u64 (new_enc status_range_end) st.total ∷ []),
        rw more refl,
        rw (h.frames, h.chunk, append_assoc)
            (read_range-chunks h.groups [] _ (AllFit-flat h.groups fg)
              ∙ read_range-chunk h.last (flat h.groups) _ fl
              ∙ read_range-end st.total (flat h.groups ++ h.last)
              ∙ ap complete h.whole),
      )
      | inr none_left ↦ (
        st.frames ++ (put_u64 (new_enc status_range_end) st.total ∷ []),
        rw none_left refl,
        rw h.frames (
            read_range-chunks h.groups [] _ (AllFit-flat h.groups fg)
            ∙ read_range-end st.total (flat h.groups)
            ∙ ap complete (
                sym (append-nil (flat h.groups))
                ∙ ap (λ z. flat h.groups ++ z) (sym (no_pairs h.last (rw h.chunk at none_left)))
                ∙ h.whole)),
      )
    ]
