-- ===== src/Node/Session/Synced.antt =====
-- A follower that the leader sends a full snapshot: from the frames of `serveReplication` to the map
-- that the follower's store holds.
use gokv.Prelude.{
  ℕ, suc, ◌+◌, ◌<◌, ◌≡◌, refl, ap, ◌∙◌, sym, false, Option, none, some, List, [], ◌∷◌, ◌++◌, arith,
  length, All, if◌then◌else◌, Bool-cases, inl, inr,
}
use mathlib.Core.Path.{subst}
use gokv.Prelude.Bytes.{u32_mod}
use gokv.Prelude.Keys.{key_eq, key_eq_iff}
use gokv.Engine.Record.{Checksum, Record}
use gokv.Engine.Store.{Store, Io, Outcome, ok, err}
use gokv.Engine.Store.Sound.Defs.{IsBelowAt, value_of}
use gokv.Engine.Store.Sound.Refine.{IsLive}
use gokv.Engine.Store.Sound.Served.{well}
use gokv.Engine.Snapshot.Complete.{wrapped, AreFrames}
use gokv.Engine.Replica.{apply_raw}
use gokv.Engine.Replica.Anew.{Took, apply_raw-Took}
use gokv.Node.{Node}
use gokv.Node.CatchUp.{repl_data}
use gokv.Node.Session.{stored, on_frame, read_stream}
use gokv.Node.Session.Listed.{find, AreDistinct}

-- Working calls with the clock of each round.
abbrev pub well_at : (ℕ → ℕ) → ℕ → Io
well_at now i = well (now i)

-- None of the keys is in the index.
abbrev pub AllAbsent : Store → List (List ℕ × List ℕ) → Type 0
AllAbsent s ps = All (λ p. IsBelowAt 0 p.0 s.keydir.index) ps

module _ ⦃c : Checksum⦄ where
  -- What a follower has become by reading some frames of a stream.
  pub record Fed (n : Node) (addr : List ℕ) (now : ℕ → ℕ) (i : ℕ) (fs : List (List ℕ))
      (ps : List (List ℕ × List ℕ)) : Type 0 where
    pub node : Node
    pub at : ℕ
    pub reads :
        (more : List (List ℕ))
        → read_stream n addr (well_at now) i (fs ++ more)
          ≡ read_stream node addr (well_at now) at more
    pub live : IsLive node.store
    pub open_still : node.store.closed ≡ n.store.closed
    pub values :
        (j : List ℕ)
        → value_of node.store j ≡ elim (find j ps) [ some v ↦ some v | none ↦ value_of n.store j ]

  pub round_goes_on :
      (n n' : Node) (addr : List ℕ) (now : ℕ → ℕ) (i : ℕ) (f : List ℕ) (fs : List (List ℕ))
      → on_frame n addr (well (now i)) f ≡ (n', none)
      → read_stream n addr (well_at now) i (f ∷ fs) ≡ read_stream n' addr (well_at now) (i + 1) fs
  unfolding read_stream
  round_goes_on n n' addr now i f fs e =
      rw (e, read_stream) (ap (λ x. read_stream x.0 addr (well_at now) (i + 1) fs) e)

  pub stored_ok {ℓ} :
      {A : Type ℓ} (n : Node) (res : Store × Outcome A) (x : A)
      → res.1 ≡ ok x
      → stored n res ≡ (record n { store = res.0 }, none)
  unfolding stored
  stored_ok n (s, ok y) x e = refl
  stored_ok n (s, err y) x e = absurd cc

  data_frame :
      (n : Node) (addr : List ℕ) (now : ℕ) (raw : List ℕ) (x : ℕ)
      → (apply_raw n.store raw (well now)).1 ≡ ok x
      → on_frame n addr (well now) (repl_data raw)
        ≡ (record n { last_contact = now; store = (apply_raw n.store raw (well now)).0 }, none)
  unfolding on_frame
  data_frame n addr now raw x e =
      stored_ok (record n { last_contact = now }) (apply_raw n.store raw (well now)) x e

  still_absent :
      (s : Store) (r : Record) (res : Store × Outcome ℕ) (ps : List (List ℕ × List ℕ))
      → Took s r res
      → All (λ p. key_eq r.key p.0 ≡ false) ps
      → AllAbsent s ps
      → AllAbsent res.0 ps
  still_absent s r res [] t d a = tt
  still_absent s r res (p ∷ ps) t d a = (t.absent p.0 a.0 d.0, still_absent s r res ps t d.1 a.1)

  not_found :
      (k : List ℕ) (ps : List (List ℕ × List ℕ))
      → All (λ p. key_eq k p.0 ≡ false) ps
      → find k ps ≡ none
  unfolding find
  not_found k [] h = refl
  not_found k ((j, v) ∷ ps) h =
      ground (arith, key_eq_iff k j, key_eq_iff j k, h.0, not_found k ps h.1)

  found_first :
      (k v : List ℕ) (ps : List (List ℕ × List ℕ)) (j : List ℕ) (o : Option (List ℕ))
      → All (λ p. key_eq k p.0 ≡ false) ps
      → elim (find j ps) [ some w ↦ some w | none ↦ (if key_eq k j then some v else o) ]
        ≡ elim (find j ((k, v) ∷ ps)) [ some w ↦ some w | none ↦ o ]
  unfolding find
  found_first k v ps j o h = elim (Bool-cases (key_eq k j)) [
    | inl same ↦
        rw
          (
            same,
            not_found j ps
                (subst (λ x. All (λ p. key_eq x p.0 ≡ false) ps) ((key_eq_iff k j).0 same) h),
            same,
          )
          refl
    | inr other ↦
        let o' : (if key_eq k j then some v else o) ≡ o = rw other refl in
        rw other (ap (λ z. elim (find j ps) [ some w ↦ some w | none ↦ z ]) o')
  ]

  pub feed :
      (n : Node) (addr : List ℕ) (now : ℕ → ℕ) (i : ℕ) (raws : List (List ℕ))
      (ps : List (List ℕ × List ℕ))
      → IsLive n.store
      → n.store.closed ≡ false
      → n.store.next_id + length ps < u32_mod
      → AreFrames raws ps
      → AreDistinct ps
      → AllAbsent n.store ps
      → Fed n addr now i (wrapped repl_data raws) ps
  feed n addr now i [] ps h o room frames d a = rw frames (record {
    node = n;
    at = i;
    reads = λ more. refl;
    live = h;
    open_still = refl;
    values = λ j. unfold find in refl;
  })
  feed n addr now i (raw ∷ raws) ps h o room (r, qs, e, bytes, storable, plain, single, frames) d
        a =
      let size : length ps ≡ suc (length qs) = ap length e in
      let d' : AreDistinct ((r.key, r.value) ∷ qs) = subst AreDistinct e d in
      let a' : AllAbsent n.store ((r.key, r.value) ∷ qs) = subst (AllAbsent n.store) e a in
      let t : Took n.store r (apply_raw n.store raw (well (now i))) =
        rw bytes
          (apply_raw-Took n.store r (now i) h o (omega (arith, room, size)) storable plain a'.0) in
      let n' : Node = record n {
        last_contact = now i;
        store = (apply_raw n.store raw (well (now i))).0;
      } in
      let rest : Fed n' addr now (i + 1) (wrapped repl_data raws) qs =
        feed n' addr now (i + 1) raws qs t.live (t.open_still ∙ o)
          (omega (arith, room, size, t.ids)) frames d'.1
          (still_absent n.store r _ qs t d'.0 a'.1) in
      subst (Fed n addr now i (wrapped repl_data (raw ∷ raws))) (sym e) (record {
        node = rest.node;
        at = rest.at;
        reads = λ more.
            round_goes_on n n' addr now i (repl_data raw) (wrapped repl_data raws ++ more)
              (data_frame n addr (now i) raw r.seq t.fine)
            ∙ rest.reads more;
        live = rest.live;
        open_still = rest.open_still ∙ t.open_still;
        values = λ j.
            rest.values j
            ∙ ap (λ v. elim (find j qs) [ some w ↦ some w | none ↦ v ]) (t.values j)
            ∙ found_first r.key r.value qs j (value_of n.store j) d'.0;
      })
