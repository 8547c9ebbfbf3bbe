-- ===== src/Engine/Store/Sound/Refine.antt =====
-- The store as a map from keys to values: `Put`, `Delete` and `BatchPut` with every answer of the
-- operating system, and `Get`.
use gokv.Prelude.{
  ℕ, ◌+◌, ◌%◌, ◌≤◌, ◌<◌, ◌≡◌, refl, Bool, true, false, Option, none, some, List, [], ◌∷◌, arith,
  ltb, if◌then◌else◌, length, All, Option-cases, inl, inr,
}
use mathlib.Core.Path.{subst}
use gokv.Prelude.Bytes.{u32_mod, u64_mod}
use gokv.Prelude.Keys.{key_eq}
use gokv.Engine.Record.{Checksum, Record, IsStorable, flag_tombstone, max_key_size, max_value_size}
use gokv.Engine.Index.{lookup}
use gokv.Engine.Store.{
  Store, Io, Outcome, ok, err, Error, key_not_found, closed_store, value_too_long, validate_key,
}
use gokv.Engine.Store.Append.{append_locked, number_from, write_locked}
use gokv.Engine.Store.Methods.{put, delete}
use gokv.Engine.Store.Sound.Defs.{IsSound, IsBelow, IsBelow-at, value_of}
use gokv.Engine.Store.Sound.Publish.{latest, Ascends-at}
use gokv.Engine.Store.Sound.Write.{Wrote, write_locked-Wrote}
use gokv.Engine.Store.Sound.Number.{
  total_size, length-encodes, total_size-number_from, latest-number_from, number_from-Ascends,
  number_from-le, number_from-IsStorable,
}

module _ ⦃c : Checksum⦄ where
  -- A sound store that knows no record newer than its sequence number.
  pub record IsLive (s : Store) : Type 0 where
    pub sound : IsSound s
    pub newest : IsBelow s.seq s.keydir.index

  -- A step that makes the values `f` if it succeeds and leaves all as it was if it fails; the store
  -- stays live either way.
  pub record Refines (s : Store) (f : List ℕ → Option (List ℕ)) (res : Store × Outcome (Unit {0}))
      : Type 0 where
    pub live : IsLive res.0
    pub values : (j : List ℕ) → value_of res.0 j ≡ elim res.1 [ ok u ↦ f j | err e ↦ value_of s j ]

  -- What the write path needs room for: a file id and the sequence numbers.
  pub record HasRoom (s : Store) (n : ℕ) : Type 0 where
    pub ids : s.next_id + 1 < u32_mod
    pub seqs : s.seq + n < u64_mod

  pub Refines-err :
      (s : Store) (f : List ℕ → Option (List ℕ)) (e : Error) → IsLive s → Refines s f (s, err e)
  Refines-err s f e h = record { live = h; values = λ j. refl }

  pub append_locked-Refines :
      (s : Store) (rs : List Record) (o : Io)
      → IsLive s
      → HasRoom s (length rs)
      → All IsStorable rs
      → total_size rs < u32_mod
      → Refines s (λ j. latest j rs (value_of s j)) (append_locked s rs o)
  unfolding append_locked
  append_locked-Refines s rs o h room storable small =
      let t : Store = record s { seq = (s.seq + length rs) % u64_mod } in
      let w : Wrote t (number_from s.seq rs) _ =
        write_locked-Wrote t (number_from s.seq rs) o
          (record { indexing = h.sound.indexing; stocked = h.sound.stocked }) room.ids
          (number_from-IsStorable s.seq rs room.seqs storable)
          (rw (length-encodes, total_size-number_from) small) in
      let bound : (s.seq + length rs) % u64_mod ≡ s.seq + length rs = omega (arith, room.seqs) in
      let res : Store × Outcome (Unit {0}) = write_locked t (number_from s.seq rs) o in
      record {
        live = record {
          sound = w.sound;
          newest = rw w.seq (
              w.below t.seq (record { at = λ k e q. omega (arith, h.newest.at k e q, bound) })
                (number_from-le s.seq t.seq rs room.seqs (omega (arith, bound))));
        };
        values = λ j.
            subst (λ v. value_of res.0 j ≡ elim res.1 [ ok u ↦ v | err e ↦ value_of s j ])
              (latest-number_from j s.seq rs (value_of s j))
              (w.holds (s.seq + 1) j (IsBelow-at s.seq j t.keydir.index h.newest) (
                Ascends-at j s.seq (s.seq + 1) _ (number_from-Ascends s.seq rs room.seqs)
                  (omega arith)));
      }

  -- The counter that the methods raise behind `appendLocked`.
  pub counted_put :
      (s : Store) (f : List ℕ → Option (List ℕ)) (n : ℕ) (res : Store × Outcome (Unit {0}))
      → Refines s f res
      → Refines s f (elim res.1 [
        | ok _ ↦ (record res.0 { n_put = (res.0.n_put + n) % u64_mod }, ok tt)
        | err e ↦ (res.0, err e)
      ])
  counted_put s f n (t, ok u) h = record {
    live = record {
      sound = record { indexing = h.live.sound.indexing; stocked = h.live.sound.stocked };
      newest = h.live.newest;
    };
    values = h.values;
  }
  counted_put s f n (t, err e) h = h

  counted_del :
      (s : Store) (f : List ℕ → Option (List ℕ)) (res : Store × Outcome (Unit {0}))
      → Refines s f res
      → Refines s f (elim res.1 [
        | ok _ ↦ (record res.0 { n_del = (res.0.n_del + 1) % u64_mod }, ok tt)
        | err e ↦ (res.0, err e)
      ])
  counted_del s f (t, ok u) h = record {
    live = record {
      sound = record { indexing = h.live.sound.indexing; stocked = h.live.sound.stocked };
      newest = h.live.newest;
    };
    values = h.values;
  }
  counted_del s f (t, err e) h = h

  pub valid_key : (k : List ℕ) → validate_key k ≡ none → (0 < length k) × (length k ≤ max_key_size)
  unfolding validate_key
  valid_key k h = ground arith

  pub Refines-if :
      (s : Store) (f : List ℕ → Option (List ℕ)) (b : Bool) (e : Error)
      (res : Store × Outcome (Unit {0}))
      → IsLive s
      → (b ≡ false → Refines s f res)
      → Refines s f (if b then (s, err e) else res)
  Refines-if s f true e res h k = Refines-err s f e h
  Refines-if s f false e res h k = k refl

  -- The map with one key set.
  abbrev pub with_value :
      (List ℕ → Option (List ℕ)) → List ℕ → Option (List ℕ) → List ℕ → Option (List ℕ)
  with_value f key v j = if key_eq key j then v else f j

  -- Whatever the operating system answers, `put` on a live store with ids, sequence numbers and
  -- clock in range leaves a live store; if it succeeds, the store holds the map with that key
  -- set, and if it fails, every key keeps its value.
  pub put-Refines :
      (s : Store) (key value : List ℕ) (o : Io)
      → IsLive s
      → HasRoom s 1
      → o.now < u64_mod
      → Refines s (with_value (value_of s) key (some value)) (put s key value o)
  unfolding put
  put-Refines s key value o h room now = elim (Option-cases (validate_key key)) [
    | inr (e, bad) ↦ rw (bad, put) (Refines-err s _ e h)
    | inl good ↦
        let (pos, small) = valid_key key good in
        let r : Record = record { ts = o.now; seq = 0; flags = 0; key = key; value = value } in
        rw (good, put)
          (Refines-if s _ (ltb max_value_size (length value)) value_too_long _ h λ fits.
            Refines-if s _ s.closed closed_store _ h λ open_store.
              let short : length value ≤ max_value_size = ground arith in
              counted_put s _ 1 (append_locked s (r ∷ []) o)
                (append_locked-Refines s (r ∷ []) o h room (omega arith, tt) (omega arith)))
  ]

  -- Whatever the operating system answers, `delete` on a live store with ids, sequence numbers
  -- and clock in range leaves a live store; if it succeeds, the store holds the map without that
  -- key, and if it fails, every key keeps its value.
  pub delete-Refines :
      (s : Store) (key : List ℕ) (o : Io)
      → IsLive s
      → HasRoom s 1
      → o.now < u64_mod
      → Refines s (with_value (value_of s) key none) (delete s key o)
  unfolding delete
  delete-Refines s key o h room now = elim (Option-cases (validate_key key)) [
    | inr (e, bad) ↦ rw (bad, delete) (Refines-err s _ e h)
    | inl good ↦ elim (Option-cases (lookup key s.keydir.index)) [
      | inl missing ↦ rw (good, delete, missing) (Refines-err s _ key_not_found h)
      | inr (old, found) ↦
          let (pos, small) = valid_key key good in
          let r : Record = record {
            ts = o.now;
            seq = 0;
            flags = flag_tombstone;
            key = key;
            value = [];
          } in
          rw (good, delete, found)
            (Refines-if s _ old.tomb key_not_found _ h λ held.
              Refines-if s _ s.closed closed_store _ h λ open_store.
                counted_del s _ (append_locked s (r ∷ []) o)
                  (append_locked-Refines s (r ∷ []) o h room (omega arith, tt) (omega arith)))
    ]
  ]
