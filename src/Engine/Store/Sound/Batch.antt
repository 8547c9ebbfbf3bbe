-- ===== src/Engine/Store/Sound/Batch.antt =====
-- `BatchPut` on the store as a map, with every answer of the operating system.
use gokv.Prelude.{
  ℕ, suc, ◌+◌, ◌%◌, ◌≤◌, ◌<◌, ◌≡◌, refl, ap, true, false, not, Option, none, some, List, [], ◌∷◌,
  arith, ◌==◌, if◌then◌else◌, length, All, Option-cases, inl, inr,
}
use mathlib.Core.Path.{subst, fun_ext}
use gokv.Prelude.Bytes.{u32_mod, u64_mod}
use gokv.Engine.Record.{Checksum, IsStorable, max_key_size, max_value_size}
use gokv.Engine.Store.{Store, Io, ok, err, Error, closed_store, batch_len, validate_key}
use gokv.Engine.Store.Append.{append_locked}
use gokv.Engine.Store.Methods.{batch_put, pairs_error, batch_records, zip_pairs}
use gokv.Engine.Store.Sound.Defs.{value_of}
use gokv.Engine.Store.Sound.Publish.{latest}
use gokv.Engine.Store.Sound.Number.{total_size}
use gokv.Engine.Store.Sound.Refine.{
  IsLive, Refines, HasRoom, Refines-err, Refines-if, append_locked-Refines, counted_put, valid_key,
  with_value,
}

module _ ⦃c : Checksum⦄ where
  abbrev pub with_all :
      (List ℕ → Option (List ℕ)) → List (List ℕ × List ℕ) → List ℕ → Option (List ℕ)
  with_all f [] j = f j
  with_all f ((k, v) ∷ kvs) j = with_all (with_value f k (some v)) kvs j

  abbrev pub pairs_size : List (List ℕ × List ℕ) → ℕ
  pairs_size [] = 0
  pairs_size ((k, v) ∷ kvs) = 29 + length k + length v + pairs_size kvs

  latest-batch_records :
      (now : ℕ) (kvs : List (List ℕ × List ℕ)) (f : List ℕ → Option (List ℕ)) (j : List ℕ)
      → latest j (batch_records now kvs) (f j) ≡ with_all f kvs j
  latest-batch_records now [] f j = refl
  latest-batch_records now ((k, v) ∷ []) f j = refl
  latest-batch_records now ((k, v) ∷ p ∷ kvs) f j =
      latest-batch_records now (p ∷ kvs) (with_value f k (some v)) j

  length-batch_records :
      (now : ℕ) (kvs : List (List ℕ × List ℕ)) → length (batch_records now kvs) ≡ length kvs
  length-batch_records now [] = refl
  length-batch_records now ((k, v) ∷ []) = refl
  length-batch_records now ((k, v) ∷ p ∷ kvs) = ap suc (length-batch_records now (p ∷ kvs))

  total_size-batch_records :
      (now : ℕ) (kvs : List (List ℕ × List ℕ)) → total_size (batch_records now kvs) ≡ pairs_size kvs
  total_size-batch_records now [] = refl
  total_size-batch_records now ((k, v) ∷ []) = refl
  total_size-batch_records now ((k, v) ∷ p ∷ kvs) =
      omega (arith, total_size-batch_records now (p ∷ kvs))

  pair_fits :
      (k v : List ℕ) (kvs : List (List ℕ × List ℕ))
      → pairs_error ((k, v) ∷ kvs) ≡ none
      → (0 < length k)
        × (length k ≤ max_key_size)
        × (length v ≤ max_value_size)
        × (pairs_error kvs ≡ none)
  pair_fits k v kvs h = elim (Option-cases (validate_key k)) [
    | inr (e, bad) ↦ absurd (ground arith)
    | inl good ↦ let (pos, small) = valid_key k good in ground arith
  ]

  batch_records-IsStorable :
      (now : ℕ) (kvs : List (List ℕ × List ℕ))
      → now < u64_mod
      → pairs_error kvs ≡ none
      → All IsStorable (batch_records now kvs)
  batch_records-IsStorable now [] h e = tt
  batch_records-IsStorable now ((k, v) ∷ []) h e =
      let (pos, small, short, more) = pair_fits k v [] e in (omega arith, tt)
  batch_records-IsStorable now ((k, v) ∷ p ∷ kvs) h e =
      let (pos, small, short, more) = pair_fits k v (p ∷ kvs) e in
      (omega arith, batch_records-IsStorable now (p ∷ kvs) h more)

  length-zip_pairs :
      (ks vs : List (List ℕ))
      → (length ks == length vs) ≡ true
      → length (zip_pairs ks vs) ≡ length ks
  length-zip_pairs [] vs h = refl
  length-zip_pairs (k ∷ ks) [] h = absurd (ground arith)
  length-zip_pairs (k ∷ ks) (v ∷ vs) h = ap suc (length-zip_pairs ks vs (ground arith))

  append_pairs-Refines :
      (s : Store) (kvs : List (List ℕ × List ℕ)) (o : Io)
      → IsLive s
      → HasRoom s (length kvs)
      → o.now < u64_mod
      → pairs_error kvs ≡ none
      → pairs_size kvs < u32_mod
      → Refines s (with_all (value_of s) kvs) (append_locked s (batch_records o.now kvs) o)
  append_pairs-Refines s kvs o h room now valid small =
      subst (λ f. Refines s f (append_locked s (batch_records o.now kvs) o))
        (fun_ext λ j. latest-batch_records o.now kvs (value_of s) j)
        (append_locked-Refines s (batch_records o.now kvs) o h (rw length-batch_records room)
          (batch_records-IsStorable o.now kvs now valid) (rw total_size-batch_records small))

  -- `BatchPut` behind the comparison of the lengths.
  checked :
      (s : Store) (n : ℕ) (kvs : List (List ℕ × List ℕ)) (o : Io)
      → IsLive s
      → HasRoom s (length kvs)
      → o.now < u64_mod
      → pairs_size kvs < u32_mod
      → (e : Option Error) → pairs_error kvs ≡ e
      → Refines s (with_all (value_of s) kvs) (elim e [
        | some x ↦ (s, err x)
        | none ↦
            if s.closed
            then (s, err closed_store)
            else elim (append_locked s (batch_records o.now kvs) o).1 [
              | ok _ ↦ (
                record (append_locked s (batch_records o.now kvs) o).0 {
                  n_put = ((append_locked s (batch_records o.now kvs) o).0.n_put + n) % u64_mod;
                },
                ok tt,
              )
              | err x ↦ ((append_locked s (batch_records o.now kvs) o).0, err x)
            ]
      ])
  checked s n kvs o h room now small (some x) e = Refines-err s _ x h
  checked s n kvs o h room now small none e = Refines-if s _ s.closed closed_store _ h λ open_store.
      counted_put s _ n (append_locked s (batch_records o.now kvs) o)
        (append_pairs-Refines s kvs o h room now e small)

  -- Whatever the operating system answers, `batch_put` on a live store with ids, sequence numbers
  -- and clock in range and records of less than 2 ^ 32 bytes leaves a live store; if it succeeds,
  -- the store holds the map with all pairs set, a later pair over an earlier one, and if it
  -- fails, every key keeps its value.
  pub batch_put-Refines :
      (s : Store) (keys values : List (List ℕ)) (o : Io)
      → IsLive s
      → HasRoom s (length keys)
      → o.now < u64_mod
      → pairs_size (zip_pairs keys values) < u32_mod
      → Refines s (with_all (value_of s) (zip_pairs keys values)) (batch_put s keys values o)
  unfolding batch_put
  batch_put-Refines s [] [] o h room now small = record { live = h; values = λ j. refl }
  batch_put-Refines s [] (v ∷ vs) o h room now small =
      ground (arith, Refines-err s (value_of s) batch_len h)
  batch_put-Refines s (k ∷ ks) values o h room now small =
      let kvs : List (List ℕ × List ℕ) = zip_pairs (k ∷ ks) values in
      let some_keys : (length (k ∷ ks) == 0) ≡ false = ground arith in
      rw (some_keys, batch_put)
        (Refines-if s (with_all (value_of s) kvs) (not (length (k ∷ ks) == length values)) batch_len
          _ h
          λ same.
            checked s (length (k ∷ ks)) kvs o h
              (rw (← length-zip_pairs (k ∷ ks) values (ground arith)) at room) now small
              (pairs_error kvs) refl)
