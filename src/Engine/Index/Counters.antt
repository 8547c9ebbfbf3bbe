-- ===== src/Engine/Index/Counters.antt =====
-- The counters that `indexApplyLocked` keeps are those that `recountLocked` would count.
use gokv.Prelude.{
  ℕ, ◌<◌, ◌≡◌, refl, Bool, none, some, List, [], ◌∷◌, arith, if◌then◌else◌, Option-cases, inl, inr,
}
use gokv.Prelude.Bytes.{u64_mod}
use gokv.Prelude.Keys.{key_lt→ne, key_lt_total}
use gokv.Engine.Index.{
  Entry, Index, Keydir, lookup, insert, add64, sub64, live_sum, index_apply, IsAscending,
}
use gokv.Engine.Index.Laws.{lookup_above, AllAbove-trans}

-- The counters agree with a recount.
pub record IsCounted (d : Keydir) : Type 0 where
  pub bytes : d.live ≡ live_sum (λ e. e.size) d.index
  pub count : d.n_live ≡ live_sum (λ _. 1) d.index

abbrev less : (Entry → ℕ) → ℕ → Entry → ℕ
less w n e = if e.tomb then n else sub64 n (w e)

abbrev more : (Entry → ℕ) → ℕ → Entry → ℕ
more w n e = if e.tomb then n else add64 n (w e)

module _ (w : Entry → ℕ) where
  live_sum-lt : (m : Index) → live_sum w m < u64_mod
  unfolding live_sum
  live_sum-lt [] = omega arith
  live_sum-lt ((k, e) ∷ m) = ground (arith, live_sum-lt m)

  live_sum-insert_new :
      (k : List ℕ) (e : Entry) (m : Index)
      → lookup k m ≡ none
      → live_sum w (insert k e m) ≡ more w (live_sum w m) e
  unfolding live_sum insert lookup
  live_sum-insert_new k e [] h = refl
  live_sum-insert_new k e ((j, d) ∷ m) h = ground (arith, live_sum-insert_new k e m)

  live_sum-insert_old :
      (k : List ℕ) (e old : Entry) (m : Index)
      → IsAscending m
      → lookup k m ≡ some old
      → live_sum w (insert k e m) ≡ more w (less w (live_sum w m) old) e
  unfolding live_sum insert lookup
  live_sum-insert_old k e old [] a h = cc
  live_sum-insert_old k e old ((j, d) ∷ m) a h = ground (
    arith,
    live_sum-insert_old k e old m a.1,
    live_sum-lt m,
    key_lt→ne j k,
    key_lt_total j k,
    lookup_above k m,
    AllAbove-trans k j m,
  )

-- If the keys of an index ascend and its counters are those of a recount, then so are the
-- counters after `index_apply`, whatever the index held for the key.
pub index_apply-IsCounted :
    (d : Keydir) (key : List ℕ) (e : Entry) (tomb : Bool)
    → IsAscending d.index
    → IsCounted d
    → IsCounted (index_apply d key e tomb)
unfolding index_apply
index_apply-IsCounted d key e tomb a h = elim (Option-cases (lookup key d.index)) [
  | inl new ↦
      let e' : Entry = record e { tomb = tomb } in
      ground (
        arith,
        live_sum-insert_new (λ x. x.size) key e' d.index,
        live_sum-insert_new (λ _. 1) key e' d.index,
      )
  | inr (old, found) ↦
      let e' : Entry = record e { tomb = tomb } in
      ground (
        arith,
        live_sum-insert_old (λ x. x.size) key e' old d.index a,
        live_sum-insert_old (λ _. 1) key e' old d.index a,
      )
]
