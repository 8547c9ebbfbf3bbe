-- ===== src/Engine/Store/Sound/Number.antt =====
-- The records that `appendLocked` has numbered.
use gokv.Prelude.{
  ℕ, ◌+◌, ◌%◌, ◌≤◌, ◌<◌, ◌≡◌, refl, ◌∙◌, Option, List, [], ◌∷◌, arith, length, All, length-append,
}
use gokv.Prelude.Bytes.{u64_mod}
use gokv.Engine.Record.{Checksum, Record, IsStorable, header_size}
use gokv.Engine.Record.Layout.{length-encode}
use gokv.Engine.Record.Scan.{encodes}
use gokv.Engine.Store.Append.{number_from}
use gokv.Engine.Store.Sound.Publish.{Ascends, latest}

-- The bytes that records take.
abbrev pub total_size : List Record → ℕ
total_size [] = 0
total_size (r ∷ rs) = header_size + length r.key + length r.value + total_size rs

pub numbered-IsStorable :
    (n : ℕ) (r : Record) → IsStorable r → n < u64_mod → IsStorable (record r { seq = n })
numbered-IsStorable n r h lt = record {
  ts_fits = h.ts_fits;
  seq_fits = lt;
  flags_fits = h.flags_fits;
  key_pos = h.key_pos;
  key_fits = h.key_fits;
  value_fits = h.value_fits;
}

module _ ⦃c : Checksum⦄ where
  pub length-encodes : (rs : List Record) → length (encodes rs) ≡ total_size rs
  unfolding encodes
  length-encodes [] = refl
  length-encodes (r ∷ rs) =
      length-append _ (encodes rs) ∙ omega (arith, length-encode r, length-encodes rs)

  pub total_size-number_from :
      (n : ℕ) (rs : List Record) → total_size (number_from n rs) ≡ total_size rs
  unfolding number_from
  total_size-number_from n [] = refl
  total_size-number_from n (r ∷ rs) = omega (arith, total_size-number_from ((n + 1) % u64_mod) rs)

  pub latest-number_from :
      (j : List ℕ) (n : ℕ) (rs : List Record) (o : Option (List ℕ))
      → latest j (number_from n rs) o ≡ latest j rs o
  unfolding number_from
  latest-number_from j n [] o = refl
  latest-number_from j n (r ∷ rs) o = latest-number_from j ((n + 1) % u64_mod) rs _

  -- Below 2^64 the numbers go up by one.
  pub number_from-Ascends :
      (n : ℕ) (rs : List Record) → n + length rs < u64_mod → Ascends n (number_from n rs)
  unfolding number_from
  number_from-Ascends n [] h = tt
  number_from-Ascends n (r ∷ rs) h =
      (omega arith, number_from-Ascends ((n + 1) % u64_mod) rs (omega arith))

  pub number_from-le :
      (n k : ℕ) (rs : List Record)
      → n + length rs < u64_mod
      → n + length rs ≤ k
      → All (λ r. r.seq ≤ k) (number_from n rs)
  unfolding number_from
  number_from-le n k [] h l = tt
  number_from-le n k (r ∷ rs) h l =
      (omega arith, number_from-le ((n + 1) % u64_mod) k rs (omega arith) (omega arith))

  pub number_from-IsStorable :
      (n : ℕ) (rs : List Record)
      → n + length rs < u64_mod
      → All IsStorable rs
      → All IsStorable (number_from n rs)
  unfolding number_from
  number_from-IsStorable n [] h a = tt
  number_from-IsStorable n (r ∷ rs) h a =
      let e : (n + 1) % u64_mod ≡ n + 1 = omega arith in
      (
        numbered-IsStorable _ r a.0 (omega arith),
        number_from-IsStorable ((n + 1) % u64_mod) rs (omega arith) a.1,
      )
