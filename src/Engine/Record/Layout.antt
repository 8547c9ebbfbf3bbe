-- ===== src/Engine/Record/Layout.antt =====
-- Where the fields of an encoded record stand (the layout in the comment of record.go).
use gokv.Prelude.{ℕ, ◌+◌, ◌≡◌, refl, List, [], ◌∷◌, ◌++◌, arith, length, drop, slice, length-append}
use gokv.Prelude.Bytes.{le}
use gokv.Engine.Record.{Checksum, Record, header_size, body, encode}

module _ ⦃c : Checksum⦄ (r : Record) where
  pub length-body : length (body r) ≡ 25 + length r.key + length r.value
  unfolding le
  length-body = omega (arith, length-append r.key r.value)

  pub length-encode : length (encode r) ≡ header_size + length r.key + length r.value
  unfolding le
  length-encode = omega (arith, length-append r.key r.value)

  module _ (rest : List ℕ) where
    pub sum_field : slice 0 4 (encode r ++ rest) ≡ le 4 (c.sum (body r))
    unfolding le
    sum_field = refl

    pub ts_field : slice 4 12 (encode r ++ rest) ≡ le 8 r.ts
    unfolding le
    ts_field = refl

    pub seq_field : slice 12 20 (encode r ++ rest) ≡ le 8 r.seq
    unfolding le
    seq_field = refl

    pub flags_field : slice 20 21 (encode r ++ rest) ≡ r.flags ∷ []
    unfolding le
    flags_field = refl

    pub key_len_field : slice 21 25 (encode r ++ rest) ≡ le 4 (length r.key)
    unfolding le
    key_len_field = refl

    pub value_len_field : slice 25 29 (encode r ++ rest) ≡ le 4 (length r.value)
    unfolding le
    value_len_field = refl

    pub payload_field : drop 29 (encode r ++ rest) ≡ (r.key ++ r.value) ++ rest
    unfolding le
    payload_field = refl
