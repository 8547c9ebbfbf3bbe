-- ===== src/Engine/Hint/Layout.antt =====
-- `readHint` after `buildHint`.
use gokv.Prelude.{
  ℕ, suc, ◌+◌, ◌*◌, ◌≤◌, ◌<◌, ◌≡◌, refl, true, false, List, [], ◌∷◌, ◌++◌, arith, length, drop,
  take, slice, drop-drop, length-append, take-append, drop-append,
}
use gokv.Prelude.Bytes.{u32_mod, u64_mod, un_le, un_le-le, le}
use gokv.Engine.Record.RoundTrip.{un_le_one}
use gokv.Engine.Index.{Entry}
use gokv.Engine.Hint.{hint_header_size, hint_record, HintIo, read_hints}

-- Every call succeeds.
abbrev pub all_written : HintIo
all_written = record {
  create = true;
  magic = true;
  add = λ _. true;
  flush = true;
  sync = true;
  close = true;
  rename = true;
}

pub length-hint_record :
    (key : List ℕ) (e : Entry) (flags : ℕ) → length (hint_record key e flags) ≡ 25 + length key
unfolding le
length-hint_record key e flags = omega arith

module _ (key : List ℕ) (e : Entry) (flags : ℕ) (rest : List ℕ) where
  seq_at : slice 0 8 (hint_record key e flags ++ rest) ≡ le 8 e.seq
  unfolding le
  seq_at = refl

  flags_at : slice 8 9 (hint_record key e flags ++ rest) ≡ flags ∷ []
  unfolding le
  flags_at = refl

  pos_at : slice 9 17 (hint_record key e flags ++ rest) ≡ le 8 e.pos
  unfolding le
  pos_at = refl

  size_at : slice 17 21 (hint_record key e flags ++ rest) ≡ le 4 e.size
  unfolding le
  size_at = refl

  key_len_at : slice 21 25 (hint_record key e flags ++ rest) ≡ le 4 (length key)
  unfolding le
  key_len_at = refl

  key_at : drop hint_header_size (hint_record key e flags ++ rest) ≡ key ++ rest
  unfolding le
  key_at = refl

-- What a hint file can hold: the fields fit their widths, and the key has a length that is let through.
pub record Fits (key : List ℕ) (e : Entry) (flags : ℕ) : Type 0 where
  pub key_pos : 0 < length key
  pub key_fits : length key ≤ 64 * 1024
  pub seq_fits : e.seq < u64_mod
  pub pos_fits : e.pos < u64_mod
  pub size_fits : e.size < u32_mod

-- The entry as `readHint` hands it on.
abbrev pub hinted_entry : ℕ → Entry → Entry
hinted_entry id e = record e { file_id = id; tomb = false }

module _ {ℓ} {S : Type ℓ} (fn : List ℕ → Entry → ℕ → S → S) where
  pub read_hints-nil : (f id : ℕ) (acc : S) → read_hints fn (suc f) id [] acc ≡ (acc, false)
  unfolding read_hints
  read_hints-nil f id acc = refl

  -- One round, by the fields of what is left of the file.
  read_hints-fields :
      (f id : ℕ) (key : List ℕ) (e : Entry) (flags : ℕ) (rest buf : List ℕ) (acc : S)
      → Fits key e flags
      → un_le (slice 0 8 buf) ≡ e.seq
      → un_le (slice 8 9 buf) ≡ flags
      → un_le (slice 9 17 buf) ≡ e.pos
      → un_le (slice 17 21 buf) ≡ e.size
      → un_le (slice 21 25 buf) ≡ length key
      → take (length key) (drop hint_header_size buf) ≡ key
      → drop (hint_header_size + length key) buf ≡ rest
      → length buf ≡ hint_header_size + length key + length rest
      → read_hints fn (suc f) id buf acc
        ≡ read_hints fn f id rest (fn key (hinted_entry id e) flags acc)
  unfolding read_hints
  read_hints-fields f id key e flags rest buf acc h seq flag pos size key_len key_is rest_is total =
      rw (seq, flag, pos, size, key_len, key_is, rest_is, read_hints)
        (ground (arith, h.key_pos, h.key_fits, total))

  pub read_hints-record :
      (f id : ℕ) (key : List ℕ) (e : Entry) (flags : ℕ) (rest : List ℕ) (acc : S)
      → Fits key e flags
      → read_hints fn (suc f) id (hint_record key e flags ++ rest) acc
        ≡ read_hints fn f id rest (fn key (hinted_entry id e) flags acc)
  read_hints-record f id key e flags rest acc h =
      read_hints-fields f id key e flags rest (hint_record key e flags ++ rest) acc h
        (rw (seq_at key e flags rest) (un_le-le 8 e.seq (omega (arith, h.seq_fits))))
        (rw (flags_at key e flags rest) (un_le_one flags))
        (rw (pos_at key e flags rest) (un_le-le 8 e.pos (omega (arith, h.pos_fits))))
        (rw (size_at key e flags rest) (un_le-le 4 e.size (omega (arith, h.size_fits))))
        (rw (key_len_at key e flags rest) (un_le-le 4 (length key) (omega (arith, h.key_fits))))
        (rw (key_at key e flags rest) (take-append (length key) key rest refl))
        (rw (drop-drop hint_header_size (length key), key_at key e flags rest)
          (drop-append (length key) key rest refl))
        (omega
          (arith, length-append (hint_record key e flags) rest, length-hint_record key e flags))
