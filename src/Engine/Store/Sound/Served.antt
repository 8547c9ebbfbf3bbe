-- ===== src/Engine/Store/Sound/Served.antt =====
-- When the operating system does its part, writes succeed and reads return what was written.
use gokv.Prelude.{
  ℕ, ◌+◌, ◌%◌, ◌≤◌, ◌<◌, ◌≡◌, refl, true, false, none, some, List, [], ◌∷◌, arith, if◌then◌else◌,
  length, Option-cases, inl, inr, le→ltb,
}
use gokv.Prelude.Bytes.{u64_mod}
use gokv.Prelude.Keys.{key_eq}
use gokv.Engine.Record.{Checksum, Record, flag_tombstone, max_value_size}
use gokv.Engine.Index.{Entry, lookup}
use gokv.Engine.Store.{
  Store, Io, whole, SyncMode, always, interval, never, ok, err, key_not_found, validate_key,
}
use gokv.Engine.Store.Append.{
  append_locked, number_from, write_locked, maybe_rotate, open_new_active, append_to_active,
  append_written, sync_and_publish, encode_all,
}
use gokv.Engine.Store.Methods.{put, delete}
use gokv.Engine.Store.Reads.{get}
use gokv.Engine.Store.Sound.Defs.{value_of, value_in, get-value_of}
use gokv.Engine.Store.Sound.Refine.{
  IsLive, Refines, HasRoom, put-Refines, delete-Refines, with_value,
}

-- Every call succeeds.
abbrev pub well : ℕ → Io
well now = record {
  now = now;
  sync_old = true;
  create = true;
  sync_dir = true;
  write = whole;
  sync = true;
}

module _ ⦃c : Checksum⦄ where
  pub synced_ok :
      (m : SyncMode) (s : Store) (base : ℕ) (rs : List Record) (buf : List ℕ)
      → (sync_and_publish m true s base rs buf).1 ≡ ok tt
  unfolding sync_and_publish
  synced_ok always s base rs buf = refl
  synced_ok interval s base rs buf = refl
  synced_ok never s base rs buf = refl

  pub rotate_ok : (s : Store) (n now : ℕ) → (maybe_rotate s n (well now)).1 ≡ true
  unfolding maybe_rotate open_new_active
  rotate_ok s n now = ground arith

  append_locked_ok :
      (s : Store) (rs : List Record) (now : ℕ) → (append_locked s rs (well now)).1 ≡ ok tt
  unfolding append_locked write_locked append_to_active append_written
  append_locked_ok s rs now =
      let t : Store = record s { seq = (s.seq + length rs) % u64_mod } in
      rw (rotate_ok t (length (encode_all [] (number_from s.seq rs))) now) (synced_ok _ _ _ _ _)

  put_ok :
      (s : Store) (key value : List ℕ) (now : ℕ)
      → validate_key key ≡ none
      → length value ≤ max_value_size
      → s.closed ≡ false
      → (put s key value (well now)).1 ≡ ok tt
  unfolding put
  put_ok s key value now valid short opened =
      let r : Record = record { ts = now; seq = 0; flags = 0; key = key; value = value } in
      rw (valid, put, le→ltb _ _ short, append_locked_ok s (r ∷ []) now, opened)

  delete_ok :
      (s : Store) (key : List ℕ) (now : ℕ) (e : Entry)
      → validate_key key ≡ none
      → lookup key s.keydir.index ≡ some e
      → e.tomb ≡ false
      → s.closed ≡ false
      → (delete s key (well now)).1 ≡ ok tt
  unfolding delete
  delete_ok s key now e valid found held opened =
      let r : Record = record {
        ts = now;
        seq = 0;
        flags = flag_tombstone;
        key = key;
        value = [];
      } in
      rw (valid, delete, found, held, append_locked_ok s (r ∷ []) now, opened)

  -- On a live, open store with a file id and a sequence number left, where every call of the
  -- operating system succeeds and the clock fits into 64 bits, `put` of a valid key with a value
  -- that is not too long succeeds; `get` then returns the value for that key and its former
  -- answer for every other valid key.
  pub get-put :
      (s : Store) (key value j : List ℕ) (now : ℕ)
      → IsLive s
      → HasRoom s 1
      → now < u64_mod
      → validate_key key ≡ none
      → length value ≤ max_value_size
      → s.closed ≡ false
      → validate_key j ≡ none
      → ((put s key value (well now)).1 ≡ ok tt)
        × ((get (put s key value (well now)).0 j).1
            ≡ (if key_eq key j then ok value else (get s j).1))
  get-put s key value j now h room fits valid short opened valid_j =
      let r : Refines s (with_value (value_of s) key (some value)) (put s key value (well now)) =
        put-Refines s key value (well now) h room fits in
      let done : (put s key value (well now)).1 ≡ ok tt =
        put_ok s key value now valid short opened in
      (
        done,
        ground (
          arith,
          r.values j,
          get-value_of _ j r.live.sound valid_j,
          get-value_of s j h.sound valid_j,
        ),
      )

  held_entry :
      (s : Store) (key v : List ℕ)
      → value_of s key ≡ some v
      → (e : Entry) × (lookup key s.keydir.index ≡ some e) × (e.tomb ≡ false)
  unfolding value_in
  held_entry s key v h = elim (Option-cases (lookup key s.keydir.index)) [
    | inl q ↦ absurd (ground arith)
    | inr (e, q) ↦ (e, q, ground arith)
  ]

  -- On a live, open store with a file id and a sequence number left, where every call of the
  -- operating system succeeds and the clock fits into 64 bits, `delete` of a valid key that has a
  -- value succeeds; `get` then answers key_not_found for that key and its former answer for every
  -- other valid key.
  pub get-delete :
      (s : Store) (key v j : List ℕ) (now : ℕ)
      → IsLive s
      → HasRoom s 1
      → now < u64_mod
      → validate_key key ≡ none
      → value_of s key ≡ some v
      → s.closed ≡ false
      → validate_key j ≡ none
      → ((delete s key (well now)).1 ≡ ok tt)
        × ((get (delete s key (well now)).0 j).1
            ≡ (if key_eq key j then err key_not_found else (get s j).1))
  get-delete s key v j now h room fits valid held opened valid_j =
      let r : Refines s (with_value (value_of s) key none) (delete s key (well now)) =
        delete-Refines s key (well now) h room fits in
      let (e, found, plain) = held_entry s key v held in
      let done : (delete s key (well now)).1 ≡ ok tt =
        delete_ok s key now e valid found plain opened in
      (
        done,
        ground (
          arith,
          r.values j,
          get-value_of _ j r.live.sound valid_j,
          get-value_of s j h.sound valid_j,
        ),
      )
