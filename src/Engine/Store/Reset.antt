-- ===== src/Engine/Store/Reset.antt =====
-- `Reset`: the full resync of a replica.
use gokv.Prelude.{
  ℕ, ◌+◌, ◌%◌, ◌<◌, ◌≡◌, refl, true, false, none, some, List, [], ◌∷◌, arith, if◌then◌else◌,
}
use gokv.Prelude.Bytes.{u32_mod}
use gokv.Engine.Record.{Checksum}
use gokv.Engine.Index.{Keydir, lookup, live_sum}
use gokv.Engine.Files.{DataFile, Files, empty_file, file_of, set_file}
use gokv.Engine.Store.{Store, Io, Outcome, ok, err, closed_store, os_error}
use gokv.Engine.Store.Append.{open_new_active}
use gokv.Engine.Store.Sound.Defs.{IsStocked, IsIndexing, IsBelow, value_of, value_in}
use gokv.Engine.Store.Sound.Refine.{IsLive}

abbrev pub no_keys : Keydir
no_keys = record { index = []; live = 0; n_live = 0 }

-- The data files and hints are removed, and their errors ignored, as that of writeManifest.
unfoldable pub reset : Store → Io → Store × Outcome (Unit {0})
reset s io =
    let bare : Store = record s {
      keydir = no_keys;
      files = [];
      total = 0;
      seq = 0;
      merge_seq = 0;
    } in
    let (s', opened) = open_new_active bare io in
    if s.closed
    then (s, err closed_store)
    else if opened
    then (record s' { dirty = false }, ok tt)
    else (s', err os_error)

only_file :
    (n i : ℕ) (f : DataFile)
    → file_of i ((n, empty_file) ∷ []) ≡ some f
    → (i ≡ n) × (f ≡ empty_file)
unfolding file_of
only_file n i f e = ground arith

pub one_file-IsStocked :
    (n : ℕ) → n + 1 < u32_mod → IsStocked ((n, empty_file) ∷ []) n ((n + 1) % u32_mod)
one_file-IsStocked n room = record {
  sizes = λ i f e. let (_, same) = only_file n i f e in rw same (omega arith);
  fresh = λ i f e. let (same, _) = only_file n i f e in omega arith;
  current = (empty_file, unfold file_of in ground arith);
}

reset_open :
    (s : Store) (io : Io)
    → (reset s io).1 ≡ ok tt
    → (s.closed ≡ false) × (io.create ≡ true) × (io.sync_dir ≡ true)
unfolding reset open_new_active
reset_open s io h = ground arith

module _ ⦃c : Checksum⦄ where
  pub no_keys-IsIndexing : (files : Files) → IsIndexing files no_keys
  unfolding lookup live_sum
  no_keys-IsIndexing files = record {
    sorted = tt;
    counted = record { bytes = refl; count = refl };
    points = λ k e q. absurd cc;
  }

  pub no_keys-IsBelow : IsBelow 0 no_keys.index
  unfolding lookup
  no_keys-IsBelow = record { at = λ k e q. absurd cc }

  -- If `reset` succeeds on any store with a file id left, the store is live, holds no key, and is
  -- at sequence number 0.
  pub reset-IsLive :
      (s : Store) (io : Io)
      → s.next_id + 1 < u32_mod
      → (reset s io).1 ≡ ok tt
      → IsLive (reset s io).0
        × ((j : List ℕ) → value_of (reset s io).0 j ≡ none)
        × ((reset s io).0.seq ≡ 0)
  unfolding reset open_new_active set_file value_in lookup
  reset-IsLive s io room h =
      let (opened, made, synced) = reset_open s io h in
      rw (opened, made, synced, reset)
        (
          record {
            sound = record {
              indexing = no_keys-IsIndexing _;
              stocked = one_file-IsStocked s.next_id room;
            };
            newest = no_keys-IsBelow;
          },
          (λ j. refl),
          refl,
        )
