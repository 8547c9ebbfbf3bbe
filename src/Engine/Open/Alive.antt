-- ===== src/Engine/Open/Alive.antt =====
-- `recover` on data files of any bytes leaves a store that is alive.
use gokv.Prelude.{
  ℕ, ◌+◌, ◌%◌, ◌≤◌, ◌<◌, ◌≡◌, refl, true, false, Option, none, some, List, [], ◌∷◌, arith,
}
use gokv.Prelude.Bytes.{u32_mod}
use gokv.Engine.Record.{Checksum}
use gokv.Engine.Index.{recount, lookup}
use gokv.Engine.Files.{empty_file, set_file, file_of}
use gokv.Engine.Files.Laws.{file_of-set_file, file_of-set_file_self}
use gokv.Engine.Store.{Store, Options, Outcome, ok, err}
use gokv.Engine.Store.Append.{open_new_active}
use gokv.Engine.Store.Sound.Grow.{Extends-new, Points-Extends}
use gokv.Engine.Store.Sound.Refine.{IsLive}
use gokv.Engine.Open.{
  DirFile, OpenIo, Recovering, recover_file, recover_files, recovered, choose_active,
  nothing_recovered, recover,
}
use gokv.Engine.Open.Replayed.{Works}
use gokv.Engine.Open.Indexed.{IsReadable}
use gokv.Engine.Open.Admitted.{IsSane, Keeps, recover_file-Keeps}

-- File ids from `n` on, in ascending order, with one left after each.
abbrev pub AreRising : ℕ → List DirFile → Type 0
AreRising n [] = Unit {0}
AreRising n (f ∷ fs) = (n ≤ f.id) × (f.id + 2 < u32_mod) × AreRising (f.id + 1) fs

module _ ⦃c : Checksum⦄ where
  abbrev pub AllReadable : List DirFile → Type 0
  AllReadable [] = Unit {0}
  AllReadable (f ∷ fs) = IsReadable f × AllReadable fs

  abbrev SaneEnd : Outcome Recovering → Type 0
  SaneEnd (ok st) = IsSane st
  SaneEnd (err e) = ⊥

  lasting : (n : ℕ) (res : Outcome Recovering) → Keeps n res → SaneEnd res
  lasting n (ok st) h = h.0
  lasting n (err e) h = h

  AreRising-weaken : (a b : ℕ) (fs : List DirFile) → a ≤ b → AreRising b fs → AreRising a fs
  AreRising-weaken a b [] h r = tt
  AreRising-weaken a b (f ∷ fs) h r = (omega (arith, h, r.0), r.1, r.2)

  going_on :
      (io : OpenIo) (opts : Options) (n : ℕ) (fs : List DirFile) (res : Outcome Recovering)
      → ((st : Recovering) → IsSane st → st.next_id ≤ n → SaneEnd (recover_files io opts fs st))
      → Keeps n res
      → SaneEnd (elim res [ err e ↦ err e | ok st ↦ recover_files io opts fs st ])
  going_on io opts n fs (ok st) k h = k st h.0 h.1
  going_on io opts n fs (err e) k h = h

  recover_files-SaneEnd :
      (io : OpenIo) (opts : Options) (fs : List DirFile) (st : Recovering)
      → Works io
      → AllReadable fs
      → IsSane st
      → AreRising st.next_id fs
      → SaneEnd (recover_files io opts fs st)
  unfolding recover_files
  recover_files-SaneEnd io opts [] st w a h r = h
  recover_files-SaneEnd io opts (f ∷ []) st w a h r =
      lasting (f.id + 1) _ (recover_file-Keeps io opts true f st w a.0 h r.0 r.1)
  recover_files-SaneEnd io opts (f ∷ (g ∷ fs)) st w a h r =
      going_on io opts (f.id + 1) (g ∷ fs) (recover_file io opts false f st)
        (λ st' h' up.
          recover_files-SaneEnd io opts (g ∷ fs) st' w a.1 h'
            (AreRising-weaken st'.next_id (f.id + 1) (g ∷ fs) up r.2))
        (recover_file-Keeps io opts false f st w a.0 h r.0 r.1)

  -- `recover` has returned a store that is alive.
  pub record ComesAlive (res : Outcome Store) : Type 0 where
    pub store : Store
    pub found : res ≡ ok store
    pub live : IsLive store

  choose_active-ComesAlive :
      (o : Option ℕ) (opts : Options) (merge_seq : ℕ) (st : Recovering) (io : OpenIo)
      → Works io
      → IsSane st
      → st.reuse ≡ o
      → ComesAlive (choose_active o (recovered opts merge_seq st) io.fresh)
  unfolding choose_active open_new_active recount
  choose_active-ComesAlive (some id) opts merge_seq st io w h e = record {
    store = record (recovered opts merge_seq st) { active = id };
    found = refl;
    live = record {
      sound = record {
        indexing = record {
          sorted = h.sorted;
          counted = record { bytes = refl; count = refl };
          points = h.points;
        };
        stocked = record { sizes = h.sizes; fresh = h.fresh; current = h.reused id e };
      };
      newest = record { at = h.below };
    };
  }
  choose_active-ComesAlive none opts merge_seq st io w h e =
      let s = recovered opts merge_seq st in
      let n = st.next_id in
      let grown = Extends-new st.files n empty_file h.fresh in
      rw (w.create, w.sync_dir)
        (record {
          store = record s {
            files = set_file n empty_file s.files;
            active = n;
            next_id = (n + 1) % u32_mod;
          };
          found = refl;
          live = record {
            sound = record {
              indexing = record {
                sorted = h.sorted;
                counted = record { bytes = refl; count = refl };
                points = λ k x q. Points-Extends st.files _ k x grown (h.points k x q);
              };
              stocked = record {
                sizes =
                    λ i f p. ground (arith, file_of-set_file n i empty_file st.files, h.sizes i f);
                fresh = λ i f p.
                    ground (arith, file_of-set_file n i empty_file st.files, h.fresh i f, h.room);
                current = (empty_file, file_of-set_file_self n empty_file st.files);
              };
            };
            newest = record { at = h.below };
          };
        })

  finished :
      (io : OpenIo) (opts : Options) (merge_seq : ℕ) (res : Outcome Recovering)
      → Works io
      → SaneEnd res
      → ComesAlive (elim res [
        | err e ↦ err e
        | ok st ↦ choose_active st.reuse (recovered opts merge_seq st) io.fresh
      ])
  finished io opts merge_seq (ok st) w h =
      choose_active-ComesAlive st.reuse opts merge_seq st io w h refl
  finished io opts merge_seq (err e) w h = absurd h

  nothing-IsSane : IsSane nothing_recovered
  unfolding file_of lookup
  nothing-IsSane = record {
    sorted = tt;
    points = λ k e q. absurd cc;
    below = λ k e q. absurd cc;
    sizes = λ i f q. absurd cc;
    fresh = λ i f q. absurd cc;
    room = omega arith;
    reused = λ id q. absurd cc;
  }

  -- Whatever bytes the data files of a directory hold, fewer than 2 ^ 64 in each: where their ids
  -- ascend and leave ids for a new file, a file has a hint only if `build_hint` has made one of
  -- it, whatever failed there, and every call of `recover` succeeds, `recover` succeeds with a
  -- live store: every entry of its index locates a storable record of its key on disk, its
  -- counters are right, and no entry is newer than its sequence number.
  pub recover-ComesAlive :
      (io : OpenIo) (opts : Options) (merge_seq : ℕ) (fs : List DirFile)
      → Works io
      → AllReadable fs
      → AreRising 0 fs
      → ComesAlive (recover io opts merge_seq fs)
  unfolding recover
  recover-ComesAlive io opts merge_seq fs w a r =
      finished io opts merge_seq _ w
        (recover_files-SaneEnd io opts fs nothing_recovered w a nothing-IsSane r)
