-- ===== src/Engine/Snapshot/Complete.antt =====
-- The frames of a snapshot of a store that does not change.
use gokv.Prelude.{
  ℕ, ◌≤◌, ◌<◌, ◌≡◌, ◌∙◌, refl, sym, ap, Bool, true, false, not, Option, none, some, List, [], ◌∷◌,
  ◌++◌, append_assoc, append-nil, arith, if◌then◌else◌, length,
}
use gokv.Prelude.Keys.{key_lt}
use gokv.Engine.Record.{Checksum, Record, encode, IsStorable, is_tombstone, has_flag, flag_batch}
use gokv.Engine.Record.RoundTrip.{decode-encode}
use gokv.Engine.Record.Flags.{unbatched, unbatched-IsStorable, clear_batch_flags-encode}
use gokv.Engine.Index.{Entry, Index, lookup, keep}
use gokv.Engine.Index.Each.{EachEntry, Every-EachEntry}
use gokv.Engine.Index.Walk.{visit_all}
use gokv.Engine.Index.Walk.Ahead.{wanted}
use gokv.Engine.Index.Walk.Still.{walk_still}
use gokv.Engine.Files.{Files}
use gokv.Engine.Store.{Store, ok, Error}
use gokv.Engine.Store.Sound.Defs.{Points, IsSound, value_of, value_in-Points, read_at-bytes}
use gokv.Engine.Store.Scan.Listed.{listing, count_le}
use gokv.Engine.Snapshot.{Sights, read_raw, raw_record, send_ref, snapshot_records}

-- A store that does not change.
abbrev pub steady : Store → Sights
steady s = record { looked = λ _. s; opened = λ _ _. s; found = λ _ _. s }

-- A callback that collects the frames, each in its payload.
abbrev pub push_frame : (List ℕ → List ℕ) → List ℕ → List (List ℕ) → List (List ℕ) × Option Error
push_frame wrap raw raws = (raws ++ (wrap raw ∷ []), none)

abbrev pub wrapped : (List ℕ → List ℕ) → List (List ℕ) → List (List ℕ)
wrapped wrap [] = []
wrapped wrap (raw ∷ raws) = wrap raw ∷ wrapped wrap raws

module _ ⦃c : Checksum⦄ where
  -- A frame for each of the pairs: the encoding of a storable record of that key and value that is no
  -- tombstone and in no batch.
  abbrev pub AreFrames : List (List ℕ) → List (List ℕ × List ℕ) → Type 0
  AreFrames [] ps = ps ≡ []
  AreFrames (raw ∷ raws) ps =
      (r : Record) × (qs : List (List ℕ × List ℕ)) × (ps ≡ (r.key, r.value) ∷ qs)
      × (raw ≡ encode r)
      × IsStorable r
      × (is_tombstone r ≡ false)
      × (has_flag r.flags flag_batch ≡ false)
      × AreFrames raws qs

  read_raw-Points :
      (files : Files) (k : List ℕ) (e : Entry) (p : Points files k e)
      → p.file.size ≤ length p.file.contents
      → read_raw files e ≡ some (encode (unbatched p.rec))
  unfolding read_raw
  read_raw-Points files k e p h =
      rw
        (
          p.found,
          read_raw,
          read_at-bytes p.file e.pos e.size (encode p.rec) (omega (arith, p.inside)) p.bytes,
          decode-encode p.rec p.storable,
        )
        (ap some (clear_batch_flags-encode p.rec p.storable).0)

  raw_record_found :
      (opened found : ℕ → Store) (k : List ℕ) (e : Entry) (buf : List ℕ)
      → read_raw (opened 0).files e ≡ some buf
      → raw_record 3 0 opened found k e ≡ ok buf
  unfolding raw_record
  raw_record_found opened found k e buf h = rw (h, raw_record) refl

  send_ref_found :
      (wrap : List ℕ → List ℕ) (s : Store) (k : List ℕ) (e : Entry) (buf : List ℕ)
      (acc : List (List ℕ))
      → read_raw s.files e ≡ some buf
      → send_ref (push_frame wrap) (steady s) k e (acc, ok tt)
        ≡ ((acc ++ (wrap buf ∷ []), ok tt), false)
  unfolding send_ref
  send_ref_found wrap s k e buf acc h =
      rw (raw_record_found (λ _. s) (λ _. s) k e buf h, send_ref) refl

module _ ⦃c : Checksum⦄ (wrap : List ℕ → List ℕ) (s : Store) (h : IsSound s) where
  abbrev OnDisk : List ℕ → Entry → Type 0
  OnDisk k e = Points s.files k e × (lookup k s.keydir.index ≡ some e)

  value_at :
      (k : List ℕ) (e : Entry) (p : Points s.files k e)
      → lookup k s.keydir.index ≡ some e
      → value_of s k ≡ (if e.tomb then none else some p.rec.value)
  value_at k e p l =
      value_in-Points s.files s.keydir.index k e p (h.stocked.sizes e.file_id p.file p.found) l

  -- The frames for a part of the index, whatever has been sent before.
  record Sent (m : Index) (ps : List (List ℕ × List ℕ)) : Type 0 where
    raws : List (List ℕ)
    frames : AreFrames raws ps
    visited :
        (acc : List (List ℕ))
        → visit_all (send_ref (push_frame wrap) (steady s)) m (acc, ok tt)
          ≡ ((acc ++ wrapped wrap raws, ok tt), false)

  sent_one :
      (k : List ℕ) (e : Entry) (tomb : Bool) (value : Option (List ℕ)) (p : Points s.files k e)
      → is_tombstone p.rec ≡ tomb
      → value ≡ (if tomb then none else some p.rec.value)
      → (m : Index) (ps : List (List ℕ × List ℕ)) → Sent m ps
      → Sent (if not tomb then (k, e) ∷ m else m) (elim value [ some v ↦ (k, v) ∷ ps | none ↦ ps ])
  unfolding visit_all
  sent_one k e true value p t v m ps r = rw v r
  sent_one k e false value p t v m ps r =
      let flags = clear_batch_flags-encode p.rec p.storable in
      let raw : List ℕ = encode (unbatched p.rec) in
      rw v (record {
        raws = raw ∷ r.raws;
        frames = (
          unbatched p.rec,
          ps,
          ap (λ z. (z, p.rec.value) ∷ ps) (sym p.key),
          refl,
          unbatched-IsStorable p.storable,
          flags.1 ∙ t,
          flags.2,
          r.frames,
        );
        visited = λ acc.
            rw
              (send_ref_found wrap s k e raw acc
                (read_raw-Points s.files k e p (h.stocked.sizes e.file_id p.file p.found)))
              (r.visited (acc ++ (wrap raw ∷ []))
                ∙ ap (λ z. ((z, ok tt), false))
                    (append_assoc acc (wrap raw ∷ []) (wrapped wrap r.raws)));
      })

  sent :
      (m : Index)
      → EachEntry OnDisk m
      → Sent (keep (wanted [] [] false) m) (listing (value_of s) [] [] m)
  unfolding keep listing key_lt visit_all
  sent [] a = record {
    raws = [];
    frames = refl;
    visited = λ acc. ap (λ z. ((z, ok tt), false)) (sym (append-nil acc));
  }
  sent ((k, e) ∷ m) ((p, l), a) =
      sent_one k e e.tomb (value_of s k) p p.tomb (value_at k e p l) _ _ (sent m a)

module _ ⦃c : Checksum⦄ where
  -- With more fuel than there are keys, a snapshot of a sound store that does not change ends without
  -- an error, and its frames are, in the order of the keys, one for each key that has a value.
  pub snapshot_records-frames :
      (wrap : List ℕ → List ℕ) (fuel : ℕ) (s : Store) (acc : List (List ℕ))
      → IsSound s
      → length s.keydir.index < fuel
      → (raws : List (List ℕ)) × (snapshot_records (push_frame wrap) fuel (steady s) acc
          ≡ some (acc ++ wrapped wrap raws, ok tt))
        × AreFrames raws (listing (value_of s) [] [] s.keydir.index)
  unfolding snapshot_records
  snapshot_records-frames wrap fuel s acc h f =
      let each : EachEntry (OnDisk wrap s h) s.keydir.index =
        Every-EachEntry (OnDisk wrap s h) s.keydir.index h.indexing.sorted
          (λ k e l. (h.indexing.points k e l, l)) in
      let r : Sent wrap s h (keep (wanted [] [] false) s.keydir.index)
          (listing (value_of s) [] [] s.keydir.index) =
        sent wrap s h s.keydir.index each in
      (
        r.raws,
        walk_still (send_ref (push_frame wrap) (steady s)) fuel 0 s.keydir.index [] [] false
              (acc, ok tt) h.indexing.sorted (omega (arith, f, count_le [] false s.keydir.index))
            ∙ rw (r.visited acc) refl,
        r.frames,
      )
