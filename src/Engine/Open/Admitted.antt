-- ===== src/Engine/Open/Admitted.antt =====
-- One file of any bytes in the loop of `recover`.
use gokv.Prelude.{
  ℕ, ◌+◌, ◌%◌, ◌≤◌, ◌<◌, ◌≡◌, refl, sym, ◌∙◌, Bool, true, false, Option, none, some, List, ◌&&◌,
  arith, length, length-take, take, slice, slice-take, if◌then◌else◌, leb, ltb, Bool-cases, inl,
  inr, ◌⊎◌,
}
use gokv.Prelude.Bytes.{u32_mod}
use gokv.Engine.Record.{Checksum}
use gokv.Engine.Index.{Entry, Index, lookup, IsAscending}
use gokv.Engine.Files.{DataFile, Files, file_of, set_file}
use gokv.Engine.Files.Laws.{file_of-set_file, file_of-set_file_self}
use gokv.Engine.Store.{Options, Outcome, ok, err}
use gokv.Engine.Store.Sound.Defs.{Points}
use gokv.Engine.Store.Sound.Grow.{Extends, Extends-new, Points-Extends}
use gokv.Engine.Open.{DirFile, OpenIo, Recovering, admit_file, recover_file}
use gokv.Engine.Open.Indexed.{IsReadable, Indexes, index_file-Indexes}
use gokv.Engine.Open.Located.{Places, Located}
use gokv.Engine.Open.Replayed.{Works}

either_of : (a : Bool) (x y : Option ℕ) → ((if a then x else y) ≡ x) ⊎ ((if a then x else y) ≡ y)
either_of true x y = inl refl
either_of false x y = inr refl

module _ ⦃c : Checksum⦄ where
  -- The variables of the loop: the index locates records in the files, and no later id is taken.
  pub record IsSane (st : Recovering) : Type 0 where
    pub sorted : IsAscending st.index
    pub points : (k : List ℕ) (e : Entry) → lookup k st.index ≡ some e → Points st.files k e
    pub below : (k : List ℕ) (e : Entry) → lookup k st.index ≡ some e → e.seq ≤ st.max_seq
    pub sizes : (i : ℕ) (f : DataFile) → file_of i st.files ≡ some f → f.size ≤ length f.contents
    pub fresh : (i : ℕ) (f : DataFile) → file_of i st.files ≡ some f → i < st.next_id
    pub room : st.next_id + 1 < u32_mod
    pub reused : (id : ℕ) → st.reuse ≡ some id → (f : DataFile) × (file_of id st.files ≡ some f)

  Points-in :
      (files : Files) (id limit : ℕ) (b d : List ℕ) (k : List ℕ) (e : Entry)
      → Extends files (set_file id (record { contents = d; size = length d }) files)
      → limit ≤ length d
      → ((a z : ℕ) → a ≤ z → z ≤ limit → slice a z d ≡ slice a z b)
      → Points files k e ⊎ Located id b limit k e
      → Points (set_file id (record { contents = d; size = length d }) files) k e
  Points-in files id limit b d k e x fits same (inl old) = Points-Extends files _ k e x old
  Points-in files id limit b d k e x fits same (inr new) = record {
    file = record { contents = d; size = length d };
    rec = new.rec;
    found = rw new.here (file_of-set_file_self id _ files);
    inside = omega (arith, fits, new.inside);
    bytes = same e.pos (e.pos + e.size) (omega arith) new.inside ∙ new.bytes;
    storable = new.storable;
    key = new.key;
    seq = new.seq;
    tomb = new.tomb;
  }

  -- One file more, with what is left of it.
  admitted :
      (st : Recovering) (id limit seen total : ℕ) (b d : List ℕ) (m : Index) (reuse : Option ℕ)
      → IsSane st
      → st.next_id ≤ id
      → id + 2 < u32_mod
      → Places st.files id b limit seen m
      → limit ≤ length d
      → ((a z : ℕ) → a ≤ z → z ≤ limit → slice a z d ≡ slice a z b)
      → (reuse ≡ some id) ⊎ (reuse ≡ st.reuse)
      → IsSane (record {
        index = m;
        max_seq = seen;
        files = set_file id (record { contents = d; size = length d }) st.files;
        total = total;
        next_id = (id + 1) % u32_mod;
        reuse = reuse;
      })
  admitted st id limit seen total b d m reuse h up room pl fits same whence =
      let g : DataFile = record { contents = d; size = length d } in
      let x : Extends st.files (set_file id g st.files) =
        Extends-new st.files id g (λ i f q. omega (arith, h.fresh i f q, up)) in
      record {
        sorted = pl.sorted;
        points = λ k e q. Points-in st.files id limit b d k e x fits same (pl.place k e q);
        below = pl.below;
        sizes = λ i f q. ground (arith, file_of-set_file id i g st.files, h.sizes i f);
        fresh = λ i f q. ground (arith, file_of-set_file id i g st.files, h.fresh i f);
        room = omega (arith, room);
        reused = λ i q. elim whence [
          | inl new ↦ let e : id ≡ i = cc in (g, rw (← e) (file_of-set_file_self id g st.files))
          | inr old ↦
              let (f, found) = h.reused i (sym old ∙ q) in
              let (f', found', _, _) = x.at i f found in (f', found')
        ];
      }

  -- The loop has gone on, and its variables are sane, with no id from `n` on taken.
  abbrev pub Keeps : ℕ → Outcome Recovering → Type 0
  Keeps n (ok st) = IsSane st × (st.next_id ≤ n)
  Keeps n (err e) = ⊥

  admit_file-Keeps :
      (io : OpenIo) (opts : Options) (is_last : Bool) (f : DirFile) (st : Recovering) (m : Index)
      (seen : ℕ) (o : Option ℕ)
      → Works io
      → IsSane st
      → st.next_id ≤ f.id
      → f.id + 2 < u32_mod
      → Indexes st.files f ((m, seen), o)
      → Keeps (f.id + 1) (admit_file io opts is_last f st ((m, seen), o))
  unfolding admit_file
  admit_file-Keeps io opts is_last f st m seen none w h up room (le, pl) =
      let later : leb st.next_id f.id ≡ true = ground (arith, up) in
      rw (w.reopen f.id, later)
        (
          admitted st f.id (length f.contents) seen _ f.contents f.contents m st.reuse h up room pl
              (omega arith) (λ a z p q. refl) (inr refl),
          omega arith,
        )
  admit_file-Keeps io opts is_last f st m seen (some commit) w h up room (le, pl) =
      let later : leb st.next_id f.id ≡ true = ground (arith, up) in
      let long = length-take commit f.contents in
      rw (w.scan f.id, w.reopen f.id, w.truncate f.id, w.sync f.id, later)
        (elim (Bool-cases (is_last && ltb commit (length f.contents))) [
          | inl torn ↦ rw torn (
            admitted st f.id commit seen _ f.contents (take commit f.contents) m _ h up room pl
                (omega (arith, long, le)) (λ a z p q. slice-take a z commit f.contents p q le)
                (either_of (is_last && ltb _ opts.max_file_size) (some f.id) st.reuse),
            omega arith,
          )
          | inr whole ↦ rw whole (
            admitted st f.id commit seen _ f.contents f.contents m _ h up room pl le
                (λ a z p q. refl)
                (either_of (is_last && ltb _ opts.max_file_size) (some f.id) st.reuse),
            omega arith,
          )
        ])

  pub recover_file-Keeps :
      (io : OpenIo) (opts : Options) (is_last : Bool) (f : DirFile) (st : Recovering)
      → Works io
      → IsReadable f
      → IsSane st
      → st.next_id ≤ f.id
      → f.id + 2 < u32_mod
      → Keeps (f.id + 1) (recover_file io opts is_last f st)
  unfolding recover_file
  recover_file-Keeps io opts is_last f st w r h up room =
      let start : Places st.files f.id f.contents 0 st.max_seq st.index = record {
        sorted = h.sorted;
        place = λ k e q. inl (h.points k e q);
        below = h.below;
      } in
      admit_file-Keeps io opts is_last f st _ _ _ w h up room
        (index_file-Indexes st.files f st.index st.max_seq r start)
