-- ===== src/Tests/Opening.antt =====
-- Opening a store: files with hints, and a batch that was not finished.
use gokv.Prelude.{
  ℕ, ◌≡◌, refl, Bool, true, false, some, none, List, [], ◌∷◌, ◌++◌, arith, length, All, All-append,
  ◌<◌,
}
use gokv.Prelude.Bytes.{le, IsByte, le-IsByte}
use gokv.Engine.Record.{Record, encode, body}
use gokv.Engine.Record.Scan.{encodes}
use gokv.Engine.Record.Torn.{next_record-nil}
use gokv.Engine.Index.Newest.{apply_all}
use gokv.Engine.Store.Sound.Served.{well}
use gokv.Engine.Recover.{scan_into_index}
use gokv.Engine.Recover.Groups.{Group, single, batch, log_of, changes}
use gokv.Engine.Replica.{max_seq}
use gokv.Engine.Hint.{hint_magic, HintIo, build_hint}
use gokv.Engine.Hint.Layout.{all_written}
use gokv.Engine.Hint.RoundTrip.{hints_of, build_hint-all_written}
use gokv.Engine.Open.{DirFile, OpenIo, recover, apply_hint}
use gokv.Engine.Open.Replayed.{Recovers, AllLogged, files_of, replay_all, recover-replay_all}
use gokv.Engine.Open.Alive.{ComesAlive, AllReadable, recover-ComesAlive}
use gokv.Engine.Open.Unfinished.{IsUnfinished, AllSkipped, hint_revives, unfinished_lost}
use gokv.Tests.Samples.{
  byte_checksum, options, single_record, inner_record, end_record, single_record-IsStorable,
  inner_record-IsStorable, end_record-IsStorable,
}

abbrev good_open : OpenIo
good_open = record {
  mkdir = true;
  lock = true;
  listed = true;
  scan = λ _. true;
  reopen = λ _. true;
  truncate = λ _. true;
  sync = λ _. true;
  fresh = well 9;
}

-- A file with a hint, and one without.
abbrev hinted_file : DirFile
hinted_file = record {
  id = 1;
  contents = encodes (log_of (single single_record ∷ [])) ++ [];
  hint = build_hint all_written 1 (encodes (log_of (single single_record ∷ [])) ++ []);
}

abbrev failing : HintIo
failing = record all_written { create = false }

abbrev bare_file : DirFile
bare_file = record {
  id = 2;
  contents = encodes (log_of (batch (inner_record ∷ []) end_record ∷ [])) ++ [];
  hint = none;
}

abbrev directory : List (DirFile × List Group)
directory =
    (hinted_file, single single_record ∷ [])
    ∷ ((bare_file, batch (inner_record ∷ []) end_record ∷ []) ∷ [])

directory_logged : AllLogged directory
unfolding encodes le build_hint
directory_logged = (
  record {
    tail = [];
    made = all_written;
    contents = refl;
    hint = refl;
    groups = (refl, tt);
    storable = (single_record-IsStorable, tt);
    torn = next_record-nil;
    small = omega arith;
  },
  (
    record {
      tail = [];
      made = failing;
      contents = refl;
      hint = refl;
      groups = ((((refl, refl), tt), (refl, refl)), tt);
      storable = (inner_record-IsStorable, (end_record-IsStorable, tt));
      torn = next_record-nil;
      small = omega arith;
    },
    tt,
  ),
)

recover-replay_all_example :
    Recovers (replay_all directory ([], 0)) (recover good_open options 0 (files_of directory))
recover-replay_all_example =
    recover-replay_all good_open options 0 directory
      (record {
        scan = λ _. refl;
        reopen = λ _. refl;
        truncate = λ _. refl;
        sync = λ _. refl;
        create = refl;
        sync_dir = refl;
      })
      directory_logged

-- The end of the batch is missing.
abbrev cut_short : List ℕ
cut_short = encodes (log_of (single single_record ∷ []) ++ (inner_record ∷ [])) ++ []

cut_short-IsUnfinished : IsUnfinished cut_short (single single_record ∷ []) (inner_record ∷ [])
unfolding encodes le
cut_short-IsUnfinished = record {
  tail = [];
  contents_are = refl;
  groups = (refl, tt);
  inner = ((refl, refl), tt);
  storable = (single_record-IsStorable, (inner_record-IsStorable, tt));
  torn = next_record-nil;
  small = omega arith;
}

hint_revives_example :
    let rs = log_of (single single_record ∷ []) ++ (inner_record ∷ []) in
    ((scan_into_index 1 cut_short [] 0).index
      ≡ apply_all (changes 1 0 (log_of (single single_record ∷ []))) [])
    × (apply_hint 1 (some (hint_magic ++ hints_of 1 0 rs)) ([], 0)
        ≡ ((apply_all (changes 1 0 rs) [], max_seq 0 rs), true))
hint_revives_example =
    hint_revives all_written 1 0 cut_short
      (hint_magic ++ hints_of 1 0 (log_of (single single_record ∷ []) ++ (inner_record ∷ [])))
      (single single_record ∷ []) (inner_record ∷ []) [] cut_short-IsUnfinished
      (build_hint-all_written 1 (log_of (single single_record ∷ []) ++ (inner_record ∷ [])) []
        (single_record-IsStorable, (inner_record-IsStorable, tt)) next_record-nil)

encode-IsByte :
    (r : Record) → r.flags < 256 → All IsByte r.key → All IsByte r.value → All IsByte (encode r)
encode-IsByte r f k v =
    let with_value = All-append IsByte r.key r.value k v in
    let lengths =
      All-append IsByte (le 4 (length r.key)) _ (le-IsByte 4 (length r.key))
        (All-append IsByte (le 4 (length r.value)) _ (le-IsByte 4 (length r.value)) with_value) in
    let tagged : All IsByte
        (r.flags ∷ (le 4 (length r.key) ++ (le 4 (length r.value) ++ (r.key ++ r.value)))) =
      (f, lengths) in
    let summed =
      All-append IsByte (le 8 r.ts) _ (le-IsByte 8 r.ts)
        (All-append IsByte (le 8 r.seq) _ (le-IsByte 8 r.seq) tagged) in
    All-append IsByte (le 4 (byte_checksum.sum (body r))) _
      (le-IsByte 4 (byte_checksum.sum (body r))) summed

-- An unfinished batch with rubbish behind it, in a file that has a hint, and a file of rubbish.
abbrev littered : List ℕ
littered = cut_short ++ (7 ∷ 0 ∷ 255 ∷ [])

littered_bytes : All IsByte littered
unfolding encodes
littered_bytes =
    let one =
      encode-IsByte single_record (omega arith) (omega arith, (omega arith, tt))
        (omega arith, tt) in
    let two = encode-IsByte inner_record (omega arith) (omega arith, tt) (omega arith, tt) in
    let whole =
      All-append IsByte (encode single_record) _ one
        (All-append IsByte (encode inner_record) [] two tt) in
    All-append IsByte cut_short _ (All-append IsByte _ [] whole tt)
      (omega arith, (omega arith, (omega arith, tt)))

abbrev damaged : List DirFile
damaged =
    record { id = 1; contents = littered; hint = build_hint all_written 1 littered }
    ∷ (record { id = 4; contents = 1 ∷ 2 ∷ 3 ∷ []; hint = none } ∷ [])

damaged-readable : AllReadable damaged
unfolding encodes le build_hint
damaged-readable = (
  record { bytes = littered_bytes; small = omega arith; made = all_written; hint = refl },
  (
    record {
      bytes = (omega arith, (omega arith, (omega arith, tt)));
      small = omega arith;
      made = failing;
      hint = refl;
    },
    tt,
  ),
)

recover-ComesAlive_example : ComesAlive (recover good_open options 0 damaged)
recover-ComesAlive_example =
    recover-ComesAlive good_open options 0 damaged
      (record {
        scan = λ _. refl;
        reopen = λ _. refl;
        truncate = λ _. refl;
        sync = λ _. refl;
        create = refl;
        sync_dir = refl;
      })
      damaged-readable (omega arith, omega arith, (omega arith, omega arith, tt))

-- A callback that collects what is sent.
abbrev collecting : List ℕ → List (List ℕ) → List (List ℕ) × Bool
collecting raw sent = (sent ++ (raw ∷ []), false)

unfinished_lost_example :
    let found = scan_into_index 1 cut_short [] 0 in
    (found.index ≡ apply_all (changes 1 0 (log_of (single single_record ∷ []))) [])
    × (found.commit ≡ length (encodes (log_of (single single_record ∷ []))))
    × AllSkipped collecting [] found.max_seq (inner_record ∷ [])
unfinished_lost_example =
    unfinished_lost collecting [] 1 0 cut_short (single single_record ∷ []) (inner_record ∷ []) []
      cut_short-IsUnfinished
