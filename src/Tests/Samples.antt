-- ===== src/Tests/Samples.antt =====
-- A checksum, a store, records and nodes to try the development on.
use gokv.Prelude.{ℕ, ◌+◌, ◌*◌, ◌%◌, false, List, [], ◌∷◌, arith}
use gokv.Prelude.Bytes.{u32_mod}
use gokv.Engine.Record.{Checksum, Record, IsStorable}
use gokv.Engine.Files.{empty_file}
use gokv.Engine.Store.{Store, Options, always}
use gokv.Engine.Store.Reset.{no_keys, one_file-IsStocked, no_keys-IsIndexing, no_keys-IsBelow}
use gokv.Engine.Store.Sound.Refine.{IsLive, HasRoom}
use gokv.Node.{Node, ErrorTexts}

abbrev byte_sum : List ℕ → ℕ
byte_sum [] = 7
byte_sum (b ∷ bs) = b + 3 * byte_sum bs

instance pub byte_checksum : Checksum
byte_checksum = record { sum = λ b. byte_sum b % u32_mod; sum_lt = λ b. omega arith }

instance pub no_texts : ErrorTexts
no_texts = record { text = λ _. 63 ∷ [] }

abbrev pub options : Options
options = record { max_file_size = 64; sync_mode = always }

-- A store that has just been opened.
abbrev pub fresh : Store
fresh = record {
  opts = options;
  keydir = no_keys;
  files = (1, empty_file) ∷ [];
  active = 1;
  next_id = 2;
  seq = 0;
  dirty = false;
  total = 0;
  merge_seq = 0;
  n_put = 0;
  n_get = 0;
  n_del = 0;
  n_miss = 0;
  closed = false;
  hinting = [];
  notified = [];
}

pub fresh-IsLive : IsLive fresh
fresh-IsLive = record {
  sound = record { indexing = no_keys-IsIndexing _; stocked = one_file-IsStocked 1 (omega arith) };
  newest = no_keys-IsBelow;
}

pub fresh-HasRoom : HasRoom fresh 1
fresh-HasRoom = record { ids = omega arith; seqs = omega arith }

abbrev pub color : List ℕ
color = 99 ∷ 111 ∷ []

abbrev pub red : List ℕ
red = 114 ∷ []

abbrev pub size : List ℕ
size = 115 ∷ []

-- A single record, and the two of a batch.
abbrev pub single_record : Record
single_record = record { ts = 5; seq = 1; flags = 0; key = color; value = red }

abbrev pub inner_record : Record
inner_record = record { ts = 6; seq = 2; flags = 2; key = size; value = 49 ∷ [] }

abbrev pub end_record : Record
end_record = record { ts = 6; seq = 3; flags = 6; key = color; value = [] }

pub single_record-IsStorable : IsStorable single_record
single_record-IsStorable = record {
  ts_fits = omega arith;
  seq_fits = omega arith;
  flags_fits = omega arith;
  key_pos = omega arith;
  key_fits = omega arith;
  value_fits = omega arith;
}

pub inner_record-IsStorable : IsStorable inner_record
inner_record-IsStorable = record {
  ts_fits = omega arith;
  seq_fits = omega arith;
  flags_fits = omega arith;
  key_pos = omega arith;
  key_fits = omega arith;
  value_fits = omega arith;
}

pub end_record-IsStorable : IsStorable end_record
end_record-IsStorable = record {
  ts_fits = omega arith;
  seq_fits = omega arith;
  flags_fits = omega arith;
  key_pos = omega arith;
  key_fits = omega arith;
  value_fits = omega arith;
}

-- Two nodes of a cluster of three.
abbrev pub node : ℕ → ℕ → Node
node name role = record {
  cfg = record {
    id = name ∷ [];
    addr = name ∷ 58 ∷ [];
    peers = (1 ∷ 58 ∷ []) ∷ (2 ∷ 58 ∷ []) ∷ (3 ∷ 58 ∷ []) ∷ [];
    election_timeout = 5;
  };
  store = fresh;
  role = role;
  leader_addr = 3 ∷ 58 ∷ [];
  epoch = 1;
  last_contact = 0;
  was_leader = false;
  electing = false;
  closing = false;
}
