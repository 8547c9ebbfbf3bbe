-- ===== src/Proto/Wire.antt =====
-- The opcodes and statuses of internal/proto/proto.go.
use gokv.Prelude.{ℕ}

abbrev pub op_ping : ℕ
op_ping = 0x01

abbrev pub op_put : ℕ
op_put = 0x02

abbrev pub op_get : ℕ
op_get = 0x03

abbrev pub op_delete : ℕ
op_delete = 0x04

abbrev pub op_range : ℕ
op_range = 0x05

abbrev pub op_batch_put : ℕ
op_batch_put = 0x06

abbrev pub op_stats : ℕ
op_stats = 0x07

abbrev pub op_info : ℕ
op_info = 0x08

abbrev pub op_compact : ℕ
op_compact = 0x09

abbrev pub op_replicate : ℕ
op_replicate = 0x20

abbrev pub op_vote : ℕ
op_vote = 0x21

abbrev pub op_announce : ℕ
op_announce = 0x22

abbrev pub op_promote : ℕ
op_promote = 0x23

abbrev pub status_ok : ℕ
status_ok = 0x00

abbrev pub status_not_found : ℕ
status_not_found = 0x01

abbrev pub status_error : ℕ
status_error = 0x02

abbrev pub status_redirect : ℕ
status_redirect = 0x03

abbrev pub status_range_chunk : ℕ
status_range_chunk = 0x04

abbrev pub status_range_end : ℕ
status_range_end = 0x05

abbrev pub status_repl_data : ℕ
status_repl_data = 0x06

abbrev pub status_full_sync : ℕ
status_full_sync = 0x07

abbrev pub status_heartbeat : ℕ
status_heartbeat = 0x08

abbrev pub status_live : ℕ
status_live = 0x09
