-- ===== src/Tests/Words.antt =====
-- The packed words of core/address.h, core/key_hash.h, core/hash_bucket.h, core/record.h and
-- core/state_transitions.h.
use fish_store.Base.{ℕ, ◌+◌, ◌*◌, ◌%◌, ◌<◌, ◌≤◌, ◌≡◌, true, false, arith}
use fish_store.Record
use fish_store.Record.Layout.{record_holds}
use fish_store.System.{Phase, Action, SystemState}

abbrev psf : ℕ
psf = 5

-- A header with two key pointers, 100 bytes of payload and 8 optional bytes, not yet visible.
abbrev header : Record.RecordInfo
header = Record.make_info 1 true false true 2 100 8

abbrev word : ℕ
word = 5

record_holds_example :
    (Record.size 2 100 8 % 8 ≡ 0)
    × (Record.size 2 100 8 < 8 + 16 * 2 + 100 + 8 + 8)
    × (Record.get_ptr 4096 1 + 16
        ≤ Record.payload 4096 (Record.make_info 0 true false true 2 100 8))
    × (Record.get_record (Record.get_ptr 4096 1) (Record.make_kpt 1 1 64) ≡ 4096)
    × (Record.payload 4096 (Record.make_info 0 true false true 2 100 8) + 100 + 8
        ≤ 4096 + Record.size 2 100 8)
unfolding Record.size
record_holds_example =
    record_holds 4096 1 64 2 100 8 1 (omega arith) (omega arith) (omega arith) (omega arith)
      (omega arith) (omega arith)

abbrev preparing : SystemState
preparing = record { action = Action.checkpoint_full; phase = Phase.prepare; version = 4 }
