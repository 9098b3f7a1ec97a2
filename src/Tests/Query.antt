-- ===== src/Tests/Query.antt =====
-- core/fishstore.h: a read and a scan of a hash chain in memory, and the requests for one that is on disk.
use fish_store.Base.{
  ℕ, ◌+◌, ◌*◌, ◌/◌, ◌%◌, ◌^◌, ◌<◌, ◌≤◌, ◌≡◌, refl, true, false, ◌==◌, ltb, some, arith,
}
use fish_store.Address.{u32}
use fish_store.Batch
use fish_store.Bucket.{Entry, address}
use fish_store.System.{Phase}
use fish_store.Record.{
  kpt_prev_address, kpt_ptr_offset, ptr_offset, get_record, ptr_cnt, payload_size, optional_size,
  invalid,
}
use fish_store.Record
use fish_store.Query.{
  Memory, Thread, prev_address, record_at, matches, internal_read, internal_scan,
}
use fish_store.Query.Traced.{chain, chain_end, select, Backward}
use fish_store.Query.Answers.{scan_of, internal_scan-scan_of}
use fish_store.Query.Reads.{read_of, internal_read-read_of}
use fish_store.Query.Disk.{
  IoContext, Next, size_at, offset_at, follow, get_from_disk_callback, continue_pending_read,
}
use fish_store.Query.Followed.{Placed}
use fish_store.Base.{◌⊎◌, if◌then◌else◌}
use fish_store.Query.Visited.{Fails}
use fish_store.Query.Disk.{Ending}
use fish_store.Query.Target.{request, target, follow-target, continue_pending_read-misplaced}

-- Each key pointer points to half its address, and is the first one of its record; that at 150 matches.
abbrev halves : ℕ → Memory
halves head = record {
  word = λ a. a / 2 * 2 ^ 16;
  header = λ a. record { control = 0 };
  check = λ a. a == 150;
  begin_address = 64;
  head_address = head;
}

halves-Backward : (head : ℕ) → 0 < head → Backward (halves head)
unfolding prev_address kpt_prev_address
halves-Backward head pos a within = omega arith

abbrev at_rest : Thread
at_rest = record { phase = Phase.rest; version = 1 }

abbrev at_300 : Entry
at_300 = record { control = 300 }

within_rounds : (address at_300).control < 400
unfolding address
within_rounds = omega arith

internal_read-read_of_example :
    internal_read 400 at_rest (halves 100) (some at_300)
    ≡ some (
        read_of
          (halves 100)
          (select (matches (halves 100)) (chain 400 (halves 100) (address at_300).control))
          (chain_end 400 (halves 100) (address at_300).control))
internal_read-read_of_example =
    internal_read-read_of 400 at_rest (halves 100) at_300 (halves-Backward 100 (omega arith)) refl
      within_rounds

internal_scan-scan_of_example :
    internal_scan 400 at_rest (halves 100) (some at_300) 120 200
    ≡ some (
        scan_of
          (halves 100)
          120
          200
          (chain 400 (halves 100) (address at_300).control)
          (chain_end 400 (halves 100) (address at_300).control))
internal_scan-scan_of_example =
    internal_scan-scan_of 400 at_rest (halves 100) at_300 120 200
      (halves-Backward 100 (omega arith)) refl within_rounds

halves-Placed : (x : ℕ) → 64 ≤ x → x < 2 ^ 48 → Placed (halves 64) x
unfolding offset_at ptr_offset kpt_ptr_offset size_at Record.size ptr_cnt payload_size optional_size
halves-Placed x from low = record { low = low; within = omega arith; small = omega arith }

abbrev blank : IoContext
blank = record { address = 0; kpt_offset = 0; valid = 0; valid_offset = 0; available_bytes = 0 }

-- All reads succeed but the third one.
abbrev third_fails : ℕ → Batch.Status
third_fails i = if i == 2 then Batch.Status.io_error else Batch.Status.ok

follow-target_example :
    ((r : IoContext) × (follow (2 ^ 9) third_fails 0 1000 (halves 64) (request (2 ^ 9) 300 blank)
        ≡ some (Ending.pushed r))
      × (r.address
          ≡ target
              (halves 64)
              (select (matches (halves 64)) (chain 400 (halves 64) 300))
              (chain_end 400 (halves 64) 300)))
    ⊎ (Fails third_fails 0
        × (follow (2 ^ 9) third_fails 0 1000 (halves 64) (request (2 ^ 9) 300 blank)
            ≡ some Ending.dropped))
follow-target_example =
    follow-target 9 1000 400 (halves 64) 300 blank third_fails (omega arith) refl
      (halves-Backward 64 (omega arith)) halves-Placed (omega arith) (omega arith) (omega arith)
      (omega arith)

-- The key pointer that matches, with all that a read of one sector brings.
abbrev at_150 : IoContext
at_150 = record {
  address = 150;
  kpt_offset = 0;
  valid = 150;
  valid_offset = 150;
  available_bytes = 362;
}

at_150_there : offset_at (halves 64) 150 ≤ 150
unfolding offset_at ptr_offset kpt_ptr_offset
at_150_there = omega arith

at_150_whole :
    ltb ((offset_at (halves 64) 150 + 362) % u32) (size_at (halves 64) (record_at (halves 64) 150))
    ≡ false
unfolding offset_at ptr_offset kpt_ptr_offset size_at Record.size ptr_cnt payload_size optional_size
at_150_whole = refl

at_150_matches : matches (halves 64) 150 ≡ true
unfolding matches invalid
at_150_matches = refl

at_150_in_log : 64 ≤ record_at (halves 64) 150
unfolding record_at get_record ptr_offset kpt_ptr_offset
at_150_in_log = omega arith

continue_pending_read-misplaced_example :
    (d : IoContext) × (get_from_disk_callback (halves 64) Batch.Status.ok at_150 ≡ Next.responds d)
    × (d.address ≡ record_at (halves 64) 150)
    × ((continue_pending_read (halves 64) false d).1 ≡ some 150)
    × (record_at (halves 64) 150 < 150)
continue_pending_read-misplaced_example =
    continue_pending_read-misplaced (halves 64) 150 at_150 false
      (halves-Placed 150 (omega arith) (omega arith))
      (record { valid = refl; address = refl; kpt_offset = refl }) at_150_there at_150_whole
      at_150_matches at_150_in_log
