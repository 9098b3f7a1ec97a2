-- ===== src/Query.antt =====
-- core/fishstore.h: InternalRead, InternalScan and TraceBackForMatch, the part of Read and Scan over the records that
-- are in memory; and core/internal_contexts.h for what they return. An address is a number; the entry
-- is what FindEntry finds after HeavyEnter.
pub mod Traced
pub mod Explored
pub mod Answers
pub mod Reads
pub mod Disk
pub mod Followed
pub mod Visited
pub mod Target
pub mod Full
pub mod Paged
pub mod Whole
pub mod Reached
pub mod DiskScan
pub mod Pending
pub mod Outstanding
use fish_store.Base.{
  ℕ, zero, suc, ◌+◌, ◌-◌, ◌%◌, ◌^◌, Bool, true, false, not, ◌&&◌, ◌||◌, ltb, leb, if◌then◌else◌,
  Option, none, some, List, [], ◌∷◌,
}
use fish_store.Bucket.{Entry, address}
use fish_store.System.{Phase}
use fish_store.Record.{RecordInfo, checkpoint_version, invalid, get_record, kpt_prev_address}

pub data OperationStatus : Type 0 where
  success not_found retry_now retry_later record_on_disk scan_in_progress success_unmark
        not_found_unmark cpr_shift_detected :
      OperationStatus

-- What is read of the log: the first word of the key pointer at an address, and the header of the record at one; and
-- the answer of the context's `check` for a key pointer.
pub record Memory : Type 0 where
  pub word : ℕ → ℕ
  pub header : ℕ → RecordInfo
  pub check : ℕ → Bool
  pub begin_address : ℕ
  pub head_address : ℕ

unfoldable pub prev_address : Memory → ℕ → ℕ
prev_address m a = kpt_prev_address (m.word a)

unfoldable pub record_at : Memory → ℕ → ℕ
record_at m a = get_record a (m.word a)

-- A record that is not invalid, and passes the check.
unfoldable pub matches : Memory → ℕ → Bool
matches m a = not (invalid (m.header (record_at m a))) && m.check a

-- `TraceBackForMatch(from_address, min_offset)`; `none`: the rounds ran out.
unfoldable pub trace_back_for_match : ℕ → Memory → ℕ → ℕ → Option ℕ
trace_back_for_match zero m from min = none
trace_back_for_match (suc rounds) m from min =
    let earlier = trace_back_for_match rounds m (prev_address m from) min in
    if leb min from then (if matches m from then some from else earlier) else some from

-- The phase and the version of the thread.
pub record Thread : Type 0 where
  pub phase : Phase
  pub version : ℕ

abbrev pub is_prepare : Phase → Bool
is_prepare Phase.prepare = true
is_prepare _ = false

-- The status, the records that were passed to `Get` or `Touch`, whether `Finalize` was called, and the address passed to
-- `go_async`.
pub record Outcome : Type 0 where
  pub status : OperationStatus
  pub touched : List ℕ
  pub finalized : Bool
  pub async : Option ℕ

-- The version of the record of a key pointer, or 0 where it is not in memory.
unfoldable pub latest_version : Memory → ℕ → ℕ
latest_version m a =
    if leb m.head_address a then checkpoint_version (m.header (record_at m a)) else 0

-- The first match from a key pointer on: the test before `TraceBackForMatch`, and the call.
unfoldable pub first_match : ℕ → Memory → ℕ → Option ℕ
first_match rounds m a =
    let earlier = trace_back_for_match rounds m (prev_address m a) m.head_address in
    if leb m.head_address a then (if matches m a then some a else earlier) else some a

-- The test of both calls in the PREPARE phase.
unfoldable pub cpr_shift : Thread → Memory → ℕ → Bool
cpr_shift t m a = is_prepare t.phase && ltb t.version (latest_version m a)

abbrev pub shifted : ℕ → Outcome
shifted a = record {
  status = OperationStatus.cpr_shift_detected;
  touched = [];
  finalized = false;
  async = some a;
}

-- The end of InternalRead.
unfoldable pub answer_read : Memory → ℕ → Outcome
answer_read m a =
    if leb m.head_address a
    then record {
      status = OperationStatus.success;
      touched = record_at m a ∷ [];
      finalized = false;
      async = none;
    }
    else if leb m.begin_address a
    then record {
      status = OperationStatus.record_on_disk;
      touched = [];
      finalized = false;
      async = some a;
    }
    else record {
      status = OperationStatus.not_found;
      touched = [];
      finalized = false;
      async = none;
    }

abbrev pub read_from : Thread → Memory → ℕ → Option ℕ → Option Outcome
read_from t m a none = none
read_from t m a (some b) = some (if cpr_shift t m a then shifted b else answer_read m b)

unfoldable pub internal_read : ℕ → Thread → Memory → Option Entry → Option Outcome
internal_read rounds t m none =
    some
      (record { status = OperationStatus.not_found; touched = []; finalized = false; async = none })
internal_read rounds t m (some e) =
    read_from t m (address e).control (first_match rounds m (address e).control)

-- The loop past the key pointers above `end_addr`.
unfoldable pub skip_above : ℕ → Memory → ℕ → ℕ → Option ℕ
skip_above zero m end_addr a = none
skip_above (suc rounds) m end_addr a =
    let earlier = skip_above rounds m end_addr (prev_address m a) in
    if ltb end_addr a && leb m.head_address a then earlier else some a

-- The loop that touches the matches: the records, and the address where it stops.
abbrev pub touch : ℕ → Option (List ℕ × ℕ) → Option (List ℕ × ℕ)
touch r none = none
touch r (some (records, a)) = some (r ∷ records, a)

abbrev pub and_then {ℓ κ} : {A : Type ℓ} {B : Type κ} → Option A → (A → Option B) → Option B
and_then none f = none
and_then (some a) f = f a

-- `traces` are the rounds of each trace.
unfoldable pub explore : ℕ → ℕ → Memory → ℕ → ℕ → Option (List ℕ × ℕ)
explore traces zero m start_addr a = none
explore traces (suc rounds) m start_addr a =
    let further = touch (record_at m a) (
      and_then (trace_back_for_match traces m (prev_address m a) m.head_address)
        (λ b. explore traces rounds m start_addr b)) in
    if leb start_addr a && leb m.head_address a then further else some ([], a)

-- The end of InternalScan.
unfoldable pub answer_scan : Memory → ℕ → List ℕ → ℕ → Outcome
answer_scan m start_addr records a =
    if ltb a start_addr || ltb a m.begin_address
    then record {
      status = OperationStatus.success;
      touched = records;
      finalized = true;
      async = none;
    }
    else record {
      status = OperationStatus.scan_in_progress;
      touched = records;
      finalized = false;
      async = some a;
    }

abbrev pub scan_done : Memory → ℕ → Option (List ℕ × ℕ) → Option Outcome
scan_done m start_addr none = none
scan_done m start_addr (some (records, a)) = some (answer_scan m start_addr records a)

-- From the first key pointer that is not above `end_addr`.
unfoldable pub scan_from : ℕ → Thread → Memory → ℕ → ℕ → Option Outcome
scan_from rounds t m start_addr a = and_then (first_match rounds m a) (λ b.
    if cpr_shift t m a
    then some (shifted b)
    else scan_done m start_addr (explore rounds rounds m start_addr b))

unfoldable pub internal_scan : ℕ → Thread → Memory → Option Entry → ℕ → ℕ → Option Outcome
internal_scan rounds t m none start_addr end_addr =
    some (record { status = OperationStatus.success; touched = []; finalized = true; async = none })
internal_scan rounds t m (some e) start_addr end_addr =
    and_then (skip_above rounds m end_addr (address e).control) (scan_from rounds t m start_addr)
