-- ===== src/Query/Pending.antt =====
-- core/fishstore.h: IssueAsyncIoRequest, IssueAsyncScanRequest, HandleOperationStatus and CompleteIoPendingRequests; and
-- the requests in the context of a thread, of core/internal_contexts.h. A refresh and the operation that is tried
-- again are left to the caller. The answer of `try_lock_old` is an argument. `pending_ios` is an association list.
use fish_store.Base.{
  ℕ, ◌+◌, ◌-◌, ◌%◌, Bool, true, false, ◌&&◌, ◌==◌, if◌then◌else◌, List, [], ◌∷◌, ◌++◌,
}
use fish_store.Address.{u32, u64}
use fish_store.Batch
use fish_store.System.{Phase}
use fish_store.Query.{Memory, OperationStatus, is_prepare}
use fish_store.Query.Disk.{IoContext, continue_pending_read}
use fish_store.Query.Full.{continue_pending_scan}

pub data OperationType : Type 0 where
  read insert scan full_scan delete : OperationType

-- A request with its id, and the hash of its context.
pub record Request : Type 0 where
  pub io_id : ℕ
  pub kind : OperationType
  pub hash : ℕ

-- The requests of an `ExecutionContext`; the responses are those that the callbacks have pushed.
pub record Requests : Type 0 where
  pub io_id : ℕ
  pub pending_ios : List (ℕ × ℕ)
  pub pending_io_cnt : ℕ
  pub io_responses : List (Request × IoContext)

abbrev pub has : ℕ → List (ℕ × ℕ) → Bool
has id [] = false
has id ((i, h) ∷ ios) = let rest = has id ios in if i == id then true else rest

abbrev pub insert_io : ℕ → ℕ → List (ℕ × ℕ) → List (ℕ × ℕ)
insert_io id hash ios = if has id ios then ios else (id, hash) ∷ ios

abbrev pub erase_io : ℕ → List (ℕ × ℕ) → List (ℕ × ℕ)
erase_io id [] = []
erase_io id ((i, h) ∷ ios) = let rest = erase_io id ios in if i == id then rest else (i, h) ∷ rest

abbrev pub is_scan : OperationType → Bool
is_scan OperationType.scan = true
is_scan _ = false

abbrev pub is_full_scan : OperationType → Bool
is_full_scan OperationType.full_scan = true
is_full_scan _ = false

abbrev pub is_read : OperationType → Bool
is_read OperationType.read = true
is_read _ = false

unfoldable pub issue_async_io_request : ℕ → Requests → Request × Requests
issue_async_io_request hash c = (
  record { io_id = c.io_id; kind = OperationType.read; hash = hash },
  record c {
    io_id = (c.io_id + 1) % u64;
    pending_ios = insert_io c.io_id hash c.pending_ios;
    pending_io_cnt = (c.pending_io_cnt + 1) % u32;
  },
)

unfoldable pub issue_async_scan_request : OperationType → ℕ → Requests → Request × Requests
issue_async_scan_request kind hash c = (
  record { io_id = c.io_id; kind = kind; hash = hash },
  record c {
    io_id = (c.io_id + 1) % u64;
    pending_ios = if is_scan kind then insert_io c.io_id hash c.pending_ios else c.pending_ios;
    pending_io_cnt = (c.pending_io_cnt + 1) % u32;
  },
)

-- What HandleOperationStatus calls: on the lock of the hash, and then.
pub data LockCall : Type 0 where
  try_lock_old unlock_old : ℕ → LockCall

pub data Handling : Type 0 where
  returns : Batch.Status → Handling
  issues_io issues_scan retries_now retries_later pivots : Handling

unfoldable pub handle_operation_status :
    Phase → OperationType → ℕ → Bool → OperationStatus → List LockCall × Handling
handle_operation_status phase kind hash locked OperationStatus.retry_now =
    ([], Handling.retries_now)
handle_operation_status phase kind hash locked OperationStatus.retry_later =
    ([], Handling.retries_later)
handle_operation_status phase kind hash locked OperationStatus.record_on_disk =
    if is_prepare phase
    then (LockCall.try_lock_old hash ∷ [], if locked then Handling.issues_io else Handling.pivots)
    else ([], Handling.issues_io)
handle_operation_status phase kind hash locked OperationStatus.scan_in_progress =
    if is_prepare phase && is_scan kind
    then (LockCall.try_lock_old hash ∷ [], if locked then Handling.issues_scan else Handling.pivots)
    else ([], Handling.issues_scan)
handle_operation_status phase kind hash locked OperationStatus.success_unmark =
    (LockCall.unlock_old hash ∷ [], Handling.returns Batch.Status.ok)
handle_operation_status phase kind hash locked OperationStatus.not_found_unmark =
    (LockCall.unlock_old hash ∷ [], Handling.returns Batch.Status.not_found)
handle_operation_status phase kind hash locked OperationStatus.cpr_shift_detected =
    ([], Handling.pivots)
handle_operation_status phase kind hash locked OperationStatus.success =
    ([], Handling.returns Batch.Status.corruption)
handle_operation_status phase kind hash locked OperationStatus.not_found =
    ([], Handling.returns Batch.Status.corruption)

-- The result of a response; only a status that is neither success nor not found is handled.
unfoldable pub result_of : Phase → Request → OperationStatus → List LockCall × Handling
result_of phase r OperationStatus.success = ([], Handling.returns Batch.Status.ok)
result_of phase r OperationStatus.not_found = ([], Handling.returns Batch.Status.not_found)
result_of phase r status = handle_operation_status phase r.kind r.hash false status

-- The continue call.
unfoldable pub continue_request : Memory → Bool → Request → IoContext → OperationStatus
continue_request m moved r io =
    if is_read r.kind
    then (continue_pending_read m moved io).0
    else (continue_pending_scan (is_full_scan r.kind) moved).0

-- The callback of a request that is not pending again, by its id.
abbrev pub call_back : Request → Handling → List (ℕ × Batch.Status) → List (ℕ × Batch.Status)
call_back r (Handling.returns status) calls = (r.io_id, status) ∷ calls
call_back r _ calls = calls

-- The loop of CompleteIoPendingRequests over the responses that it pops.
unfoldable pub complete_responses :
    Memory
    → Bool
    → Phase
    → List (Request × IoContext)
    → Requests
    → List LockCall × List (ℕ × Batch.Status) × Requests
complete_responses m moved phase [] c = ([], [], c)
complete_responses m moved phase ((r, io) ∷ rest) c =
    let (locks, handling) = result_of phase r (continue_request m moved r io) in
    let (locks', calls, c') = complete_responses m moved phase rest (record c {
      pending_ios = erase_io r.io_id c.pending_ios;
      pending_io_cnt = (c.pending_io_cnt + u32 - 1) % u32;
    }) in
    (locks ++ locks', call_back r handling calls, c')

unfoldable pub complete_io_pending_requests :
    Memory → Bool → Phase → Requests → List LockCall × List (ℕ × Batch.Status) × Requests
complete_io_pending_requests m moved phase c =
    complete_responses m moved phase c.io_responses (record c { io_responses = [] })
