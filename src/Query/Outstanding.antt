-- ===== src/Query/Outstanding.antt =====
-- core/fishstore.h: sequences of requests of a thread, of the responses to them, and of CompleteIoPendingRequests.
use fish_store.Base.{
  ℕ, suc, ◌+◌, ◌-◌, ◌%◌, ◌<◌, ◌≤◌, ◌≡◌, inl, inr, refl, ap, ◌∙◌, Bool, not, ◌&&◌, ltb, leb, ◌==◌,
  if◌then◌else◌, Bool-cases, List, [], ◌∷◌, ◌++◌, length, length-append, arith,
}
use fish_store.Address.{u32, u64}
use fish_store.Batch
use fish_store.System.{Phase}
use fish_store.Query.{Memory}
use fish_store.Query.Disk.{IoContext, continue_pending_read}
use fish_store.Query.Full.{continue_pending_scan}
use fish_store.Query.Pending.{
  OperationType, Request, Requests, issue_async_io_request, issue_async_scan_request,
  handle_operation_status, Handling, result_of, continue_request, erase_io, is_read, is_full_scan,
  complete_responses, complete_io_pending_requests,
}

-- How often an id occurs.
abbrev pub times {ℓ} : {A : Type ℓ} → (A → ℕ) → ℕ → List A → ℕ
times id i [] = 0
times id i (x ∷ xs) = (if id x == i then 1 else 0) + times id i xs

abbrev pub id_in_flight : Request → ℕ
id_in_flight r = r.io_id

abbrev pub id_answered : Request × IoContext → ℕ
id_answered (r, io) = r.io_id

abbrev pub id_called : ℕ × Batch.Status → ℕ
id_called (i, s) = i

-- A thread's requests, those whose read goes on, and the callbacks that ran.
pub record Thread : Type 0 where
  pub requests : Requests
  pub in_flight : List Request
  pub called : List (ℕ × Batch.Status)

-- A request is issued, a read that goes on ends with a response, or the responses are completed.
pub data Step (t : Thread) : Thread → Type 0 where
  issue_read :
      (hash : ℕ)
      → t.requests.io_id + 1 < u64
      → length t.in_flight + length t.requests.io_responses + 1 < u32
      → Step t (record t {
        requests = (issue_async_io_request hash t.requests).1;
        in_flight = (issue_async_io_request hash t.requests).0 ∷ t.in_flight;
      })
  issue_scan :
      (kind : OperationType) (hash : ℕ)
      → t.requests.io_id + 1 < u64
      → length t.in_flight + length t.requests.io_responses + 1 < u32
      → Step t (record t {
        requests = (issue_async_scan_request kind hash t.requests).1;
        in_flight = (issue_async_scan_request kind hash t.requests).0 ∷ t.in_flight;
      })
  respond :
      (before after : List Request) (r : Request) (io : IoContext)
      → t.in_flight ≡ before ++ r ∷ after
      → Step t (record t {
        requests = record t.requests { io_responses = t.requests.io_responses ++ (r, io) ∷ [] };
        in_flight = before ++ after;
      })
  complete :
      (m : Memory) (moved : Bool) (phase : Phase)
      → Step t (record t {
        requests = (complete_io_pending_requests m moved phase t.requests).2;
        called = t.called ++ (complete_io_pending_requests m moved phase t.requests).1;
      })

abbrev pub idle : Thread
idle = record {
  requests = record { io_id = 0; pending_ios = []; pending_io_cnt = 0; io_responses = [] };
  in_flight = [];
  called = [];
}

pub data Reach : Thread → Type 0 where
  start : Reach idle
  next : {s t : Thread} → Reach s → Step s t → Reach t

-- The count is that of the requests that have no callback yet, and each id that was given out is in one place.
record Inv (t : Thread) : Type 0 where
  counted : t.requests.pending_io_cnt ≡ length t.in_flight + length t.requests.io_responses
  small : length t.in_flight + length t.requests.io_responses < u32
  once :
      (i : ℕ)
      → times id_called i t.called
          + times id_in_flight i t.in_flight
          + times id_answered i t.requests.io_responses
        ≡ (if ltb i t.requests.io_id then 1 else 0)

times-append {ℓ} :
    {A : Type ℓ} (id : A → ℕ) (i : ℕ) (xs ys : List A)
    → times id i (xs ++ ys) ≡ times id i xs + times id i ys
times-append id i [] ys = omega arith
times-append id i (x ∷ xs) ys = let e = times-append id i xs ys in omega arith

-- A response always ends its request.
always_returns :
    (m : Memory) (moved : Bool) (phase : Phase) (r : Request) (io : IoContext)
    → (s : Batch.Status) × ((result_of phase r (continue_request m moved r io)).1
        ≡ Handling.returns s)
unfolding result_of handle_operation_status continue_request continue_pending_read
    continue_pending_scan
always_returns m moved phase r io = elim (Bool-cases (is_read r.kind)) [
  | inl reads ↦ elim (Bool-cases (leb m.begin_address io.address)) [
    | inl found ↦ elim (Bool-cases moved) [
      | inl newer ↦ (Batch.Status.ok, rw (reads, found, newer) refl)
      | inr same ↦ (Batch.Status.ok, rw (reads, found, same) refl)
    ]
    | inr gone ↦ elim (Bool-cases moved) [
      | inl newer ↦ (Batch.Status.not_found, rw (reads, gone, newer) refl)
      | inr same ↦ (Batch.Status.not_found, rw (reads, gone, same) refl)
    ]
  ]
  | inr scans ↦ elim (Bool-cases (not (is_full_scan r.kind) && moved)) [
    | inl newer ↦ (Batch.Status.ok, rw (scans, newer) refl)
    | inr same ↦ (Batch.Status.ok, rw (scans, same) refl)
  ]
]

record Completed (cs : List (Request × IoContext)) (c : Requests) (calls : List (ℕ × Batch.Status))
    (d : Requests) : Type 0 where
  counted : d.pending_io_cnt + length cs ≡ c.pending_io_cnt
  responses : d.io_responses ≡ c.io_responses
  ids : d.io_id ≡ c.io_id
  times_same : (i : ℕ) → times id_called i calls ≡ times id_answered i cs

complete_responses-Completed :
    (m : Memory) (moved : Bool) (phase : Phase) (cs : List (Request × IoContext)) (c : Requests)
    → length cs ≤ c.pending_io_cnt
    → c.pending_io_cnt < u32
    → Completed cs c
        (complete_responses m moved phase cs c).1
        (complete_responses m moved phase cs c).2
unfolding complete_responses
complete_responses-Completed m moved phase [] c enough small = record {
  counted = omega arith;
  responses = refl;
  ids = refl;
  times_same = λ i. refl;
}
complete_responses-Completed m moved phase ((r, io) ∷ rest) c enough small =
    let (s, returned) = always_returns m moved phase r io in
    let p =
      complete_responses-Completed m moved phase rest
        (record c {
          pending_ios = erase_io r.io_id c.pending_ios;
          pending_io_cnt = (c.pending_io_cnt + u32 - 1) % u32;
        })
        (omega arith) (omega arith) in
    let e = p.counted in
    record {
      counted = omega arith;
      responses = p.responses;
      ids = p.ids;
      times_same = λ i. rw returned (let e' = p.times_same i in omega arith);
    }

complete_io_pending_requests-Completed :
    (m : Memory) (moved : Bool) (phase : Phase) (c : Requests)
    → length c.io_responses ≤ c.pending_io_cnt
    → c.pending_io_cnt < u32
    → Completed c.io_responses
        (record c { io_responses = [] })
        (complete_io_pending_requests m moved phase c).1
        (complete_io_pending_requests m moved phase c).2
unfolding complete_io_pending_requests
complete_io_pending_requests-Completed m moved phase c enough small =
    complete_responses-Completed m moved phase c.io_responses (record c { io_responses = [] })
      enough small

Step-Inv : {s t : Thread} → Step s t → Inv s → Inv t
unfolding issue_async_io_request issue_async_scan_request
Step-Inv {s} (Step.issue_read hash ids room) inv =
    let e = inv.counted in
    record {
      counted = omega arith;
      small = omega arith;
      once = λ i. let e' = inv.once i in ground arith;
    }
Step-Inv {s} (Step.issue_scan kind hash ids room) inv =
    let e = inv.counted in
    record {
      counted = omega arith;
      small = omega arith;
      once = λ i. let e' = inv.once i in ground arith;
    }
Step-Inv {s} (Step.respond before after r io split) inv =
    let e = inv.counted in
    let small = inv.small in
    let n : length s.in_flight ≡ length before + suc (length after) =
      ap length split ∙ length-append before (r ∷ after) in
    let n' = length-append before after in
    let n'' = length-append s.requests.io_responses ((r, io) ∷ []) in
    record {
      counted = omega arith;
      small = omega arith;
      once = λ i.
          let e' = inv.once i in
          let k =
            ap (times id_in_flight i) split ∙ times-append id_in_flight i before (r ∷ after) in
          let k' = times-append id_in_flight i before after in
          let k'' = times-append id_answered i s.requests.io_responses ((r, io) ∷ []) in
          omega arith;
    }
Step-Inv {s} (Step.complete m moved phase) inv =
    let e = inv.counted in
    let small = inv.small in
    let p =
      complete_io_pending_requests-Completed m moved phase s.requests (omega arith) (omega arith) in
    let n = p.counted in
    let none_left = ap length p.responses in
    record {
      counted = omega arith;
      small = omega arith;
      once = λ i.
          let e' = inv.once i in
          let k =
            times-append id_called i s.called
              (complete_io_pending_requests m moved phase s.requests).1 in
          let same = p.times_same i in
          let k' = ap (times id_answered i) p.responses in rw p.ids (omega arith);
    }

Reach-Inv : {t : Thread} → Reach t → Inv t
Reach-Inv Reach.start = record { counted = refl; small = omega arith; once = λ i. ground arith }
Reach-Inv (Reach.next r st) = Step-Inv st (Reach-Inv r)

-- In any sequence of requests of a thread, of responses in any order and of completions: `pending_io_cnt` is the number of requests
-- whose callback has not run, so it is 0 just when there is none.
pub pending_io_cnt-outstanding :
    {t : Thread}
    → Reach t
    → t.requests.pending_io_cnt ≡ length t.in_flight + length t.requests.io_responses
pending_io_cnt-outstanding reach = let inv = Reach-Inv reach in inv.counted
