-- ===== src/Tests/Pending.antt =====
-- core/fishstore.h: a read that goes to disk, its response and its callback.
use fish_store.Base.{◌+◌, ◌≡◌, refl, false, [], ◌∷◌, length, arith}
use fish_store.Query.{Memory}
use fish_store.Query.Disk.{IoContext}
use fish_store.Query.Pending.{OperationType, Request, issue_async_io_request}
use fish_store.Query.Outstanding.{Thread, Step, Reach, pending_io_cnt-outstanding}

abbrev no_records : Memory
no_records = record {
  word = λ a. 0;
  header = λ a. record { control = 0 };
  check = λ a. false;
  begin_address = 64;
  head_address = 64;
}

abbrev read_7 : Request
read_7 = record { io_id = 0; kind = OperationType.read; hash = 7 }

abbrev came_to_end : IoContext
came_to_end = record {
  address = 0;
  kpt_offset = 0;
  valid = 100;
  valid_offset = 100;
  available_bytes = 412;
}

abbrev answered : Thread
answered = record {
  requests = record {
    io_id = 1;
    pending_ios = (0, 7) ∷ [];
    pending_io_cnt = 1;
    io_responses = (read_7, came_to_end) ∷ [];
  };
  in_flight = [];
  called = [];
}

answered-Reach : Reach answered
unfolding issue_async_io_request
answered-Reach =
    Reach.next (Reach.next Reach.start (Step.issue_read 7 (omega arith) (omega arith)))
      (Step.respond [] [] read_7 came_to_end refl)

pending_io_cnt-outstanding_example :
    answered.requests.pending_io_cnt
    ≡ length answered.in_flight + length answered.requests.io_responses
pending_io_cnt-outstanding_example = pending_io_cnt-outstanding {t = answered} answered-Reach
