-- ===== src/Batch.antt =====
-- core/status.h, and what core/hash_table.h and core/malloc_fixed_page_size.h do alike for their asynchronous
-- requests: a count of the requests that are pending, whether the batch is pending, and whether it failed.
-- The disk is a parameter: it answers each request when it is issued, and later runs its callback with a
-- result. A callback's arguments are its result and, for the last one, the answer of the file's Close.
pub mod Settle
use fish_store.Base.{
  ℕ, zero, suc, ◌+◌, ◌-◌, ◌%◌, Bool, true, false, not, ◌&&◌, ◌||◌, ◌==◌, if◌then◌else◌, Option,
  none, some, List, [], ◌∷◌, ◌++◌,
}
use fish_store.Address.{u64}

pub data Status : Type 0 where
  ok : Status
  pending : Status
  not_found : Status
  out_of_memory : Status
  io_error : Status
  corruption : Status
  aborted : Status

abbrev pub is_ok : Status → Bool
is_ok Status.ok = true
is_ok _ = false

pub record Batch : Type 0 where
  pub requests : ℕ
  pub is_pending : Bool
  pub failed : Bool

-- What a callback is run with.
pub record Answer : Type 0 where
  pub result : Status
  pub close : Status

unfoldable pub begin_batch : ℕ → Batch
begin_batch n = record { requests = n; is_pending = true; failed = false }

unfoldable pub callback : Answer → Batch → Batch
callback a b =
    let left = (b.requests + u64 - 1) % u64 in
    let failed = b.failed || not (is_ok a.result) in
    if left == 0
    then record { requests = left; is_pending = false; failed = failed || not (is_ok a.close) }
    else record { requests = left; is_pending = b.is_pending; failed = failed }

-- The callbacks that one `TryComplete` of the disk runs.
unfoldable pub callbacks : List Answer → Batch → Batch
unfolding callback
callbacks [] b = b
callbacks (a ∷ as') b = callbacks as' (callback a b)

abbrev pub outcome : Batch → Status
outcome b = if b.is_pending then Status.pending else if b.failed then Status.io_error else Status.ok

-- The loop of the calls that end a batch; `none` where they wait longer than the polls that are given.
unfoldable pub poll : Bool → List (List Answer) → Batch → Option (Status × Batch)
unfolding callbacks
poll wait [] b = if wait && b.is_pending then none else some (outcome b, b)
poll wait (as' ∷ polls) b =
    let later = poll wait polls (callbacks as' b) in
    if wait && b.is_pending then later else some (outcome b, b)

-- A call that ends a batch: one poll, and where it waits, further ones.
unfoldable pub complete : Bool → List Answer → List (List Answer) → Batch → Option (Status × Batch)
unfolding poll
complete wait first polls b = poll wait polls (callbacks first b)
