-- ===== src/Tests/Epochs.antt =====
-- core/light_epoch.h: a thread protects itself, an action is registered, and a bump drains it.
use fish_store.Base.{replicate, ℕ, ◌≡◌, ◌==◌, if◌then◌else◌, refl, List, [], ◌∷◌, arith}
use fish_store.System.{Phase}
use fish_store.Epoch.{
  unprotect, bump_with_action, register, register_pass, try_push, Row, Slot, free_slot, LightEpoch,
  initialize, protect, drain, bump_current_epoch, bump_with_action,
}
use fish_store.Epoch.Drain.{count_occupied, select_ready, clear_ready, drain-ready}
use fish_store.Epoch.Safety.{Keeps}
use fish_store.Epoch.Calls.{Call, call, Reach, Reach-Keeps}

-- Thread 1 is in epoch 1, and thread 2 in epoch 2.
abbrev rows : ℕ → Row
rows j = record {
  local_current_epoch = if j == 1 then 1 else if j == 2 then 2 else 0;
  reentrant = 0;
  phase_finished = Phase.rest;
}

abbrev two_threads : LightEpoch
two_threads = record {
  num_entries = 3;
  table = rows;
  drain_list =
      record { epoch = 1; context = 7 } ∷ free_slot ∷ record { epoch = 0; context = 5 } ∷ [];
  drain_count = 2;
  current_epoch = 3;
  safe_to_reclaim_epoch = 0;
}

abbrev protected : LightEpoch
protected = protect (initialize 3) 1

-- Thread 1 is in epoch 1 when action 7 is registered for it; it leaves, and the next bump performs it.
abbrev registered : LightEpoch
registered = record (bump_current_epoch protected).0 {
  drain_list = record { epoch = 1; context = 7 } ∷ replicate 255 free_slot;
  drain_count = 1;
}

abbrev performed : LightEpoch × List Slot
performed = bump_current_epoch (unprotect registered 1)

performed-Reach : Reach 3 performed.0 performed.1
unfolding call bump_with_action bump_current_epoch register register_pass try_push initialize
    protect unprotect
performed-Reach =
    Reach.then_call Call.bumps performed
      (Reach.then_call (Call.unprotects 1) (unprotect registered 1, [])
        (Reach.then_call (Call.registers 1 7) (registered, [])
          (Reach.then_call (Call.protects 1) (protected, []) Reach.start (omega arith) refl)
          (omega arith) refl)
        (omega arith) refl)
      (omega arith) refl

Reach-Keeps_example : Keeps performed
Reach-Keeps_example = Reach-Keeps performed-Reach

drain-ready_example :
    ((drain two_threads 3).1
      ≡ select_ready (drain two_threads 3).0.safe_to_reclaim_epoch two_threads.drain_list)
    × ((drain two_threads 3).0.drain_list
        ≡ clear_ready (drain two_threads 3).0.safe_to_reclaim_epoch two_threads.drain_list)
    × ((drain two_threads 3).0.drain_count ≡ count_occupied (drain two_threads 3).0.drain_list)
drain-ready_example = drain-ready two_threads 3 (omega arith) (omega arith) refl (omega arith)

-- The slots are those that `Initialize` makes.
abbrev slots_left : LightEpoch
slots_left = record two_threads { drain_list = free_slot ∷ free_slot ∷ []; drain_count = 0 }
