-- ===== src/Epoch/Calls.antt =====
-- core/light_epoch.h: any calls, in any order, by any threads.
use fish_store.Base.{
  ℕ, zero, suc, ◌+◌, ◌<◌, ◌≡◌, refl, sym, List, [], length, All, Option, some, inl, replicate,
  arith,
}
use fish_store.System.{Phase}
use fish_store.Epoch.{
  Slot, free_slot, free_epoch, LightEpoch, drain_list_size, protect, unprotect, protect_and_drain,
  reentrant_protect, reentrant_unprotect, bump_current_epoch, bump_with_action, initialize,
  finish_thread_phase,
}
use fish_store.Epoch.Drain.{count_occupied}
use fish_store.Epoch.Register.{IsPast}
use fish_store.Epoch.Safety.{
  IsSafe, Keeps, MayKeep, protect-IsSafe, unprotect-IsSafe, protect_and_drain-Keeps,
  reentrant_protect-IsSafe, reentrant_unprotect-IsSafe, finish_thread_phase-IsSafe,
  bump_current_epoch-Keeps, bump_with_action-Keeps,
}

pub data Call : Type 0 where
  protects : (thread : ℕ) → Call
  drains : (thread : ℕ) → Call
  unprotects : (thread : ℕ) → Call
  enters : (thread : ℕ) → Call
  leaves : (thread : ℕ) → Call
  finishes : (thread : ℕ) (phase : Phase) → Call
  bumps : Call
  registers : (passes context : ℕ) → Call

-- `none`: a registration that has not found a slot in its passes.
unfoldable pub call : Call → LightEpoch → Option (LightEpoch × List Slot)
call (Call.protects t) s = some (protect s t, [])
call (Call.drains t) s = some (protect_and_drain s t)
call (Call.unprotects t) s = some (unprotect s t, [])
call (Call.enters t) s = some (reentrant_protect s t, [])
call (Call.leaves t) s = some (reentrant_unprotect s t, [])
call (Call.finishes t p) s = some ((finish_thread_phase s t p).0, [])
call Call.bumps s = some (bump_current_epoch s)
call (Call.registers passes context) s = bump_with_action passes s context

call-MayKeep :
    (c : Call) (s : LightEpoch) → IsSafe s → s.current_epoch + 1 < free_epoch → MayKeep (call c s)
unfolding call
call-MayKeep (Call.protects t) s inv room = record { safe = protect-IsSafe inv t; gone = tt }
call-MayKeep (Call.drains t) s inv room = protect_and_drain-Keeps inv t
call-MayKeep (Call.unprotects t) s inv room = record { safe = unprotect-IsSafe inv t; gone = tt }
call-MayKeep (Call.enters t) s inv room = record {
  safe = reentrant_protect-IsSafe inv t;
  gone = tt;
}
call-MayKeep (Call.leaves t) s inv room = record {
  safe = reentrant_unprotect-IsSafe inv t;
  gone = tt;
}
call-MayKeep (Call.finishes t p) s inv room = record {
  safe = finish_thread_phase-IsSafe inv t p;
  gone = tt;
}
call-MayKeep Call.bumps s inv room = bump_current_epoch-Keeps inv room
call-MayKeep (Call.registers passes context) s inv room =
    bump_with_action-Keeps passes context inv room

free_slots :
    (n : ℕ)
    → (count_occupied (replicate n free_slot) ≡ 0)
      × (length (replicate n free_slot) ≡ n)
      × All (IsPast 1) (replicate n free_slot)
free_slots zero = (refl, refl, tt)
free_slots (suc n) =
    let (none_taken, width, past) = free_slots n in
    (ground (arith, none_taken), omega (arith, width), (inl refl, past))

initialize-IsSafe : (size : ℕ) → IsSafe (initialize size)
unfolding initialize
initialize-IsSafe size =
    let (none_taken, width, past) = free_slots drain_list_size in
    record {
      behind = omega arith;
      bounded = omega arith;
      later = λ i lo hi used. absurd (used refl);
      entered = λ i. omega arith;
      counted = sym none_taken;
      few = omega (arith, width);
      past = past;
    }

-- The states that calls lead to while the current epoch has not reached the two reserved values.
pub data Reach (size : ℕ) : LightEpoch → List Slot → Type 0 where
  start : Reach size (initialize size) []
  then_call :
      {s : LightEpoch} {fired : List Slot} (c : Call) (r : LightEpoch × List Slot)
      → Reach size s fired
      → s.current_epoch + 1 < free_epoch
      → call c s ≡ some r
      → Reach size r.0 r.1

-- While the current epoch stays below the two reserved values: after any calls from the start, by any threads in any
-- order, the epoch that is safe to reclaim is before the current one and before that of every thread in an epoch whose id is
-- from 1 to the number of entries, the drain count is the number of the waiting actions; and what the last call
-- performed is of epochs that no thread with such an id is in any more, nor in an earlier one. The thread whose id is 0 is
-- not seen, and nothing is said of it.
pub Reach-Keeps :
    {size : ℕ} {s : LightEpoch} {fired : List Slot} → Reach size s fired → Keeps (s, fired)
Reach-Keeps {size} start = record { safe = initialize-IsSafe size; gone = tt }
Reach-Keeps (then_call {s} c r reach room e) =
    let kept = call-MayKeep c s (Reach-Keeps reach).safe room in rw e at kept
