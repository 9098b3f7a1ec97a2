-- ===== src/Epoch.antt =====
-- core/light_epoch.h: the epoch table, the epoch that is safe to reclaim, and the drain list.
-- A call runs on its own here: what another thread does between two of its accesses is another call.
-- `Thread::id()` is an argument. A callback with its context is a number; it runs when it is `fired`,
-- and none that the store registers calls the epoch framework.
pub mod Oldest
pub mod Drain
pub mod Register
pub mod Safety
pub mod Calls
pub mod Action
pub mod Reentrant
pub mod Phases
pub mod Unseen
use fish_store.Base.{
  ℕ, zero, suc, ◌+◌, ◌-◌, ◌%◌, ◌^◌, Bool, true, false, ◌&&◌, ◌||◌, not, ltb, leb, ◌==◌,
  if◌then◌else◌, Option, none, some, List, [], ◌∷◌, ◌++◌, replicate,
}
use fish_store.Address.{u32, u64}
use fish_store.System.{Phase, phase_code}

abbrev pub unprotected : ℕ
unprotected = 0

abbrev pub free_epoch : ℕ
free_epoch = 2 ^ 64 - 1

abbrev pub drain_list_size : ℕ
drain_list_size = 256

-- `Entry`
pub record Row : Type 0 where
  pub local_current_epoch : ℕ
  pub reentrant : ℕ
  pub phase_finished : Phase

-- `EpochAction`; the context 0 stands for the null pointers.
pub record Slot : Type 0 where
  pub epoch : ℕ
  pub context : ℕ

abbrev pub free_slot : Slot
free_slot = record { epoch = free_epoch; context = 0 }

pub record LightEpoch : Type 0 where
  pub num_entries : ℕ
  pub table : ℕ → Row
  pub drain_list : List Slot
  pub drain_count : ℕ
  pub current_epoch : ℕ
  pub safe_to_reclaim_epoch : ℕ

-- `Initialize(size)`
unfoldable pub initialize : ℕ → LightEpoch
initialize size = record {
  num_entries = size;
  table = λ _. record { local_current_epoch = 0; reentrant = 0; phase_finished = Phase.rest };
  drain_list = replicate drain_list_size free_slot;
  drain_count = 0;
  current_epoch = 1;
  safe_to_reclaim_epoch = 0;
}

-- The table with row `i` replaced.
abbrev pub put_row : (ℕ → Row) → ℕ → Row → ℕ → Row
put_row table i r j = if j == i then r else table j

abbrev pub set_epoch : LightEpoch → ℕ → ℕ → LightEpoch
set_epoch s t e = record s {
  table = put_row s.table t (record (s.table t) { local_current_epoch = e });
}

-- `EpochAction::TryPop`, `TryPush` and `TrySwap`: success, the slot afterwards, and what is fired.
unfoldable pub try_pop : Slot → ℕ → Bool × Slot × List Slot
try_pop a expected = if a.epoch == expected then (true, free_slot, a ∷ []) else (false, a, [])

unfoldable pub try_push : Slot → ℕ → ℕ → Bool × Slot
try_push a prior context =
    if a.epoch == free_epoch
    then (true, record { epoch = prior; context = context })
    else (false, a)

unfoldable pub try_swap : Slot → ℕ → ℕ → ℕ → Bool × Slot × List Slot
try_swap a expected prior context =
    if a.epoch == expected
    then (true, record { epoch = prior; context = context }, a ∷ [])
    else (false, a, [])

-- The loop of `ComputeNewSafeToReclaimEpoch`, at `index` with some rounds to go.
unfoldable pub oldest : (ℕ → Row) → ℕ → ℕ → ℕ → ℕ
oldest table zero index acc = acc
oldest table (suc rounds) index acc =
    let e = (table index).local_current_epoch in
    oldest table rounds (index + 1) (if not (e == unprotected) && ltb e acc then e else acc)

unfoldable pub compute_new_safe_to_reclaim_epoch : LightEpoch → ℕ → LightEpoch
unfolding oldest
compute_new_safe_to_reclaim_epoch s current = record s {
  safe_to_reclaim_epoch = (oldest s.table s.num_entries 1 current + u64 - 1) % u64;
}

pub record Drained : Type 0 where
  pub slots : List Slot
  pub count : ℕ
  pub fired : List Slot

abbrev pub decrement : ℕ → ℕ
decrement count = (count + u32 - 1) % u32

abbrev pub prepend : Slot → List Slot → Drained → Drained
prepend a fired d = record d { slots = a ∷ d.slots; fired = fired ++ d.fired }

-- The loop of `Drain` over the drain list; the loop ends early where the count falls to zero.
unfoldable pub drain_slots : ℕ → List Slot → ℕ → Drained
unfolding try_pop
drain_slots safe [] count = record { slots = []; count = count; fired = [] }
drain_slots safe (a ∷ as') count =
    let skipped = drain_slots safe as' count in
    let popped = drain_slots safe as' (decrement count) in
    let (success, a', fired) = try_pop a a.epoch in
    if leb a.epoch safe
    then (if success
        then (if decrement count == 0
            then record { slots = a' ∷ as'; count = 0; fired = fired }
            else prepend a' fired popped)
        else prepend a' fired skipped)
    else prepend a [] skipped

-- `Drain(nextEpoch)`: the new state and the actions that were performed.
unfoldable pub drain : LightEpoch → ℕ → LightEpoch × List Slot
unfolding compute_new_safe_to_reclaim_epoch drain_slots
drain s next =
    let s' = compute_new_safe_to_reclaim_epoch s next in
    let d = drain_slots s'.safe_to_reclaim_epoch s'.drain_list s'.drain_count in
    (record s' { drain_list = d.slots; drain_count = d.count }, d.fired)

unfoldable pub protect : LightEpoch → ℕ → LightEpoch
protect s t = set_epoch s t s.current_epoch

unfoldable pub protect_and_drain : LightEpoch → ℕ → LightEpoch × List Slot
unfolding protect drain
protect_and_drain s t =
    let s' = protect s t in if ltb 0 s'.drain_count then drain s' s.current_epoch else (s', [])

unfoldable pub reentrant_protect : LightEpoch → ℕ → LightEpoch
reentrant_protect s t =
    let r = s.table t in
    if not (r.local_current_epoch == unprotected) then s else record s {
      table =
          put_row s.table t (record r {
            local_current_epoch = s.current_epoch;
            reentrant = (r.reentrant + 1) % u32;
          });
    }

unfoldable pub is_protected : LightEpoch → ℕ → Bool
is_protected s t = not ((s.table t).local_current_epoch == unprotected)

unfoldable pub unprotect : LightEpoch → ℕ → LightEpoch
unprotect s t = set_epoch s t unprotected

unfoldable pub reentrant_unprotect : LightEpoch → ℕ → LightEpoch
reentrant_unprotect s t =
    let r = s.table t in
    let left = decrement r.reentrant in
    record s {
      table = put_row s.table t (record r {
        reentrant = left;
        local_current_epoch = if left == 0 then unprotected else r.local_current_epoch;
      });
    }

-- `BumpCurrentEpoch()`; the result it returns is the new `current_epoch`.
unfoldable pub bump_current_epoch : LightEpoch → LightEpoch × List Slot
unfolding drain
bump_current_epoch s =
    let next = (s.current_epoch + 1) % u64 in
    let s' = record s { current_epoch = next } in
    if ltb 0 s'.drain_count then drain s' next else (s', [])

-- One pass of the loop of `BumpCurrentEpoch(callback, context)` over the slots: the slots, whether a
-- free one was taken, and what is fired. `none`: no slot could be taken.
unfoldable pub register_pass : ℕ → ℕ → ℕ → List Slot → Option (List Slot × Bool × List Slot)
unfolding try_push try_swap
register_pass safe prior context [] = none
register_pass safe prior context (a ∷ as') =
    let later : Option (List Slot × Bool × List Slot) =
      elim (register_pass safe prior context as') [
        | none ↦ none
        | some (bs, pushed, fired) ↦ some (a ∷ bs, pushed, fired)
      ] in
    if a.epoch == free_epoch
    then (let (success, a') = try_push a prior context in
        if success then some (a' ∷ as', true, []) else later)
    else if leb a.epoch safe
    then (let (success, a', fired) = try_swap a a.epoch prior context in
        if success then some (a' ∷ as', false, fired) else later)
    else later

-- The passes are repeated until one takes a slot; alone, a pass that takes none changes nothing.
unfoldable pub register : ℕ → ℕ → ℕ → ℕ → List Slot → Option (List Slot × Bool × List Slot)
unfolding register_pass
register zero safe prior context slots = none
register (suc passes) safe prior context slots = elim (register_pass safe prior context slots) [
  | none ↦ register passes safe prior context slots
  | some r ↦ some r
]

-- `BumpCurrentEpoch(callback, context)`
unfoldable pub bump_with_action : ℕ → LightEpoch → ℕ → Option (LightEpoch × List Slot)
bump_with_action passes s context =
    let (s', fired) = bump_current_epoch s in
    let prior = (s'.current_epoch + u64 - 1) % u64 in
    elim (register passes s'.safe_to_reclaim_epoch prior context s'.drain_list) [
      | none ↦ none
      | some (slots, pushed, swapped) ↦ some (
        record s' {
          drain_list = slots;
          drain_count = if pushed then (s'.drain_count + 1) % u32 else s'.drain_count;
        },
        fired ++ swapped,
      )
    ]

unfoldable pub is_safe_to_reclaim : LightEpoch → ℕ → Bool
is_safe_to_reclaim s e = leb e s.safe_to_reclaim_epoch

-- `ResetPhaseFinished`, without its assertion.
unfoldable pub reset_phase_finished : LightEpoch → LightEpoch
reset_phase_finished s = record s {
  table = λ i.
      if leb 1 i && leb i s.num_entries
      then record (s.table i) { phase_finished = Phase.rest }
      else s.table i;
}

abbrev pub same_phase : Phase → Phase → Bool
same_phase p q = phase_code p == phase_code q

-- The loop of `FinishThreadPhase`.
unfoldable pub all_finished : (ℕ → Row) → ℕ → ℕ → Phase → Bool
all_finished table zero index p = true
all_finished table (suc rounds) index p =
    let r = table index in
    let rest = all_finished table rounds (index + 1) p in
    if not (r.local_current_epoch == 0) && not (same_phase r.phase_finished p) then false else rest

unfoldable pub finish_thread_phase : LightEpoch → ℕ → Phase → LightEpoch × Bool
unfolding all_finished
finish_thread_phase s t p =
    let table = put_row s.table t (record (s.table t) { phase_finished = p }) in
    (record s { table = table }, all_finished table s.num_entries 1 p)

unfoldable pub has_thread_finished_phase : LightEpoch → ℕ → Phase → Bool
has_thread_finished_phase s t p = same_phase (s.table t).phase_finished p
