-- ===== src/Special.antt =====
-- core/fishstore.h: HandleSpecialPhases and MarkAllPendingRequests, by which a thread follows the phases of
-- the store. A call runs on its own; what it asks of the disk and of the flush is in `Seen`.
pub mod Follow
pub mod Missed
use fish_store.Base.{
  ℕ, zero, suc, ◌+◌, ◌-◌, Bool, true, false, not, ◌==◌, leb, if◌then◌else◌, Option, none, some,
  List, [], ◌∷◌, ◌++◌,
}
use fish_store.System.{Phase, Action, SystemState, control, get_next_state}
use fish_store.Epoch.{LightEpoch, finish_thread_phase, has_thread_finished_phase, same_phase}
use fish_store.Batch.{Status}
use fish_store.Actions.{Results, Store, Event, global_move_to_next_state}

-- `ExecutionContext`: the pending requests are the hashes they are marked by.
pub record Context : Type 0 where
  pub phase : Phase
  pub version : ℕ
  pub guid : ℕ
  pub serial_num : ℕ
  pub offset : ℕ
  pub pending_ios : List ℕ

-- What the thread reads of other parts of the store; `grow_states` is what it finds the store to be, one time after
-- another, as it waits for the other threads at the end of a growth.
pub record Seen : Type 0 where
  pub fuzzy_index_complete : Status
  pub flushed_until_address : ℕ
  pub final_address : ℕ
  pub flush_pending : ℕ
  pub chunk_cleaned : Bool
  pub grow_states : List Store
  pub results : Results

-- What it does to other parts.
pub data Deed : Type 0 where
  try_lock_old : (hash : ℕ) → Deed
  write_cpr_context : Deed
  persistence_callback : (serial_num offset : ℕ) → Deed
  clean_hash_table_buckets : Deed
  split_hash_table_buckets : Deed
  moved : (events : List Event) → Deed

-- The thread's two contexts and its parser, the epoch table, and the store with the part of the checkpoint
-- that counts threads.
pub record World : Type 0 where
  pub current : Context
  pub previous : Context
  pub parser_no : ℕ
  pub epoch : LightEpoch
  pub store : Store
  pub num_threads : ℕ
  pub guids : ℕ → ℕ
  pub persistence_callback_given : Bool
  pub deeds : List Deed

abbrev pub did : World → List Deed → World
did w ds = record w { deeds = w.deeds ++ ds }

-- `GlobalMoveToNextState(current_state)`
abbrev pub moved_to : World → Option (Bool × Store × List Event) → Option World
moved_to w none = none
moved_to w (some (won, s, events)) = some (did (record w { store = s }) (Deed.moved events ∷ []))

unfoldable pub move_on : Seen → SystemState → World → Option World
move_on seen current w = moved_to w (global_move_to_next_state seen.results w.store current)

-- The thread finishes a phase; the last one to do so moves the store on.
unfoldable pub finish : Seen → ℕ → Phase → SystemState → World → Option World
unfolding move_on
finish seen t p current w =
    let (epoch, all) = finish_thread_phase w.epoch t p in
    let w' = record w { epoch = epoch } in
    let moved = move_on seen current w' in if all then moved else some w'

-- `MarkAllPendingRequests`
unfoldable pub mark_all_pending_requests : List ℕ → List Deed
mark_all_pending_requests [] = []
mark_all_pending_requests (hash ∷ hashes) =
    Deed.try_lock_old hash ∷ mark_all_pending_requests hashes

abbrev pub is_empty : List ℕ → Bool
is_empty [] = true
is_empty (x ∷ xs) = false

-- The contexts are swapped, and the new one begins in a phase.
unfoldable pub swap_contexts : Phase → ℕ → World → World
swap_contexts p v w = record w {
  current = record {
    phase = p;
    version = v;
    guid = w.current.guid;
    serial_num = w.current.serial_num;
    offset = w.current.offset;
    pending_ios = [];
  };
  previous = w.current;
}

abbrev pub put_phase : Phase → World → World
put_phase p w = record w { current = record w.current { phase = p } }

-- The index is on disk, or its checkpoint failed.
unfoldable pub index_done : Action → Seen → ℕ → SystemState → World → Option World
unfolding finish
index_done Action.checkpoint_index seen t current w =
    finish seen t Phase.index_chkpt current (put_phase Phase.rest w)
index_done _ seen t current w = move_on seen current w

unfoldable pub index_settled : Status → Seen → ℕ → SystemState → World → Option World
unfolding index_done
index_settled Status.pending seen t current w = some w
index_settled Status.ok seen t current w = index_done current.action seen t current w
index_settled _ seen t current w =
    index_done current.action seen t current (record w { store = record w.store { failed = true } })

unfoldable pub flushed : Seen → Store → Bool
flushed seen s =
    if s.fold_over_snapshot
    then leb seen.final_address seen.flushed_until_address
    else seen.flush_pending == 0

-- The phases of the checkpoints, by the current phase; `before` is the previous one.
unfoldable pub on_checkpoint : Phase → Phase → Seen → ℕ → SystemState → World → Option World
unfolding finish
on_checkpoint Phase.prep_index_chkpt before seen t current w =
    let acked = finish seen t Phase.prep_index_chkpt current w in
    if same_phase before Phase.rest then acked else some w
on_checkpoint Phase.index_chkpt before seen t current w =
    index_settled seen.fuzzy_index_complete seen t current w
on_checkpoint Phase.prepare before seen t current w =
    let marked = record w {
      num_threads = w.num_threads + 1;
      guids = λ u. if u == t then w.current.guid else w.guids u;
    } in
    let acked =
      finish seen t Phase.prepare current
        (did marked (mark_all_pending_requests w.current.pending_ios)) in
    if same_phase before Phase.prepare then some w else acked
on_checkpoint Phase.in_progress before seen t current w =
    let acked =
      finish seen t Phase.in_progress current (swap_contexts Phase.in_progress current.version w) in
    if same_phase before Phase.prepare then acked else some w
on_checkpoint Phase.wait_pending before seen t current w =
    let acked = finish seen t Phase.wait_pending current w in
    if has_thread_finished_phase w.epoch t Phase.wait_pending
    then some w
    else if is_empty w.previous.pending_ios
    then acked
    else some w
on_checkpoint Phase.wait_flush before seen t current w =
    let acked = finish seen t Phase.wait_flush current (did w (Deed.write_cpr_context ∷ [])) in
    if has_thread_finished_phase w.epoch t Phase.wait_flush
    then some w
    else if flushed seen w.store
    then acked
    else some w
on_checkpoint Phase.persistence_callback before seen t current w =
    let told =
      if w.persistence_callback_given
      then did w (Deed.persistence_callback w.previous.serial_num w.previous.offset ∷ [])
      else w in
    let acked = finish seen t Phase.persistence_callback current (put_phase Phase.rest told) in
    if same_phase before Phase.wait_flush then acked else some w
on_checkpoint _ before seen t current w = some w

unfoldable pub on_gc : Phase → Phase → Seen → ℕ → SystemState → World → Option World
unfolding finish
on_gc Phase.gc_io_pending before seen t current w =
    let w' =
      if same_phase before Phase.rest
      then swap_contexts Phase.gc_io_pending current.version w
      else w in
    let acked = finish seen t Phase.gc_io_pending current w' in
    if has_thread_finished_phase w'.epoch t Phase.gc_io_pending
    then some w'
    else if is_empty w'.previous.pending_ios
    then acked
    else some w'
on_gc Phase.gc_in_progress before seen t current w =
    let w' = did w (Deed.clean_hash_table_buckets ∷ []) in
    let acked = finish seen t Phase.gc_in_progress current (put_phase Phase.rest w') in
    if has_thread_finished_phase w.epoch t Phase.gc_in_progress
    then some w
    else if seen.chunk_cleaned
    then some w'
    else acked
on_gc _ before seen t current w = some w

-- The end of `SplitHashTableBuckets`: a thread that is not the last one spins until the others have moved the
-- store on; `none` where they do not in what it reads.
unfoldable pub spin : List Store → World → Option World
spin [] w = none
spin (s ∷ later) w =
    let again = spin later w in
    if same_phase s.system_state.phase Phase.grow_in_progress
    then again
    else some (record w { store = s })

unfoldable pub finish_grow : Seen → ℕ → World → Option World
unfolding move_on spin
finish_grow seen t w =
    let (epoch, all) = finish_thread_phase w.epoch t Phase.grow_in_progress in
    let w' = record w { epoch = epoch } in
    let moved =
      move_on seen
        (record {
          action = Action.grow_index;
          phase = Phase.grow_in_progress;
          version = w.current.version;
        })
        w' in
    let waited = spin seen.grow_states w' in if all then moved else waited

unfoldable pub on_grow : Phase → Phase → Seen → ℕ → SystemState → World → Option World
unfolding finish finish_grow
on_grow Phase.grow_prepare before seen t current w =
    let acked = finish seen t Phase.grow_prepare current w in
    if same_phase before Phase.rest then acked else some w
on_grow Phase.grow_in_progress before seen t current w =
    finish_grow seen t (put_phase Phase.rest (did w (Deed.split_hash_table_buckets ∷ [])))
on_grow _ before seen t current w = some w

unfoldable pub on_parser_shift : Phase → Phase → Seen → ℕ → SystemState → World → Option World
unfolding finish
on_parser_shift Phase.ps_pending before seen t current w =
    let w' =
      if same_phase before Phase.rest
      then put_phase Phase.ps_pending (record w { parser_no = w.store.parser_no })
      else w in
    finish seen t Phase.ps_pending current w'
on_parser_shift _ before seen t current w = some w

unfoldable pub on_phase : Action → Phase → Phase → Seen → ℕ → SystemState → World → Option World
unfolding on_checkpoint on_gc on_grow on_parser_shift
on_phase Action.checkpoint_full = on_checkpoint
on_phase Action.checkpoint_index = on_checkpoint
on_phase Action.checkpoint_hybrid_log = on_checkpoint
on_phase Action.gc = on_gc
on_phase Action.grow_index = on_grow
on_phase Action.parser_shift = on_parser_shift
on_phase _ = λ p before seen t current w. some w

-- The end of a round of the loop.
abbrev pub arrive : SystemState → World → World
arrive current w = record w {
  current = record w.current { phase = current.phase; version = current.version };
}

-- The transition that is identified: to the next state, or to the final one again.
abbrev pub identify : SystemState → SystemState → Option SystemState
identify final previous =
    if control previous == control final then some final else get_next_state previous

abbrev pub end_round :
    SystemState
    → SystemState
    → (Option SystemState → World → Option World)
    → Option World
    → Option World
end_round final c later none = none
end_round final c later (some w) =
    if control c == control final then some (arrive c w) else later (some c) (arrive c w)

-- A round with no next state only goes on to the next round.
abbrev pub round :
    SystemState
    → Phase
    → Seen
    → ℕ
    → World
    → (Option SystemState → World → Option World)
    → Option SystemState
    → Option World
round final before seen t w later none = later none w
round final before seen t w later (some c) =
    end_round final c later (on_phase c.action c.phase before seen t c w)

-- The loop; `none` where the rounds run out. A previous state that is `none` is `SystemState{UINT64_MAX}`, whose
-- next state is itself: no branch is taken, and the loop goes on. What it then writes to the thread's phase is no
-- phase, and is not kept.
unfoldable pub follow : ℕ → Seen → ℕ → SystemState → Option SystemState → World → Option World
unfolding on_phase
follow zero seen t final previous w = none
follow (suc rounds) seen t final none w = follow rounds seen t final none w
follow (suc rounds) seen t final (some previous) w =
    round final previous.phase seen t w (λ c v. follow rounds seen t final c v)
      (identify final previous)

unfoldable pub handle_special_phases : ℕ → Seen → ℕ → World → Option World
unfolding follow
handle_special_phases rounds seen t w =
    let final = w.store.system_state in
    let previous : SystemState = record {
      action = final.action;
      phase = w.current.phase;
      version = w.current.version;
    } in
    let followed = follow rounds seen t final (some previous) w in
    if same_phase final.phase Phase.rest
    then some
        (record w { current = record w.current { phase = Phase.rest; version = final.version } })
    else followed
