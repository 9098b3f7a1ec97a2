-- ===== src/Actions.antt =====
-- core/fishstore.h: starting an action and moving it from phase to phase.
-- What a call asks of other parts of the store, of the disk or of the host is an `Event`, in order;
-- whether the disk does it is in `Results`. Assertions are not modelled.
pub mod Run
pub mod Start
use fish_store.Base.{
  ℕ, ◌-◌, Bool, true, false, not, ◌==◌, ◌&&◌, ◌||◌, if◌then◌else◌, Option, none, some, List, [],
  ◌∷◌, ◌++◌,
}
use fish_store.System.{Phase, Action, SystemState, control, get_next_state}

pub record Results : Type 0 where
  pub fuzzy_index : Bool
  pub index_metadata : Bool
  pub snapshot_open : Bool
  pub cpr_metadata : Bool

-- The configuration, and which callbacks the host gave.
pub record Store : Type 0 where
  pub system_state : SystemState
  pub failed : Bool
  pub fold_over_snapshot : Bool
  pub index_callback : Bool
  pub complete_callback : Bool
  pub grow_callback : Bool
  pub table_version : ℕ
  pub new_version : ℕ
  pub parser_no : ℕ

pub data Event : Type 0 where
  reset_phase_finished : Event
  create_directories initialize_checkpoint initialize_locks : Event
  checkpoint_fuzzy_index count_overflow_buckets write_index_metadata index_persisted : Event
  shift_read_only_to_tail read_tail open_snapshot flush_to_snapshot write_cpr_metadata : Event
  write_naming checkpoint_done free_locks : Event
  set_begin_address initialize_gc truncate collected : Event
  initialize_grow initialize_table grown : Event
  set_actions clear_actions parser_shifted refresh : Event
  apply_actions : (parser : ℕ) → Event

abbrev pub idle : Store → SystemState
idle s = record {
  action = Action.none_action;
  phase = Phase.rest;
  version = s.system_state.version;
}

abbrev pub put_state : Store → Action → Phase → ℕ → Store
put_state s a p v = record s { system_state = record { action = a; phase = p; version = v } }

abbrev done : Store → Store
done s = put_state s Action.none_action Phase.rest s.system_state.version

abbrev fail_unless : Bool → Store → Store
fail_unless ok s = record s { failed = s.failed || not ok }

abbrev host : Bool → Event → List Event
host given e = if given then e ∷ [] else []

-- The last phase of a checkpoint, of the index alone or not.
unfoldable pub checkpoint_rest : Action → Results → Store → Store × List Event
checkpoint_rest Action.checkpoint_index r s = (
  record (done (fail_unless r.index_metadata s)) { index_callback = false },
  Event.count_overflow_buckets
      ∷ Event.write_index_metadata
      ∷ Event.checkpoint_done
      ∷ host s.index_callback Event.index_persisted,
)
checkpoint_rest _ r s =
    (record (done s) { index_callback = false }, Event.checkpoint_done ∷ Event.free_locks ∷ [])

-- What the thread does that moved a checkpoint to a phase.
unfoldable pub enter_checkpoint : Action → Phase → Results → Store → Store × List Event
unfolding checkpoint_rest
enter_checkpoint a Phase.index_chkpt r s =
    (fail_unless r.fuzzy_index s, Event.checkpoint_fuzzy_index ∷ [])
enter_checkpoint a Phase.prepare r s = (
  fail_unless r.index_metadata s,
  Event.count_overflow_buckets
      ∷ Event.write_index_metadata
      ∷ host s.index_callback Event.index_persisted,
)
enter_checkpoint a Phase.wait_flush r s =
    if s.fold_over_snapshot
    then (
      fail_unless r.cpr_metadata s,
      Event.shift_read_only_to_tail ∷ Event.write_cpr_metadata ∷ [],
    )
    else (
      fail_unless r.cpr_metadata (fail_unless r.snapshot_open s),
      Event.read_tail ∷ Event.open_snapshot ∷ Event.flush_to_snapshot ∷ Event.write_cpr_metadata
          ∷ [],
    )
enter_checkpoint a Phase.rest r s = checkpoint_rest a r s
enter_checkpoint a _ r s = (s, [])

unfoldable pub enter_gc : Phase → Store → Store × List Event
enter_gc Phase.gc_in_progress s = (s, Event.truncate ∷ [])
enter_gc Phase.rest s = (done s, host s.complete_callback Event.collected)
enter_gc _ s = (s, [])

unfoldable pub enter_grow : Phase → Store → Store × List Event
enter_grow Phase.grow_in_progress s = (record s { table_version = s.new_version }, [])
enter_grow Phase.rest s = (done s, host s.grow_callback Event.grown)
enter_grow _ s = (s, [])

unfoldable pub enter_parser_shift : Phase → Store → Store × List Event
enter_parser_shift Phase.rest s = (
  done s,
  Event.apply_actions (1 - s.parser_no) ∷ Event.parser_shifted ∷ Event.clear_actions ∷ [],
)
enter_parser_shift _ s = (s, [])

unfoldable pub enter : Action → Phase → Results → Store → Store × List Event
unfolding enter_checkpoint enter_gc enter_grow enter_parser_shift
enter Action.checkpoint_full p r s = enter_checkpoint Action.checkpoint_full p r s
enter Action.checkpoint_index p r s = enter_checkpoint Action.checkpoint_index p r s
enter Action.checkpoint_hybrid_log p r s = enter_checkpoint Action.checkpoint_hybrid_log p r s
enter Action.gc p r s = enter_gc p s
enter Action.grow_index p r s = enter_grow p s
enter Action.parser_shift p r s = enter_parser_shift p s
enter _ p r s = (s, [])

-- The move from `current` to its next state, if there is one: a compare-exchange, then the new phase.
abbrev pub move :
    Results → Store → SystemState → Option SystemState → Option (Bool × Store × List Event)
move r s current none = none
move r s current (some next) =
    let (t, events) = enter next.action next.phase r (record s { system_state = next }) in
    some (if control s.system_state == control current then (true, t, events) else (false, s, []))

-- `GlobalMoveToNextState(current_state)`; `none` where the next state is `SystemState(UINT64_MAX)`, which an assertion in
-- `GetNextState` rules out.
unfoldable pub global_move_to_next_state :
    Results → Store → SystemState → Option (Bool × Store × List Event)
unfolding enter
global_move_to_next_state r s current = move r s current (get_next_state current)

-- How each call starts its action: a compare-exchange of the idle state, some work, and then the
-- first phase. The result is whether the action has started, and the store.
unfoldable pub acquire :
    Store → Action → (Store → Store × List Event) → Phase → List Event → Bool × Store × List Event
acquire s a work p last =
    let v = s.system_state.version in
    let (s', events) = work (put_state s a Phase.rest v) in
    if control s.system_state == control (idle s)
    then (true, put_state s' a p v, events ++ last)
    else (false, s, [])

-- In the calls, `given` is whether the host gave a callback.
unfoldable pub checkpoint : Bool → Store → Bool × Store × List Event
checkpoint given s =
    acquire s Action.checkpoint_full
      (λ t. (
        record t { failed = false; index_callback = given },
        Event.reset_phase_finished ∷ Event.create_directories ∷ Event.read_tail
            ∷ Event.initialize_checkpoint ∷ Event.initialize_locks ∷ [],
      ))
      Phase.prep_index_chkpt []

unfoldable pub checkpoint_index : Bool → Store → Bool × Store × List Event
checkpoint_index given s =
    acquire s Action.checkpoint_index
      (λ t. (
        record t { failed = false; index_callback = given },
        Event.reset_phase_finished ∷ Event.create_directories ∷ Event.read_tail
            ∷ Event.initialize_checkpoint ∷ [],
      ))
      Phase.prep_index_chkpt []

unfoldable pub checkpoint_hybrid_log : Store → Bool × Store × List Event
checkpoint_hybrid_log s =
    acquire s Action.checkpoint_hybrid_log
      (λ t. (
        record t { failed = false; index_callback = false },
        Event.reset_phase_finished ∷ Event.create_directories ∷ Event.write_naming
            ∷ Event.initialize_checkpoint ∷ Event.initialize_locks ∷ [],
      ))
      Phase.prepare []

unfoldable pub shift_begin_address : Bool → Store → Bool × Store × List Event
shift_begin_address given s =
    acquire s Action.gc
      (λ t. (
        record t { complete_callback = given },
        Event.set_begin_address ∷ Event.reset_phase_finished ∷ Event.initialize_gc ∷ [],
      ))
      Phase.gc_io_pending []

unfoldable pub grow_index : Bool → Store → Bool × Store × List Event
grow_index given s =
    acquire s Action.grow_index
      (λ t. (
        record t { new_version = 1 - t.table_version; grow_callback = given },
        Event.reset_phase_finished ∷ Event.initialize_grow ∷ Event.initialize_table ∷ [],
      ))
      Phase.grow_prepare (Event.refresh ∷ [])

-- The parsers are 0 and 1.
unfoldable pub apply_parser_shift : Store → Bool × Store × List Event
apply_parser_shift s =
    acquire s Action.parser_shift
      (λ t. (
        record t { parser_no = 1 - t.parser_no },
        Event.set_actions
            ∷ Event.reset_phase_finished
            ∷ Event.read_tail
            ∷ Event.apply_actions (1 - t.parser_no)
            ∷ [],
      ))
      Phase.ps_pending (Event.refresh ∷ [])

-- The call for each action; no call starts the others.
unfoldable pub start_action : Action → Bool → Store → Bool × Store × List Event
unfolding checkpoint checkpoint_index checkpoint_hybrid_log shift_begin_address grow_index
    apply_parser_shift
start_action Action.checkpoint_full given s = checkpoint given s
start_action Action.checkpoint_index given s = checkpoint_index given s
start_action Action.checkpoint_hybrid_log given s = checkpoint_hybrid_log s
start_action Action.gc given s = shift_begin_address given s
start_action Action.grow_index given s = grow_index given s
start_action Action.parser_shift given s = apply_parser_shift s
start_action _ given s = (false, s, [])

abbrev pub IsAction : Action → Type 0
IsAction Action.none_action = ⊥
IsAction Action.recover = ⊥
IsAction _ = Unit
