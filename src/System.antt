-- ===== src/System.antt =====
-- core/phase.h and core/state_transitions.h: the action, the phase and the version of the store,
-- packed into one word, and the transitions between them.
pub mod Cycle
pub mod Word
use fish_store.Base.{
  ℕ, zero, suc, ◌+◌, ◌*◌, ◌-◌, ◌/◌, ◌%◌, ◌^◌, Bool, true, false, ◌==◌, ◌&&◌, if◌then◌else◌, Option,
  none, some,
}
use fish_store.Address.{u32, u64}

pub data Phase : Type 0 where
  prep_index_chkpt index_chkpt prepare in_progress wait_pending wait_flush rest persistence_callback
        gc_io_pending gc_in_progress grow_prepare grow_in_progress ps_pending invalid :
      Phase

pub data Action : Type 0 where
  none_action checkpoint_full checkpoint_index checkpoint_hybrid_log recover gc grow_index
        parser_shift :
      Action

-- The values of the two enumerations, which are one byte each.
unfoldable pub phase_code : Phase → ℕ
phase_code Phase.prep_index_chkpt = 0
phase_code Phase.index_chkpt = 1
phase_code Phase.prepare = 2
phase_code Phase.in_progress = 3
phase_code Phase.wait_pending = 4
phase_code Phase.wait_flush = 5
phase_code Phase.rest = 6
phase_code Phase.persistence_callback = 7
phase_code Phase.gc_io_pending = 8
phase_code Phase.gc_in_progress = 9
phase_code Phase.grow_prepare = 10
phase_code Phase.grow_in_progress = 11
phase_code Phase.ps_pending = 12
phase_code Phase.invalid = 13

unfoldable pub action_code : Action → ℕ
action_code Action.none_action = 0
action_code Action.checkpoint_full = 1
action_code Action.checkpoint_index = 2
action_code Action.checkpoint_hybrid_log = 3
action_code Action.recover = 4
action_code Action.gc = 5
action_code Action.grow_index = 6
action_code Action.parser_shift = 7

pub record SystemState : Type 0 where
  pub action : Action
  pub phase : Phase
  pub version : ℕ

-- The union's `control_`: the action in byte 0, the phase in byte 1, the version in bytes 4 to 7.
unfoldable pub control : SystemState → ℕ
unfolding phase_code action_code
control s = action_code s.action + phase_code s.phase * 2 ^ 8 + s.version % u32 * 2 ^ 32

-- `none` is `SystemState(UINT64_MAX)`, behind an assertion that fails.
next_full : Phase → ℕ → Option SystemState
next_full Phase.rest v =
    some (record { action = Action.checkpoint_full; phase = Phase.prep_index_chkpt; version = v })
next_full Phase.prep_index_chkpt v =
    some (record { action = Action.checkpoint_full; phase = Phase.index_chkpt; version = v })
next_full Phase.index_chkpt v =
    some (record { action = Action.checkpoint_full; phase = Phase.prepare; version = v })
next_full Phase.prepare v =
    some (record {
      action = Action.checkpoint_full;
      phase = Phase.in_progress;
      version = (v + 1) % u32;
    })
next_full Phase.in_progress v =
    some (record { action = Action.checkpoint_full; phase = Phase.wait_pending; version = v })
next_full Phase.wait_pending v =
    some (record { action = Action.checkpoint_full; phase = Phase.wait_flush; version = v })
next_full Phase.wait_flush v =
    some
      (record { action = Action.checkpoint_full; phase = Phase.persistence_callback; version = v })
next_full Phase.persistence_callback v =
    some (record { action = Action.checkpoint_full; phase = Phase.rest; version = v })
next_full _ v = none

next_index : Phase → ℕ → Option SystemState
next_index Phase.rest v =
    some (record { action = Action.checkpoint_index; phase = Phase.prep_index_chkpt; version = v })
next_index Phase.prep_index_chkpt v =
    some (record { action = Action.checkpoint_index; phase = Phase.index_chkpt; version = v })
next_index Phase.index_chkpt v =
    some (record { action = Action.checkpoint_index; phase = Phase.rest; version = v })
next_index _ v = none

next_hybrid_log : Phase → ℕ → Option SystemState
next_hybrid_log Phase.rest v =
    some (record { action = Action.checkpoint_hybrid_log; phase = Phase.prepare; version = v })
next_hybrid_log Phase.prepare v = some (record {
  action = Action.checkpoint_hybrid_log;
  phase = Phase.in_progress;
  version = (v + 1) % u32;
})
next_hybrid_log Phase.in_progress v =
    some (record { action = Action.checkpoint_hybrid_log; phase = Phase.wait_pending; version = v })
next_hybrid_log Phase.wait_pending v =
    some (record { action = Action.checkpoint_hybrid_log; phase = Phase.wait_flush; version = v })
next_hybrid_log Phase.wait_flush v = some (record {
  action = Action.checkpoint_hybrid_log;
  phase = Phase.persistence_callback;
  version = v;
})
next_hybrid_log Phase.persistence_callback v =
    some (record { action = Action.checkpoint_hybrid_log; phase = Phase.rest; version = v })
next_hybrid_log _ v = none

next_gc : Phase → ℕ → Option SystemState
next_gc Phase.rest v =
    some (record { action = Action.gc; phase = Phase.gc_io_pending; version = v })
next_gc Phase.gc_io_pending v =
    some (record { action = Action.gc; phase = Phase.gc_in_progress; version = v })
next_gc Phase.gc_in_progress v =
    some (record { action = Action.gc; phase = Phase.rest; version = v })
next_gc _ v = none

next_grow : Phase → ℕ → Option SystemState
next_grow Phase.rest v =
    some (record { action = Action.grow_index; phase = Phase.grow_prepare; version = v })
next_grow Phase.grow_prepare v =
    some (record { action = Action.grow_index; phase = Phase.grow_in_progress; version = v })
next_grow Phase.grow_in_progress v =
    some (record { action = Action.grow_index; phase = Phase.rest; version = v })
next_grow _ v = none

next_parser_shift : Phase → ℕ → Option SystemState
next_parser_shift Phase.rest v =
    some (record { action = Action.parser_shift; phase = Phase.ps_pending; version = v })
next_parser_shift Phase.ps_pending v =
    some (record { action = Action.parser_shift; phase = Phase.rest; version = v })
next_parser_shift _ v = none

dispatch : Action → Phase → ℕ → Option SystemState
unfolding next_full next_index next_hybrid_log next_gc next_grow next_parser_shift
dispatch Action.checkpoint_full p v = next_full p v
dispatch Action.checkpoint_index p v = next_index p v
dispatch Action.checkpoint_hybrid_log p v = next_hybrid_log p v
dispatch Action.gc p v = next_gc p v
dispatch Action.grow_index p v = next_grow p v
dispatch Action.parser_shift p v = next_parser_shift p v
dispatch _ p v = none

-- `GetNextState`; `none` is `SystemState(UINT64_MAX)`, which no action, phase and version make up.
unfoldable pub get_next_state : SystemState → Option SystemState
unfolding dispatch
get_next_state s = dispatch s.action s.phase s.version
