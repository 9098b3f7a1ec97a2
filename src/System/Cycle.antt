-- ===== src/System/Cycle.antt =====
-- core/state_transitions.h: the transitions of an action, one after another.
use fish_store.Base.{ℕ, zero, suc, ◌+◌, ◌%◌, ◌<◌, ◌≡◌, Option, none, some, arith}
use fish_store.Address.{u32}
use fish_store.System.{Phase, Action, SystemState, get_next_state}

-- The transitions from a state, one after another.
pub iterate : ℕ → SystemState → Option SystemState
unfolding get_next_state
iterate zero s = some s
iterate (suc n) s = elim (get_next_state s) [ none ↦ none | some t ↦ iterate n t ]

-- How many transitions an action takes, and how many versions it opens.
abbrev pub phases : Action → ℕ
phases Action.checkpoint_full = 8
phases Action.checkpoint_index = 3
phases Action.checkpoint_hybrid_log = 6
phases Action.gc = 3
phases Action.grow_index = 3
phases Action.parser_shift = 2
phases _ = 0

abbrev pub versions : Action → ℕ
versions Action.checkpoint_full = 1
versions Action.checkpoint_hybrid_log = 1
versions _ = 0

-- Started at rest, an action that the store performs passes through its phases back to rest, and
-- opens one version if it checkpoints the log and none otherwise.
pub iterate-phases :
    (a : Action) (v : ℕ)
    → v < u32
    → iterate (phases a) (record { action = a; phase = Phase.rest; version = v })
      ≡ some (record { action = a; phase = Phase.rest; version = (v + versions a) % u32 })
unfolding iterate
iterate-phases Action.checkpoint_full v h = ground arith
iterate-phases a v h = ground arith

-- The phases that an action passes through.
abbrev pub HasPhase : Action → Phase → Type 0
HasPhase Action.checkpoint_full Phase.rest = Unit
HasPhase Action.checkpoint_full Phase.prep_index_chkpt = Unit
HasPhase Action.checkpoint_full Phase.index_chkpt = Unit
HasPhase Action.checkpoint_full Phase.prepare = Unit
HasPhase Action.checkpoint_full Phase.in_progress = Unit
HasPhase Action.checkpoint_full Phase.wait_pending = Unit
HasPhase Action.checkpoint_full Phase.wait_flush = Unit
HasPhase Action.checkpoint_full Phase.persistence_callback = Unit
HasPhase Action.checkpoint_index Phase.rest = Unit
HasPhase Action.checkpoint_index Phase.prep_index_chkpt = Unit
HasPhase Action.checkpoint_index Phase.index_chkpt = Unit
HasPhase Action.checkpoint_hybrid_log Phase.rest = Unit
HasPhase Action.checkpoint_hybrid_log Phase.prepare = Unit
HasPhase Action.checkpoint_hybrid_log Phase.in_progress = Unit
HasPhase Action.checkpoint_hybrid_log Phase.wait_pending = Unit
HasPhase Action.checkpoint_hybrid_log Phase.wait_flush = Unit
HasPhase Action.checkpoint_hybrid_log Phase.persistence_callback = Unit
HasPhase Action.gc Phase.rest = Unit
HasPhase Action.gc Phase.gc_io_pending = Unit
HasPhase Action.gc Phase.gc_in_progress = Unit
HasPhase Action.grow_index Phase.rest = Unit
HasPhase Action.grow_index Phase.grow_prepare = Unit
HasPhase Action.grow_index Phase.grow_in_progress = Unit
HasPhase Action.parser_shift Phase.rest = Unit
HasPhase Action.parser_shift Phase.ps_pending = Unit
HasPhase _ _ = ⊥

abbrev pub opens : Phase → ℕ
opens Phase.prepare = 1
opens _ = 0

-- The transition from `s` to `t`.
pub record Moves (s t : SystemState) : Type 0 where
  pub moves : get_next_state s ≡ some t
  pub same_action : t.action ≡ s.action
  pub in_phases : HasPhase t.action t.phase
  pub version : t.version ≡ (s.version + opens s.phase) % u32

moves : (a : Action) (p : Phase) (v : ℕ) → SystemState
unfolding get_next_state
moves a p v = elim (get_next_state (record { action = a; phase = p; version = v })) [
  | none ↦ record { action = a; phase = p; version = v }
  | some t ↦ t
]

moves-Moves :
    (a : Action) (p : Phase) (v : ℕ)
    → v < u32
    → HasPhase a p
    → Moves (record { action = a; phase = p; version = v }) (moves a p v)
unfolding moves
moves-Moves Action.gc Phase.rest v h q = ground arith
moves-Moves a p v h q = ground arith

-- From each phase of an action there is a transition; it keeps the action, leads to a phase of the
-- action, and opens a version just when it leaves the prepare phase.
pub Moves-next :
    (s : SystemState) → s.version < u32 → HasPhase s.action s.phase → (t : SystemState) × Moves s t
Moves-next s h q = (moves s.action s.phase s.version, moves-Moves s.action s.phase s.version h q)
