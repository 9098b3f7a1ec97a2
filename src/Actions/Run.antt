-- ===== src/Actions/Run.antt =====
-- core/fishstore.h: an action from its start to its end.
use mathlib.Core.Option
use fish_store.Base.{
  ap, ◌∙◌, ℕ, zero, suc, ◌+◌, ◌-◌, ◌%◌, ◌<◌, ◌≡◌, inl, inr, refl, Bool, true, false, ◌==◌,
  if◌then◌else◌, Bool-cases, Option, none, some, List, arith,
}
use fish_store.Address.{u32}
use fish_store.System.{Phase, Action, SystemState, control, get_next_state}
use fish_store.System.Cycle.{phases, versions}
use fish_store.Actions.{
  Results, Store, Event, put_state, enter, move, global_move_to_next_state, start_action, acquire,
  IsAction, enter_checkpoint, checkpoint_rest, enter_gc, enter_grow, enter_parser_shift,
}

abbrev resume : (Store → Option Store) → Option (Bool × Store × List Event) → Option Store
resume go none = none
resume go (some (moved, t, events)) = if moved then go t else none

-- The moves from phase to phase, each by a thread that has seen the state it moves.
unfoldable pub move_on : ℕ → Results → Store → Option Store
move_on zero r s = some s
move_on (suc n) r s = resume (move_on n r) (global_move_to_next_state r s s.system_state)

-- A move of the state that the store is in.
enters : Results → Store → Option SystemState → Option Store
enters r s none = none
enters r s (some next) = some (enter next.action next.phase r (record s { system_state = next })).0

abbrev chain : (Store → Option Store) → Option Store → Option Store
chain go none = none
chain go (some t) = go t

moves : ℕ → Results → Store → Option Store
unfolding enters enter
moves zero r s = some s
moves (suc n) r s = chain (moves n r) (enters r s (get_next_state s.system_state))

equal : (x : ℕ) → (x == x) ≡ true
equal x = ground arith

resume-move :
    (r : Results) (s : Store) (o : Option SystemState) (go went : Store → Option Store)
    → ((t : Store) → go t ≡ went t)
    → resume go (move r s s.system_state o) ≡ chain went (enters r s o)
unfolding enters
resume-move r s none go went h = refl
resume-move r s (some next) go went h =
    rw (equal (control s.system_state))
      (h (enter next.action next.phase r (record s { system_state = next })).0)

move_on-moves : (n : ℕ) (r : Results) (s : Store) → move_on n r s ≡ moves n r s
unfolding move_on moves global_move_to_next_state
move_on-moves zero r s = refl
move_on-moves (suc n) r s =
    resume-move r s (get_next_state s.system_state) (move_on n r) (moves n r) (move_on-moves n r)

abbrev idle_at : ℕ → SystemState
idle_at v = record { action = Action.none_action; phase = Phase.rest; version = v }

state_after : Option Store → Option SystemState
state_after o = Option.map (λ t. t.system_state) o

acquire-idle :
    (s : Store) (a : Action) (work : Store → Store × List Event) (p : Phase) (last : List Event)
    (v : ℕ)
    → s.system_state ≡ idle_at v
    → ((acquire s a work p last).0 ≡ true)
      × ((acquire s a work p last).1 ≡ put_state (work (put_state s a Phase.rest v)).0 a p v)
unfolding acquire
acquire-idle s a work p last v e =
    let version : s.system_state.version ≡ v = ap (λ x. x.version) e in
    rw (version, e, equal (control (idle_at v))) (refl, refl)

-- The run of an action, from what its moves come to after its start.
acquired :
    (n w : ℕ) (a : Action) (work : Store → Store × List Event) (p : Phase) (last : List Event)
    (r : Results) (s : Store) (v : ℕ)
    → s.system_state ≡ idle_at v
    → state_after (moves n r (put_state (work (put_state s a Phase.rest v)).0 a p v))
      ≡ some (idle_at w)
    → ((acquire s a work p last).0 ≡ true)
      × (Option.map (λ t. t.system_state) (move_on n r (acquire s a work p last).1)
          ≡ some (idle_at w))
unfolding state_after
acquired n w a work p last r s v e h =
    let (taken, store) = acquire-idle s a work p last v e in
    (taken, ap (λ t. state_after (move_on n r t)) store ∙ ap state_after (move_on-moves n r _) ∙ h)

idle_again : {v : ℕ} → v < u32 → some (idle_at v) ≡ some (idle_at ((v + 0) % u32))
idle_again {v} small =
    let same : v ≡ (v + 0) % u32 = omega arith in ap (λ (w : ℕ). some (idle_at w)) same

-- The moves of the checkpoints of the log depend on the store only in the `wait_flush` phase.
moves-checkpoint :
    (s : Store) (r : Results) (v : ℕ)
    → (state_after (moves 7 r (put_state s Action.checkpoint_full Phase.prep_index_chkpt v))
        ≡ some (idle_at ((v + 1) % u32)))
      × (state_after (moves 5 r (put_state s Action.checkpoint_hybrid_log Phase.prepare v))
          ≡ some (idle_at ((v + 1) % u32)))
unfolding state_after moves get_next_state enter enters enter_checkpoint checkpoint_rest
moves-checkpoint s r v = elim (Bool-cases s.fold_over_snapshot) [
  | inl fold ↦ rw fold (refl, refl)
  | inr snapshot ↦ rw snapshot (refl, refl)
]

-- Started on an idle store, an action is taken, passes through its phases, one move after another, and
-- leaves the store idle again; a checkpoint of the log opens one version, another action none.
pub move_on-start_action :
    (a : Action) (given : Bool) (r : Results) (s : Store) (v : ℕ)
    → IsAction a
    → v < u32
    → s.system_state ≡ record { action = Action.none_action; phase = Phase.rest; version = v }
    → ((start_action a given s).0 ≡ true)
      × (Option.map (λ t. t.system_state) (move_on (phases a - 1) r (start_action a given s).1)
          ≡ some (record {
            action = Action.none_action;
            phase = Phase.rest;
            version = (v + versions a) % u32;
          }))
unfolding start_action state_after moves get_next_state enter enters enter_checkpoint
    checkpoint_rest enter_gc enter_grow enter_parser_shift
move_on-start_action Action.none_action given r s v ok small idle = elim ok [ ]
move_on-start_action Action.recover given r s v ok small idle = elim ok [ ]
move_on-start_action Action.gc given r s v ok small idle =
    acquired 2 _ _ _ _ _ r s v idle (idle_again small)
move_on-start_action Action.grow_index given r s v ok small idle =
    acquired 2 _ _ _ _ _ r s v idle (idle_again small)
move_on-start_action Action.parser_shift given r s v ok small idle =
    acquired 1 _ _ _ _ _ r s v idle (idle_again small)
move_on-start_action Action.checkpoint_index given r s v ok small idle =
    acquired 2 _ _ _ _ _ r s v idle (idle_again small)
move_on-start_action Action.checkpoint_hybrid_log given r s v ok small idle =
    acquired 5 _ _ _ _ _ r s v idle
      (moves-checkpoint (record s { failed = false; index_callback = false }) r v).1
move_on-start_action Action.checkpoint_full given r s v ok small idle =
    acquired 7 _ _ _ _ _ r s v idle
      (moves-checkpoint (record s { failed = false; index_callback = given }) r v).0
