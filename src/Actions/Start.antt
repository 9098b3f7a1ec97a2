-- ===== src/Actions/Start.antt =====
-- core/fishstore.h: the calls that start an action, where another may be under way.
use fish_store.Base.{
  List, ◌<◌, ◌≡◌, ◌≢◌, ◌⊎◌, inl, inr, refl, Bool, true, false, ◌==◌, Bool-cases, [], ap, arith,
}
use fish_store.Address.{u32}
use fish_store.System.{Phase, Action, control}
use fish_store.System.Word.{control-injective}
use fish_store.Actions.{IsAction, acquire, Event, Store, idle, start_action}

acquire-exclusive :
    (s : Store) (a : Action) (work : Store → Store × List Event) (p : Phase) (last : List Event)
    → s.system_state.version < u32
    → ((s.system_state ≡ idle s) × ((acquire s a work p last).0 ≡ true))
      ⊎ ((s.system_state ≢ idle s) × (acquire s a work p last ≡ (false, s, [])))
unfolding acquire
acquire-exclusive s a work p last small =
    elim (Bool-cases (control s.system_state == control (idle s))) [
      | inl same ↦
          let e = control-injective s.system_state (idle s) small small (ground (arith, same)) in
          inl (e, rw same refl)
      | inr other ↦ inr (λ e. let w = ap control e in ground (arith, w, other), rw other refl)
    ]

-- A call that starts an action succeeds just when the store is idle; otherwise it changes nothing and
-- asks nothing of any other part.
pub start_action-exclusive :
    (a : Action) (given : Bool) (s : Store)
    → IsAction a
    → s.system_state.version < u32
    → ((s.system_state ≡ idle s) × ((start_action a given s).0 ≡ true))
      ⊎ ((s.system_state ≢ idle s) × (start_action a given s ≡ (false, s, [])))
unfolding start_action
start_action-exclusive Action.none_action given s ok small = elim ok [ ]
start_action-exclusive Action.recover given s ok small = elim ok [ ]
start_action-exclusive Action.checkpoint_full given s ok small = acquire-exclusive s _ _ _ _ small
start_action-exclusive Action.checkpoint_index given s ok small = acquire-exclusive s _ _ _ _ small
start_action-exclusive Action.checkpoint_hybrid_log given s ok small =
    acquire-exclusive s _ _ _ _ small
start_action-exclusive Action.gc given s ok small = acquire-exclusive s _ _ _ _ small
start_action-exclusive Action.grow_index given s ok small = acquire-exclusive s _ _ _ _ small
start_action-exclusive Action.parser_shift given s ok small = acquire-exclusive s _ _ _ _ small
