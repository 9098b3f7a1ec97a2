-- ===== src/Special/Missed.antt =====
-- core/fishstore.h: a thread that has not seen the store at rest between two actions.
use fish_store.Base.{
  ℕ, zero, suc, ◌≡◌, refl, ap, ◌∙◌, true, false, ◌==◌, none, some, inl, inr, Bool-cases, arith,
}
use fish_store.System.{Phase, Action, SystemState, control, phase_code, action_code, get_next_state}
use fish_store.Epoch.{finish_thread_phase, has_thread_finished_phase, same_phase}
use fish_store.Actions.{Store, global_move_to_next_state}
use fish_store.Special.Follow.{IsSome, on_checkpoint-IsSome, one_round}
use fish_store.Special.{
  move_on, Seen, World, finish, on_phase, on_parser_shift, arrive, identify, round, follow,
  handle_special_phases,
}

-- The call is its loop, where the store is not at rest.
handle-follow :
    (rounds : ℕ) (seen : Seen) (t : ℕ) (w : World) (final : SystemState) (p : Phase)
    → w.store.system_state ≡ final
    → w.current.phase ≡ p
    → same_phase final.phase Phase.rest ≡ false
    → handle_special_phases rounds seen t w
      ≡ follow rounds seen t final
          (some (record { action = final.action; phase = p; version = w.current.version }))
          w
unfolding handle_special_phases
handle-follow rounds seen t w final p e at active =
    let first : (same_phase w.store.system_state.phase Phase.rest) ≡ false =
      ap (λ s. same_phase s.phase Phase.rest) e ∙ active in
    rw first refl
    ∙ ap
        (λ s.
          follow rounds seen t s
            (some
              (record { action = s.action; phase = w.current.phase; version = w.current.version }))
            w)
        e
    ∙ ap
        (λ q.
          follow rounds seen t final
            (some (record { action = final.action; phase = q; version = w.current.version })) w)
        at

follow-none :
    (rounds : ℕ) (seen : Seen) (t : ℕ) (final : SystemState) (w : World)
    → follow rounds seen t final none w ≡ none
unfolding follow
follow-none zero seen t final w = refl
follow-none (suc rounds) seen t final w = follow-none rounds seen t final w

follow-stuck :
    (rounds : ℕ) (seen : Seen) (t : ℕ) (final previous : SystemState) (w : World)
    → identify final previous ≡ none
    → follow rounds seen t final (some previous) w ≡ none
unfolding follow
follow-stuck zero seen t final previous w e = refl
follow-stuck (suc rounds) seen t final previous w e =
    ap (round final previous.phase seen t w (λ c v. follow rounds seen t final c v)) e
    ∙ follow-none rounds seen t final w

abbrev growing : ℕ → SystemState
growing v = record { action = Action.grow_index; phase = Phase.grow_prepare; version = v }

no_transition :
    (v u : ℕ)
    → identify
        (growing v)
        (record { action = Action.grow_index; phase = Phase.index_chkpt; version = u })
      ≡ none
unfolding get_next_state control phase_code action_code
no_transition v u =
    let differ : (control (growing v)
          == control
              (record { action = Action.grow_index; phase = Phase.index_chkpt; version = u }))
        ≡ false =
      ground arith in
    let differ' : (control
            (record { action = Action.grow_index; phase = Phase.index_chkpt; version = u })
          == control (growing v))
        ≡ false =
      ground arith in
    rw differ' refl

abbrev indexing : ℕ → SystemState
indexing v = record { action = Action.checkpoint_index; phase = Phase.index_chkpt; version = v }

abbrev preparing : ℕ → SystemState
preparing v = record {
  action = Action.checkpoint_index;
  phase = Phase.prep_index_chkpt;
  version = v;
}

indexing-next : (v : ℕ) → IsSome (get_next_state (indexing v))
unfolding get_next_state
indexing-next v = (_, refl)

to_indexing : (v : ℕ) → identify (indexing v) (preparing v) ≡ some (indexing v)
unfolding get_next_state control phase_code action_code
to_indexing v =
    let differ : (control (preparing v) == control (indexing v)) ≡ false = ground arith in
    rw differ refl

-- The round to the last phase of an index checkpoint leaves the thread in that phase.
in_indexing :
    (seen : Seen) (t v : ℕ) (w : World)
    → (w' : World) × (follow 2 seen t (indexing v) (some (preparing v)) w ≡ some w')
      × (w'.current.phase ≡ Phase.index_chkpt)
unfolding on_phase
in_indexing seen t v w =
    let same : (control (indexing v) == control (indexing v)) ≡ true = ground arith in
    let (w', done) =
      on_checkpoint-IsSome seen t (indexing v) (indexing-next v) Phase.index_chkpt
        Phase.prep_index_chkpt w in
    (
      arrive (indexing v) w',
      one_round 1 seen t (indexing v) (preparing v) (indexing v) w w' (to_indexing v) done
          ∙ rw same refl,
      refl,
    )

-- A thread that follows an index checkpoint to its last phase still has that phase; where it next
-- looks when the store already grows the index, no number of rounds is enough for it to return.
pub missed_rest-stuck :
    (rounds : ℕ) (seen : Seen) (t v u : ℕ) (w : World) (grown : Store)
    → w.current.phase ≡ Phase.prep_index_chkpt
    → w.current.version ≡ v
    → w.store.system_state
      ≡ record { action = Action.checkpoint_index; phase = Phase.index_chkpt; version = v }
    → grown.system_state
      ≡ record { action = Action.grow_index; phase = Phase.grow_prepare; version = u }
    → (w' : World) × (handle_special_phases 2 seen t w ≡ some w')
      × (handle_special_phases rounds seen t (record w' { store = grown }) ≡ none)
unfolding phase_code
missed_rest-stuck rounds seen t v u w grown at version e e' =
    let (w', done, phase) = in_indexing seen t v w in
    let start : handle_special_phases 2 seen t w
        ≡ follow 2 seen t (indexing v) (some (preparing v)) w =
      handle-follow 2 seen t w (indexing v) Phase.prep_index_chkpt e at refl
      ∙ ap
          (λ (x : ℕ).
            follow 2 seen t (indexing v)
              (some (record {
                action = Action.checkpoint_index;
                phase = Phase.prep_index_chkpt;
                version = x;
              }))
              w)
          version in
    (
      w',
      start ∙ done,
      handle-follow rounds seen t (record w' { store = grown }) (growing u) Phase.index_chkpt e'
            phase refl
          ∙ follow-stuck rounds seen t (growing u) _ _ (no_transition u w'.current.version),
    )

finish-keeps :
    (seen : Seen) (t : ℕ) (p : Phase) (current : SystemState) (w : World)
    → IsSome (get_next_state current)
    → (w' : World) × (finish seen t p current w ≡ some w')
      × (w'.parser_no ≡ w.parser_no)
      × (has_thread_finished_phase w'.epoch t p ≡ true)
unfolding finish move_on global_move_to_next_state finish_thread_phase has_thread_finished_phase
finish-keeps seen t p current w (s, e) =
    let self : (t == t) ≡ true = ground arith in
    let same : (phase_code p == phase_code p) ≡ true = ground arith in
    elim (Bool-cases (finish_thread_phase w.epoch t p).1) [
      | inl all ↦ rw (all, e) (_, refl, refl, rw (self, same) refl)
      | inr waits ↦ rw waits (_, refl, refl, rw (self, same) refl)
    ]

shifting-next :
    (v : ℕ)
    → IsSome (
        get_next_state
          (record { action = Action.parser_shift; phase = Phase.ps_pending; version = v }))
unfolding get_next_state
shifting-next v = (_, refl)

-- A thread that has the phase of a parser shift, where the store is in that phase of a shift again: the
-- thread says that it has shifted, and keeps its old parser.
pub second_shift-missed :
    (rounds : ℕ) (seen : Seen) (t v : ℕ) (w : World)
    → w.current.phase ≡ Phase.ps_pending
    → w.current.version ≡ v
    → w.store.system_state
      ≡ record { action = Action.parser_shift; phase = Phase.ps_pending; version = v }
    → (w' : World) × (handle_special_phases (suc rounds) seen t w ≡ some w')
      × (w'.parser_no ≡ w.parser_no)
      × (has_thread_finished_phase w'.epoch t Phase.ps_pending ≡ true)
unfolding on_phase on_parser_shift phase_code
second_shift-missed rounds seen t v w at version e =
    let final : SystemState = record {
      action = Action.parser_shift;
      phase = Phase.ps_pending;
      version = v;
    } in
    let same : (control final == control final) ≡ true = ground arith in
    let (w', done, parser, acked) =
      finish-keeps seen t Phase.ps_pending final w (shifting-next v) in
    (
      arrive final w',
      handle-follow (suc rounds) seen t w final Phase.ps_pending e at refl
          ∙ ap
              (λ (x : ℕ).
                follow (suc rounds) seen t final
                  (some (record {
                    action = Action.parser_shift;
                    phase = Phase.ps_pending;
                    version = x;
                  }))
                  w)
              version
          ∙ one_round rounds seen t final final final w w' (rw same refl) done
          ∙ rw same refl,
      parser,
      acked,
    )
