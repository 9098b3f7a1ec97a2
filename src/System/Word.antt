-- ===== src/System/Word.antt =====
-- core/state_transitions.h: the packed word of a state, by which states are compared.
use fish_store.Base.{ℕ, ◌<◌, ◌≡◌, refl, ap, sym, ◌∙◌, ◌==◌, if◌then◌else◌, arith}
use fish_store.Address.{u32}
use fish_store.System.{Phase, Action, SystemState, phase_code, action_code, control}

phase_of : ℕ → Phase
phase_of c =
    if c == 0
    then Phase.prep_index_chkpt
    else if c == 1
    then Phase.index_chkpt
    else if c == 2
    then Phase.prepare
    else if c == 3
    then Phase.in_progress
    else if c == 4
    then Phase.wait_pending
    else if c == 5
    then Phase.wait_flush
    else if c == 6
    then Phase.rest
    else if c == 7
    then Phase.persistence_callback
    else if c == 8
    then Phase.gc_io_pending
    else if c == 9
    then Phase.gc_in_progress
    else if c == 10
    then Phase.grow_prepare
    else if c == 11
    then Phase.grow_in_progress
    else if c == 12
    then Phase.ps_pending
    else Phase.invalid

action_of : ℕ → Action
action_of c =
    if c == 0
    then Action.none_action
    else if c == 1
    then Action.checkpoint_full
    else if c == 2
    then Action.checkpoint_index
    else if c == 3
    then Action.checkpoint_hybrid_log
    else if c == 4
    then Action.recover
    else if c == 5
    then Action.gc
    else if c == 6
    then Action.grow_index
    else Action.parser_shift

phase_of-phase_code : (p : Phase) → (phase_of (phase_code p) ≡ p) × (phase_code p < 14)
unfolding phase_of phase_code
phase_of-phase_code Phase.prep_index_chkpt = (refl, omega arith)
phase_of-phase_code p = (refl, omega arith)

action_of-action_code : (a : Action) → (action_of (action_code a) ≡ a) × (action_code a < 8)
unfolding action_of action_code
action_of-action_code Action.none_action = (refl, omega arith)
action_of-action_code a = (refl, omega arith)

-- States whose versions are 32-bit have the same word only if they are the same state.
pub control-injective :
    (s t : SystemState) → s.version < u32 → t.version < u32 → control s ≡ control t → s ≡ t
unfolding control
control-injective s t hs ht e =
    let sp = phase_of-phase_code s.phase in
    let tp = phase_of-phase_code t.phase in
    let sa = action_of-action_code s.action in
    let ta = action_of-action_code t.action in
    let version : s.version ≡ t.version = omega arith in
    let phases : phase_code s.phase ≡ phase_code t.phase = omega arith in
    let actions : action_code s.action ≡ action_code t.action = omega arith in
    let phase : s.phase ≡ t.phase = sym sp.0 ∙ ap phase_of phases ∙ tp.0 in
    let action : s.action ≡ t.action = sym sa.0 ∙ ap action_of actions ∙ ta.0 in
    λ i. record { action = action i; phase = phase i; version = version i }
