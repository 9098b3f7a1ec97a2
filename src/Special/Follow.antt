-- ===== src/Special/Follow.antt =====
-- core/fishstore.h: one round of HandleSpecialPhases; and the phases of a checkpoint, which a thread gets past.
use fish_store.Base.{
  ℕ, suc, ◌≡◌, refl, ap, ◌∙◌, Bool, true, false, ◌==◌, if◌then◌else◌, Option, some,
}
use fish_store.System.{Phase, Action, SystemState, control, get_next_state}
use fish_store.Epoch.{finish_thread_phase}
use fish_store.Batch.{Status}
use fish_store.Actions.{global_move_to_next_state}
use fish_store.Special.{
  Seen, World, move_on, finish, index_done, index_settled, on_checkpoint, on_phase, arrive,
  identify, end_round, round, follow,
}

abbrev pub IsSome {ℓ} : {A : Type ℓ} → Option A → Type ℓ
IsSome {A = A} o = (a : A) × (o ≡ some a)

if-IsSome :
    {A : Type 0} (c : Bool) {a b : Option A} → IsSome a → IsSome b → IsSome (if c then a else b)
if-IsSome true h k = h
if-IsSome false h k = k

here {ℓ} : {A : Type ℓ} (a : A) → IsSome (some a)
here a = (a, refl)

module _ (seen : Seen) (t : ℕ) (current : SystemState)
    (next : IsSome (get_next_state current)) where
  move_on-IsSome : (w : World) → IsSome (move_on seen current w)
  unfolding move_on global_move_to_next_state
  move_on-IsSome w = let (s, e) = next in rw e (here _)

  finish-IsSome : (p : Phase) (w : World) → IsSome (finish seen t p current w)
  unfolding finish
  finish-IsSome p w = if-IsSome (finish_thread_phase w.epoch t p).1 (move_on-IsSome _) (here _)

  same_or :
      (c : Bool) (p : Phase) (w w' : World)
      → IsSome (if c then finish seen t p current w else some w')
  same_or c p w w' = if-IsSome c (finish-IsSome p w) (here w')

  index_done-IsSome : (a : Action) (w : World) → IsSome (index_done a seen t current w)
  unfolding index_done
  index_done-IsSome Action.checkpoint_index w = finish-IsSome _ _
  index_done-IsSome _ w = move_on-IsSome w

  index_settled-IsSome : (o : Status) (w : World) → IsSome (index_settled o seen t current w)
  unfolding index_settled
  index_settled-IsSome Status.pending w = here w
  index_settled-IsSome Status.ok w = index_done-IsSome _ _
  index_settled-IsSome _ w = index_done-IsSome _ _

  pub on_checkpoint-IsSome :
      (p before : Phase) (w : World) → IsSome (on_checkpoint p before seen t current w)
  unfolding on_checkpoint
  on_checkpoint-IsSome Phase.prep_index_chkpt before w = same_or _ _ _ _
  on_checkpoint-IsSome Phase.index_chkpt before w = index_settled-IsSome _ _
  on_checkpoint-IsSome Phase.prepare before w = if-IsSome _ (here _) (finish-IsSome _ _)
  on_checkpoint-IsSome Phase.in_progress before w = same_or _ _ _ _
  on_checkpoint-IsSome Phase.wait_pending before w = if-IsSome _ (here _) (same_or _ _ _ _)
  on_checkpoint-IsSome Phase.wait_flush before w = if-IsSome _ (here _) (same_or _ _ _ _)
  on_checkpoint-IsSome Phase.persistence_callback before w = same_or _ _ _ _
  on_checkpoint-IsSome _ before w = here w

pub one_round :
    (rounds : ℕ) (seen : Seen) (t : ℕ) (final previous c : SystemState) (w w' : World)
    → identify final previous ≡ some c
    → on_phase c.action c.phase previous.phase seen t c w ≡ some w'
    → follow (suc rounds) seen t final (some previous) w ≡ (
        if control c == control final
        then some (arrive c w')
        else follow rounds seen t final (some c) (arrive c w'))
unfolding follow
one_round rounds seen t final previous c w w' e f =
    ap (round final previous.phase seen t w (λ c v. follow rounds seen t final c v)) e
    ∙ ap (end_round final c (λ c v. follow rounds seen t final c v)) f
