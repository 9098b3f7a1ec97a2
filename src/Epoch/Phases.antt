-- ===== src/Epoch/Phases.antt =====
-- core/light_epoch.h: `FinishThreadPhase` and its loop over the epoch table.
use fish_store.Base.{
  ℕ, zero, suc, ◌+◌, ◌≤◌, ◌<◌, ◌≡◌, ◌≢◌, ◌↔◌, refl, true, ◌==◌, Bool-cases, inl, inr, arith,
}
use fish_store.System.{Phase, phase_code}
use fish_store.Epoch.{Row, LightEpoch, all_finished, finish_thread_phase, has_thread_finished_phase}
use fish_store.Epoch.Oldest.{epoch_at}

-- Every thread in an epoch, of the rows from `index` on, has finished the phase.
abbrev pub AllFinished : (ℕ → Row) → ℕ → ℕ → Phase → Type 0
AllFinished table rounds index p =
    (i : ℕ)
    → index ≤ i
    → i < index + rounds
    → epoch_at table i ≢ 0
    → phase_code (table i).phase_finished ≡ phase_code p

all_finished_sound :
    (table : ℕ → Row) (rounds index : ℕ) (p : Phase)
    → all_finished table rounds index p ≡ true
    → AllFinished table rounds index p
unfolding all_finished
all_finished_sound table zero index p e i lo hi used = absurd (omega arith)
all_finished_sound table (suc rounds) index p e i lo hi used = elim (Bool-cases (i == index)) [
  | inl here ↦ ground arith
  | inr later ↦
      all_finished_sound table rounds (index + 1) p (ground arith) i (ground arith) (omega arith)
        used
]

all_finished_complete :
    (table : ℕ → Row) (rounds index : ℕ) (p : Phase)
    → AllFinished table rounds index p
    → all_finished table rounds index p ≡ true
unfolding all_finished
all_finished_complete table zero index p h = refl
all_finished_complete table (suc rounds) index p h = ground (
  arith,
  h index,
  all_finished_complete table rounds (index + 1) p
      (λ i lo hi used. h i (omega arith) (omega arith) used),
)

-- `FinishThreadPhase` records that the calling thread finished the phase, and answers yes exactly
-- when every thread in an epoch has finished it.
pub finish_thread_phase_iff :
    (s : LightEpoch) (t : ℕ) (p : Phase)
    → (has_thread_finished_phase (finish_thread_phase s t p).0 t p ≡ true)
      × (((finish_thread_phase s t p).1 ≡ true)
          ↔ AllFinished (finish_thread_phase s t p).0.table s.num_entries 1 p)
unfolding finish_thread_phase has_thread_finished_phase
finish_thread_phase_iff s t p = (
  ground arith,
  (
    λ e. all_finished_sound (finish_thread_phase s t p).0.table s.num_entries 1 p e,
    λ h. all_finished_complete (finish_thread_phase s t p).0.table s.num_entries 1 p h,
  ),
)
