-- ===== src/Epoch/Safety.antt =====
-- core/light_epoch.h: the invariant of the epochs and of the drain list, call by call.
use fish_store.Base.{
  ℕ, ◌+◌, ◌-◌, ◌%◌, ◌≤◌, ◌<◌, ◌≡◌, refl, not, leb, ltb, Bool, ◌==◌, if◌then◌else◌, Bool-cases, inl,
  inr, ◌⊎◌, List, [], ◌∷◌, ◌++◌, length, All, All-map, All-append, Option, none, some, arith,
}
use fish_store.Address.{u32, u64}
use fish_store.System.{Phase}
use fish_store.Epoch.{
  Row, Slot, free_epoch, LightEpoch, put_row, unprotected, finish_thread_phase, drain, protect,
  unprotect, protect_and_drain, reentrant_protect, reentrant_unprotect, bump_current_epoch,
  bump_with_action, compute_new_safe_to_reclaim_epoch,
}
use fish_store.Epoch.Oldest.{epoch_at, AllLater, compute_new_safe_to_reclaim_epoch-last}
use fish_store.Epoch.Register.{IsPast, Post, register-Post}
use fish_store.Epoch.Drain.{
  count_occupied, count_occupied-le, select_ready, clear_ready, drain-ready,
}

pub record IsSafe (s : LightEpoch) : Type 0 where
  pub behind : s.safe_to_reclaim_epoch < s.current_epoch
  pub bounded : s.current_epoch < free_epoch
  pub later : AllLater s s.safe_to_reclaim_epoch
  pub entered : (i : ℕ) → epoch_at s.table i ≤ s.current_epoch
  pub counted : s.drain_count ≡ count_occupied s.drain_list
  pub few : length s.drain_list < u32
  pub past : All (IsPast s.current_epoch) s.drain_list

length-clear_ready : (safe : ℕ) (as' : List Slot) → length (clear_ready safe as') ≡ length as'
length-clear_ready safe [] = refl
length-clear_ready safe (a ∷ as') = ground (arith, length-clear_ready safe as')

clear_ready-IsPast :
    (safe current : ℕ) (as' : List Slot)
    → All (IsPast current) as'
    → All (IsPast current) (clear_ready safe as')
clear_ready-IsPast safe current [] h = h
clear_ready-IsPast safe current (a ∷ as') h = elim (Bool-cases (leb a.epoch safe)) [
  | inl ready ↦ rw ready (inl refl, clear_ready-IsPast safe current as' h.1)
  | inr waits ↦ rw waits (h.0, clear_ready-IsPast safe current as' h.1)
]

select_ready-le : (safe : ℕ) (as' : List Slot) → All (λ a. a.epoch ≤ safe) (select_ready safe as')
select_ready-le safe [] = tt
select_ready-le safe (a ∷ as') = elim (Bool-cases (leb a.epoch safe)) [
  | inl ready ↦ rw ready (ground arith, select_ready-le safe as')
  | inr waits ↦ rw waits (select_ready-le safe as')
]

-- What a call leaves and fires: the invariant holds, and every action that was performed is of an
-- epoch that no thread of the rows 1 to `num_entries` is in any more, nor in an earlier one.
pub record Keeps (r : LightEpoch × List Slot) : Type 0 where
  pub safe : IsSafe r.0
  pub gone : All (λ a. AllLater r.0 a.epoch) r.1

module _ {s : LightEpoch} (inv : IsSafe s) where
  pub drain-Keeps : (next : ℕ) → 0 < next → next ≤ s.current_epoch → Keeps (drain s next)
  unfolding drain compute_new_safe_to_reclaim_epoch
  drain-Keeps next pos le =
      let (before, later, _) =
        compute_new_safe_to_reclaim_epoch-last s next pos (omega (arith, inv.bounded)) in
      let (fired, slots, count) =
        drain-ready s next pos (omega (arith, inv.bounded)) inv.counted inv.few in
      record {
        safe = record {
          behind = omega (arith, before);
          bounded = inv.bounded;
          later = later;
          entered = inv.entered;
          counted = count;
          few = rw (slots, length-clear_ready) inv.few;
          past = rw slots (clear_ready-IsPast _ s.current_epoch s.drain_list inv.past);
        };
        gone = rw fired (
            All-map (select_ready _ s.drain_list)
              (λ a h i lo hi used. omega (arith, h, later i lo hi used))
              (select_ready-le _ s.drain_list));
      }

  -- A thread enters the current epoch, leaves, or stays.
  put_row-IsSafe :
      (t : ℕ) (r : Row)
      → (r.local_current_epoch ≡ 0)
        ⊎ (r.local_current_epoch ≡ epoch_at s.table t)
        ⊎ (r.local_current_epoch ≡ s.current_epoch)
      → IsSafe (record s { table = put_row s.table t r })
  put_row-IsSafe t r h = record {
    behind = inv.behind;
    bounded = inv.bounded;
    later = λ i lo hi used. ground (arith, inv.later i lo hi, inv.behind);
    entered = λ i. ground (arith, inv.entered i);
    counted = inv.counted;
    few = inv.few;
    past = inv.past;
  }

  maybe_drain-Keeps :
      (next : ℕ)
      → 0 < next
      → next ≤ s.current_epoch
      → Keeps (if ltb 0 s.drain_count then drain s next else (s, []))
  maybe_drain-Keeps next pos le = elim (Bool-cases (ltb 0 s.drain_count)) [
    | inl some_action ↦ rw some_action (drain-Keeps next pos le)
    | inr nothing ↦ rw nothing (record { safe = inv; gone = tt })
  ]

module _ {s : LightEpoch} (inv : IsSafe s) (t : ℕ) where
  pub protect-IsSafe : IsSafe (protect s t)
  unfolding protect
  protect-IsSafe = put_row-IsSafe inv t _ (inr (inr refl))

  pub unprotect-IsSafe : IsSafe (unprotect s t)
  unfolding unprotect
  unprotect-IsSafe = put_row-IsSafe inv t _ (inl refl)

  pub protect_and_drain-Keeps : Keeps (protect_and_drain s t)
  unfolding protect_and_drain
  protect_and_drain-Keeps =
      maybe_drain-Keeps protect-IsSafe s.current_epoch (omega (arith, inv.behind)) (omega arith)

  pub reentrant_protect-IsSafe : IsSafe (reentrant_protect s t)
  unfolding reentrant_protect
  reentrant_protect-IsSafe =
      elim (Bool-cases (not ((s.table t).local_current_epoch == unprotected))) [
        | inl inside ↦ rw inside inv
        | inr outside ↦ rw outside (put_row-IsSafe inv t _ (inr (inr refl)))
      ]

  pub reentrant_unprotect-IsSafe : IsSafe (reentrant_unprotect s t)
  unfolding reentrant_unprotect
  reentrant_unprotect-IsSafe = put_row-IsSafe inv t _ (ground arith)

  pub finish_thread_phase-IsSafe : (p : Phase) → IsSafe (finish_thread_phase s t p).0
  unfolding finish_thread_phase
  finish_thread_phase-IsSafe p = put_row-IsSafe inv t _ (inr (inl refl))

module _ {s : LightEpoch} (inv : IsSafe s) (room : s.current_epoch + 1 < free_epoch) where
  bumped-IsSafe : IsSafe (record s { current_epoch = (s.current_epoch + 1) % u64 })
  bumped-IsSafe =
      let next : (s.current_epoch + 1) % u64 ≡ s.current_epoch + 1 = omega arith in
      rw next (record {
        behind = omega (arith, inv.behind);
        bounded = room;
        later = inv.later;
        entered = λ i. omega (arith, inv.entered i);
        counted = inv.counted;
        few = inv.few;
        past = All-map s.drain_list (λ a p. ground arith) inv.past;
      })

  pub bump_current_epoch-Keeps : Keeps (bump_current_epoch s)
  unfolding bump_current_epoch
  bump_current_epoch-Keeps =
      maybe_drain-Keeps bumped-IsSafe ((s.current_epoch + 1) % u64) (omega arith) (omega arith)

-- A registration that returns.
abbrev pub MayKeep : Option (LightEpoch × List Slot) → Type 0
MayKeep none = Unit
MayKeep (some r) = Keeps r

registered :
    LightEpoch × List Slot → Option (List Slot × Bool × List Slot) → Option (LightEpoch × List Slot)
registered (s, fired) none = none
registered (s, fired) (some (slots, pushed, swapped)) = some (
  record s {
    drain_list = slots;
    drain_count = if pushed then (s.drain_count + 1) % u32 else s.drain_count;
  },
  fired ++ swapped,
)

registered-Keeps :
    (r : LightEpoch × List Slot) (o : Option (List Slot × Bool × List Slot))
    → Keeps r
    → Post r.0.safe_to_reclaim_epoch r.0.current_epoch r.0.drain_list o
    → MayKeep (registered r o)
unfolding registered
registered-Keeps (s, fired) none k p = tt
registered-Keeps (s, fired) (some (slots, pushed, swapped)) k p =
    let inv = k.safe in
    record {
      safe = record {
        behind = inv.behind;
        bounded = inv.bounded;
        later = inv.later;
        entered = inv.entered;
        counted =
            ground (arith, p.occupied, p.width, inv.counted, inv.few, count_occupied-le slots);
        few = omega (arith, p.width, inv.few);
        past = p.past;
      };
      gone =
          All-append (λ a. AllLater s a.epoch) fired swapped k.gone
            (All-map swapped (λ a h i lo hi used. omega (arith, h, inv.later i lo hi used))
              p.ready);
    }

pub bump_with_action-Keeps :
    {s : LightEpoch} (passes context : ℕ)
    → IsSafe s
    → s.current_epoch + 1 < free_epoch
    → MayKeep (bump_with_action passes s context)
unfolding bump_with_action registered
bump_with_action-Keeps {s} passes context inv room =
    let r = bump_current_epoch s in
    let k = bump_current_epoch-Keeps inv room in
    let prior = (r.0.current_epoch + u64 - 1) % u64 in
    let before : prior < r.0.current_epoch = omega (arith, k.safe.behind, k.safe.bounded) in
    let post =
      register-Post r.0.safe_to_reclaim_epoch prior context r.0.current_epoch
        (omega (arith, k.safe.behind, k.safe.bounded)) before k.safe.bounded passes r.0.drain_list
        k.safe.past in
    registered-Keeps r _ k post
