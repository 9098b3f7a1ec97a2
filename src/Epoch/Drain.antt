-- ===== src/Epoch/Drain.antt =====
-- core/light_epoch.h: the loop of `Drain` over the drain list.
use fish_store.Base.{
  ℕ, ◌+◌, ◌≤◌, ◌<◌, ◌≡◌, refl, ap, leb, ◌==◌, if◌then◌else◌, List, [], ◌∷◌, length, arith,
}
use fish_store.Address.{u32}
use fish_store.Epoch.Oldest.{compute_new_safe_to_reclaim_epoch-last}
use fish_store.Epoch.{
  Slot, free_slot, free_epoch, decrement, drain_slots, LightEpoch, drain,
  compute_new_safe_to_reclaim_epoch,
}

-- The actions that wait in the list, those of them that are ready, and the list without these.
abbrev pub count_occupied : List Slot → ℕ
count_occupied [] = 0
count_occupied (a ∷ as') =
    if a.epoch == free_epoch then count_occupied as' else count_occupied as' + 1

abbrev pub select_ready : ℕ → List Slot → List Slot
select_ready safe [] = []
select_ready safe (a ∷ as') =
    if leb a.epoch safe then a ∷ select_ready safe as' else select_ready safe as'

abbrev pub clear_ready : ℕ → List Slot → List Slot
clear_ready safe [] = []
clear_ready safe (a ∷ as') = (if leb a.epoch safe then free_slot else a) ∷ clear_ready safe as'

-- A list with no action in it holds no ready one.
nothing_ready :
    (safe : ℕ) (as' : List Slot)
    → safe < free_epoch
    → count_occupied as' ≡ 0
    → (select_ready safe as' ≡ []) × (clear_ready safe as' ≡ as')
nothing_ready safe [] small h = (refl, refl)
nothing_ready safe (a ∷ as') small h = ground (arith, nothing_ready safe as')

drain_slots-ready :
    (safe kept count : ℕ) (as' : List Slot)
    → safe < free_epoch
    → count < u32
    → count ≡ kept + count_occupied as'
    → ((drain_slots safe as' count).slots ≡ clear_ready safe as')
      × ((drain_slots safe as' count).fired ≡ select_ready safe as')
      × ((drain_slots safe as' count).count ≡ kept + count_occupied (clear_ready safe as'))
unfolding drain_slots
drain_slots-ready safe kept count [] small fits e = (refl, refl, omega arith)
drain_slots-ready safe kept count (a ∷ as') small fits e = ground (
  arith,
  drain_slots-ready safe kept count as',
  drain_slots-ready safe (kept + 1) count as',
  drain_slots-ready safe kept (decrement count) as',
  nothing_ready safe as',
)

pub count_occupied-le : (as' : List Slot) → count_occupied as' ≤ length as'
count_occupied-le [] = omega arith
count_occupied-le (a ∷ as') = ground (arith, count_occupied-le as')

-- Where the count is that of the waiting actions and the current epoch is in range, `Drain` performs
-- just the actions whose epoch is now safe to reclaim, in the order of their slots, frees their
-- slots and no others, and the count is again that of the waiting actions: that the loop ends at a
-- count of zero leaves out none.
pub drain-ready :
    (s : LightEpoch) (next : ℕ)
    → 0 < next
    → next < free_epoch
    → s.drain_count ≡ count_occupied s.drain_list
    → length s.drain_list < u32
    → ((drain s next).1 ≡ select_ready (drain s next).0.safe_to_reclaim_epoch s.drain_list)
      × ((drain s next).0.drain_list
          ≡ clear_ready (drain s next).0.safe_to_reclaim_epoch s.drain_list)
      × ((drain s next).0.drain_count ≡ count_occupied (drain s next).0.drain_list)
unfolding drain
drain-ready s next pos bound counted few =
    let safe = (compute_new_safe_to_reclaim_epoch s next).safe_to_reclaim_epoch in
    let (before, _, _) = compute_new_safe_to_reclaim_epoch-last s next pos (omega arith) in
    let (slots, fired, count) =
      drain_slots-ready safe 0 s.drain_count s.drain_list (omega (arith, before, bound))
        (omega (arith, few, counted, count_occupied-le s.drain_list)) (omega (arith, counted)) in
    (fired, slots, omega (arith, count, ap count_occupied slots))
