-- ===== src/Epoch/Action.antt =====
-- core/light_epoch.h: `BumpCurrentEpoch(callback, context)` registers its action.
use fish_store.Base.{
  ℕ, suc, ◌+◌, ◌-◌, ◌%◌, ◌<◌, ◌≡◌, List, length, Bool, some, if◌then◌else◌, ◌++◌, arith,
}
use fish_store.Address.{u32, u64}
use fish_store.Epoch.{
  Slot, free_epoch, LightEpoch, bump_current_epoch, bump_with_action, register, register_pass,
}
use fish_store.Epoch.Drain.{count_occupied}
use fish_store.Epoch.Register.{Holds, register_pass-some}

bump-current :
    (s : LightEpoch)
    → s.current_epoch + 1 < free_epoch
    → (bump_current_epoch s).0.current_epoch ≡ s.current_epoch + 1
unfolding bump_current_epoch
bump-current s room = ground arith

register-first :
    (passes safe prior context : ℕ) (as' : List Slot) {r : List Slot × Bool × List Slot}
    → register_pass safe prior context as' ≡ some r
    → register (suc passes) safe prior context as' ≡ some r
unfolding register
register-first passes safe prior context as' e = rw (e, register)

-- The rest of the call, once a slot is taken.
bump_with_action-some :
    (s : LightEpoch) (passes context : ℕ) {r : List Slot × Bool × List Slot}
    → register passes
        (bump_current_epoch s).0.safe_to_reclaim_epoch
        (((bump_current_epoch s).0.current_epoch + u64 - 1) % u64)
        context
        (bump_current_epoch s).0.drain_list
      ≡ some r
    → bump_with_action passes s context
      ≡ some (
        record (bump_current_epoch s).0 {
          drain_list = r.0;
          drain_count =
              if r.1
              then ((bump_current_epoch s).0.drain_count + 1) % u32
              else (bump_current_epoch s).0.drain_count;
        },
        (bump_current_epoch s).1 ++ r.2,
      )
unfolding bump_with_action
bump_with_action-some s passes context e = rw (e, bump_with_action)

-- Below the last epochs, with fewer waiting actions than slots once the epoch is bumped, the
-- registration returns in its first pass: the current epoch is one later, and the action waits for
-- the epoch that was current.
pub bump_with_action-Holds :
    (s : LightEpoch) (passes context : ℕ)
    → s.current_epoch + 1 < free_epoch
    → count_occupied (bump_current_epoch s).0.drain_list
      < length (bump_current_epoch s).0.drain_list
    → (r : LightEpoch × List Slot) × (bump_with_action (suc passes) s context ≡ some r)
      × (r.0.current_epoch ≡ s.current_epoch + 1)
      × Holds (record { epoch = s.current_epoch; context = context }) r.0.drain_list
bump_with_action-Holds s passes context room free =
    let b = (bump_current_epoch s).0 in
    let current = bump-current s room in
    let prior : (b.current_epoch + u64 - 1) % u64 ≡ s.current_epoch = omega (arith, current) in
    let (r, found, holds) =
      register_pass-some b.safe_to_reclaim_epoch s.current_epoch context b.drain_list free in
    let first = register-first passes _ _ _ _ found in
    let done = bump_with_action-some s (suc passes) context (rw prior first) in
    (
      (
        record b {
          drain_list = r.0;
          drain_count = if r.1 then (b.drain_count + 1) % u32 else b.drain_count;
        },
        (bump_current_epoch s).1 ++ r.2,
      ),
      done,
      current,
      holds,
    )
