-- ===== src/Epoch/Unseen.antt =====
-- core/light_epoch.h, core/thread.h: the first thread has the id 0, and the scans start at row 1.
use fish_store.Base.{
  ℕ, zero, suc, ◌+◌, ◌-◌, ◌%◌, not, ◌==◌, ◌&&◌, ltb, if◌then◌else◌, ◌≤◌, ◌≡◌, refl, ap, arith,
}
use fish_store.Address.{u64}
use fish_store.Epoch.{
  Row, LightEpoch, put_row, unprotected, protect, oldest, compute_new_safe_to_reclaim_epoch,
}

oldest-put_zero :
    (table : ℕ → Row) (r : Row) (rounds index acc : ℕ)
    → 1 ≤ index
    → oldest (put_row table 0 r) rounds index acc ≡ oldest table rounds index acc
unfolding oldest
oldest-put_zero table r zero index acc h = refl
oldest-put_zero table r (suc rounds) (suc index) acc h =
    let e = (table (suc index)).local_current_epoch in
    ground (
      arith,
      oldest-put_zero table r rounds (suc index + 1)
          (if not (e == unprotected) && ltb e acc then e else acc) (omega arith),
    )
oldest-put_zero table r (suc rounds) zero acc h = absurd (omega arith)

-- The thread whose id is 0 does not hold back the epoch that is safe to reclaim: it is computed the
-- same whether or not this thread is protected; so with no other thread in an epoch, the epoch before
-- the given one is safe although this thread is protected in it or in an earlier one.
pub protect_zero-unseen :
    (s : LightEpoch) (next : ℕ)
    → (compute_new_safe_to_reclaim_epoch (protect s 0) next).safe_to_reclaim_epoch
      ≡ (compute_new_safe_to_reclaim_epoch s next).safe_to_reclaim_epoch
unfolding compute_new_safe_to_reclaim_epoch protect
protect_zero-unseen s next =
    ap (λ (o : ℕ). (o + u64 - 1) % u64)
      (oldest-put_zero s.table _ s.num_entries 1 next (omega arith))
