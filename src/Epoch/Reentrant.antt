-- ===== src/Epoch/Reentrant.antt =====
-- core/light_epoch.h: the reentrant protection.
use fish_store.Base.{ℕ, ◌-◌, ◌<◌, ◌≡◌, true, false, arith}
use fish_store.Address.{u32}
use fish_store.Epoch.{LightEpoch, reentrant_protect, reentrant_unprotect, is_protected}

-- One pair of calls: the thread is protected in between, in the current epoch, and afterwards its
-- row is as before.
pub reentrant_unprotect-protect :
    (s : LightEpoch) (t : ℕ)
    → (s.table t).local_current_epoch ≡ 0
    → (s.table t).reentrant ≡ 0
    → 0 < s.current_epoch
    → (is_protected (reentrant_protect s t) t ≡ true)
      × (((reentrant_protect s t).table t).local_current_epoch ≡ s.current_epoch)
      × ((reentrant_unprotect (reentrant_protect s t) t).table t ≡ s.table t)
unfolding reentrant_protect reentrant_unprotect is_protected
reentrant_unprotect-protect s t out zeros pos = ground arith

-- Two nested pairs: the inner unprotect already takes the thread out of the epoch, while the outer
-- protection still stands; and the outer one then wraps the count below zero.
pub reentrant_unprotect_nested :
    (s : LightEpoch) (t : ℕ)
    → (s.table t).local_current_epoch ≡ 0
    → (s.table t).reentrant ≡ 0
    → 0 < s.current_epoch
    → (is_protected (reentrant_unprotect (reentrant_protect (reentrant_protect s t) t) t) t ≡ false)
      × (((reentrant_unprotect
              (reentrant_unprotect (reentrant_protect (reentrant_protect s t) t) t)
              t).table
            t).reentrant
          ≡ u32 - 1)
unfolding reentrant_protect reentrant_unprotect is_protected
reentrant_unprotect_nested s t out zeros pos = ground arith
