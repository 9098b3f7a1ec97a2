-- ===== src/Locks.antt =====
-- core/checkpoint_locks.h: the lock words of the checkpoint, a table of them, and the guard.
pub mod Exclusion
use fish_store.Base.{
  ℕ, zero, suc, ◌+◌, ◌*◌, ◌-◌, ◌/◌, ◌%◌, ◌^◌, Bool, true, false, ltb, ◌==◌, if◌then◌else◌, Option,
  none, some, List, [], ◌∷◌, replicate, get_elem?, set,
}
use fish_store.Address.{u32, u64}
use fish_store.KeyHash.{KeyHash, idx}

-- `CheckpointLock`: the count of old locks in the low half of the word, of new locks in the high.
unfoldable pub make_lock : ℕ → ℕ → ℕ
make_lock old new = old % u32 + new % u32 * 2 ^ 32

unfoldable pub old_lock_count : ℕ → ℕ
old_lock_count word = word % u32

unfoldable pub new_lock_count : ℕ → ℕ
new_lock_count word = word / 2 ^ 32 % u32

-- The loop of `AtomicCheckpointLock::try_lock_old`. The list holds what the word is at each
-- compare-exchange, as other threads leave it. A result is the answer and the word afterwards;
-- `none`: the list ends before the loop does.
unfoldable pub try_lock_old_loop : ℕ → List ℕ → Option (Bool × ℕ)
try_lock_old_loop expected [] =
    if new_lock_count expected == 0 then none else some (false, expected)
try_lock_old_loop expected (word ∷ words) =
    let again = try_lock_old_loop word words in
    if new_lock_count expected == 0
    then (if word == expected
        then some (true, make_lock ((old_lock_count expected + 1) % u32) 0)
        else again)
    else some (false, expected)

unfoldable pub try_lock_new_loop : ℕ → List ℕ → Option (Bool × ℕ)
try_lock_new_loop expected [] =
    if old_lock_count expected == 0 then none else some (false, expected)
try_lock_new_loop expected (word ∷ words) =
    let again = try_lock_new_loop word words in
    if old_lock_count expected == 0
    then (if word == expected
        then some (true, make_lock 0 ((new_lock_count expected + 1) % u32))
        else again)
    else some (false, expected)

unfoldable pub unlock_old : ℕ → ℕ
unfolding make_lock
unlock_old word = (word + u64 - make_lock 1 0) % u64

unfoldable pub unlock_new : ℕ → ℕ
unfolding make_lock
unlock_new word = (word + u64 - make_lock 0 1) % u64

unfoldable pub old_locked : ℕ → Bool
unfolding old_lock_count
old_locked word = ltb 0 (old_lock_count word)

unfoldable pub new_locked : ℕ → Bool
unfolding new_lock_count
new_locked word = ltb 0 (new_lock_count word)

-- `CheckpointLocks`: the size and the words; no words while it is not initialized.
pub record Locks : Type 0 where
  pub size : ℕ
  pub words : List ℕ

unfoldable pub initialize : ℕ → Locks
initialize size = record { size = size; words = replicate size 0 }

unfoldable pub free : Locks
free = record { size = 0; words = [] }

unfoldable pub get_lock : Locks → KeyHash → Option ℕ
get_lock l h = get_elem? l.words (idx h l.size)

-- `CheckpointLockGuard`: which of the locks it holds. Its destructor gives them up.
pub record Guard : Type 0 where
  pub locked_old : Bool
  pub locked_new : Bool

unfoldable pub destroy : Guard → ℕ → ℕ
unfolding unlock_old unlock_new
destroy g word =
    let word' = if g.locked_old then unlock_old word else word in
    if g.locked_new then unlock_new word' else word'
