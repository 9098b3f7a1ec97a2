-- ===== src/Locks/Exclusion.antt =====
-- core/checkpoint_locks.h: one lock word, taken and given up by many guards.
use fish_store.Base.{
  ℕ, ◌+◌, ◌*◌, ◌-◌, ◌%◌, ◌^◌, ◌<◌, ◌≡◌, ◌≢◌, ◌⊎◌, inl, inr, refl, Bool, true, false, ◌==◌,
  Bool-cases, Option, none, some, List, [], ◌∷◌, arith,
}
use fish_store.Address.{u32}
use fish_store.Locks.{
  make_lock, old_lock_count, new_lock_count, try_lock_old_loop, try_lock_new_loop, old_locked,
  new_locked, destroy,
}

-- The word that a successful attempt replaces is among those that it met.
abbrev pub Among : ℕ → List ℕ → Type 0
Among w [] = ⊥
Among w (v ∷ vs) = (w ≡ v) ⊎ Among w vs

-- What the loop for an old lock comes to: it replaced a word with no new lock by one with an old lock
-- more and no new lock, or it met a word with a new lock and changed nothing.
abbrev pub Outcome : List ℕ → Option (Bool × ℕ) → Type 0
Outcome words none = Unit
Outcome words (some (true, after)) =
    (w : ℕ) × Among w words
    × (new_lock_count w ≡ 0)
    × (after ≡ make_lock ((old_lock_count w + 1) % u32) 0)
Outcome words (some (false, after)) = new_lock_count after ≢ 0

Outcome-later :
    (w : ℕ) (words : List ℕ) (o : Option (Bool × ℕ)) → Outcome words o → Outcome (w ∷ words) o
Outcome-later w words none h = tt
Outcome-later w words (some (true, after)) (v, among, free, e) = (v, inr among, free, e)
Outcome-later w words (some (false, after)) h = h

-- Whatever other threads leave in the word between the attempts of `try_lock_old`, one that succeeds
-- replaced a word with no new lock by the word with one old lock more and no new lock; one that
-- fails met a new lock; and one whose first attempt meets the word that it loaded ends there.
pub try_lock_old_loop-Outcome :
    (expected : ℕ) (words : List ℕ)
    → Outcome words (try_lock_old_loop expected words)
      × (try_lock_old_loop expected (expected ∷ words) ≢ none)
unfolding try_lock_old_loop
try_lock_old_loop-Outcome expected [] = elim (Bool-cases (new_lock_count expected == 0)) [
  | inl free ↦ (rw free tt, ground arith)
  | inr held ↦ (rw held (ground arith), ground arith)
]
try_lock_old_loop-Outcome expected (word ∷ words) =
    elim (Bool-cases (new_lock_count expected == 0)) [
      | inr held ↦ (rw held (ground arith), ground arith)
      | inl free ↦ elim (Bool-cases (word == expected)) [
        | inl won ↦ (rw (free, won) (word, inl refl, ground arith, ground arith), ground arith)
        | inr lost ↦ (
          rw (free, lost) (Outcome-later word words _ (try_lock_old_loop-Outcome word words).0),
          ground arith,
        )
      ]
    ]

-- A lock word with the numbers of guards that hold its old and its new lock.
pub record Held : Type 0 where
  pub word : ℕ
  pub olds : ℕ
  pub news : ℕ

-- Guards take a lock by a successful compare-exchange, fewer than 2^32 at once, and only a guard
-- that holds one gives it up.
pub data Step (s : Held) : Held → Type 0 where
  take_old :
      (after : ℕ)
      → s.olds + 1 < u32
      → try_lock_old_loop s.word (s.word ∷ []) ≡ some (true, after)
      → Step s (record s { word = after; olds = s.olds + 1 })
  take_new :
      (after : ℕ)
      → s.news + 1 < u32
      → try_lock_new_loop s.word (s.word ∷ []) ≡ some (true, after)
      → Step s (record s { word = after; news = s.news + 1 })
  give_old :
      0 < s.olds
      → Step s (record s {
        word = destroy (record { locked_old = true; locked_new = false }) s.word;
        olds = s.olds - 1;
      })
  give_new :
      0 < s.news
      → Step s (record s {
        word = destroy (record { locked_old = false; locked_new = true }) s.word;
        news = s.news - 1;
      })

pub data Reach : Held → Type 0 where
  start : Reach (record { word = 0; olds = 0; news = 0 })
  next : {s t : Held} → Reach s → Step s t → Reach t

record IsExclusive (s : Held) : Type 0 where
  counts : s.word ≡ s.olds + s.news * 2 ^ 32
  small : (s.olds < u32) × (s.news < u32)
  one_side : (s.olds ≡ 0) ⊎ (s.news ≡ 0)

Step-IsExclusive : {s t : Held} → Step s t → IsExclusive s → IsExclusive t
unfolding try_lock_old_loop try_lock_new_loop make_lock old_lock_count new_lock_count destroy
Step-IsExclusive (take_old after room e) inv = ground arith
Step-IsExclusive (take_new after room e) inv = ground arith
Step-IsExclusive (give_old h) inv = ground arith
Step-IsExclusive (give_new h) inv = ground arith

Reach-IsExclusive : {s : Held} → Reach s → IsExclusive s
Reach-IsExclusive start = ground arith
Reach-IsExclusive (next r st) = Step-IsExclusive st (Reach-IsExclusive r)

-- In every reachable state the word says exactly which locks are held, with their numbers, and an
-- old and a new lock are never held at once.
pub locks_exclude :
    {s : Held}
    → Reach s
    → (old_lock_count s.word ≡ s.olds)
      × (new_lock_count s.word ≡ s.news)
      × ((old_locked s.word ≡ false) ⊎ (new_locked s.word ≡ false))
unfolding old_lock_count new_lock_count old_locked new_locked
locks_exclude r =
    let inv = Reach-IsExclusive r in ground (arith, inv.counts, inv.small, inv.one_side)
