-- ===== src/Batch/Settle.antt =====
-- core/hash_table.h and core/malloc_fixed_page_size.h: what comes of a batch of requests.
use fish_store.Base.{
  ℕ, zero, suc, ◌+◌, ◌-◌, ◌%◌, ◌<◌, ◌≤◌, ◌≡◌, ◌⊎◌, inl, inr, refl, sym, ap, ◌∙◌, Bool, true, false,
  not, ◌&&◌, ◌||◌, ◌==◌, if◌then◌else◌, some, List, [], ◌∷◌, ◌++◌, length, length-append,
  Bool-cases, arith,
}
use fish_store.Address.{u64}
use fish_store.Batch.{
  Status, is_ok, Batch, Answer, begin_batch, callback, callbacks, outcome, poll, complete,
}

-- Whether all requests did well, and the file was closed well by the callback that comes last.
unfoldable pub all_well : List Answer → Bool
all_well [] = true
all_well (a ∷ []) = is_ok a.result && is_ok a.close
all_well (a ∷ b ∷ as') = is_ok a.result && all_well (b ∷ as')

abbrev pub all_answers : List (List Answer) → List Answer
all_answers [] = []
all_answers (as' ∷ polls) = as' ++ all_answers polls

-- A batch of which `n` requests are open.
abbrev open_batch : ℕ → Bool → Batch
open_batch n failed = record { requests = n; is_pending = true; failed = failed }

callback-more :
    (a : Answer) (n : ℕ) (failed : Bool)
    → suc (suc n) < u64
    → callback a (open_batch (suc (suc n)) failed)
      ≡ open_batch (suc n) (failed || not (is_ok a.result))
unfolding callback
callback-more a n failed small =
    let left : (suc (suc n) + u64 - 1) % u64 ≡ suc n = omega arith in
    let more : (suc n == 0) ≡ false = ground arith in rw (left, more) refl

callback-last :
    (a : Answer) (failed : Bool)
    → callback a (open_batch 1 failed) ≡ record {
      requests = 0;
      is_pending = false;
      failed = (failed || not (is_ok a.result)) || not (is_ok a.close);
    }
unfolding callback
callback-last a failed = refl

or-or : (a b c : Bool) → (a || not b) || not c ≡ a || not (b && c)
or-or true b c = refl
or-or false true c = refl
or-or false false c = refl

abbrev closed : Bool → Batch
closed failed = record { requests = 0; is_pending = false; failed = failed }

-- The callbacks of all open requests settle the batch.
callbacks-all :
    (as' : List Answer) (n : ℕ) (failed : Bool)
    → suc n < u64
    → length as' ≡ suc n
    → callbacks as' (open_batch (suc n) failed) ≡ closed (failed || not (all_well as'))
unfolding callbacks all_well
callbacks-all [] n failed small e = absurd (omega (arith, e))
callbacks-all (a ∷ []) n failed small e =
    let one : n ≡ 0 = omega (arith, e) in
    rw one (callback-last a failed ∙ ap closed (or-or failed (is_ok a.result) (is_ok a.close)))
callbacks-all (a ∷ b ∷ as') zero failed small e = absurd (omega (arith, e))
callbacks-all (a ∷ b ∷ as') (suc n) failed small e =
    ap (callbacks (b ∷ as')) (callback-more a n failed small)
    ∙ callbacks-all (b ∷ as') n (failed || not (is_ok a.result)) (omega arith) (omega (arith, e))
    ∙ ap closed (or-or failed (is_ok a.result) (all_well (b ∷ as')))

-- Before that, the batch stays open.
callbacks-some :
    (as' : List Answer) (n : ℕ) (failed : Bool)
    → n < u64
    → length as' < n
    → (f : Bool) × (callbacks as' (open_batch n failed) ≡ open_batch (n - length as') f)
unfolding callbacks
callbacks-some [] n failed small lt =
    let same : n ≡ n - 0 = omega arith in (failed, ap (λ m. open_batch m failed) same)
callbacks-some (a ∷ as') zero failed small lt = absurd (omega arith)
callbacks-some (a ∷ as') (suc zero) failed small lt = absurd (omega arith)
callbacks-some (a ∷ as') (suc (suc n)) failed small lt =
    let (f, e) =
      callbacks-some as' (suc n) (failed || not (is_ok a.result)) (omega arith) (omega arith) in
    let fewer : suc n - length as' ≡ suc (suc n) - suc (length as') = omega arith in
    (f, ap (callbacks as') (callback-more a n failed small) ∙ e ∙ ap (λ m. open_batch m f) fewer)

callbacks-append :
    (xs ys : List Answer) (b : Batch) → callbacks (xs ++ ys) b ≡ callbacks ys (callbacks xs b)
unfolding callbacks
callbacks-append [] ys b = refl
callbacks-append (x ∷ xs) ys b = callbacks-append xs ys (callback x b)

callbacks-nil : (xs : List Answer) (b : Batch) → length xs ≡ 0 → callbacks xs b ≡ b
unfolding callbacks
callbacks-nil [] b e = refl
callbacks-nil (x ∷ xs) b e = absurd (omega (arith, e))

-- An open batch that waits for `k` answers, or a settled one that waits for none.
abbrev Awaits : Batch → ℕ → Type 0
Awaits b k = ((f : Bool) × (b ≡ open_batch k f) × (0 < k)) ⊎ ((b.is_pending ≡ false) × (k ≡ 0))

callbacks-Awaits :
    (xs : List Answer) (b : Batch) (k : ℕ)
    → k < u64
    → length xs ≤ k
    → Awaits b k
    → Awaits (callbacks xs b) (k - length xs)
unfolding Awaits
callbacks-Awaits xs b zero small le (inl (f, e, pos)) = absurd (omega arith)
callbacks-Awaits xs b (suc k) small le (inl (f, e, pos)) = elim (Bool-cases (length xs == suc k)) [
  | inl all ↦
      let n : length xs ≡ suc k = ground arith in
      rw e (inr (ap (λ c. c.is_pending) (callbacks-all xs k f small n), omega (arith, n)))
  | inr some_left ↦
      let (f', e') = callbacks-some xs (suc k) f small (ground arith) in
      rw e (inl (f', e', ground arith))
]
callbacks-Awaits xs b k small le (inr (settled, none_left)) =
    let n : length xs ≡ 0 = omega (arith, none_left) in
    rw (callbacks-nil xs b n) (inr (settled, omega (arith, none_left)))

settled-none : (b : Batch) (k : ℕ) → Awaits b k → b.is_pending ≡ false → k ≡ 0
unfolding Awaits
settled-none b k (inl (f, e, pos)) settled = absurd (cc (ap (λ c. c.is_pending) e, settled))
settled-none b k (inr (_, none_left)) settled = none_left

poll-waits :
    (as' : List Answer) (polls : List (List Answer)) (b : Batch)
    → b.is_pending ≡ true
    → poll true (as' ∷ polls) b ≡ poll true polls (callbacks as' b)
unfolding poll
poll-waits as' polls b waits = rw (poll, waits) refl

poll-settles :
    (polls : List (List Answer)) (b : Batch) (k : ℕ)
    → k < u64
    → length (all_answers polls) ≡ k
    → Awaits b k
    → poll true polls b
      ≡ some (outcome (callbacks (all_answers polls) b), callbacks (all_answers polls) b)
unfolding poll Awaits callbacks
poll-settles [] b k small e (inl (f, at, pos)) = absurd (omega (arith, e))
poll-settles [] b k small e (inr (settled, none_left)) = rw settled refl
poll-settles (as' ∷ polls) b k small e w = elim (Bool-cases b.is_pending) [
  | inl waits ↦
      let split = length-append as' (all_answers polls) in
      let w' = callbacks-Awaits as' b k small (omega (arith, e, split)) w in
      let later =
        poll-settles polls (callbacks as' b) (k - length as') (omega arith)
          (omega (arith, e, split)) w' in
      poll-waits as' polls b waits
      ∙ later
      ∙ ap (λ c. some (outcome c, c)) (sym (callbacks-append as' (all_answers polls) b))
  | inr settled ↦
      let nothing = callbacks-nil (as' ++ all_answers polls) b (e ∙ settled-none b k w settled) in
      rw (nothing, settled) refl
]

-- A batch of `n` requests, 0 < n < 2^64, whose callbacks run in any order and in any polls: ended with waiting, it returns
-- once all callbacks have run, with IOError exactly if a request or the close of the file failed and
-- with Ok otherwise; ended without waiting before all have run, it returns Pending.
pub complete-settles :
    (n : ℕ) (first : List Answer) (polls : List (List Answer))
    → 0 < n
    → n < u64
    → length (first ++ all_answers polls) ≡ n
    → (after : Batch) × (complete true first polls (begin_batch n)
        ≡ some
            (if all_well (first ++ all_answers polls) then Status.ok else Status.io_error, after))
      × (length first < n
          → (c : Batch) × (complete false first [] (begin_batch n) ≡ some (Status.pending, c)))
unfolding complete begin_batch poll
complete-settles zero first polls pos small e = absurd (omega arith)
complete-settles (suc n) first polls pos small e =
    let begun = open_batch (suc n) false in
    let split = length-append first (all_answers polls) in
    let fits : length first ≤ suc n = omega (arith, e, split) in
    let w = callbacks-Awaits first begun (suc n) small fits (inl (false, refl, pos)) in
    let all = callbacks-all (first ++ all_answers polls) n false small e in
    let rest =
      poll-settles polls (callbacks first begun) (suc n - length first) (omega arith)
        (omega (arith, e, split)) w in
    let settled = sym (callbacks-append first (all_answers polls) begun) ∙ all in
    (
      closed (not (all_well (first ++ all_answers polls))),
      rest
          ∙ ap (λ c. some (outcome c, c)) settled
          ∙ ap (λ o. some (o, closed (not (all_well (first ++ all_answers polls)))))
              (status_of (all_well (first ++ all_answers polls))),
      λ lt.
          let (f, still) = callbacks-some first (suc n) false small lt in
          (open_batch (suc n - length first) f, ap (λ c. some (outcome c, c)) still),
    )
  where
    status_of :
        (well : Bool) → outcome (closed (not well)) ≡ (if well then Status.ok else Status.io_error)
    status_of true = refl
    status_of false = refl
