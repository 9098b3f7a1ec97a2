-- ===== src/Thread.antt =====
-- core/thread.h and core/thread.cc: the ids of threads. Each compare-exchange of the loop is taken
-- with no other thread in between.
pub mod Reserve
use fish_store.Base.{
  ℕ, zero, suc, ◌+◌, ◌*◌, ◌%◌, ◌^◌, Bool, true, false, ltb, ◌==◌, if◌then◌else◌, Option, none, some,
}
use fish_store.Address.{u32}

abbrev pub max_num_threads : ℕ
max_num_threads = 96

-- `next_index_` and `id_used_`
pub record Ids : Type 0 where
  pub next_index : ℕ
  pub id_used : ℕ → Bool

abbrev pub no_ids : Ids
no_ids = record { next_index = 0; id_used = λ _. false }

abbrev pub mark : (ℕ → Bool) → ℕ → Bool → ℕ → Bool
mark used i b j = if j == i then b else used j

-- The loop of `ReserveEntry`, with some rounds to go; `none` is the exception.
unfoldable pub reserve_loop : (ℕ → Bool) → ℕ → ℕ → Option (ℕ × (ℕ → Bool))
reserve_loop used zero id = none
reserve_loop used (suc rounds) id =
    let slot = id % max_num_threads in
    let rest = reserve_loop used rounds (id + 1) in
    if used slot then rest else some (slot, mark used slot true)

-- `ReserveEntry`: the end is computed in 32 bits, so the loop is empty where it wraps.
unfoldable pub reserve_entry : Ids → Option (ℕ × Ids)
unfolding reserve_loop
reserve_entry s =
    let next = (s.next_index + 1) % u32 in
    let end' = (s.next_index + 2 * max_num_threads) % u32 in
    let rounds : ℕ = if ltb s.next_index end' then 2 * max_num_threads else 0 in
    elim (reserve_loop s.id_used rounds s.next_index) [
      | none ↦ none
      | some (id, used) ↦ some (id, record { next_index = next; id_used = used })
    ]

unfoldable pub release_entry : Ids → ℕ → Ids
release_entry s id = record s { id_used = mark s.id_used id false }
