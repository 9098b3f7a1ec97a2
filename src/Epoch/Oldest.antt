-- ===== src/Epoch/Oldest.antt =====
-- core/light_epoch.h: the scan of `ComputeNewSafeToReclaimEpoch` over the epoch table.
use fish_store.Base.{
  ℕ, zero, suc, ◌+◌, ◌-◌, ◌%◌, ◌≤◌, ◌<◌, ◌≡◌, ◌≢◌, ◌⊎◌, inl, inr, refl, ◌∙◌, not, ltb, ◌==◌, ◌&&◌,
  if◌then◌else◌, Bool-cases, arith,
}
use fish_store.Address.{u64}
use fish_store.Epoch.{Row, LightEpoch, unprotected, oldest, compute_new_safe_to_reclaim_epoch}

abbrev pub epoch_at : (ℕ → Row) → ℕ → ℕ
epoch_at table i = (table i).local_current_epoch

abbrev older : ℕ → ℕ → ℕ
older e acc = if not (e == unprotected) && ltb e acc then e else acc

pub oldest-le : (table : ℕ → Row) (rounds index acc : ℕ) → oldest table rounds index acc ≤ acc
unfolding oldest
oldest-le table zero index acc = omega arith
oldest-le table (suc rounds) index acc =
    ground (arith, oldest-le table rounds (index + 1) (older (epoch_at table index) acc))

pub oldest-le-row :
    (table : ℕ → Row) (rounds index acc i : ℕ)
    → index ≤ i
    → i < index + rounds
    → epoch_at table i ≢ 0
    → oldest table rounds index acc ≤ epoch_at table i
unfolding oldest
oldest-le-row table zero index acc i lo hi used = absurd (omega arith)
oldest-le-row table (suc rounds) index acc i lo hi used = elim (Bool-cases (i == index)) [
  | inl here ↦ ground (arith, oldest-le table rounds (index + 1) (older (epoch_at table index) acc))
  | inr later ↦
      oldest-le-row table rounds (index + 1) (older (epoch_at table index) acc) i (ground arith)
        (omega arith) used
]

older-cases : (e acc : ℕ) → (older e acc ≡ acc) ⊎ ((older e acc ≡ e) × (e ≢ 0))
older-cases e acc = elim (Bool-cases (not (e == unprotected) && ltb e acc)) [
  | inl t ↦ inr (rw t, ground arith)
  | inr f ↦ inl (rw f)
]

-- A thread that is in an epoch.
pub record InEpoch (table : ℕ → Row) (index rounds e : ℕ) : Type 0 where
  pub row : ℕ
  pub from : index ≤ row
  pub to : row < index + rounds
  pub used : epoch_at table row ≢ 0
  pub there : e ≡ epoch_at table row

oldest-attained :
    (table : ℕ → Row) (rounds index acc : ℕ)
    → (oldest table rounds index acc ≡ acc)
      ⊎ InEpoch table index rounds (oldest table rounds index acc)
unfolding oldest
oldest-attained table zero index acc = inl refl
oldest-attained table (suc rounds) index acc =
    let e = epoch_at table index in
    elim (oldest-attained table rounds (index + 1) (older e acc)) [
      | inr later ↦ inr (record {
        row = later.row;
        from = omega arith;
        to = omega arith;
        used = later.used;
        there = later.there;
      })
      | inl same ↦ elim (older-cases e acc) [
        | inl kept ↦ inl (same ∙ kept)
        | inr taken ↦ inr (record {
          row = index;
          from = omega arith;
          to = omega arith;
          used = taken.1;
          there = same ∙ taken.0;
        })
      ]
    ]

-- Every thread in an epoch, of the rows 1 to `num_entries`, is in one later than `e`.
abbrev pub AllLater : LightEpoch → ℕ → Type 0
AllLater s e = (i : ℕ) → 1 ≤ i → i ≤ s.num_entries → epoch_at s.table i ≢ 0 → e < epoch_at s.table i

oldest-pos : (table : ℕ → Row) (rounds index acc : ℕ) → 0 < acc → 0 < oldest table rounds index acc
oldest-pos table rounds index acc h = elim (oldest-attained table rounds index acc) [
  | inl e ↦ omega arith
  | inr w ↦ omega (arith, w.there, w.used)
]

-- The epoch that becomes safe to reclaim is before the given one and before those of all threads in
-- an epoch, and it is the last such: the next one is the given one or the epoch of some thread.
pub compute_new_safe_to_reclaim_epoch-last :
    (s : LightEpoch) (next : ℕ)
    → 0 < next
    → next < u64
    → ((compute_new_safe_to_reclaim_epoch s next).safe_to_reclaim_epoch < next)
      × AllLater s (compute_new_safe_to_reclaim_epoch s next).safe_to_reclaim_epoch
      × (((compute_new_safe_to_reclaim_epoch s next).safe_to_reclaim_epoch + 1 ≡ next)
          ⊎ InEpoch s.table 1 s.num_entries
              ((compute_new_safe_to_reclaim_epoch s next).safe_to_reclaim_epoch + 1))
unfolding compute_new_safe_to_reclaim_epoch
compute_new_safe_to_reclaim_epoch-last s next pos small =
    let o = oldest s.table s.num_entries 1 next in
    let le = oldest-le s.table s.num_entries 1 next in
    let some_epoch = oldest-pos s.table s.num_entries 1 next pos in
    let cut : (o + u64 - 1) % u64 + 1 ≡ o = omega (arith, le, some_epoch) in
    (
      omega (arith, le, cut),
      λ i lo hi used.
          omega (arith, cut, oldest-le-row s.table s.num_entries 1 next i lo (omega arith) used),
      rw cut (oldest-attained s.table s.num_entries 1 next),
    )
