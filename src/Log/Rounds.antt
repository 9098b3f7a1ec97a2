-- ===== src/Log/Rounds.antt =====
-- core/persistent_memory_malloc.h: the rounds of ShiftFlushedUntilAddress.
use fish_store.Base.{
  ℕ, zero, suc, ◌+◌, ◌*◌, ◌%◌, ◌<◌, ◌≤◌, ◌≡◌, ◌⊎◌, inl, inr, refl, Bool, true, false, ltb, leb,
  ◌==◌, Bool-cases, Option, some, arith,
}
use fish_store.Address.{Address, u32, max_page, page, ge, lt}
use fish_store.Log.{Log, page_size, status_at, monotonic_update}
use fish_store.Log.Flush.{flushed_pages, shift_flushed_until_address, put_flushed_until}
use fish_store.Log.Issued.{page_last}

-- Where the loop of `ShiftFlushedUntilAddress` ends: at a page that is not on disk, or at the page `r`; all the pages
-- that it passed are.
pub record Ends (l : Log) (r g : ℕ) (u : Bool) (o : Option (Bool × Address)) : Type 0 where
  pub update : Bool
  pub address : Address
  pub at : ℕ
  pub result : o ≡ some (update, address)
  pub control : address.control ≡ at * page_size
  pub from : g ≤ at
  pub to : at ≤ r
  pub passed : (p : ℕ) → g ≤ p → p < at → page_last l p ≡ (p + 1) * page_size
  pub stopped : at < r → page_last l at ≡ 0
  pub moved : (update ≡ true) ⊎ ((at ≡ g) × (update ≡ u))

module _ (l : Log) (f r : ℕ)
    (pages : (p : ℕ) → f ≤ p → p < r → (page_last l p ≡ 0) ⊎ (page_last l p ≡ (p + 1) * page_size))
    (top : page_last l r < r * page_size) (small : r ≤ max_page) where
  stop :
      (rounds g : ℕ) (u : Bool) (a : Address)
      → a.control ≡ g * page_size
      → page_last l g < a.control
      → g ≤ r
      → (g < r → page_last l g ≡ 0)
      → Ends l r g u (flushed_pages (suc rounds) l g u a)
  unfolding flushed_pages status_at ge
  stop rounds g u a e below le zero_at =
      let no : leb a.control (page_last l g) ≡ false = ground arith in
      record {
        update = u;
        address = a;
        at = g;
        result = rw no refl;
        control = e;
        from = omega arith;
        to = le;
        passed = λ p le lt. absurd (omega arith);
        stopped = zero_at;
        moved = inr (refl, refl);
      }

  further :
      (rounds g : ℕ) (u : Bool) (a : Address)
      → page_last l g ≡ (g + 1) * page_size
      → a.control ≤ page_last l g
      → g < r
      → Ends l r
          (g + 1)
          true
          (flushed_pages rounds l (g + 1) true (status_at l g).last_flushed_until)
      → Ends l r g u (flushed_pages (suc rounds) l g u a)
  unfolding flushed_pages status_at ge
  further rounds g u a done above lt rest =
      let goes : leb a.control (page_last l g) ≡ true = ground arith in
      let wraps : (g + 1) % u32 ≡ g + 1 = omega arith in
      let after = rest.from in
      record {
        update = rest.update;
        address = rest.address;
        at = rest.at;
        result = rw (goes, wraps) rest.result;
        control = rest.control;
        from = omega arith;
        to = rest.to;
        passed = λ p le lt'. elim (Bool-cases (p == g)) [
          | inl here ↦ let at : p ≡ g = ground arith in rw at done
          | inr other ↦ rest.passed p (ground arith) lt'
        ];
        stopped = rest.stopped;
        moved = inl (elim rest.moved [ inl moved ↦ moved | inr (same, e) ↦ e ]);
      }

  pub flushed_pages-Ends :
      (rounds g : ℕ) (u : Bool) (a : Address)
      → r < g + rounds
      → a.control ≡ g * page_size
      → 0 < f
      → f ≤ g
      → g ≤ r
      → Ends l r g u (flushed_pages rounds l g u a)
  unfolding flushed_pages status_at ge
  flushed_pages-Ends zero g u a enough e pos from to = absurd (omega arith)
  flushed_pages-Ends (suc rounds) g u a enough e pos from to = elim (Bool-cases (ltb g r)) [
    | inr last ↦
        let at : g ≡ r = ground arith in
        stop rounds g u a e (rw (e, at) top) to (λ lt. absurd (omega arith))
    | inl more ↦ elim (pages g from (ground arith)) [
      | inl zero_at ↦ stop rounds g u a e (omega arith) to (λ lt. zero_at)
      | inr done ↦ further rounds g u a done (omega arith) (ground arith) (
          flushed_pages-Ends rounds (g + 1) true (status_at l g).last_flushed_until (omega arith)
            done pos (omega arith) (ground arith))
    ]
  ]

-- What `ShiftFlushedUntilAddress` does from page `f` where all pages from `r` on are not on disk.
pub record Shifted (l : Log) (r f : ℕ) (o : Option Log) : Type 0 where
  pub log : Log
  pub at : ℕ
  pub result : o ≡ some log
  pub page_status : log.page_status ≡ l.page_status
  pub buffer_size : log.buffer_size ≡ l.buffer_size
  pub safe_read_only_address : log.safe_read_only_address ≡ l.safe_read_only_address
  pub flushed : log.flushed_until_address.control ≡ at * page_size
  pub from : f ≤ at
  pub to : at ≤ r
  pub passed : (p : ℕ) → f ≤ p → p < at → page_last l p ≡ (p + 1) * page_size
  pub stopped : at < r → page_last l at ≡ 0

with_flushed : Log → Address → Log
with_flushed l a = record l {
  flushed_until_address = (monotonic_update l.flushed_until_address a).1;
}

module _ (l : Log) (r f : ℕ) (at_f : l.flushed_until_address.control ≡ f * page_size) where
  -- The monotonic update by an address that is not below.
  updated :
      (o : Option (Bool × Address)) → Ends l r f false o → Shifted l r f (put_flushed_until l o)
  unfolding monotonic_update lt
  updated o e = elim e.moved [
    | inl true_update ↦ record {
      log = record l {
        flushed_until_address = (monotonic_update l.flushed_until_address e.address).1;
      };
      at = e.at;
      result = rw (e.result, true_update) refl;
      page_status = refl;
      buffer_size = refl;
      safe_read_only_address = refl;
      flushed = let at_e = e.control in let up = e.from in ground (arith, at_f);
      from = e.from;
      to = e.to;
      passed = e.passed;
      stopped = e.stopped;
    }
    | inr (same, false_update) ↦ record {
      log = l;
      at = e.at;
      result = rw (e.result, false_update) refl;
      page_status = refl;
      buffer_size = refl;
      safe_read_only_address = refl;
      flushed = rw same at_f;
      from = e.from;
      to = e.to;
      passed = e.passed;
      stopped = e.stopped;
    }
  ]

  pub shift_flushed_until_address-Shifted :
      (rounds : ℕ)
      → 0 < f
      → f ≤ r
      → r < f + rounds
      → r ≤ max_page
      → ((p : ℕ) → f ≤ p → p < r → (page_last l p ≡ 0) ⊎ (page_last l p ≡ (p + 1) * page_size))
      → page_last l r < r * page_size
      → Shifted l r f (shift_flushed_until_address rounds l)
  unfolding shift_flushed_until_address page
  shift_flushed_until_address-Shifted rounds pos le enough small pages top =
      let p : page l.flushed_until_address ≡ f = omega arith in
      updated _ (
        rw p (
          flushed_pages-Ends l f r pages top small rounds f false l.flushed_until_address enough
            at_f pos (omega arith) le))
