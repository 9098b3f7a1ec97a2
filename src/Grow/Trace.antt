-- ===== src/Grow/Trace.antt =====
-- core/fishstore.h: what TraceBackForOtherChainStart finds.
use fish_store.Base.{
  ℕ, zero, suc, ◌<◌, ◌≤◌, ◌≡◌, ◌≢◌, ◌⊎◌, inl, inr, refl, ◌==◌, true, false, Bool, not, leb, Option,
  some, Bool-cases, arith,
}
use fish_store.Grow.{Source, zero_side, differ, trace_back}

-- Following previous addresses from `a` while they are not below the begin address leads to `k`.
pub data Leads (g : Source) : ℕ → ℕ → Type 0 where
  here : (a : ℕ) → g.begin_address ≤ a → Leads g a a
  back : (a : ℕ) {k : ℕ} → g.begin_address ≤ a → Leads g (g.prev_address a) k → Leads g a k

-- A key pointer that may be of the side: of that side, or on disk.
abbrev pub Belongs : Source → Bool → ℕ → Type 0
Belongs g side k = (k < g.head_address) ⊎ (zero_side g k ≡ side)

-- Key pointers in memory point to lower addresses.
abbrev pub Backward : Source → Type 0
Backward g = (a : ℕ) → g.head_address ≤ a → g.prev_address a < a

pub Leads-begin : {g : Source} {a k : ℕ} → Leads g a k → g.begin_address ≤ a
Leads-begin (here a h) = h
Leads-begin (back a h l) = h

-- A key pointer of the other side is not where a chain of this side starts, but behind it.
pub Leads-past :
    {g : Source} {a k : ℕ} (other : Bool)
    → g.head_address ≤ a
    → zero_side g a ≢ other
    → Leads g a k
    → Belongs g other k
    → Leads g (g.prev_address a) k
Leads-past other le ne (here a h) (inl below) = absurd (omega arith)
Leads-past other le ne (here a h) (inr same) = absurd (ne same)
Leads-past other le ne (back a h l) b = l

abbrev Found : Source → Bool → ℕ → Option ℕ → Type 0
Found g other from o =
    (a : ℕ) × (o ≡ some a)
    × (a ≤ from)
    × ((k : ℕ) → Leads g from k → Belongs g other k → Leads g a k)

-- With more rounds than the address that it starts from, the trace ends, and what it returns leads to every
-- key pointer of the other side that its start leads to, and to every one on disk.
pub trace_back-Found :
    (rounds : ℕ) (g : Source) (from side : ℕ)
    → Backward g
    → from < rounds
    → Found g (not (side == 0)) from (trace_back rounds g from g.head_address side)
unfolding trace_back
trace_back-Found zero g from side backward lt = absurd (omega arith)
trace_back-Found (suc rounds) g from side backward lt =
    elim (Bool-cases (leb g.head_address from)) [
      | inr below ↦ rw below (from, refl, omega arith, (λ k l b. l))
      | inl within ↦ elim (Bool-cases (differ (zero_side g from) (side == 0))) [
        | inl other ↦ rw (within, other) (from, refl, omega arith, (λ k l b. l))
        | inr same ↦
            let lower = backward from (ground arith) in
            let (a, e, le, leads) =
              trace_back-Found rounds g (g.prev_address from) side backward
                (omega (arith, lower)) in
            rw (within, same)
              (
                a,
                e,
                omega (arith, le, lower),
                λ k l b.
                    leads k
                      (Leads-past (not (side == 0)) (ground arith)
                        (not_other (zero_side g from) (side == 0) same) l b)
                      b,
              )
      ]
    ]
  where
    not_other : (x y : Bool) → differ x y ≡ false → x ≢ not y
    not_other true true e z = absurd (cc z)
    not_other true false e z = absurd (cc e)
    not_other false true e z = absurd (cc e)
    not_other false false e z = absurd (cc z)
