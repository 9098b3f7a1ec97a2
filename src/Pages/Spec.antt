-- ===== src/Pages/Spec.antt =====
-- core/malloc_fixed_page_size.h: what the allocator promises of its addresses, and how its state stands
-- for it.
use fish_store.Base.{
  ℕ, ◌*◌, ◌^◌, ◌<◌, ◌≤◌, ◌≡◌, ◌≢◌, ◌⊎◌, refl, sym, ◌∙◌, ap, ◌==◌, if◌then◌else◌, true, false, List,
  [], ◌∷◌, ◌++◌, All, All-map, arith,
}
use fish_store.Pages.{FreeAddress, Allocator, page_size}
use fish_store.Pages.Array.{Present, Apart}

-- What an address is: not given out, in use, or freed by a thread at an epoch.
pub data Use : Type 0 where
  unused : Use
  live : Use
  retired : (thread epoch : ℕ) → Use

abbrev pub put_use : (ℕ → Use) → ℕ → Use → ℕ → Use
put_use use_of a u b = if b == a then u else use_of b

-- An address may be given out if it never was, or if it was freed at an epoch that is safe.
abbrev pub Takes : ℕ → (ℕ → Use) → ℕ → Type 0
Takes safe use_of a =
    (use_of a ≡ Use.unused)
    ⊎ ((thread : ℕ) × (epoch : ℕ) × (use_of a ≡ Use.retired thread epoch) × (epoch ≤ safe))

abbrev pub Retired : (ℕ → Use) → ℕ → List FreeAddress → Type 0
Retired use_of t = All (λ f. use_of f.removed_addr.control ≡ Use.retired t f.removal_epoch)

abbrev pub Lacks : ℕ → List FreeAddress → Type 0
Lacks a = All (λ f. f.removed_addr.control ≢ a)

abbrev pub Distinct : List FreeAddress → Type 0
Distinct [] = Unit
Distinct (f ∷ fs) = Lacks f.removed_addr.control fs × Distinct fs

-- The state of the allocator for these uses of the addresses.
pub record Represents (s : Allocator) (use_of : ℕ → Use) : Type 0 where
  pub given : 0 < s.count.control
  pub narrow : s.count.control < 2 ^ 48
  pub beyond : (a : ℕ) → s.count.control ≤ a → use_of a ≡ Use.unused
  pub null : use_of 0 ≡ Use.live
  pub lists : (t : ℕ) → Retired use_of t (s.free_list t)
  pub single : (t : ℕ) → Distinct (s.free_list t)
  pub there : (i : ℕ) → i * page_size < s.count.control → Present s i
  pub apart : Apart s

module _ (use_of : ℕ → Use) (a : ℕ) (u : Use) where
  pub put_use-same : put_use use_of a u a ≡ u
  put_use-same = let e : (a == a) ≡ true = ground arith in rw e refl

  pub put_use-other : (b : ℕ) → b ≢ a → put_use use_of a u b ≡ use_of b
  put_use-other b ne = let e : (b == a) ≡ false = ground arith in rw e refl

  -- A list without the address is as well kept as before.
  pub Retired-put :
      (t : ℕ) (fs : List FreeAddress)
      → Lacks a fs
      → Retired use_of t fs
      → Retired (put_use use_of a u) t fs
  Retired-put t [] lacks h = tt
  Retired-put t (f ∷ fs) lacks h =
      (put_use-other f.removed_addr.control lacks.0 ∙ h.0, Retired-put t fs lacks.1 h.1)

-- An address that is of another use is on no list of the thread.
pub Retired-Lacks :
    (use_of : ℕ → Use) (t a : ℕ) (fs : List FreeAddress)
    → ((epoch : ℕ) → use_of a ≢ Use.retired t epoch)
    → Retired use_of t fs
    → Lacks a fs
Retired-Lacks use_of t a fs ne h =
    All-map fs (λ f r e. ne f.removal_epoch (ap use_of (sym e) ∙ r)) h

pub unused-retired : {t e : ℕ} → Use.unused ≢ Use.retired t e
unused-retired e = cc e

pub live-retired : {t e : ℕ} → Use.live ≢ Use.retired t e
live-retired e = cc e

pub live-unused : Use.live ≢ Use.unused
live-unused e = cc e

pub retired-thread : {t e u f : ℕ} → Use.retired t e ≡ Use.retired u f → t ≡ u
retired-thread e = cc e

pub Lacks-append :
    (a : ℕ) (fs : List FreeAddress) (g : FreeAddress)
    → Lacks a fs
    → g.removed_addr.control ≢ a
    → Lacks a (fs ++ (g ∷ []))
Lacks-append a [] g h ne = (ne, tt)
Lacks-append a (f ∷ fs) g h ne = (h.0, Lacks-append a fs g h.1 ne)

pub Distinct-append :
    (fs : List FreeAddress) (g : FreeAddress)
    → Distinct fs
    → Lacks g.removed_addr.control fs
    → Distinct (fs ++ (g ∷ []))
Distinct-append [] g h lacks = (tt, tt)
Distinct-append (f ∷ fs) g h lacks = (
  Lacks-append f.removed_addr.control fs g h.0 (λ e. lacks.0 (sym e)),
  Distinct-append fs g h.1 lacks.1,
)
