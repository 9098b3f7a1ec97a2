-- ===== src/Bucket/Packing.antt =====
-- core/hash_bucket.h: the fields of an entry, and setting its tentative bit.
use fish_store.Base.{ℕ, ◌^◌, ◌<◌, ◌≡◌, Bool, true, false, arith}
use fish_store.Address.{Address}
use fish_store.Bucket.{
  Entry, make_entry, address, tag, tentative, set_tentative, unused, make_overflow,
  overflow_address, overflow_unused,
}

-- An entry made of a 48-bit address that is not zero, a 14-bit tag and a tentative bit gives the
-- three back, and is in use.
pub make_entry-fields :
    (a : Address) (t : ℕ) (b : Bool)
    → a.control < 2 ^ 48
    → 0 < a.control
    → t < 2 ^ 14
    → (address (make_entry a t b) ≡ a)
      × (tag (make_entry a t b) ≡ t)
      × (tentative (make_entry a t b) ≡ b)
      × (unused (make_entry a t b) ≡ false)
unfolding make_entry address tag tentative unused
make_entry-fields a t true ha pos ht = ground arith
make_entry-fields a t false ha pos ht = ground arith

-- Setting the tentative bit of a 64-bit entry sets that bit and keeps the address and the tag.
pub set_tentative-fields :
    (e : Entry) (b : Bool)
    → e.control < 2 ^ 64
    → (tentative (set_tentative e b) ≡ b)
      × (address (set_tentative e b) ≡ address e)
      × (tag (set_tentative e b) ≡ tag e)
unfolding set_tentative address tag tentative
set_tentative-fields e true h = ground arith
set_tentative-fields e false h = ground arith

-- An overflow entry made of a 48-bit address that is not zero gives it back, and is in use.
pub make_overflow-fields :
    (a : ℕ)
    → a < 2 ^ 48
    → 0 < a
    → (overflow_address (make_overflow a) ≡ a) × (overflow_unused (make_overflow a) ≡ false)
unfolding make_overflow overflow_unused
make_overflow-fields a h pos = ground arith
