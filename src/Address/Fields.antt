-- ===== src/Address/Fields.antt =====
-- core/address.h: the bit-fields of an address, and the order of addresses.
use fish_store.Base.{ℕ, ◌^◌, ◌≤◌, ◌<◌, ◌≡◌, true, ◌⊎◌, ◌↔◌, arith}
use fish_store.Address.{
  Address, address_bits, max_page, max_offset, offset, page, reserved, make, lt,
}

-- A page and an offset in range come back from the address made of them, whose reserved bits are
-- clear.
pub make-fields :
    (p o : ℕ)
    → p ≤ max_page
    → o ≤ max_offset
    → (page (make p o) ≡ p) × (offset (make p o) ≡ o) × (reserved (make p o) ≡ 0)
unfolding page offset reserved make
make-fields p o hp ho = omega arith

-- An address with clear reserved bits is made of its page and its offset.
pub fields-make : (a : Address) → a.control < 2 ^ address_bits → (make (page a) (offset a)) ≡ a
unfolding page offset make
fields-make a h = ground arith

-- Addresses with clear reserved bits are ordered by page, then by offset.
pub lt_iff_fields :
    (a b : Address)
    → a.control < 2 ^ address_bits
    → b.control < 2 ^ address_bits
    → (lt a b ≡ true) ↔ ((page a < page b) ⊎ ((page a ≡ page b) × (offset a < offset b)))
unfolding lt page offset
lt_iff_fields a b ha hb = ground arith
