-- ===== src/Address.antt =====
-- core/address.h: the 48-bit logical address, 25 bits of offset below 23 bits of page.
pub mod Fields
pub mod Scan
use fish_store.Base.{ℕ, ◌+◌, ◌*◌, ◌-◌, ◌/◌, ◌%◌, ◌^◌, Bool, not, ltb, leb, ◌==◌, if◌then◌else◌}

abbrev pub u64 : ℕ
u64 = 2 ^ 64

abbrev pub u32 : ℕ
u32 = 2 ^ 32

-- The union's `control_`; the bit-fields are read from it.
pub record Address : Type 0 where
  pub control : ℕ

abbrev pub invalid_address : ℕ
invalid_address = 1

abbrev pub address_bits : ℕ
address_bits = 48

abbrev pub max_address : ℕ
max_address = 2 ^ address_bits - 1

abbrev pub offset_bits : ℕ
offset_bits = 25

abbrev pub max_offset : ℕ
max_offset = 2 ^ offset_bits - 1

abbrev pub page_bits : ℕ
page_bits = address_bits - offset_bits

abbrev pub max_page : ℕ
max_page = 2 ^ page_bits - 1

-- The three bit-fields.
unfoldable pub offset : Address → ℕ
offset a = a.control % 2 ^ offset_bits

unfoldable pub page : Address → ℕ
page a = a.control / 2 ^ offset_bits % 2 ^ page_bits

unfoldable pub reserved : Address → ℕ
reserved a = a.control / 2 ^ address_bits % 2 ^ 16

-- `Address(page, offset)`: each value is cut to its bit-field.
unfoldable pub make : ℕ → ℕ → Address
make p o = record { control = o % 2 ^ offset_bits + p % 2 ^ page_bits * 2 ^ offset_bits }

unfoldable pub advance : Address → ℕ → Address
advance a delta = record { control = (a.control + delta) % u64 }

unfoldable pub minus : Address → Address → Address
minus a b = record { control = (a.control + u64 - b.control) % u64 }

unfoldable pub lt : Address → Address → Bool
lt a b = ltb a.control b.control

unfoldable pub le : Address → Address → Bool
le a b = leb a.control b.control

unfoldable pub gt : Address → Address → Bool
gt a b = ltb b.control a.control

unfoldable pub ge : Address → Address → Bool
ge a b = leb b.control a.control

unfoldable pub eq : Address → Address → Bool
eq a b = a.control == b.control

unfoldable pub ne : Address → Address → Bool
unfolding eq
ne a b = not (eq a b)

-- `std::min` on addresses.
unfoldable pub min_address : Address → Address → Address
unfolding lt
min_address a b = if lt b a then b else a

unfoldable pub scan_offset : Address → ℕ → ℕ
scan_offset a bit = a.control % 2 ^ bit % u32

unfoldable pub scan_page : Address → ℕ → ℕ
scan_page a bit = a.control / 2 ^ bit

unfoldable pub scan_page_head : Address → ℕ → Address
unfolding scan_page
scan_page_head a bit = record { control = scan_page a bit * 2 ^ bit % u64 }

unfoldable pub scan_page_size : ℕ → ℕ
scan_page_size bit = 2 ^ bit
