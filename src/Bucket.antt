-- ===== src/Bucket.antt =====
-- core/hash_bucket.h: hash bucket entries packed into one word, and the overflow entry.
pub mod Packing
use fish_store.Base.{
  ℕ, ◌+◌, ◌*◌, ◌-◌, ◌/◌, ◌%◌, ◌^◌, Bool, true, false, not, ◌==◌, if◌then◌else◌, List,
}
use fish_store.Address.{Address}

-- `HashBucketEntry`: 48 bits of address, 14 bits of tag, a reserved bit, the tentative bit.
pub record Entry : Type 0 where
  pub control : ℕ

abbrev pub invalid_entry : Entry
invalid_entry = record { control = 0 }

abbrev pub bit : Bool → ℕ
bit true = 1
bit false = 0

-- `HashBucketEntry(address, tag, tentative)`: each value is cut to its bit-field.
unfoldable pub make_entry : Address → ℕ → Bool → Entry
make_entry a tag tentative = record {
  control = a.control % 2 ^ 48 + tag % 2 ^ 14 * 2 ^ 48 + bit tentative * 2 ^ 63;
}

unfoldable pub entry_eq : Entry → Entry → Bool
entry_eq a b = a.control == b.control

unfoldable pub unused : Entry → Bool
unused e = e.control == 0

unfoldable pub address : Entry → Address
address e = record { control = e.control % 2 ^ 48 }

unfoldable pub tag : Entry → ℕ
tag e = e.control / 2 ^ 48 % 2 ^ 14

unfoldable pub tentative : Entry → Bool
tentative e = not (e.control / 2 ^ 63 % 2 == 0)

unfoldable pub set_tentative : Entry → Bool → Entry
set_tentative e desired = record { control = e.control % 2 ^ 63 + bit desired * 2 ^ 63 }

-- `HashBucketOverflowEntry`: 48 bits of a fixed-page address.
pub record OverflowEntry : Type 0 where
  pub control : ℕ

unfoldable pub make_overflow : ℕ → OverflowEntry
make_overflow address = record { control = address % 2 ^ 48 }

unfoldable pub overflow_address : OverflowEntry → ℕ
overflow_address e = e.control % 2 ^ 48

unfoldable pub overflow_unused : OverflowEntry → Bool
unfolding overflow_address
overflow_unused e = overflow_address e == 0

abbrev pub num_entries : ℕ
num_entries = 7

-- `compare_exchange_strong` of the atomic words: success, what `expected` holds afterwards, and the
-- word afterwards.
unfoldable pub compare_exchange : ℕ → ℕ → ℕ → Bool × ℕ × ℕ
compare_exchange word expected desired =
    if word == expected then (true, expected, desired) else (false, word, word)
