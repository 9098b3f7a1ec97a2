-- ===== src/Address/Scan.antt =====
-- core/address.h: the scan pages of the adaptive prefetch.
use fish_store.Base.{ℕ, ◌+◌, ◌*◌, ◌/◌, ◌%◌, ◌^◌, ◌≤◌, ◌<◌, ◌≡◌, arith, split_low, pow-le-pow}
use fish_store.Address.{Address, u32, u64, scan_offset, scan_page, scan_page_head, scan_page_size}

-- For a scan page of at most 2^31 bytes, every address is the head of its scan page plus its
-- offset in it, and that offset is below the page's size.
pub scan_page_bounds :
    (a : Address) (bit : ℕ)
    → a.control < u64
    → bit ≤ 31
    → ((scan_page_head a bit).control + scan_offset a bit ≡ a.control)
      × (scan_offset a bit < scan_page_size bit)
unfolding scan_offset scan_page_head scan_page_size scan_page
scan_page_bounds a bit h hb =
    let (sum, low) = split_low a.control bit in
    let small : 2 ^ bit ≤ 2 ^ 31 = pow-le-pow bit 31 hb in
    let wraps : a.control / 2 ^ bit * 2 ^ bit % u64 ≡ a.control / 2 ^ bit * 2 ^ bit = omega arith in
    let fits : a.control % 2 ^ bit % u32 ≡ a.control % 2 ^ bit = omega arith in
    rw (wraps, fits) (sum, low)
