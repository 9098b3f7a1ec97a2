-- ===== src/Pages/Stored.antt =====
-- core/malloc_fixed_page_size.h: a checkpoint and its recovery, over hash buckets of 64 bytes.
use fish_store.Base.{
  ℕ, zero, suc, ◌+◌, ◌*◌, ◌/◌, ◌%◌, ◌^◌, ◌<◌, ◌≡◌, refl, sym, ap, ◌∙◌, some, get_elem?, arith,
}
use fish_store.Address.{u64}
use fish_store.Batch.{Status, begin_batch}
use fish_store.Pages.{FixedPageAddress, page_size, num_levels, initialize}
use fish_store.Pages.Spec.{Represents}
use fish_store.Pages.Places.{no_lists}
use fish_store.Pages.Restart.{below, num_levels_bounds, recover-Represents}
use fish_store.Pages.Disk.{
  page_request, issue_pages, Stored, start_checkpoint, file_end, start_recover,
}

-- `sizeof(HashBucket)`
abbrev pub item : ℕ
item = 64

abbrev pub accepts : ℕ → Status
accepts i = Status.ok

accepted : (n i : ℕ) → (issue_pages accepts item n i).0 ≡ Status.ok
unfolding issue_pages
accepted zero i = refl
accepted (suc n) i = accepted n (i + 1)

issued :
    (n i j : ℕ)
    → j < n
    → get_elem? (issue_pages accepts item n i).1 j ≡ some (page_request item (i + j))
unfolding issue_pages
issued zero i j lt = absurd (omega arith)
issued (suc n) i zero lt = let e : i ≡ i + 0 = omega arith in ap (λ k. some (page_request item k)) e
issued (suc n) i (suc j) lt =
    let e : i + 1 + j ≡ i + suc j = omega arith in
    issued n (i + 1) j (omega arith) ∙ ap (λ k. some (page_request item k)) e

page_request-exact :
    (i : ℕ)
    → i < 2 ^ 28
    → page_request item i ≡ record { page_index = i; file_offset = i * (page_size * item) }
unfolding page_request
page_request-exact i lt =
    let e : i * (page_size * item) % u64 ≡ i * (page_size * item) = omega arith in rw e refl

-- The end of the file of a checkpoint is the count.
file_end-exact :
    (count : FixedPageAddress) (bytes : ℕ)
    → bytes ≡ count.control * item
    → file_end item bytes ≡ count
unfolding file_end
file_end-exact count bytes e =
    let same : bytes / item ≡ count.control = omega arith in ap (λ c. record { control = c }) same

checkpoint_size :
    (s : Stored)
    → s.allocator.count.control < 2 ^ 48
    → ((start_checkpoint accepts item s).0 ≡ Status.ok)
      × ((start_checkpoint accepts item s).1 ≡ s.allocator.count.control * item)
      × ((start_checkpoint accepts item s).2
          ≡ (issue_pages accepts item (num_levels s.allocator.count) 0).1)
unfolding start_checkpoint
checkpoint_size s small =
    let e : s.allocator.count.control * item % u64 ≡ s.allocator.count.control * item =
      omega arith in
    rw (accepted (num_levels s.allocator.count) 0) (refl, e, refl)

-- What is recovered from a file of this size.
recovered :
    (t : Stored) (count : FixedPageAddress) (bytes safe thread : ℕ)
    → initialize safe thread no_lists ≡ some t.allocator
    → bytes ≡ count.control * item
    → 0 < count.control
    → count.control < 2 ^ 48
    → (t' : Stored) × (start_recover accepts item bytes count t
        ≡ some (Status.ok, (issue_pages accepts item (num_levels count) 0).1, t'))
      × Represents t'.allocator (below count)
unfolding start_recover
recovered t count bytes safe thread begun e pos small =
    let last = file_end-exact count bytes e in
    let (a, done, represents) = recover-Represents safe thread count count begun pos small refl in
    let fine = accepted (num_levels count) 0 in
    (
      record t { allocator = a; recovery = begin_batch (num_levels count) },
      rw (last, done, fine) refl,
      represents,
    )

-- For an allocator with a count of at least 1 and less than 2^48, as the disk accepts all requests: each page below the count's levels is written
-- at its place in the file, the recovery of an allocator that is just initialized, from the size that the checkpoint returns and the count, makes the
-- same requests, and the allocator then stands for all addresses below the count being live.
pub start_recover_stored :
    (s t : Stored) (safe thread : ℕ)
    → initialize safe thread no_lists ≡ some t.allocator
    → 0 < s.allocator.count.control
    → s.allocator.count.control < 2 ^ 48
    → ((start_checkpoint accepts item s).0 ≡ Status.ok)
      × ((i : ℕ)
          → i * page_size < s.allocator.count.control
          → get_elem? (start_checkpoint accepts item s).2 i
            ≡ some (record { page_index = i; file_offset = i * (page_size * item) }))
      × (t' : Stored) × (start_recover accepts item
            (start_checkpoint accepts item s).1
            s.allocator.count
            t
          ≡ some (Status.ok, (start_checkpoint accepts item s).2, t'))
      × Represents t'.allocator (below s.allocator.count)
start_recover_stored s t safe thread begun pos small =
    let count = s.allocator.count in
    let (fine, bytes, writes) = checkpoint_size s small in
    let (few, reaches) = num_levels_bounds count small in
    let (t', reads, represents) = recovered t count _ safe thread begun bytes pos small in
    (
      fine,
      λ i lt.
          let within = reaches i lt in
          let up : 0 + i ≡ i = omega arith in
          ap (λ l. get_elem? l i) writes
          ∙ issued (num_levels count) 0 i within
          ∙ ap (λ k. some (page_request item k)) up
          ∙ ap some (page_request-exact i (omega (arith, within, few))),
      t',
      reads ∙ ap (λ l. some (Status.ok, l, t')) (sym writes),
      represents,
    )
