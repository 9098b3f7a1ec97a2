-- ===== src/Chain.antt =====
-- core/fishstore.h, `InternalInsert`: key pointers are linked into one hash chain by many threads.
-- A key pointer is its address. The bucket entry is the address in it, and the word of a key pointer
-- is its `prev_address`: the tag of the entry, and the mode and the offset of a key pointer that
-- stands in memory, do not change, so comparing the words compares these addresses. Each access to
-- the entry or to a key pointer is one step. No entry is cleared meanwhile, and all key pointers
-- stand in memory.
pub mod Moves
pub mod Backward
pub mod Alone
use fish_store.Base.{ℕ, Bool, true, false, ltb, ◌==◌, if◌then◌else◌}

-- Where the insertion of a key pointer stands: not begun; about to exchange the entry, which it
-- expects to hold an address; about to load a key pointer; about to alter a key pointer, which it
-- expects to point to an address; in the chain.
pub data Pc : Type 0 where
  absent : Pc
  trying : (expected : ℕ) → Pc
  reads : (kpt : ℕ) → Pc
  holding : (kpt expected : ℕ) → Pc
  linked : Pc

pub record Insertions : Type 0 where
  pub head : ℕ
  pub prev : ℕ → ℕ
  pub pc : ℕ → Pc

abbrev pub put {ℓ} : {A : Type ℓ} → (ℕ → A) → ℕ → A → ℕ → A
put f k v j = if j == k then v else f j

-- The key pointer is constructed, with the address that `FindOrCreateEntry` met in the entry.
unfoldable pub begin : Insertions → ℕ → ℕ → Insertions
begin s k expected = record s { prev = put s.prev k expected; pc = put s.pc k (Pc.trying expected) }

-- The inner loop, once the word of the key pointer `a` is known.
unfoldable pub inspect : Insertions → ℕ → ℕ → Insertions
inspect s k a =
    if ltb k (s.prev a)
    then record s { pc = put s.pc k (Pc.reads (s.prev a)) }
    else record s { prev = put s.prev k (s.prev a); pc = put s.pc k (Pc.holding a (s.prev a)) }

-- The next access of the insertion of `k`.
unfoldable pub access : Pc → Insertions → ℕ → Insertions
unfolding inspect
access Pc.absent s k = s
access (Pc.trying expected) s k =
    if s.head == expected
    then record s { head = k; pc = put s.pc k Pc.linked }
    else if ltb s.head k
    then record s { prev = put s.prev k s.head; pc = put s.pc k (Pc.trying s.head) }
    else record s { pc = put s.pc k (Pc.reads s.head) }
access (Pc.reads a) s k = inspect s k a
access (Pc.holding a expected) s k =
    if s.prev a == expected
    then record s { prev = put s.prev a k; pc = put s.pc k Pc.linked }
    else inspect s k a
access Pc.linked s k = s

unfoldable pub advance : Insertions → ℕ → Insertions
unfolding access
advance s k = access (s.pc k) s k
