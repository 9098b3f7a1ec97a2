-- ===== src/Tests/Table.antt =====
-- core/checkpoint_locks.h, core/thread.h and core/fishstore.h: locks, ids, entries, chains, actions.
use mathlib.Core.Option
use fish_store.Base.{
  ℕ, ◌+◌, ◌*◌, ◌%◌, ◌^◌, ◌<◌, ◌≡◌, ◌≢◌, ◌⊎◌, refl, true, false, List, [], ◌∷◌, some, arith,
}
use fish_store.Address.{u32}
use fish_store.Bucket.{Entry, invalid_entry, tentative}
use fish_store.Locks.{
  old_lock_count, new_lock_count, old_locked, new_locked, try_lock_old_loop, make_lock,
}
use fish_store.Locks.Exclusion
use fish_store.Index.{find_entry, find_or_create_entry}
use fish_store.Index.Find.{Finds, find_entry-Finds}
use fish_store.Index.Create.{Created, find_or_create_entry-Created}
use fish_store.Chain.{Pc, Insertions, begin, advance}
use fish_store.Chain.Moves
use fish_store.Chain.Backward.{linked_backward}
use fish_store.Chain.Alone.{run, insertion_ends}
use fish_store.System.{Phase, Action}
use fish_store.Actions.{Results, Store, idle, start_action}
use fish_store.Actions.Run.{move_on, move_on-start_action}
use fish_store.Actions.Start.{start_action-exclusive}

abbrev one_old : Exclusion.Held
one_old = record { word = 1; olds = 1; news = 0 }

one_old-Reach : Exclusion.Reach one_old
unfolding try_lock_old_loop make_lock new_lock_count old_lock_count
one_old-Reach =
    Exclusion.Reach.next Exclusion.Reach.start (Exclusion.Step.take_old 1 (omega arith) refl)

locks_exclude_example :
    (old_lock_count 1 ≡ 1)
    × (new_lock_count 1 ≡ 0)
    × ((old_locked 1 ≡ false) ⊎ (new_locked 1 ≡ false))
locks_exclude_example = Exclusion.locks_exclude one_old-Reach

-- A final entry of tag 3, a free slot, and a tentative entry of tag 4.
abbrev chain : List Entry
chain =
    record { control = 3 * 2 ^ 48 + 640 }
    ∷ invalid_entry
    ∷ record { control = 2 ^ 63 + 4 * 2 ^ 48 + 1 }
    ∷ []

find_entry-Finds_example : Finds 3 chain 0 (find_entry 3 chain 0)
find_entry-Finds_example = find_entry-Finds 3 chain 0

find_or_create_entry-Created_example :
    (i : ℕ) × (e : Entry) × (d : List Entry) × (find_or_create_entry 1 5
        (record { control = 3 * 2 ^ 48 + 640 } ∷ invalid_entry ∷ [])
      ≡ some (i, e, d))
    × Created 5 (record { control = 3 * 2 ^ 48 + 640 } ∷ invalid_entry ∷ []) i e d
unfolding tentative
find_or_create_entry-Created_example =
    find_or_create_entry-Created 0 5 (record { control = 3 * 2 ^ 48 + 640 } ∷ invalid_entry ∷ [])
      (omega arith) (refl, (refl, tt))

-- Key pointers 20 and 30 of one chain: the later one wins the entry first.
abbrev both_begun : Insertions
both_begun = begin (begin (record { head = 1; prev = λ _. 0; pc = λ _. Pc.absent }) 20 1) 30 1

abbrev thirty_first : Insertions
thirty_first = advance both_begun 30

abbrev both_linked : Insertions
both_linked = advance (advance (advance thirty_first 20) 20) 20

begun : Moves.Reach 1 both_begun
unfolding begin
begun =
    Moves.Reach.begins 30 1
      (Moves.Reach.begins 20 1 Moves.Reach.start refl (omega arith) (omega arith)) refl
      (omega arith) (omega arith)

both_linked-Reach : Moves.Reach 1 both_linked
both_linked-Reach =
    Moves.Reach.advances 20
      (Moves.Reach.advances 20 (Moves.Reach.advances 20 (Moves.Reach.advances 30 begun)))

linked_twenty : both_linked.pc 20 ≡ Pc.linked
unfolding advance begin
linked_twenty = refl

linked_backward_example :
    Moves.On both_linked 20
    × (both_linked.prev 20 < 20)
    × Moves.Ok 1 both_linked (both_linked.prev 20)
linked_backward_example = linked_backward 20 both_linked-Reach linked_twenty

twenty_begun : thirty_first.pc 20 ≢ Pc.absent
unfolding advance begin
twenty_begun e = absurd (ground (arith, e))

insertion_ends_example : (n : ℕ) × ((run n thirty_first 20).pc 20 ≡ Pc.linked)
insertion_ends_example = insertion_ends 20 (Moves.Reach.advances 30 begun) twenty_begun

abbrev idle_store : Store
idle_store = record {
  system_state = record { action = Action.none_action; phase = Phase.rest; version = 4 };
  failed = false;
  fold_over_snapshot = false;
  index_callback = false;
  complete_callback = false;
  grow_callback = false;
  table_version = 0;
  new_version = 0;
  parser_no = 0;
}

abbrev good : Results
good = record {
  fuzzy_index = true;
  index_metadata = true;
  snapshot_open = true;
  cpr_metadata = true;
}

move_on-start_action_example :
    ((start_action Action.checkpoint_full true idle_store).0 ≡ true)
    × (Option.map
          (λ t. t.system_state)
          (move_on 7 good (start_action Action.checkpoint_full true idle_store).1)
        ≡ some
            (record { action = Action.none_action; phase = Phase.rest; version = (4 + 1) % u32 }))
move_on-start_action_example =
    move_on-start_action Action.checkpoint_full true good idle_store 4 tt (omega arith) refl

start_action-exclusive_example :
    ((idle_store.system_state ≡ idle idle_store)
      × ((start_action Action.gc false idle_store).0 ≡ true))
    ⊎ ((idle_store.system_state ≢ idle idle_store)
        × (start_action Action.gc false idle_store ≡ (false, idle_store, [])))
start_action-exclusive_example = start_action-exclusive Action.gc false idle_store tt (omega arith)
