-- ===== src/Tests/Special.antt =====
-- core/fishstore.h: HandleSpecialPhases at concrete values.
use fish_store.Base.{◌≡◌, refl, true, false, none, some, []}
use fish_store.System.{Phase, Action, SystemState}
use fish_store.Epoch.{initialize}
use fish_store.Batch.{Status}
use fish_store.Actions.{Store}
use fish_store.Special.{Context, Seen, World, handle_special_phases}
use fish_store.Special.Missed.{missed_rest-stuck}

abbrev in_state : SystemState → Store
in_state s = record {
  system_state = s;
  failed = false;
  fold_over_snapshot = true;
  index_callback = false;
  complete_callback = false;
  grow_callback = false;
  table_version = 0;
  new_version = 1;
  parser_no = 1;
}

abbrev context : Phase → Context
context p = record {
  phase = p;
  version = 4;
  guid = 9;
  serial_num = 0;
  offset = 0;
  pending_ios = [];
}

abbrev world : Phase → SystemState → World
world p s = record {
  current = context p;
  previous = context p;
  parser_no = 0;
  epoch = initialize 8;
  store = in_state s;
  num_threads = 0;
  guids = λ t. 0;
  persistence_callback_given = false;
  deeds = [];
}

abbrev seen : Seen
seen = record {
  fuzzy_index_complete = Status.ok;
  flushed_until_address = 0;
  final_address = 0;
  flush_pending = 0;
  chunk_cleaned = false;
  grow_states = [];
  results = record {
    fuzzy_index = true;
    index_metadata = true;
    snapshot_open = true;
    cpr_metadata = true;
  };
}

abbrev indexing : SystemState
indexing = record { action = Action.checkpoint_index; phase = Phase.index_chkpt; version = 4 }

abbrev growing : SystemState
growing = record { action = Action.grow_index; phase = Phase.grow_prepare; version = 4 }

missed_rest-stuck_example :
    (w' : World) × (handle_special_phases 2 seen 2 (world Phase.prep_index_chkpt indexing)
      ≡ some w')
    × (handle_special_phases 100 seen 2 (record w' { store = in_state growing }) ≡ none)
missed_rest-stuck_example =
    missed_rest-stuck 100 seen 2 4 4 (world Phase.prep_index_chkpt indexing) (in_state growing) refl
      refl refl refl

abbrev shifting : SystemState
shifting = record { action = Action.parser_shift; phase = Phase.ps_pending; version = 4 }
