-- ===== src/Gate/Tests.antt =====
-- rt_generic_static.c: the theorems at a load of a second table while the first is in use.
use ric_plt_lib_rmr.Base.{◌≡◌, ◌≢◌, some, refl, false, none, [], arith}
use ric_plt_lib_rmr.Route.Clone.{uta_rt_init, uta_rt_clone}
use ric_plt_lib_rmr.Gate.{Gate, get_rt, roll_tables, prep_take, prep_finish, in_use, table_at}
use ric_plt_lib_rmr.Gate.Safe.{
  holders, State, idle, waits, taken_table, sender_gets, collector_takes, collector_finishes,
  collector_rolls,
}
use ric_plt_lib_rmr.Gate.Keep.{Reaches, here, then_step}
use ric_plt_lib_rmr.Gate.Held.{no_gate, at_start, held_kept}

abbrev taken : Gate
taken = (prep_take no_gate).1

abbrev first_new : Gate
first_new = prep_finish taken none false

abbrev first_active : Gate
first_active = roll_tables first_new

-- The first table is made and rolled in.
abbrev loaded : State
loaded = record { gate = first_active; collector = idle; readers = [] }

abbrev waiting_state : State
waiting_state = record { gate = taken; collector = waits (prep_take no_gate).0; readers = [] }

abbrev new_state : State
new_state = record { gate = first_new; collector = idle; readers = [] }

loads : Reaches at_start new_state
unfolding prep_take in_use
loads =
    then_step waiting_state new_state
      (then_step at_start waiting_state here (collector_takes no_gate [] refl))
      (collector_finishes taken [] none false refl)

-- A sender holds it.
abbrev held : State
held = record {
  gate = (get_rt first_active).1;
  collector = idle;
  readers = taken_table (get_rt first_active) [];
}

holds : Reaches at_start held
holds =
    then_step loaded held (then_step new_state loaded loads (collector_rolls first_new []))
      (sender_gets first_active idle [])

abbrev held_rolled : State
held_rolled = record {
  gate = roll_tables (get_rt first_active).1;
  collector = idle;
  readers = taken_table (get_rt first_active) [];
}

held_kept_example :
    ((table_at held_rolled.gate 0).hash ≡ (table_at held.gate 0).hash)
    × ((table_at held.gate 0).ref_count ≡ holders 0 held.readers)
    × (held.gate.new_rtable ≢ some 0)
unfolding get_rt roll_tables prep_take prep_finish uta_rt_clone uta_rt_init
held_kept_example =
    held_kept held held_rolled holds
      (collector_rolls (get_rt first_active).1 (taken_table (get_rt first_active) [])) 0
      (omega arith)
