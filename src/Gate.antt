-- ===== src/Gate.antt =====
-- rt_generic_static.c: the tables of a context and their gate: `get_rt`, `release_rt`, `prep_new_rt`,
-- `roll_tables` and `uta_rt_drop`. A table is an index into `tables`. A function that holds the lock
-- throughout is one step; `prep_new_rt` waits between two of them.

pub mod Safe
pub mod Keep
pub mod Held
pub mod Roll
mod Tests
use ric_plt_lib_rmr.Base.{
  ℕ, ◌+◌, ◌-◌, Bool, true, false, Option, none, some, List, [], ◌∷◌, ◌++◌, ltb, length, get_or, set,
}
use ric_plt_lib_rmr.Route.{RouteTable, Store}
use ric_plt_lib_rmr.Route.Clone.{uta_rt_init, uta_rt_clone, clear_table, del_rtes}

pub record Gate : Type 0 where
  pub rtable : Option ℕ
  pub new_rtable : Option ℕ
  pub old_rtable : Option ℕ
  pub tables : List RouteTable
  pub store : Store

abbrev pub table_at : Gate → ℕ → RouteTable
table_at g p = get_or g.tables p uta_rt_init

abbrev pub set_table : Gate → ℕ → RouteTable → Gate
set_table g p t = record g { tables = set g.tables p t }

abbrev pub counting : Gate → ℕ → ℕ → Gate
counting g p n = set_table g p (record (table_at g p) { ref_count = n })

count_user : Gate → Option ℕ → Option ℕ × Gate
count_user g none = (none, g)
count_user g (some p) = (some p, counting g p ((table_at g p).ref_count + 1))

unfoldable pub get_rt : Gate → Option ℕ × Gate
unfolding count_user
get_rt g = count_user g g.rtable

-- A count that is 0 stays 0.
unfoldable pub release_rt : Gate → ℕ → Gate
release_rt g p = counting g p ((table_at g p).ref_count - 1)

rolled : Gate → Option ℕ → Option ℕ → Bool → Gate
rolled g none active failed = record g { old_rtable = none; new_rtable = none }
rolled g (some n) active true = record g { old_rtable = some n; new_rtable = none }
rolled g (some n) (some a) false = record g {
  old_rtable = some a;
  rtable = some n;
  new_rtable = none;
}
rolled g (some n) none false = record g { old_rtable = none; rtable = some n; new_rtable = none }

abbrev failed_at : Gate → Option ℕ → Bool
failed_at g none = false
failed_at g (some p) = (table_at g p).failed

unfoldable pub roll_tables : Gate → Gate
unfolding rolled
roll_tables g = rolled g g.new_rtable g.rtable (failed_at g g.new_rtable)

-- The first part of `prep_new_rt`: the old table is taken off the context.
unfoldable pub prep_take : Gate → Option ℕ × Gate
prep_take g = (g.old_rtable, record g { old_rtable = none })

-- the condition of the wait
unfoldable pub in_use : Gate → Option ℕ → Bool
in_use g none = false
in_use g (some p) = ltb 0 (table_at g p).ref_count

abbrev active_table : Gate → Option RouteTable
active_table g = elim g.rtable [ none ↦ none | some p ↦ some (table_at g p) ]

-- a table that is filled from the active one, without users
cloned : Gate → Store → RouteTable → Bool → Store × RouteTable
cloned g s t all =
    let (s', t') = uta_rt_clone s (active_table g) t all in (s', record t' { ref_count = 0 })

-- The part of `prep_new_rt` after the wait, and the assignment of the result. Without an old table a
-- new one is made.
unfoldable pub prep_finish : Gate → Option ℕ → Bool → Gate
unfolding cloned
prep_finish g none all =
    let (s, t) = cloned g g.store uta_rt_init all in
    record g { new_rtable = some (length g.tables); tables = g.tables ++ (t ∷ []); store = s }
prep_finish g (some p) all =
    let (s1, t1) = clear_table g.store (table_at g p) in
    let (s, t) = cloned g s1 t1 all in
    record g { new_rtable = some p; tables = set g.tables p t; store = s }

-- `uta_rt_drop( ctx->new_rtable ); ctx->new_rtable = NULL;`; nobody points at the table any more.
unfoldable pub drop_new : Gate → Gate
drop_new g = record g {
  new_rtable = none;
  store = elim g.new_rtable [ none ↦ g.store | some p ↦ del_rtes g.store (table_at g p) ];
}
