-- ===== src/Gate/Safe.antt =====
-- rt_generic_static.c: the steps of the senders and of the thread that collects route tables, in any
-- order, and the invariant of the gate. A sender holds what `get_rt` gave it.
use ric_plt_lib_rmr.Base.{
  ℕ, ◌+◌, ◌≡◌, ◌<◌, ◌≤◌, Bool, false, Option, none, some, List, [], ◌∷◌, ◌==◌, if◌then◌else◌,
  length,
}
use ric_plt_lib_rmr.Route.{RouteTable, Store}
use ric_plt_lib_rmr.Gate.{
  Gate, table_at, set_table, get_rt, release_rt, roll_tables, prep_take, in_use, prep_finish,
  drop_new,
}

-- The collector is idle, or it waits in `prep_new_rt` for the table that it took.
pub data Collector : Type 0 where
  idle : Collector
  waits : Option ℕ → Collector

-- `readers` has a table once for each sender that holds it.
pub record State : Type 0 where
  pub gate : Gate
  pub collector : Collector
  pub readers : List ℕ

abbrev pub one : ℕ → ℕ → ℕ
one p q = if p == q then 1 else 0

abbrev pub holders : ℕ → List ℕ → ℕ
holders p [] = 0
holders p (q ∷ qs) = one p q + holders p qs

abbrev pub leave : ℕ → List ℕ → List ℕ
leave p [] = []
leave p (q ∷ qs) = let rest = leave p qs in if p == q then qs else q ∷ rest

abbrev pub points : ℕ → Option ℕ → ℕ
points p none = 0
points p (some q) = one p q

abbrev pub waiting : Collector → Option ℕ
waiting idle = none
waiting (waits o) = o

abbrev pub taken_table : Option ℕ × Gate → List ℕ → List ℕ
taken_table (none, _) rs = rs
taken_table (some p, _) rs = p ∷ rs

abbrev pub refs_of : Gate → ℕ → ℕ
refs_of g p = (table_at g p).ref_count

-- A sender that gets or releases a table, and the collector: it takes the old table, goes on when
-- the wait ends, writes to the new table, rolls it in, or drops it.
pub data Step : State → State → Type 0 where
  sender_gets :
      (g : Gate) (c : Collector) (rs : List ℕ)
      → Step
          (record { gate = g; collector = c; readers = rs })
          (record { gate = (get_rt g).1; collector = c; readers = taken_table (get_rt g) rs })
  sender_releases :
      (g : Gate) (c : Collector) (rs : List ℕ) (p : ℕ)
      → 0 < holders p rs
      → Step
          (record { gate = g; collector = c; readers = rs })
          (record { gate = release_rt g p; collector = c; readers = leave p rs })
  collector_takes :
      (g : Gate) (rs : List ℕ)
      → g.new_rtable ≡ none
      → Step
          (record { gate = g; collector = idle; readers = rs })
          (record { gate = (prep_take g).1; collector = waits (prep_take g).0; readers = rs })
  collector_finishes :
      (g : Gate) (rs : List ℕ) (o : Option ℕ) (all : Bool)
      → in_use g o ≡ false
      → Step
          (record { gate = g; collector = waits o; readers = rs })
          (record { gate = prep_finish g o all; collector = idle; readers = rs })
  collector_writes :
      (g : Gate) (rs : List ℕ) (p : ℕ) (t : RouteTable) (s : Store)
      → g.new_rtable ≡ some p
      → t.ref_count ≡ (table_at g p).ref_count
      → Step
          (record { gate = g; collector = idle; readers = rs })
          (record { gate = record (set_table g p t) { store = s }; collector = idle; readers = rs })
  collector_rolls :
      (g : Gate) (rs : List ℕ)
      → Step
          (record { gate = g; collector = idle; readers = rs })
          (record { gate = roll_tables g; collector = idle; readers = rs })
  collector_drops :
      (g : Gate) (rs : List ℕ)
      → Step
          (record { gate = g; collector = idle; readers = rs })
          (record { gate = drop_new g; collector = idle; readers = rs })

-- The count of a table is the number of its holders, no table stands in two places, what the
-- collector writes to has no holder, and all the places are tables.
pub record IsSafe (s : State) : Type 0 where
  pub counted : (p : ℕ) → (table_at s.gate p).ref_count ≡ holders p s.readers
  pub apart :
      (p : ℕ)
      → points p s.gate.rtable
          + points p s.gate.new_rtable
          + points p s.gate.old_rtable
          + points p (waiting s.collector)
        ≤ 1
  pub free : (p : ℕ) → 0 < points p s.gate.new_rtable → holders p s.readers ≡ 0
  pub there :
      (p : ℕ)
      → 0
        < points p s.gate.rtable
          + points p s.gate.new_rtable
          + points p s.gate.old_rtable
          + points p (waiting s.collector)
      → p < length s.gate.tables
