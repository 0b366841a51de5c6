-- ===== src/Gate/Keep.antt =====
-- rt_generic_static.c: the steps of the gate and its invariant.
use ric_plt_lib_rmr.Base.{
  ℕ, zero, suc, ◌+◌, ◌-◌, ◌≡◌, ◌<◌, refl, Bool, true, false, Option, none, some, List, [], ◌∷◌,
  ◌++◌, ◌==◌, if◌then◌else◌, length, get_or, set, arith, get_or-set, length-set, length-append,
  length-set,
}
use ric_plt_lib_rmr.Route.{RouteTable, Store}
use ric_plt_lib_rmr.Route.Clone.{uta_rt_init, clear_table}
use ric_plt_lib_rmr.Gate.{
  Gate, table_at, set_table, count_user, get_rt, release_rt, rolled, failed_at, roll_tables,
  prep_take, in_use, cloned, prep_finish, drop_new,
}
use ric_plt_lib_rmr.Gate.Safe.{
  Collector, idle, waits, State, one, holders, leave, taken_table, Step, sender_gets,
  sender_releases, collector_takes, collector_finishes, collector_writes, collector_rolls,
  collector_drops, IsSafe,
}

abbrev refs_in : List RouteTable → ℕ → ℕ
refs_in ts p = (get_or ts p uta_rt_init).ref_count

pub there-refs : (ts : List RouteTable) (p : ℕ) → 0 < refs_in ts p → p < length ts
unfolding uta_rt_init
there-refs [] p h = absurd (omega arith)
there-refs (t ∷ ts) zero h = omega arith
there-refs (t ∷ ts) (suc p) h = omega (arith, there-refs ts p h)

refs-append :
    (ts : List RouteTable) (t : RouteTable) (p : ℕ)
    → t.ref_count ≡ 0
    → refs_in (ts ++ (t ∷ [])) p ≡ refs_in ts p
unfolding uta_rt_init
refs-append [] t zero h = h
refs-append [] t (suc p) h = refl
refs-append (u ∷ ts) t zero h = refl
refs-append (u ∷ ts) t (suc p) h = refs-append ts t p h

refs-set :
    (ts : List RouteTable) (p q : ℕ) (t : RouteTable)
    → p < length ts
    → refs_in (set ts p t) q ≡ (if p == q then t.ref_count else refs_in ts q)
refs-set ts p q t h = ground (arith, get_or-set ts p q t uta_rt_init h)

holders-leave :
    (p q : ℕ) (rs : List ℕ) → 0 < holders p rs → holders q (leave p rs) + one q p ≡ holders q rs
holders-leave p q [] h = absurd (omega arith)
holders-leave p q (r ∷ rs) h = ground (arith, holders-leave p q rs)

cloned-refs :
    (g : Gate) (s : Store) (t : RouteTable) (all : Bool) → (cloned g s t all).1.ref_count ≡ 0
unfolding cloned
cloned-refs g s t all = refl

module _ (g : Gate) (rs : List ℕ) where
  module _ (c : Collector) (safe : IsSafe (record { gate = g; collector = c; readers = rs })) where
    user-IsSafe :
        (o : Option ℕ)
        → g.rtable ≡ o
        → IsSafe (record {
          gate = (count_user g o).1;
          collector = c;
          readers = taken_table (count_user g o) rs;
        })
    unfolding count_user
    user-IsSafe none e = safe
    user-IsSafe (some p) e =
        let t = record (table_at g p) { ref_count = (table_at g p).ref_count + 1 } in
        let room = safe.there p (ground (arith, e)) in
        record {
          counted =
              λ q. ground (arith, refs-set g.tables p q t room, safe.counted p, safe.counted q);
          apart = λ q. safe.apart q;
          free = λ q f. ground (arith, e, safe.free q f, safe.apart q);
          there = λ q f. omega (arith, safe.there q f, length-set g.tables p t);
        }

    get-IsSafe :
        IsSafe (record { gate = (get_rt g).1; collector = c; readers = taken_table (get_rt g) rs })
    unfolding get_rt
    get-IsSafe = user-IsSafe g.rtable refl

    release-IsSafe :
        (p : ℕ)
        → 0 < holders p rs
        → IsSafe (record { gate = release_rt g p; collector = c; readers = leave p rs })
    unfolding release_rt
    release-IsSafe p h = record {
      counted = λ q. ground (
        arith,
        refs-set g.tables p q (record (table_at g p) { ref_count = (table_at g p).ref_count - 1 }),
        safe.counted p,
        safe.counted q,
        there-refs g.tables p,
        holders-leave p q rs,
      );
      apart = λ q. safe.apart q;
      free = λ q f. omega (arith, safe.free q f, holders-leave p q rs h);
      there = λ q f. omega (
        arith,
        safe.there q f,
        length-set g.tables p (record (table_at g p) { ref_count = (table_at g p).ref_count - 1 }),
      );
    }

  module _ (safe : IsSafe (record { gate = g; collector = idle; readers = rs })) where
    take-IsSafe :
        IsSafe (record { gate = (prep_take g).1; collector = waits (prep_take g).0; readers = rs })
    unfolding prep_take
    take-IsSafe = record {
      counted = safe.counted;
      apart = λ q. omega (arith, safe.apart q);
      free = safe.free;
      there = λ q h. omega (arith, safe.there q);
    }

    rolled-IsSafe :
        (n a : Option ℕ) (failed : Bool)
        → g.new_rtable ≡ n
        → g.rtable ≡ a
        → IsSafe (record { gate = rolled g n a failed; collector = idle; readers = rs })
    unfolding rolled
    rolled-IsSafe none a failed e e' = record {
      counted = safe.counted;
      apart = λ q. ground (arith, e, e', safe.apart q);
      free = λ q f. absurd (omega arith);
      there = λ q f. ground (arith, e, e', safe.there q);
    }
    rolled-IsSafe (some n) a true e e' = record {
      counted = safe.counted;
      apart = λ q. ground (arith, e, e', safe.apart q);
      free = λ q f. absurd (omega arith);
      there = λ q f. ground (arith, e, e', safe.there q);
    }
    rolled-IsSafe (some n) (some a) false e e' = record {
      counted = safe.counted;
      apart = λ q. ground (arith, e, e', safe.apart q);
      free = λ q f. absurd (omega arith);
      there = λ q f. ground (arith, e, e', safe.there q);
    }
    rolled-IsSafe (some n) none false e e' = record {
      counted = safe.counted;
      apart = λ q. ground (arith, e, e', safe.apart q);
      free = λ q f. absurd (omega arith);
      there = λ q f. ground (arith, e, e', safe.there q);
    }

    roll-IsSafe : IsSafe (record { gate = roll_tables g; collector = idle; readers = rs })
    unfolding roll_tables
    roll-IsSafe = rolled-IsSafe g.new_rtable g.rtable (failed_at g g.new_rtable) refl refl

    write-IsSafe :
        (p : ℕ) (t : RouteTable) (s : Store)
        → g.new_rtable ≡ some p
        → t.ref_count ≡ (table_at g p).ref_count
        → IsSafe (record {
          gate = record (set_table g p t) { store = s };
          collector = idle;
          readers = rs;
        })
    write-IsSafe p t s e k =
        let room = safe.there p (ground (arith, e)) in
        record {
          counted = λ q. ground (arith, refs-set g.tables p q t room, safe.counted q, k);
          apart = safe.apart;
          free = safe.free;
          there = λ q f. omega (arith, safe.there q f, length-set g.tables p t);
        }

    drop-IsSafe : IsSafe (record { gate = drop_new g; collector = idle; readers = rs })
    unfolding drop_new
    drop-IsSafe = record {
      counted = safe.counted;
      apart = λ q. omega (arith, safe.apart q);
      free = λ q f. absurd (omega arith);
      there = λ q f. safe.there q (omega arith);
    }

  finish-IsSafe :
      (o : Option ℕ) (all : Bool)
      → IsSafe (record { gate = g; collector = waits o; readers = rs })
      → in_use g o ≡ false
      → IsSafe (record { gate = prep_finish g o all; collector = idle; readers = rs })
  unfolding prep_finish in_use
  finish-IsSafe none all safe h =
      let t = (cloned g g.store uta_rt_init all).1 in
      let zero_refs = cloned-refs g g.store uta_rt_init all in
      let more = length-append g.tables (t ∷ []) in
      record {
        counted = λ q. ground (arith, refs-append g.tables t q zero_refs, safe.counted q);
        apart = λ q. ground (arith, safe.apart q, safe.there q);
        free = λ q f. ground (arith, safe.counted q, there-refs g.tables q, safe.there q);
        there = λ q f. ground (arith, safe.there q, more);
      }
  finish-IsSafe (some p) all safe h =
      let s1 = (clear_table g.store (table_at g p)).0 in
      let t1 = (clear_table g.store (table_at g p)).1 in
      let t = (cloned g s1 t1 all).1 in
      let zero_refs = cloned-refs g s1 t1 all in
      let room = safe.there p (ground arith) in
      record {
        counted = λ q.
            ground (arith, refs-set g.tables p q t room, zero_refs, safe.counted p, safe.counted q);
        apart = λ q. ground (arith, safe.apart q);
        free = λ q f. ground (arith, safe.counted p, safe.counted q);
        there = λ q f. ground (arith, safe.there q, length-set g.tables p t);
      }

-- Every step of a sender or of the collector keeps the gate safe.
pub Step-IsSafe : (s s' : State) → Step s s' → IsSafe s → IsSafe s'
Step-IsSafe _ _ (sender_gets g c rs) safe = get-IsSafe g rs c safe
Step-IsSafe _ _ (sender_releases g c rs p h) safe = release-IsSafe g rs c safe p h
Step-IsSafe _ _ (collector_takes g rs _) safe = take-IsSafe g rs safe
Step-IsSafe _ _ (collector_finishes g rs o all h) safe = finish-IsSafe g rs o all safe h
Step-IsSafe _ _ (collector_writes g rs p t s e k) safe = write-IsSafe g rs safe p t s e k
Step-IsSafe _ _ (collector_rolls g rs) safe = roll-IsSafe g rs safe
Step-IsSafe _ _ (collector_drops g rs) safe = drop-IsSafe g rs safe

-- The states that steps lead to.
pub data Reaches (s : State) : State → Type 0 where
  here : Reaches s s
  then_step : (t u : State) → Reaches s t → Step t u → Reaches s u

pub Reaches-IsSafe : (s t : State) → IsSafe s → Reaches s t → IsSafe t
Reaches-IsSafe s _ safe here = safe
Reaches-IsSafe s _ safe (then_step t u r st) =
    let before = Reaches-IsSafe s t safe r in Step-IsSafe t u st before
