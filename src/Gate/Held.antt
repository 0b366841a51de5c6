-- ===== src/Gate/Held.antt =====
-- rt_generic_static.c: the tables that senders hold, step by step.
use ric_plt_lib_rmr.Base.{
  ℕ, zero, suc, ◌+◌, ◌-◌, ◌≡◌, ◌<◌, refl, Bool, true, false, Option, none, some, List, [], ◌∷◌,
  ◌++◌, length, get_or, set, arith, ap, ◌≢◌,
}
use ric_plt_lib_rmr.Route.{RouteTable}
use ric_plt_lib_rmr.Route.Clone.{uta_rt_init, no_hash, clear_table}
use ric_plt_lib_rmr.Symtab.{SymTab}
use ric_plt_lib_rmr.Gate.{
  Gate, table_at, counting, count_user, get_rt, release_rt, rolled, failed_at, roll_tables,
  prep_take, in_use, cloned, prep_finish, drop_new,
}
use ric_plt_lib_rmr.Gate.Safe.{
  idle, State, holders, Step, sender_gets, sender_releases, collector_takes, collector_finishes,
  collector_writes, collector_rolls, collector_drops, IsSafe,
}
use ric_plt_lib_rmr.Gate.Keep.{there-refs, Reaches, Reaches-IsSafe}

abbrev hash_in : List RouteTable → ℕ → SymTab ℕ
hash_in ts p = (get_or ts p uta_rt_init).hash

hash-set :
    (ts : List RouteTable) (p q : ℕ) (t : RouteTable)
    → q < length ts
    → ((p ≡ q) → t.hash ≡ hash_in ts q)
    → hash_in (set ts p t) q ≡ hash_in ts q
hash-set (u ∷ ts) zero zero t h k = k refl
hash-set (u ∷ ts) zero (suc q) t h k = refl
hash-set (u ∷ ts) (suc p) zero t h k = refl
hash-set (u ∷ ts) (suc p) (suc q) t h k = hash-set ts p q t (omega (arith, h)) (λ e. k (cc))
hash-set [] p q t h k = absurd (omega (arith, h))

hash-append :
    (ts : List RouteTable) (t : RouteTable) (q : ℕ)
    → q < length ts
    → hash_in (ts ++ (t ∷ [])) q ≡ hash_in ts q
hash-append [] t q h = absurd (omega (arith, h))
hash-append (u ∷ ts) t zero h = refl
hash-append (u ∷ ts) t (suc q) h = hash-append ts t q (omega (arith, h))

module _ (g : Gate) (p : ℕ) (room : p < length g.tables) where
  count_user-hash : (o : Option ℕ) → hash_in (count_user g o).1.tables p ≡ hash_in g.tables p
  unfolding count_user
  count_user-hash none = refl
  count_user-hash (some q) =
      hash-set g.tables q p (record (table_at g q) { ref_count = (table_at g q).ref_count + 1 })
        room (λ e. ap (hash_in g.tables) e)

  release-hash : (q : ℕ) → hash_in (release_rt g q).tables p ≡ hash_in g.tables p
  unfolding release_rt
  release-hash q =
      hash-set g.tables q p (record (table_at g q) { ref_count = (table_at g q).ref_count - 1 })
        room (λ e. ap (hash_in g.tables) e)

  rolled-tables :
      (n a : Option ℕ) (failed : Bool) → hash_in (rolled g n a failed).tables p ≡ hash_in g.tables p
  unfolding rolled
  rolled-tables none a failed = refl
  rolled-tables (some n) a true = refl
  rolled-tables (some n) (some a) false = refl
  rolled-tables (some n) none false = refl

  finish-hash :
      (o : Option ℕ) (all : Bool)
      → (o ≢ some p)
      → hash_in (prep_finish g o all).tables p ≡ hash_in g.tables p
  unfolding prep_finish
  finish-hash none all h = hash-append g.tables (cloned g g.store uta_rt_init all).1 p room
  finish-hash (some q) all h =
      let s1 = (clear_table g.store (table_at g q)).0 in
      let t1 = (clear_table g.store (table_at g q)).1 in
      hash-set g.tables q p (cloned g s1 t1 all).1 room (λ e. absurd (h (ap some e)))

held-room : (s : State) → IsSafe s → (p : ℕ) → 0 < holders p s.readers → p < length s.gate.tables
held-room s safe p h = there-refs s.gate.tables p (omega (arith, safe.counted p))

Step-held :
    (s s' : State)
    → Step s s'
    → IsSafe s
    → (p : ℕ) → 0 < holders p s.readers
    → hash_in s'.gate.tables p ≡ hash_in s.gate.tables p
unfolding get_rt prep_take roll_tables drop_new in_use
Step-held s _ (sender_gets g c rs) safe p h = count_user-hash g p (held-room s safe p h) g.rtable
Step-held s _ (sender_releases g c rs q _) safe p h = release-hash g p (held-room s safe p h) q
Step-held s _ (collector_takes g rs _) safe p h = refl
Step-held s _ (collector_finishes g rs none all done) safe p h =
    finish-hash g p (held-room s safe p h) none all (λ e. cc)
Step-held s _ (collector_finishes g rs (some q) all done) safe p h =
    finish-hash g p (held-room s safe p h) (some q) all (λ e. ground (arith, safe.counted p, h))
Step-held s _ (collector_writes g rs q t st e k) safe p h =
    hash-set g.tables q p t (held-room s safe p h) (λ same. ground (arith, safe.free p, e, h))
Step-held s _ (collector_rolls g rs) safe p h =
    rolled-tables g p (held-room s safe p h) g.new_rtable g.rtable (failed_at g g.new_rtable)
Step-held s _ (collector_drops g rs) safe p h = refl

abbrev pub no_gate : Gate
no_gate = record {
  rtable = none;
  new_rtable = none;
  old_rtable = none;
  tables = [];
  store = record { rtes = []; links = record { eps = []; fd2ep = no_hash }; ephash = no_hash };
}

abbrev pub at_start : State
at_start = record { gate = no_gate; collector = idle; readers = [] }

start-IsSafe : IsSafe at_start
unfolding uta_rt_init
start-IsSafe = record {
  counted = λ p. refl;
  apart = λ p. omega arith;
  free = λ p h. absurd (omega arith);
  there = λ p h. absurd (omega arith);
}

-- In every state that steps lead to from the start, the reference count of each table is the
-- number of senders that hold it.
pub count_holders :
    (s : State) → Reaches at_start s → (p : ℕ) → (table_at s.gate p).ref_count ≡ holders p s.readers
count_holders s r p = (Reaches-IsSafe at_start s start-IsSafe r).counted p

-- In every state that steps lead to from the start, no sender holds the table that the collector
-- fills.
pub filled_unheld :
    (s : State)
    → Reaches at_start s
    → (p : ℕ) → s.gate.new_rtable ≡ some p
    → holders p s.readers ≡ 0
filled_unheld s r p e = (Reaches-IsSafe at_start s start-IsSafe r).free p (ground (arith, e))

-- In every state that steps lead to from the start, a table that a sender holds has as many users as
-- there are senders that hold it, it is not the table that the collector fills, and no step of a
-- sender or of the collector changes to which entry each of its keys leads. What the entries hold is
-- not part of this.
pub held_kept :
    (s t : State)
    → Reaches at_start s
    → Step s t
    → (p : ℕ) → 0 < holders p s.readers
    → ((table_at t.gate p).hash ≡ (table_at s.gate p).hash)
      × ((table_at s.gate p).ref_count ≡ holders p s.readers)
      × (s.gate.new_rtable ≢ some p)
held_kept s t r st p h =
    let safe = Reaches-IsSafe at_start s start-IsSafe r in
    (
      Step-held s t st safe p h,
      safe.counted p,
      λ e. absurd (omega (arith, h, filled_unheld s r p e)),
    )

-- The active table gets one user more.
pub get_rt-counting :
    (g : Gate) (p : ℕ)
    → g.rtable ≡ some p
    → get_rt g ≡ (some p, counting g p ((table_at g p).ref_count + 1))
unfolding get_rt count_user
get_rt-counting g p e = ap (count_user g) e
