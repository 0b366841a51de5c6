-- ===== src/Gate/Roll.antt =====
-- rt_generic_static.c: which table is active after `get_rt` and `roll_tables`, and which
-- one the collector fills after `prep_new_rt`.
use ric_plt_lib_rmr.Base.{
  ℕ, ◌+◌, ◌≡◌, refl, sym, ◌⊎◌, inl, inr, Bool, [], ◌∷◌, ◌<◌, ap, length, length-append, length-set,
  get_or-append, get_or-set, arith, true, false, Option, none, some,
}
use mathlib.Core.Path.{subst}
use ric_plt_lib_rmr.Route.{RouteTable, Store}
use ric_plt_lib_rmr.Route.Clone.{uta_rt_init, clear_table, clone-frame}
use ric_plt_lib_rmr.Gate.{
  Gate, table_at, active_table, cloned, prep_finish, count_user, get_rt, rolled, failed_at,
  roll_tables,
}

count_user-rtable : (g : Gate) (o : Option ℕ) → (count_user g o).1.rtable ≡ g.rtable
unfolding count_user
count_user-rtable g none = refl
count_user-rtable g (some p) = refl

pub get_rt-rtable : (g : Gate) → (get_rt g).1.rtable ≡ g.rtable
unfolding get_rt
get_rt-rtable g = count_user-rtable g g.rtable

count_user-tables : (g : Gate) (o : Option ℕ) → length (count_user g o).1.tables ≡ length g.tables
unfolding count_user
count_user-tables g none = refl
count_user-tables g (some p) =
    length-set g.tables p (record (table_at g p) { ref_count = (table_at g p).ref_count + 1 })

pub get_rt-tables : (g : Gate) → length (get_rt g).1.tables ≡ length g.tables
unfolding get_rt
get_rt-tables g = count_user-tables g g.rtable

cloned-failed :
    (g : Gate) (s : Store) (t : RouteTable) (all : Bool) → (cloned g s t all).1.failed ≡ t.failed
unfolding cloned
cloned-failed g s t all = ap (λ u. u.failed) (clone-frame s (active_table g) t all)

-- The collector has a table without an error to fill.
abbrev pub IsPrepared : Gate → Type 0
IsPrepared g =
    (p : ℕ) × (g.new_rtable ≡ some p) × (p < length g.tables) × ((table_at g p).failed ≡ false)

pub prep_finish-IsPrepared :
    (g : Gate) (o : Option ℕ) (all : Bool)
    → ((p : ℕ) → o ≡ some p → p < length g.tables)
    → IsPrepared (prep_finish g o all)
unfolding prep_finish uta_rt_init clear_table
prep_finish-IsPrepared g none all h =
    let t = (cloned g g.store uta_rt_init all).1 in
    (
      length g.tables,
      refl,
      omega (arith, length-append g.tables (t ∷ [])),
      ground (
        arith,
        get_or-append g.tables t (length g.tables) uta_rt_init,
        cloned-failed g g.store uta_rt_init all,
      ),
    )
prep_finish-IsPrepared g (some p) all h =
    let s1 = (clear_table g.store (table_at g p)).0 in
    let t1 = (clear_table g.store (table_at g p)).1 in
    let t = (cloned g s1 t1 all).1 in
    (
      p,
      refl,
      omega (arith, length-set g.tables p t, h p refl),
      ground (arith, get_or-set g.tables p p t uta_rt_init (h p refl), cloned-failed g s1 t1 all),
    )

rolled-rtable :
    (g : Gate) (n active : Option ℕ) (failed : Bool)
    → g.new_rtable ≡ n
    → ((rolled g n active failed).rtable ≡ g.rtable)
      ⊎ ((rolled g n active failed).rtable ≡ g.new_rtable)
unfolding rolled
rolled-rtable g none active failed e = inl refl
rolled-rtable g (some n) active true e = inl refl
rolled-rtable g (some n) (some a) false e = inr (sym e)
rolled-rtable g (some n) none false e = inr (sym e)

pub roll_tables-rtable :
    (g : Gate) → ((roll_tables g).rtable ≡ g.rtable) ⊎ ((roll_tables g).rtable ≡ g.new_rtable)
unfolding roll_tables
roll_tables-rtable g = rolled-rtable g g.new_rtable g.rtable (failed_at g g.new_rtable) refl

rolled-new :
    (g : Gate) (p : ℕ) (active : Option ℕ)
    → g.rtable ≡ active
    → ((rolled g (some p) active false).rtable ≡ some p)
      × ((rolled g (some p) active false).old_rtable ≡ g.rtable)
      × ((rolled g (some p) active false).new_rtable ≡ none)
unfolding rolled
rolled-new g p none e = (refl, sym e, refl)
rolled-new g p (some a) e = (refl, sym e, refl)

-- A table without an error takes the place of the active one, which becomes the old one.
pub roll_tables-new :
    (g : Gate) (p : ℕ)
    → g.new_rtable ≡ some p
    → failed_at g (some p) ≡ false
    → ((roll_tables g).rtable ≡ some p)
      × ((roll_tables g).old_rtable ≡ g.rtable)
      × ((roll_tables g).new_rtable ≡ none)
unfolding roll_tables
roll_tables-new g p e f =
    subst
      (λ o.
        ((rolled g o g.rtable (failed_at g o)).rtable ≡ some p)
        × ((rolled g o g.rtable (failed_at g o)).old_rtable ≡ g.rtable)
        × ((rolled g o g.rtable (failed_at g o)).new_rtable ≡ none))
      (sym e)
      (subst
        (λ b.
          ((rolled g (some p) g.rtable b).rtable ≡ some p)
          × ((rolled g (some p) g.rtable b).old_rtable ≡ g.rtable)
          × ((rolled g (some p) g.rtable b).new_rtable ≡ none))
        (sym f) (rolled-new g p g.rtable refl))
