-- ===== src/Route/Clone.antt =====
-- rt_generic_static.c: whole tables: creation, the copy of a table, its clearing and its removal.
-- Memory is available.
use ric_plt_lib_rmr.Base.{
  ℕ, zero, suc, ◌+◌, Bool, true, false, Option, none, some, List, [], ◌∷◌, ◌++◌, if◌then◌else◌, ◌≡◌,
  refl, ◌∙◌,
}
use ric_plt_lib_rmr.Symtab.{
  SymTab, rmr_sym_alloc, rmr_sym_clear, rmr_sym_foreach_class, rmr_sym_map, rmr_sym_put,
}
use ric_plt_lib_rmr.Route.{RouteTable, Store, rt_me_space, rte_at, set_rte, del_rte}

-- RT_SIZE
abbrev pub rt_size : ℕ
rt_size = 10009

abbrev pub no_hash : SymTab ℕ
no_hash = record { symlist = []; inhabitants = 0; deaths = 0; size = 0 }

abbrev or_no_hash : Option (SymTab ℕ) → SymTab ℕ
or_no_hash none = no_hash
or_no_hash (some h) = h

unfoldable pub uta_rt_init : RouteTable
uta_rt_init = record {
  failed = false;
  hash = or_no_hash (rmr_sym_alloc true rt_size);
  updates = 0;
  mupdates = 0;
  ref_count = 0;
}

-- `thing_list_t`, which grows when it is full
abbrev Things : Type 0
Things = List (Option (List ℕ) × ℕ)

unfoldable pub collect_things : Option (List ℕ) → ℕ → Things → Things
collect_things name thing tl = tl ++ ((name, thing) ∷ [])

-- An entry is shared, with one reference more, under its own key.
clone_rtes : Things → Store → RouteTable → Store × RouteTable
clone_rtes [] s nrt = (s, nrt)
clone_rtes ((_, p) ∷ tl) s nrt =
    let e = rte_at s p in
    clone_rtes tl (set_rte s p (record e { refs = e.refs + 1 }))
      (record nrt { hash = (rmr_sym_map true nrt.hash e.key p).1 })

-- An endpoint goes under its name; what is not in class 0 has one.
clone_eps : ℕ → Things → RouteTable → RouteTable
clone_eps space [] nrt = nrt
clone_eps space ((none, p) ∷ tl) nrt = clone_eps space tl nrt
clone_eps space ((some name, p) ∷ tl) nrt =
    clone_eps space tl (record nrt { hash = (rmr_sym_put true nrt.hash name space p).1 })

unfoldable pub rt_clone_space : Store → RouteTable → RouteTable → ℕ → Store × RouteTable
unfolding clone_rtes clone_eps
rt_clone_space s srt nrt space =
    let things = rmr_sym_foreach_class collect_things srt.hash space [] in
    elim space [ zero ↦ clone_rtes things s nrt | suc n ↦ (s, clone_eps (suc n) things nrt) ]

-- `none` as the source is nil.
unfoldable pub uta_rt_clone : Store → Option RouteTable → RouteTable → Bool → Store × RouteTable
uta_rt_clone s none drt all = (s, drt)
uta_rt_clone s (some srt) drt all =
    let (s1, d1) = rt_clone_space s srt drt rt_me_space in
    if all then rt_clone_space s1 srt d1 0 else (s1, d1)

-- `rmr_sym_foreach_class( rt->hash, 0, del_rte, NULL )`
unfoldable pub del_rtes : Store → RouteTable → Store
del_rtes s rt = rmr_sym_foreach_class (λ _ p s'. del_rte s' p) rt.hash 0 s

-- what `prep_new_rt` does to an old table without users
unfoldable pub clear_table : Store → RouteTable → Store × RouteTable
clear_table s rt = (del_rtes s rt, record rt { hash = rmr_sym_clear rt.hash; failed = false })

-- what a change of the entries leaves of a table: all but the hash
abbrev pub frame : RouteTable → RouteTable
frame t = record t { hash = no_hash }

clone_rtes-frame :
    (tl : Things) (s : Store) (t : RouteTable) → frame (clone_rtes tl s t).1 ≡ frame t
unfolding clone_rtes
clone_rtes-frame [] s t = refl
clone_rtes-frame ((_, p) ∷ tl) s t =
    let e = rte_at s p in
    clone_rtes-frame tl (set_rte s p (record e { refs = e.refs + 1 }))
      (record t { hash = (rmr_sym_map true t.hash e.key p).1 })

clone_eps-frame :
    (space : ℕ) (tl : Things) (t : RouteTable) → frame (clone_eps space tl t) ≡ frame t
unfolding clone_eps
clone_eps-frame space [] t = refl
clone_eps-frame space ((none, p) ∷ tl) t = clone_eps-frame space tl t
clone_eps-frame space ((some name, p) ∷ tl) t =
    clone_eps-frame space tl (record t { hash = (rmr_sym_put true t.hash name space p).1 })

clone_space-frame :
    (s : Store) (srt t : RouteTable) (space : ℕ) → frame (rt_clone_space s srt t space).1 ≡ frame t
unfolding rt_clone_space
clone_space-frame s srt t zero =
    clone_rtes-frame (rmr_sym_foreach_class collect_things srt.hash zero []) s t
clone_space-frame s srt t (suc n) =
    clone_eps-frame (suc n) (rmr_sym_foreach_class collect_things srt.hash (suc n) []) t

-- A clone changes nothing of its target but the hash.
pub clone-frame :
    (s : Store) (src : Option RouteTable) (t : RouteTable) (all : Bool)
    → frame (uta_rt_clone s src t all).1 ≡ frame t
unfolding uta_rt_clone
clone-frame s none t all = refl
clone-frame s (some srt) t false = clone_space-frame s srt t rt_me_space
clone-frame s (some srt) t true =
    clone_space-frame (rt_clone_space s srt t rt_me_space).0 srt
      (rt_clone_space s srt t rt_me_space).1 0
    ∙ clone_space-frame s srt t rt_me_space
