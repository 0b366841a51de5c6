-- ===== src/Route/Entries.antt =====
-- rt_generic_static.c: `uta_add_rte` against the map of entries.
use ric_plt_lib_rmr.Base.{
  ℕ, ◌-◌, ◌≡◌, ◌≢◌, ◌<◌, none, some, [], ◌∷◌, ◌++◌, arith, if◌then◌else◌, ◌==◌, length, get_or,
  replicate, get_or-set, length-append, get_or-append,
}
use ric_plt_lib_rmr.Base.Int.{ℤ, pos, negsuc}
use ric_plt_lib_rmr.Symtab.{num, rmr_sym_pull, rmr_sym_map}
use ric_plt_lib_rmr.Symtab.Find.{key_eq}
use ric_plt_lib_rmr.Symtab.Valid.{IsValid, lookup}
use ric_plt_lib_rmr.Symtab.Put.{lookup-putin, putin-IsValid}
use ric_plt_lib_rmr.Route.{
  Store, RouteTable, RtableEnt, uta_add_rte, rte_at, del_rte, del_rte?, no_rte,
}
use ric_plt_lib_rmr.Route.Key.{pull-lookup}

module _ (s : Store) (rt : RouteTable) (valid : IsValid rt.hash) (key : ℕ) (set : key ≢ 0)
    (n : ℤ) where
  -- In a well-formed table, the new entry is found under its key, which is not 0, and no lookup of
  -- another number but 0 changes.
  pub add_rte-lookup :
      (q : ℕ)
      → q ≢ 0
      → lookup (uta_add_rte s rt key n).2.hash (num q) ≡ (
          if key_eq (num key) (num q)
          then some (uta_add_rte s rt key n).0
          else lookup rt.hash (num q))
  unfolding uta_add_rte rmr_sym_map
  add_rte-lookup q hq =
      let (found, same, valid') = pull-lookup rt.hash valid key set in
      let h = (rmr_sym_pull rt.hash key).1 in
      let (put, _) = lookup-putin h valid' (num key) set (length s.rtes) (num q) hq in
      ground (arith, put, same q hq)

  -- The table stays well formed.
  pub add_rte-IsValid : IsValid (uta_add_rte s rt key n).2.hash
  unfolding uta_add_rte rmr_sym_map
  add_rte-IsValid =
      let (_, _, valid') = pull-lookup rt.hash valid key set in
      putin-IsValid (rmr_sym_pull rt.hash key).1 valid' (num key) set (length s.rtes)

  -- In a well-formed table where the key, which is not 0, has an entry: that entry has one reference
  -- less, the new one has one, and all others have what they had.
  pub add_rte-refs :
      (old p : ℕ)
      → lookup rt.hash (num key) ≡ some old
      → old < length s.rtes
      → (rte_at (uta_add_rte s rt key n).1 p).refs ≡ (
          if p == length s.rtes
          then 1
          else if old == p
          then (rte_at s p).refs - 1
          else (rte_at s p).refs)
  unfolding uta_add_rte del_rte? del_rte
  add_rte-refs old p e room =
      let (found, _, _) = pull-lookup rt.hash valid key set in
      let e' : RtableEnt = record {
        key = key;
        refs = 1;
        mtype = pos 0;
        rrgroups = replicate (elim n [ pos k ↦ k | negsuc _ ↦ 10 ]) none;
      } in
      let appended = s.rtes ++ (e' ∷ []) in
      let o = get_or appended old no_rte in
      ground (
        arith,
        found,
        e,
        room,
        length-append s.rtes (e' ∷ []),
        get_or-append s.rtes e' p no_rte,
        get_or-append s.rtes e' old no_rte,
        get_or-set appended old p (record o { refs = o.refs - 1 }) no_rte,
      )
