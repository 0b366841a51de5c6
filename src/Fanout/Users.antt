-- ===== src/Fanout/Users.antt =====
-- sr_si_static.c: `mtosend_msg` gives up the route table that it holds.
use ric_plt_lib_rmr.Base.{
  ℕ, suc, ◌+◌, ◌-◌, ◌<◌, ◌≡◌, inl, inr, refl, ap, ◌∙◌, Bool, true, Option, none, some, List, [],
  arith, ◌==◌, if◌then◌else◌, length, get_or, set, get_or-set, length-set, Bool-cases,
}
use ric_plt_lib_rmr.Base.Int.{ℤ}
use ric_plt_lib_rmr.Gate.{Gate, table_at, set_table, release_rt}
use ric_plt_lib_rmr.Gate.Held.{get_rt-counting}
use ric_plt_lib_rmr.Route.{RouteTable, rte_at, uta_get_rte}
use ric_plt_lib_rmr.Route.Clone.{uta_rt_init}
use ric_plt_lib_rmr.Send.Wire.{System}
use ric_plt_lib_rmr.Send.Message.{rmr_err_noendpt, Msg, Origin}
use ric_plt_lib_rmr.Fanout.{
  Trip, finished, trip_of, unrouted, routed, retries_of, with_table, mtosend_msg,
}
use ric_plt_lib_rmr.Fanout.Groups.{AllFull}
use ric_plt_lib_rmr.Fanout.Ends.{held, send_groups-Told}
use ric_plt_lib_rmr.Fanout.Round.{any_sent}

-- The search in a table keeps its number of users.
users-get_rte :
    (rt : RouteTable) (sid mtype : ℤ) (alt : Bool)
    → (uta_get_rte rt sid mtype alt).1.ref_count ≡ rt.ref_count
unfolding uta_get_rte
users-get_rte rt sid mtype alt = ground arith

-- Each table has as many users as before.
abbrev pub SameUsers : Gate → Gate → Type 0
SameUsers g g' = (q : ℕ) → (table_at g' q).ref_count ≡ (table_at g q).ref_count

-- A user more of a table, then whatever keeps the number, then one less.
given_up :
    (g h : Gate) (p : ℕ) (rt : RouteTable)
    → p < length g.tables
    → rt.ref_count ≡ (table_at g p).ref_count + 1
    → h.tables
      ≡ set
          (set g.tables p (record (table_at g p) { ref_count = (table_at g p).ref_count + 1 }))
          p
          rt
    → SameUsers g (release_rt h p)
unfolding release_rt
given_up g h p rt l users e q =
    let up = record (table_at g p) { ref_count = (table_at g p).ref_count + 1 } in
    let first = length-set g.tables p up in
    let second = length-set (set g.tables p up) p rt in
    let now : (k : ℕ)
        → table_at h k ≡ (if p == k then rt else get_or (set g.tables p up) k uta_rt_init) =
      λ k.
        ap (λ x. get_or x k uta_rt_init) e
        ∙ get_or-set (set g.tables p up) p k rt uta_rt_init (omega (arith, l, first)) in
    let before = get_or-set g.tables p q up uta_rt_init l in
    let down = record (table_at h p) { ref_count = (table_at h p).ref_count - 1 } in
    let after =
      get_or-set h.tables p q down uta_rt_init (omega (arith, ap length e, first, second, l)) in
    elim (Bool-cases (p == q)) [
      | inl y ↦ ground (arith, y, after, now p, users)
      | inr n ↦ ground (arith, n, after, now q, before)
    ]

module _ (connect : List ℕ → ℤ) (ctx : Origin) (garbage : ℕ → List ℕ) (os : ℕ → ℕ → System)
    (send_retries : ℕ) (g : Gate) (m : Msg) (max_to : ℤ) (p : ℕ) (active : g.rtable ≡ some p)
    (l : p < length g.tables) where
  abbrev lookup_in : Option ℕ × RouteTable
  lookup_in = uta_get_rte (table_at (held g p) p) m.sub_id m.mtype true

  users-lookup_in : lookup_in.1.ref_count ≡ (table_at g p).ref_count + 1
  users-lookup_in =
      let up = record (table_at g p) { ref_count = (table_at g p).ref_count + 1 } in
      users-get_rte (table_at (held g p) p) m.sub_id m.mtype true
      ∙ ap (λ t. t.ref_count) (get_or-set g.tables p p up uta_rt_init l)
      ∙ ground arith

  -- Without a route the message comes back with the state RMR_ERR_NOENDPT, nothing was sent to
  -- anybody, and each table has as many users as before.
  mtosend_msg-unrouted :
      lookup_in.0 ≡ none
      → (t : Trip) × (mtosend_msg connect ctx garbage os send_retries g m max_to ≡ some t)
        × (t.msg ≡ some (record m { state = rmr_err_noendpt }))
        × (t.tries ≡ [])
        × (t.gate.store ≡ g.store)
        × SameUsers g t.gate
  unfolding mtosend_msg routed unrouted release_rt with_table
  mtosend_msg-unrouted none_found =
      let g1 = set_table (held g p) p lookup_in.1 in
      (
        unrouted g1 p m,
        ap (with_table connect ctx garbage os (retries_of send_retries max_to) m)
              (get_rt-counting g p active)
            ∙ (rw (none_found, routed) refl),
        refl,
        refl,
        refl,
        given_up g g1 p lookup_in.1 l users-lookup_in refl,
      )

  -- When there is an active table with an entry for the message that has groups, all of them full of
  -- endpoints, the send returns, and each table has as many users as before.
  pub mtosend_msg-SameUsers :
      (rte : ℕ)
      → lookup_in.0 ≡ some rte
      → 0 < length (rte_at g.store rte).rrgroups
      → AllFull (rte_at g.store rte)
      → (t : Trip) × (mtosend_msg connect ctx garbage os send_retries g m max_to ≡ some t)
        × SameUsers g t.gate
  unfolding mtosend_msg routed finished with_table any_sent
  mtosend_msg-SameUsers rte found some_groups full =
      let g1 = set_table (held g p) p lookup_in.1 in
      let n = length (rte_at g.store rte).rrgroups in
      let (t, e, _, _, tables) =
        send_groups-Told connect ctx garbage os (retries_of send_retries max_to) n (suc n) p rte
          (trip_of g1 m) m 0 refl some_groups (omega arith) full refl in
      (
        finished p t,
        ap (with_table connect ctx garbage os (retries_of send_retries max_to) m)
              (get_rt-counting g p active)
            ∙ (rw (found, routed) (rw e refl)),
        given_up g t.gate p lookup_in.1 l users-lookup_in tables,
      )
