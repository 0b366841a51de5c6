-- ===== src/Fanout/Ends.antt =====
-- sr_si_static.c: that `mtosend_msg` returns, and what the message that it returns says.
use mathlib.Core.Path.{subst}
use ric_plt_lib_rmr.Base.{
  ℕ, zero, suc, ◌+◌, ◌≤◌, ◌<◌, ◌≡◌, inl, inr, refl, ap, ◌∙◌, sym, true, ◌||◌, Option, none, some,
  List, arith, ltb, length, get_or, Bool-cases,
}
use ric_plt_lib_rmr.Base.Int.{ℤ}
use ric_plt_lib_rmr.Gate.{Gate, table_at, set_table, counting}
use ric_plt_lib_rmr.Gate.Held.{get_rt-counting}
use ric_plt_lib_rmr.Route.{no_rte, rte_at, uta_get_rte}
use ric_plt_lib_rmr.Send.Wire.{System}
use ric_plt_lib_rmr.Send.Message.{Msg, Origin}
use ric_plt_lib_rmr.Fanout.{
  Trip, sent_of, returned, finished, trip_of, send_groups, routed, retries_of, mtosend_msg,
  with_table,
}
use ric_plt_lib_rmr.Fanout.Round.{any_sent, Counted, Told, try_group-Rounds}
use ric_plt_lib_rmr.Fanout.Groups.{AllFull, select_ep-Gives}

module _ (connect : List ℕ → ℤ) (ctx : Origin) (garbage : ℕ → List ℕ) (os : ℕ → ℕ → System) where
  -- From a group on, there is one attempt for each group that is left.
  pub send_groups-Told :
      (max_to : ℤ) (n fuel p rte : ℕ) (t : Trip) (m : Msg) (group : ℕ)
      → length (rte_at t.gate.store rte).rrgroups ≡ n
      → group < n
      → n ≤ group + fuel
      → AllFull (rte_at t.gate.store rte)
      → Counted t
      → (t' : Trip) × (send_groups connect ctx garbage os max_to fuel p rte t m group ≡ some t')
        × (length t'.tries + group ≡ length t.tries + n)
        × Told t'
        × (t'.gate.tables ≡ t.gate.tables)
  unfolding send_groups
  send_groups-Told max_to n zero p rte t m group e l f full c = absurd (omega arith)
  send_groups-Told max_to n (suc fuel) p rte t m group e l f full c =
      let (s, g', es, more, usable, tabs, kept, full') =
        select_ep-Gives connect t.gate p rte group m (omega (arith, e, l)) full in
      let (t1, et, round) =
        try_group-Rounds t c g' connect ctx garbage os max_to m group s usable in
      let entry : rte_at t1.gate.store rte ≡ rte_at g'.store rte =
        ap (λ x. get_or x rte no_rte) round.entries_kept in
      elim (Bool-cases s.more) [
        | inl y ↦
            (let (m', em, c') = round.goes_on y in
              let (t', e', tries, told, tables) =
                send_groups-Told max_to n fuel p rte t1 m' (suc group)
                  (ap (λ x. length x.rrgroups) entry ∙ kept ∙ e) (ground (arith, more, y, e))
                  (omega arith) (subst AllFull (sym entry) full') c' in
              (
                t',
                rw (es, send_groups) (rw (et) (rw (y) (rw em e'))),
                omega (arith, tries, round.one_more),
                told,
                tables ∙ round.tables_kept ∙ tabs,
              ))
        | inr last ↦ (
          t1,
          rw (es, send_groups) (rw et (rw last refl)),
          ground (arith, more, last, e, l, round.one_more),
          round.ends last,
          round.tables_kept ∙ tabs,
        )
      ]

sent_of-returned : (ok : ℕ) (m : Option Msg) → sent_of (returned ok m) ≡ (sent_of m || ltb 0 ok)
unfolding sent_of returned
sent_of-returned ok none = refl
sent_of-returned ok (some m) = elim (Bool-cases (ltb 0 ok)) [
  | inl y ↦ rw y (ground arith)
  | inr n ↦ rw n (ground arith)
]

-- the context with one user more of a table
abbrev pub held : Gate → ℕ → Gate
held g p = counting g p ((table_at g p).ref_count + 1)

module _ (connect : List ℕ → ℤ) (ctx : Origin) (garbage : ℕ → List ℕ) (os : ℕ → ℕ → System)
    (send_retries : ℕ) (g : Gate) (m : Msg) (max_to : ℤ) (p rte : ℕ) (active : g.rtable ≡ some p)
    (l : p < length g.tables)
    (found : (uta_get_rte (table_at (held g p) p) m.sub_id m.mtype true).0 ≡ some rte)
    (some_groups : 0 < length (rte_at g.store rte).rrgroups)
    (full : AllFull (rte_at g.store rte)) where
  -- A message whose route has groups, with an endpoint at each of their places, is tried once for
  -- each group, whatever the system answers. The sender is told that the message was sent, with no
  -- message or one whose state is RMR_OK, if and only if one of the attempts was good.
  pub mtosend_msg-Told :
      (t : Trip) × (mtosend_msg connect ctx garbage os send_retries g m max_to ≡ some t)
      × (length t.tries ≡ length (rte_at g.store rte).rrgroups)
      × (sent_of t.msg ≡ any_sent t.tries)
  unfolding mtosend_msg routed finished any_sent with_table
  mtosend_msg-Told =
      let rt = (uta_get_rte (table_at (held g p) p) m.sub_id m.mtype true).1 in
      let g1 = set_table (held g p) p rt in
      let n = length (rte_at g.store rte).rrgroups in
      let (t, e, tries, told, _) =
        send_groups-Told connect ctx garbage os (retries_of send_retries max_to) n (suc n) p rte
          (trip_of g1 m) m 0 refl some_groups (omega arith) full refl in
      (
        finished p t,
        ap (with_table connect ctx garbage os (retries_of send_retries max_to) m)
              (get_rt-counting g p active)
            ∙ rw (found, routed) (rw e refl),
        omega (arith, tries),
        sent_of-returned t.ok_sends t.msg ∙ told,
      )
