-- ===== src/Records/Start.antt =====
-- rt_generic_static.c: the start of an update of the route table.
use mathlib.Core.Path.{subst}
use ric_plt_lib_rmr.Base.{
  ℕ, ◌-◌, ◌<◌, ◌≡◌, refl, sym, ap, ◌∙◌, inl, inr, Bool, true, false, not, ◌&&◌, Option, none, some,
  List, [], ◌∷◌, arith, length, set, get_or, get_or-set, length-set, ◌==◌, if◌then◌else◌, str_eq,
  length-set,
}
use ric_plt_lib_rmr.Route.{RouteTable}
use ric_plt_lib_rmr.Route.Clone.{uta_rt_init}
use ric_plt_lib_rmr.Gate.{Gate, table_at, release_rt, prep_take, drop_new}
use ric_plt_lib_rmr.Gate.Roll.{IsPrepared, prep_finish-IsPrepared, get_rt-tables}
use ric_plt_lib_rmr.Records.Text.{clip}
use ric_plt_lib_rmr.Records.Tables.{
  Use, gets, releases, Shared, use_table, Ack, Rtc, Parsed, crashes, waits, parsed, gate_of,
  write_new, drop_pending, prep_new_rt, check_count, missing_records, start_table,
}
use ric_plt_lib_rmr.Records.Parse.{
  newrt_rec, by_kind, of_kind, of_tokens, end_word, id_of, third, ended, ready_full, zero_updates,
}
use ric_plt_lib_rmr.Records.Outcome.{drop_pending-IsPending}
use ric_plt_lib_rmr.Records.Wait.{prep_new_rt_lem}
use ric_plt_lib_rmr.Records.Active.{prep_new_rt-rtable, pending-rtable}
use ric_plt_lib_rmr.Records.Entries.{InProgress}

abbrev pub starts_with_n : List ℕ → Bool
starts_with_n [] = false
starts_with_n (c ∷ s) = c == b'n'

-- newrt with a second field other than "end"
unfoldable pub is_start : List (List ℕ) → Bool
is_start (kind ∷ what ∷ rest) = starts_with_n (clip kind) && not (str_eq (clip what) end_word)
is_start _ = false

-- The old table, if there is one, is a table.
unfoldable pub HasOld : Gate → Type 0
HasOld g = (p : ℕ) → g.old_rtable ≡ some p → p < length g.tables

use_table-length :
    (u : Use) (s : Shared) → length (use_table u s).gate.tables ≡ length s.gate.tables
unfolding use_table release_rt
use_table-length gets s = get_rt-tables s.gate
use_table-length (releases p) s =
    let t = record (table_at s.gate p) { ref_count = (table_at s.gate p).ref_count - 1 } in
    ground (arith, length-set s.gate.tables p t)

module _ (sent : Ack → Bool) (uses : List Use) (m : Rtc) where
  pending-HasOld : HasOld (gate_of m) → HasOld (drop_pending sent m).shared.gate
  unfolding drop_new HasOld
  pending-HasOld h = elim (drop_pending-IsPending sent m) [
    | inl (e, _) ↦ subst (λ s. HasOld s.gate) (sym e) h
    | inr e ↦ subst (λ s. HasOld s.gate) (sym e) h
  ]

  prep-IsPrepared :
      (all : Bool) (s s' : Shared)
      → HasOld s.gate
      → prep_new_rt uses s all ≡ some s'
      → IsPrepared s'.gate
  unfolding prep_take HasOld
  prep-IsPrepared all s s' h e =
      prep_new_rt_lem (λ t. length t.gate.tables ≡ length s.gate.tables) (λ t. IsPrepared t.gate)
        uses s all s' (λ u t k. use_table-length u t ∙ k) refl
        (λ t k _.
          prep_finish-IsPrepared t.gate (prep_take s.gate).0 all (λ p q. omega (arith, h p q, k)))
        e

  started : Option (List ℕ) → (RouteTable → RouteTable) → Shared → Option ℕ → Parsed
  started id zeroed s none = crashes
  started id zeroed s (some p) = parsed (
      write_new (record (drop_pending sent m) { shared = s; table_id = id }) p
        (s.gate.store, zeroed (table_at s.gate p)))

  prepared : Option (List ℕ) → (RouteTable → RouteTable) → Option Shared → Parsed
  prepared id zeroed none = waits
  prepared id zeroed (some s) = started id zeroed s s.gate.new_rtable

  start_table-started :
      (id : Option (List ℕ)) (all : Bool) (zeroed : RouteTable → RouteTable) (s : Shared) (p : ℕ)
      → prep_new_rt uses (drop_pending sent m).shared all ≡ some s
      → s.gate.new_rtable ≡ some p
      → start_table sent uses m id all zeroed
        ≡ parsed (
            write_new
              (record (drop_pending sent m) { shared = s; table_id = id })
              p
              (s.gate.store, zeroed (table_at s.gate p)))
  unfolding start_table started prepared
  start_table-started id all zeroed s p h e = ap (prepared id zeroed) h ∙ ap (started id zeroed s) e

  -- what a start of an update leaves
  abbrev pub Begins : Shared → Parsed → Type 0
  Begins s r =
      (p : ℕ) × (s.gate.new_rtable ≡ some p)
      × (m' : Rtc) × (r ≡ parsed m')
      × InProgress m' p 0 (gate_of m).rtable

  start-Begins :
      (id : Option (List ℕ)) (s : Shared)
      → HasOld (gate_of m)
      → prep_new_rt uses (drop_pending sent m).shared false ≡ some s
      → Begins s (start_table sent uses m id false zero_updates)
  unfolding write_new
  start-Begins id s h e =
      let (p, new, room, failed) =
        prep-IsPrepared false (drop_pending sent m).shared s (pending-HasOld h) e in
      let t = zero_updates (table_at s.gate p) in
      let at : get_or (set s.gate.tables p t) p uta_rt_init ≡ t =
        ground (arith, get_or-set s.gate.tables p p t uta_rt_init room) in
      (
        p,
        new,
        write_new (record (drop_pending sent m) { shared = s; table_id = id }) p (s.gate.store, t),
        start_table-started id false zero_updates s p e new,
        record {
          new = new;
          room = omega (arith, room, length-set s.gate.tables p t);
          updates = ap (λ u. u.updates) at;
          failed = ap (λ u. u.failed) at ∙ failed;
          active_is =
              prep_new_rt-rtable uses (drop_pending sent m).shared false s e
              ∙ pending-rtable sent uses m [];
        },
      )

  newrt-Begins :
      (s : Shared) (rest : List (List ℕ)) (b : Bool) (x : Parsed)
      → b ≡ false
      → Begins s (start_table sent uses m (id_of rest) false zero_updates)
      → Begins s (if b then x else start_table sent uses m (id_of rest) false zero_updates)
  newrt-Begins s rest true x e h = cc
  newrt-Begins s rest false x e h = h

  pub kind-newrt :
      (kind what : List ℕ) (rest : List (List ℕ))
      → starts_with_n kind ≡ true
      → of_kind sent uses m kind (what ∷ rest) ≡ newrt_rec sent uses m what rest
  unfolding of_kind by_kind
  kind-newrt [] what rest e = cc
  kind-newrt (c ∷ kind) what rest e = ground arith

  pub tokens-Begins :
      (toks : List (List ℕ)) (s : Shared)
      → is_start toks ≡ true
      → HasOld (gate_of m)
      → prep_new_rt uses (drop_pending sent m).shared false ≡ some s
      → Begins s (of_tokens sent uses m toks)
  unfolding is_start of_tokens newrt_rec
  tokens-Begins [] s i h e = cc
  tokens-Begins (kind ∷ []) s i h e = cc
  tokens-Begins (kind ∷ what ∷ rest) s i h e =
      subst (Begins s) (sym (kind-newrt (clip kind) what rest (ground (arith, i)))) (
        newrt-Begins s rest (str_eq (clip what) end_word)
          (check_count sent m (third rest) (λ t. t.updates) (λ n t. missing_records n t.updates)
            (ended sent uses m ready_full))
          (ground (arith, i)) (start-Begins (id_of rest) s h e))
