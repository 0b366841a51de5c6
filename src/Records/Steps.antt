-- ===== src/Records/Steps.antt =====
-- rt_generic_static.c: each record moves the tables of the context by steps of the collector, and by
-- those of the senders while the collector waits; the invariants of the gate hold for the parsers.
use ric_plt_lib_rmr.Base.{
  ℕ, ◌≡◌, refl, sym, inl, inr, Bool, none, some, List, Bool-cases, ltb, ltb→lt,
}
use mathlib.Core.Path.{subst}
use ric_plt_lib_rmr.Route.{RouteTable, Store}
use ric_plt_lib_rmr.Gate.{table_at, release_rt, roll_tables, prep_take, prep_finish, drop_new}
use ric_plt_lib_rmr.Gate.Safe.{
  State, Collector, idle, waits, Step, holders, leave, sender_gets, sender_releases,
  collector_takes, collector_finishes, collector_writes, collector_rolls, collector_drops,
}
use ric_plt_lib_rmr.Gate.Keep.{Reaches, here, then_step}
use ric_plt_lib_rmr.Records.Tables.{
  Use, gets, releases, Shared, use_table, prep_new_rt, Ack, Rtc, parsed, gate_of, drop_pending,
}
use ric_plt_lib_rmr.Records.Wait.{prep_new_rt_lem}
use ric_plt_lib_rmr.Gate.Held.{at_start, count_holders}
use ric_plt_lib_rmr.Tools.{uta_tokenise}
use ric_plt_lib_rmr.Records.Text.{skip_spaces, trim_tail}
use ric_plt_lib_rmr.Records.Parse.{of_tokens, parse_rt_rec}
use ric_plt_lib_rmr.Records.Moves.{Moves, with_shared_gate, write_at}
use ric_plt_lib_rmr.Records.Kinds.{of_tokens-Ok}
use ric_plt_lib_rmr.Records.Outcome.{Returns, Returns_lem, without_new, drop_pending-IsPending}

abbrev pub state_with : Collector → Shared → State
state_with c s = record { gate = s.gate; collector = c; readers = s.readers }

abbrev pub state_of : Rtc → State
state_of m = state_with idle m.shared

pub Reaches-trans : (s t u : State) → Reaches s t → Reaches t u → Reaches s u
Reaches-trans s t _ r here = r
Reaches-trans s t _ r (then_step u v q st) = then_step u v (Reaches-trans s t u r q) st

Step-Reaches : (s t : State) → Step s t → Reaches s t
Step-Reaches s t st = then_step s t here st

use_table-Reaches :
    (c : Collector) (u : Use) (s : Shared) → Reaches (state_with c s) (state_with c (use_table u s))
unfolding use_table
use_table-Reaches c gets s =
    Step-Reaches (state_with c s) (state_with c (use_table gets s)) (sender_gets s.gate c s.readers)
use_table-Reaches c (releases p) s = elim (Bool-cases (ltb 0 (holders p s.readers))) [
  | inl e ↦ rw e (
      Step-Reaches (state_with c s)
        (state_with c (record { gate = release_rt s.gate p; readers = leave p s.readers }))
        (sender_releases s.gate c s.readers p (ltb→lt 0 (holders p s.readers) e)))
  | inr e ↦ rw e here
]

start_step :
    (s : Shared)
    → s.gate.new_rtable ≡ none
    → Reaches
        (state_with idle s)
        (state_with (waits (prep_take s.gate).0) (record s { gate = (prep_take s.gate).1 }))
start_step s fresh =
    Step-Reaches (state_with idle s)
      (state_with (waits (prep_take s.gate).0) (record s { gate = (prep_take s.gate).1 }))
      (collector_takes s.gate s.readers fresh)

prep_new_rt-Reaches :
    (us : List Use) (s : Shared) (all : Bool) (s' : Shared)
    → s.gate.new_rtable ≡ none
    → prep_new_rt us s all ≡ some s'
    → Reaches (state_with idle s) (state_with idle s')
prep_new_rt-Reaches us s all s' fresh h =
    let o = (prep_take s.gate).0 in
    prep_new_rt_lem (λ t. Reaches (state_with idle s) (state_with (waits o) t))
      (λ t. Reaches (state_with idle s) (state_with idle t)) us s all s'
      (λ u t r.
        Reaches-trans (state_with idle s) (state_with (waits o) t)
          (state_with (waits o) (use_table u t)) r (use_table-Reaches (waits o) u t))
      (start_step s fresh)
      (λ t r e.
        then_step (state_with (waits o) t)
          (state_with idle (record t { gate = prep_finish t.gate o all })) r
          (collector_finishes t.gate t.readers o all e))
      h

module _ (sent : Ack → Bool) (uses : List Use) (m : Rtc) where
  After : Shared → Type 0
  After s = Reaches (state_of m) (state_with idle s)

  dropped-After : After (without_new m.shared)
  unfolding After
  dropped-After =
      Step-Reaches (state_of m) (state_with idle (without_new m.shared))
        (collector_drops (gate_of m) m.shared.readers)

  Fresh : Shared → Type 0
  Fresh s = After s × (s.gate.new_rtable ≡ none)

  drop_pending-Fresh : Fresh (drop_pending sent m).shared
  unfolding Fresh After drop_new
  drop_pending-Fresh = elim (drop_pending-IsPending sent m) [
    | inl (e, n) ↦ subst Fresh (sym e) (here, n)
    | inr e ↦ subst Fresh (sym e) (dropped-After, refl)
  ]

  write-Reaches :
      (s : Shared) (p : ℕ) (st : Store) (t : RouteTable)
      → s.gate.new_rtable ≡ some p
      → t.ref_count ≡ (table_at s.gate p).ref_count
      → Reaches (state_with idle s) (state_with idle (write_at s p st t))
  write-Reaches s p st t e k =
      Step-Reaches (state_with idle s) (state_with idle (write_at s p st t))
        (collector_writes s.gate s.readers p t st e k)

  start-After :
      (s : Shared) (all : Bool) (p : ℕ) (t : RouteTable)
      → prep_new_rt uses (drop_pending sent m).shared all ≡ some s
      → s.gate.new_rtable ≡ some p
      → t.ref_count ≡ (table_at s.gate p).ref_count
      → After (write_at s p s.gate.store t)
  unfolding After Fresh
  start-After s all p t h e k =
      let s0 = (drop_pending sent m).shared in
      let (r, fresh) = drop_pending-Fresh in
      Reaches-trans (state_of m) (state_with idle s0)
        (state_with idle (write_at s p s.gate.store t)) r
        (Reaches-trans (state_with idle s0) (state_with idle s)
          (state_with idle (write_at s p s.gate.store t))
          (prep_new_rt-Reaches uses s0 all s fresh h) (write-Reaches s p s.gate.store t e k))

  steps : Moves sent uses m After (λ kind fields. Unit)
  unfolding After
  steps = record {
    same = here;
    dropped = dropped-After;
    written = λ p st t e k. write-Reaches m.shared p st t e k;
    rolled = λ kind fields _ _.
        Step-Reaches (state_of m)
          (state_with idle (with_shared_gate m.shared (roll_tables (gate_of m))))
          (collector_rolls (gate_of m) m.shared.readers);
    started = λ s all p t h e k. start-After s all p t h e k;
  }

  parse-After :
      (toks : List (List ℕ)) → Returns (λ m'. After m'.shared) (of_tokens sent uses m toks)
  parse-After toks =
      of_tokens-Ok sent uses m After (λ kind fields. Unit) steps toks (λ kind fields e. tt)

-- Whatever record is parsed, and whatever senders do while the collector waits in it, if the parser
-- returns then steps of the gate lead from the tables before to those that it leaves.
pub parse_rt_rec-Reaches :
    (sent : Ack → Bool) (uses : List Use) (m : Rtc) (buf : List ℕ) (m' : Rtc)
    → parse_rt_rec sent uses m buf ≡ parsed m'
    → Reaches (state_of m) (state_of m')
unfolding parse_rt_rec After
parse_rt_rec-Reaches sent uses m buf m' h =
    Returns_lem (λ n. After sent uses m n.shared) (parse_rt_rec sent uses m buf) m'
      (parse-After sent uses m (uta_tokenise (trim_tail (skip_spaces buf)) 128 b'|')) h

-- In every state that steps of the gate lead to from the start, whatever record is parsed and
-- whatever senders do meanwhile, if the parser returns then the reference count of each table is the
-- number of senders that hold it.
pub parse_rt_rec-counted :
    (sent : Ack → Bool) (uses : List Use) (m : Rtc) (buf : List ℕ) (m' : Rtc)
    → Reaches at_start (state_of m)
    → parse_rt_rec sent uses m buf ≡ parsed m'
    → (p : ℕ) → (table_at (gate_of m') p).ref_count ≡ holders p m'.shared.readers
parse_rt_rec-counted sent uses m buf m' r h = count_holders (state_of m') (
    Reaches-trans at_start (state_of m) (state_of m') r (parse_rt_rec-Reaches sent uses m buf m' h))
