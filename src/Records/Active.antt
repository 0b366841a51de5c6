-- ===== src/Records/Active.antt =====
-- rt_generic_static.c: which table is active after a record.
use mathlib.Core.Path.{subst}
use ric_plt_lib_rmr.Base.{
  ℕ, ◌≡◌, arith, refl, sym, ap, ◌∙◌, ◌⊎◌, inl, inr, Bool, Option, none, some, List,
}
use ric_plt_lib_rmr.Gate.{Gate, release_rt, prep_take, prep_finish, drop_new, roll_tables}
use ric_plt_lib_rmr.Gate.Roll.{get_rt-rtable, roll_tables-rtable}
use ric_plt_lib_rmr.Tools.{uta_tokenise}
use ric_plt_lib_rmr.Records.Text.{skip_spaces, trim_tail}
use ric_plt_lib_rmr.Records.Tables.{
  Use, gets, releases, Shared, use_table, prep_new_rt, Ack, Rtc, parsed, gate_of, new_of,
  drop_pending,
}
use ric_plt_lib_rmr.Records.Parse.{of_tokens, parse_rt_rec}
use ric_plt_lib_rmr.Records.Wait.{prep_new_rt_lem}
use ric_plt_lib_rmr.Records.Moves.{Moves, IsEnd, IsComplete}
use ric_plt_lib_rmr.Records.Kinds.{of_tokens-Ok}
use ric_plt_lib_rmr.Records.Outcome.{Returns, Returns_lem, drop_pending-IsPending}

-- the fields of a record
abbrev pub fields_of : List ℕ → List (List ℕ)
fields_of buf = uta_tokenise (trim_tail (skip_spaces buf)) 128 b'|'

use_table-rtable : (u : Use) (s : Shared) → (use_table u s).gate.rtable ≡ s.gate.rtable
unfolding use_table release_rt
use_table-rtable gets s = get_rt-rtable s.gate
use_table-rtable (releases p) s = ground arith

finish-rtable : (g : Gate) (o : Option ℕ) (all : Bool) → (prep_finish g o all).rtable ≡ g.rtable
unfolding prep_finish
finish-rtable g none all = refl
finish-rtable g (some p) all = refl

pub prep_new_rt-rtable :
    (us : List Use) (s : Shared) (all : Bool) (s' : Shared)
    → prep_new_rt us s all ≡ some s'
    → s'.gate.rtable ≡ s.gate.rtable
unfolding prep_take
prep_new_rt-rtable us s all s' h =
    prep_new_rt_lem (λ t. t.gate.rtable ≡ s.gate.rtable) (λ t. t.gate.rtable ≡ s.gate.rtable) us s
      all s' (λ u t e. use_table-rtable u t ∙ e) refl
      (λ t e _. finish-rtable t.gate (prep_take s.gate).0 all ∙ e) h

module _ (sent : Ack → Bool) (uses : List Use) (m : Rtc) (toks : List (List ℕ)) where
  -- The active table is the one before, or the one in progress, which is complete.
  Active : Shared → Type 0
  Active s = (s.gate.rtable ≡ (gate_of m).rtable) ⊎ (IsComplete m toks × (s.gate.rtable ≡ new_of m))

  rolled-Active :
      (g : Gate) (r : List ℕ)
      → IsComplete m toks
      → gate_of m ≡ g
      → Active (record { gate = roll_tables g; readers = r })
  unfolding Active
  rolled-Active g r c e = elim (roll_tables-rtable g) [
    | inl k ↦ inl (k ∙ ap (λ h. h.rtable) (sym e))
    | inr k ↦ inr (c, k ∙ ap (λ h. h.new_rtable) (sym e))
  ]

  pub pending-rtable : (drop_pending sent m).shared.gate.rtable ≡ (gate_of m).rtable
  unfolding drop_new
  pending-rtable = elim (drop_pending-IsPending sent m) [
    | inl (e, _) ↦ ap (λ s. s.gate.rtable) e
    | inr e ↦ ap (λ s. s.gate.rtable) e
  ]

  moves : Moves sent uses m Active (λ kind fields. IsEnd m kind fields → IsComplete m toks)
  unfolding Active drop_new
  moves = record {
    same = inl refl;
    dropped = inl refl;
    written = λ p st t e k. inl refl;
    rolled = λ kind fields h c. rolled-Active (gate_of m) m.shared.readers (h c) refl;
    started = λ s all p t h e k.
        inl (prep_new_rt-rtable uses (drop_pending sent m).shared all s h ∙ pending-rtable);
  }

  parse-Active : Returns (λ m'. Active m'.shared) (of_tokens sent uses m toks)
  unfolding IsComplete
  parse-Active =
      of_tokens-Ok sent uses m Active (λ kind fields. IsEnd m kind fields → IsComplete m toks) moves
        toks (λ kind fields e c. subst (IsComplete m) (sym e) c)

-- If the parser returns, the active table is the one before, or the record is an end that announces
-- the number of records received, if it announces one, and the table in progress is active.
pub parse_rt_rec-Active :
    (sent : Ack → Bool) (uses : List Use) (m : Rtc) (buf : List ℕ) (m' : Rtc)
    → parse_rt_rec sent uses m buf ≡ parsed m'
    → ((gate_of m').rtable ≡ (gate_of m).rtable)
      ⊎ (IsComplete m (fields_of buf) × ((gate_of m').rtable ≡ new_of m))
unfolding parse_rt_rec Active
parse_rt_rec-Active sent uses m buf m' h =
    Returns_lem (λ n. Active sent uses m (fields_of buf) n.shared) (parse_rt_rec sent uses m buf) m'
      (parse-Active sent uses m (fields_of buf)) h
