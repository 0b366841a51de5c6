-- ===== src/Records/Update.antt =====
-- rt_generic_static.c: a whole update of the route table, from its start to its end.
use mathlib.Core.Path.{subst}
use ric_plt_lib_rmr.Base.{
  ℕ, ◌≡◌, refl, sym, ap, ◌∙◌, Bool, true, false, Option, none, some, List, [], ◌∷◌, if◌then◌else◌,
  str_eq,
}
use ric_plt_lib_rmr.Gate.{table_at, roll_tables, drop_new}
use ric_plt_lib_rmr.Gate.Roll.{roll_tables-new}
use ric_plt_lib_rmr.Records.Text.{clip, atoi}
use ric_plt_lib_rmr.Records.Tables.{
  Use, Ack, Reason, missing_records, no_reason, Rtc, Parsed, crashes, parsed, gate_of, new_of,
  reject, finish, start_table, with_gate, counts_as, check_count,
}
use ric_plt_lib_rmr.Records.Parse.{
  newrt_rec, ended, of_tokens, end_word, ready_full, id_of, zero_updates,
}
use ric_plt_lib_rmr.Records.Outcome.{send_rt_ack-shared, reject-shared}
use ric_plt_lib_rmr.Records.Entries.{InProgress}
use ric_plt_lib_rmr.Records.Start.{starts_with_n, kind-newrt}

-- newrt | end | <count>
unfoldable pub IsEndOf : List ℕ → List (List ℕ) → Type 0
IsEndOf count (kind ∷ what ∷ c ∷ rest) =
    (starts_with_n (clip kind) ≡ true) × (str_eq (clip what) end_word ≡ true) × (c ≡ count)
IsEndOf count _ = ⊥

-- After an end no table is in progress; `p` is the active table and routes can be used if the number
-- was right, else the active table is as before.
unfoldable pub Settled : Rtc → Bool → ℕ → Option ℕ → Type 0
Settled m true p active =
    (new_of m ≡ none)
    × ((gate_of m).rtable ≡ some p)
    × ((gate_of m).old_rtable ≡ active)
    × (m.rtable_ready ≡ true)
    × (m.full_rt ≡ true)
Settled m false p active = (new_of m ≡ none) × ((gate_of m).rtable ≡ active)

module _ (sent : Ack → Bool) (uses : List Use) (m : Rtc) (p n : ℕ) (active : Option ℕ)
    (h : InProgress m p n active) where
  abbrev pub Settles : Parsed → Bool → Type 0
  Settles r b = (m' : Rtc) × (r ≡ parsed m') × Settled m' b p active

  finished : Settled (ready_full (finish sent m)) true p active
  unfolding Settled finish
  finished =
      let rolled = with_gate m (roll_tables (gate_of m)) in
      let (now, old, none_new) = roll_tables-new (gate_of m) p h.new h.failed in
      let e = send_rt_ack-shared sent rolled true no_reason in
      (
        ap (λ s. s.gate.new_rtable) e ∙ none_new,
        ap (λ s. s.gate.rtable) e ∙ now,
        ap (λ s. s.gate.old_rtable) e ∙ old ∙ h.active_is,
        refl,
        refl,
      )

  rejected : (why : Reason) → Settled (reject sent m why) false p active
  unfolding Settled drop_new
  rejected why =
      let e = reject-shared sent m why in
      (ap (λ s. s.gate.new_rtable) e, ap (λ s. s.gate.rtable) e ∙ h.active_is)

  ended_or_not :
      (b : Bool) (why : Reason)
      → Settles (if b then parsed (ready_full (finish sent m)) else parsed (reject sent m why)) b
  ended_or_not true why = (ready_full (finish sent m), refl, finished)
  ended_or_not false why = (reject sent m why, refl, rejected why)

  ended_by : Option ℕ → Parsed
  ended_by none = parsed m
  ended_by (some _) = parsed (ready_full (finish sent m))

  ended-finish : ended sent uses m ready_full ≡ parsed (ready_full (finish sent m))
  unfolding ended ended_by
  ended-finish = ap ended_by h.new

  checked_by : List ℕ → Parsed → Option ℕ → Parsed
  checked_by count done none = crashes
  checked_by count done (some q) =
      let t = table_at (gate_of m) q in
      if counts_as t.updates (atoi count)
      then done
      else parsed (reject sent m (missing_records count t.updates))

  newrt_end :
      (what count : List ℕ) (rest : List (List ℕ))
      → str_eq (clip what) end_word ≡ true
      → newrt_rec sent uses m what (count ∷ rest) ≡ (
          if counts_as n (atoi count)
          then parsed (ready_full (finish sent m))
          else parsed (reject sent m (missing_records count n)))
  unfolding newrt_rec check_count checked_by
  newrt_end what count rest e =
      ap
        (λ b.
          if b
          then checked_by count (ended sent uses m ready_full) (new_of m)
          else start_table sent uses m (id_of (count ∷ rest)) false zero_updates)
        e
      ∙ ap (λ r. checked_by count r (new_of m)) ended-finish
      ∙ ap (checked_by count (parsed (ready_full (finish sent m)))) h.new
      ∙ ap
          (λ k.
            if counts_as k (atoi count)
            then parsed (ready_full (finish sent m))
            else parsed (reject sent m (missing_records count k)))
          h.updates

  pub end-Settles :
      (count : List ℕ) (toks : List (List ℕ))
      → IsEndOf count toks
      → Settles (of_tokens sent uses m toks) (counts_as n (atoi count))
  unfolding IsEndOf of_tokens
  end-Settles count [] i = absurd i
  end-Settles count (_ ∷ []) i = absurd i
  end-Settles count (_ ∷ _ ∷ []) i = absurd i
  end-Settles count (kind ∷ what ∷ c ∷ rest) (k, w, same) =
      let b = counts_as n (atoi c) in
      subst (λ z. Settles (of_tokens sent uses m (kind ∷ what ∷ c ∷ rest)) (counts_as n (atoi z)))
        same
        (subst (λ r. Settles r b)
          (sym (kind-newrt sent uses m (clip kind) what (c ∷ rest) k ∙ newrt_end what c rest w))
          (ended_or_not b (missing_records c n)))
