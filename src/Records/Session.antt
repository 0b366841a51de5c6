-- ===== src/Records/Session.antt =====
-- rt_generic_static.c: the records of a whole update, one after the other.
use mathlib.Core.Path.{subst}
use ric_plt_lib_rmr.Base.{
  ℕ, ◌+◌, ◌≡◌, ap, ◌∙◌, Bool, true, false, Option, some, List, [], ◌∷◌, ◌++◌, arith, length,
}
use ric_plt_lib_rmr.Records.Text.{atoi}
use ric_plt_lib_rmr.Records.Tables.{
  Use, Shared, Ack, Rtc, Parsed, crashes, waits, parsed, gate_of, drop_pending, prep_new_rt,
  counts_as,
}
use ric_plt_lib_rmr.Records.Parse.{parse_rt_rec, parse_recs}
use ric_plt_lib_rmr.Records.Active.{fields_of}
use ric_plt_lib_rmr.Records.Entries.{InProgress, is_entry, entry-Grows}
use ric_plt_lib_rmr.Records.Start.{is_start, HasOld, tokens-Begins}
use ric_plt_lib_rmr.Records.Update.{IsEndOf, Settled, end-Settles}

unfoldable pub AllEntries : List (List ℕ) → Type 0
AllEntries [] = Unit
AllEntries (r ∷ rs) = (is_entry (fields_of r) ≡ true) × AllEntries rs

module _ (sent : Ack → Bool) (uses : ℕ → List Use) where
  rest_of : ℕ → List (List ℕ) → Parsed → Parsed
  rest_of i recs crashes = crashes
  rest_of i recs waits = waits
  rest_of i recs (parsed m) = parse_recs sent uses (i + 1) m recs

  then_rest :
      (i : ℕ) (m m' : Rtc) (r : List ℕ) (recs : List (List ℕ))
      → parse_rt_rec sent (uses i) m r ≡ parsed m'
      → parse_recs sent uses i m (r ∷ recs) ≡ parse_recs sent uses (i + 1) m' recs
  unfolding parse_recs rest_of
  then_rest i m m' r recs e = ap (rest_of i recs) e

  abbrev Ends : Parsed → Bool → ℕ → Option ℕ → Type 0
  Ends r b p active = (m' : Rtc) × (r ≡ parsed m') × Settled m' b p active

  only_last :
      (i p n : ℕ) (active : Option ℕ) (m : Rtc) (last count : List ℕ)
      → InProgress m p n active
      → IsEndOf count (fields_of last)
      → Ends (parse_recs sent uses i m (last ∷ [])) (counts_as n (atoi count)) p active
  unfolding parse_recs parse_rt_rec
  only_last i p n active m last count h e =
      let (m', r, s) = end-Settles sent (uses i) m p n active h count (fields_of last) e in
      (m', then_rest i m m' last [] r, s)

  entries_end :
      (recs : List (List ℕ)) (i p n : ℕ) (active : Option ℕ) (m : Rtc) (last count : List ℕ)
      → InProgress m p n active
      → AllEntries recs
      → IsEndOf count (fields_of last)
      → Ends
          (parse_recs sent uses i m (recs ++ (last ∷ [])))
          (counts_as (n + length recs) (atoi count))
          p
          active
  unfolding AllEntries
  entries_end [] i p n active m last count h a e =
      subst (λ k. Ends (parse_recs sent uses i m (last ∷ [])) (counts_as k (atoi count)) p active)
        (omega arith) (only_last i p n active m last count h e)
  entries_end (r ∷ recs) i p n active m last count h (a, as') e =
      let (m1, r1, h1) = entry-Grows sent (uses i) p n active m r h a in
      let (m', r', s) = entries_end recs (i + 1) p (n + 1) active m1 last count h1 as' e in
      (
        m',
        then_rest i m m1 r (recs ++ (last ∷ [])) r1 ∙ r',
        subst (λ k. Settled m' (counts_as k (atoi count)) p active) (omega arith) s,
      )

  -- If the wait for the old table ends, then after a start, any entries, and an end with a number, the
  -- parser has returned each time. If the number is that of the entries, the table that the start
  -- prepared is active, the one that was active is old, and routes can be used; otherwise the
  -- active table is as before. No table is in progress.
  pub parse_recs-Settled :
      (i : ℕ) (m : Rtc) (s : Shared) (first : List ℕ) (recs : List (List ℕ)) (last count : List ℕ)
      → HasOld (gate_of m)
      → prep_new_rt (uses i) (drop_pending sent m).shared false ≡ some s
      → is_start (fields_of first) ≡ true
      → AllEntries recs
      → IsEndOf count (fields_of last)
      → (p : ℕ) × (m' : Rtc) × (s.gate.new_rtable ≡ some p)
        × (parse_recs sent uses i m (first ∷ (recs ++ (last ∷ []))) ≡ parsed m')
        × Settled m' (counts_as (length recs) (atoi count)) p (gate_of m).rtable
  unfolding parse_rt_rec
  parse_recs-Settled i m s first recs last count old w f a e =
      let (p, new, m1, r1, h1) = tokens-Begins sent (uses i) m (fields_of first) s f old w in
      let (m', r', settled) =
        entries_end recs (i + 1) p 0 (gate_of m).rtable m1 last count h1 a e in
      (
        p,
        m',
        new,
        then_rest i m m1 first (recs ++ (last ∷ [])) r1 ∙ r',
        subst (λ k. Settled m' (counts_as k (atoi count)) p (gate_of m).rtable) (omega arith)
            settled,
      )
