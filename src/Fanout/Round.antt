-- ===== src/Fanout/Round.antt =====
-- sr_si_static.c: one round of `mtosend_msg`, and what its result says of the attempts.
use mathlib.Core.Path.{subst}
use ric_plt_lib_rmr.Base.{
  ℕ, ◌+◌, ◌≡◌, ◌⊎◌, inl, inr, refl, sym, Bool, true, false, ◌||◌, Option, none, some, List, [], ◌∷◌,
  ◌++◌, arith, ltb, ◌==◌, if◌then◌else◌, length, length-append, Bool-cases,
}
use ric_plt_lib_rmr.Base.Int.{ℤ}
use ric_plt_lib_rmr.Gate.{Gate}
use ric_plt_lib_rmr.Route.Select.{Selected}
use ric_plt_lib_rmr.Send.Wire.{System}
use ric_plt_lib_rmr.Send.Message.{rmr_ok, rmr_err_noendpt, Msg, Origin}
use ric_plt_lib_rmr.Send.Outcome.{send_msg-Settled}
use ric_plt_lib_rmr.Send.Clone.{clone_msg}
use ric_plt_lib_rmr.Fanout.{
  Try, Trip, after_try, sent_of, after_cloned, after_last, unreached, try_socket, try_group,
}

-- whether an attempt was good
unfoldable pub any_sent : List Try → Bool
any_sent [] = false
any_sent (t ∷ ts) = t.sent || any_sent ts

any_sent-append : (ts : List Try) (t : Try) → any_sent (ts ++ (t ∷ [])) ≡ (any_sent ts || t.sent)
unfolding any_sent
any_sent-append [] t = ground arith
any_sent-append (u ∷ ts) t = ground (arith, any_sent-append ts t)

-- The count of sends is that of the attempts so far.
abbrev pub Counted : Trip → Type 0
Counted t = ltb 0 t.ok_sends ≡ any_sent t.tries

-- The last message and the count say whether an attempt was good.
abbrev pub Told : Trip → Type 0
Told t = (sent_of t.msg || ltb 0 t.ok_sends) ≡ any_sent t.tries

-- What a round makes of a trip: there is one attempt more; if there are more groups then there is a
-- message for them.
pub record IsRound (more : Bool) (g : Gate) (t t' : Trip) : Type 0 where
  pub one_more : length t'.tries ≡ length t.tries + 1
  pub goes_on : more ≡ true → (m : Msg) × (t'.msg ≡ some m) × Counted t'
  pub ends : more ≡ false → Told t'
  pub tables_kept : t'.gate.tables ≡ g.tables
  pub entries_kept : t'.gate.store.rtes ≡ g.store.rtes

abbrev pub Rounds : Bool → Gate → Trip → Option Trip → Type 0
Rounds more g t r = (t' : Trip) × (r ≡ some t') × IsRound more g t t'

if-Rounds :
    {g : Gate} {t : Trip} (b more : Bool) (x y : Option Trip)
    → Rounds more g t x
    → (b ≡ false → Rounds more g t y)
    → Rounds more g t (if b then x else y)
if-Rounds true more x y h k = h
if-Rounds false more x y h k = k refl

module _ (t : Trip) (c : Counted t) (g : Gate) where
  unreached-IsRound : (more : Bool) (m : Msg) → IsRound more g t (unreached t g m)
  unfolding unreached sent_of
  unreached-IsRound more m =
      let try : Try = record { reached = none; wire = []; sent = false } in
      let told = any_sent-append t.tries try in
      record {
        one_more = omega (arith, length-append t.tries (try ∷ []));
        goes_on = λ e. (record m { state = rmr_err_noendpt }, refl, ground (arith, c, told));
        ends = λ e. ground (arith, c, told);
        tables_kept = refl;
        entries_kept = refl;
      }

  cloned-IsRound :
      (m : Msg) (ok : Bool) (ep : Option ℕ) (fd : ℤ) (w : List ℕ)
      → IsRound true g t
          (after_try t g ep (some m) ok (record { reached = some fd; wire = w; sent = ok }))
  unfolding after_try
  cloned-IsRound m ok ep fd w =
      let try : Try = record { reached = some fd; wire = w; sent = ok } in
      let told = any_sent-append t.tries try in
      record {
        one_more = omega (arith, length-append t.tries (try ∷ []));
        goes_on = λ e. (
          record m { state = m.state },
          refl,
          elim (Bool-cases ok) [
            | inl y ↦ rw y (ground (arith, c, told, y))
            | inr n ↦ rw n (ground (arith, c, told, n))
          ],
        );
        ends = λ e. cc;
        tables_kept = refl;
        entries_kept = refl;
      }

  last-IsRound :
      (r : Option Msg) (ep : Option ℕ) (fd : ℤ) (w : List ℕ)
      → IsRound false g t
          (after_try t g ep r false (record { reached = some fd; wire = w; sent = sent_of r }))
  unfolding after_try
  last-IsRound none ep fd w =
      let try : Try = record { reached = some fd; wire = w; sent = sent_of none } in
      let told = any_sent-append t.tries try in
      record {
        one_more = omega (arith, length-append t.tries (try ∷ []));
        goes_on = λ e. cc;
        ends = λ e. ground (arith, c, told);
        tables_kept = refl;
        entries_kept = refl;
      }
  last-IsRound (some m) ep fd w =
      let try : Try = record { reached = some fd; wire = w; sent = sent_of (some m) } in
      let told = any_sent-append t.tries try in
      record {
        one_more = omega (arith, length-append t.tries (try ∷ []));
        goes_on = λ e. cc;
        ends = λ e. ground (arith, c, told);
        tables_kept = refl;
        entries_kept = refl;
      }

  module _ (connect : List ℕ → ℤ) (ctx : Origin) (garbage : ℕ → List ℕ) (os : ℕ → ℕ → System)
      (max_to : ℤ) where
    after_cloned-Rounds :
        (m : Msg) (ep : Option ℕ) (fd : ℤ) (r : Option Msg) (w : List ℕ)
        → Rounds true g t (after_cloned t g m ep fd (some (r, w)))
    unfolding after_cloned
    after_cloned-Rounds m ep fd none w =
        (_, refl, cloned-IsRound (record m { state = rmr_ok }) true ep fd w)
    after_cloned-Rounds m ep fd (some _) w = (_, refl, cloned-IsRound m false ep fd w)

    try_socket-Rounds :
        (m : Msg) (group : ℕ) (ep : Option ℕ) (more : Bool) (fd : ℤ)
        → Rounds more g t (try_socket connect ctx garbage os max_to t g m group ep more (some fd))
    unfolding try_socket after_last
    try_socket-Rounds m group ep true fd =
        let c = clone_msg garbage m in
        let (r, w, e, s) =
          send_msg-Settled ctx garbage (os group) (record m { noalloc = true }) max_to in
        subst (λ x. Rounds true g t (after_cloned t g c ep fd x)) (sym e)
          (after_cloned-Rounds c ep fd r w)
    try_socket-Rounds m group ep false fd =
        let (r, w, e, s) = send_msg-Settled ctx garbage (os group) m max_to in
        subst (λ x. Rounds false g t (after_last t g ep fd x)) (sym e)
          (_, refl, last-IsRound r ep fd w)

    -- A round comes to an end, and makes one attempt.
    pub try_group-Rounds :
        (m : Msg) (group : ℕ) (s : Selected)
        → (s.state ≡ 0) ⊎ ((fd : ℤ) × (s.nn_sock ≡ some fd))
        → Rounds s.more g t (try_group connect ctx garbage os max_to t m group s g)
    unfolding try_group
    try_group-Rounds m group s h =
        if-Rounds (s.state == 0) s.more (some (unreached t g m))
          (try_socket connect ctx garbage os max_to t g m group s.uep s.more s.nn_sock)
          (unreached t g m, refl, unreached-IsRound s.more m)
          (λ n. elim h [
            | inl z ↦ absurd (ground (arith, z, n))
            | inr (fd, e) ↦
                subst
                  (λ x.
                    Rounds s.more g t
                      (try_socket connect ctx garbage os max_to t g m group s.uep s.more x))
                  (sym e) (try_socket-Rounds m group s.uep s.more fd)
          ])
