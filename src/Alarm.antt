-- ===== src/Alarm.antt =====
-- rt_generic_static.c: the alarm for dropped messages, `alarm_if_drops`, which the route table
-- collector calls from time to time.
mod Tests
use ric_plt_lib_rmr.Base.{
  ℕ, ◌+◌, ◌-◌, ◌≡◌, ◌<◌, refl, Bool, true, false, Option, none, some, List, [], ◌∷◌, arith, ◌==◌,
  ltb, if◌then◌else◌,
}

-- the static variables
pub record Drops : Type 0 where
  pub alarm_raised : Bool
  pub ok2clear : ℕ
  pub lastd : ℕ
  pub prob_id : ℕ

-- what is given to `uta_alarm`, with the problem id
pub data Alarm : Type 0 where
  raise clear : ℕ → Alarm

-- `dcount` is the user's drop counter, `now` the time in seconds.
unfoldable pub alarm_if_drops : Drops → ℕ → ℕ → Option Alarm × Drops
alarm_if_drops d dcount now =
    if d.alarm_raised
    then if dcount == d.lastd
      then if d.ok2clear == 0
        then (none, record d { ok2clear = now + 60 })
        else if ltb d.ok2clear now
        then (some (clear d.prob_id), record d { alarm_raised = false; prob_id = d.prob_id + 1 })
        else (none, d)
      else (none, record d { lastd = dcount; ok2clear = 0 })
    else if dcount == d.lastd
    then (none, d)
    else (some (raise d.prob_id), record d { alarm_raised = true })

-- a check for each count and time, and the alarms that are sent
unfoldable pub checks : Drops → List (ℕ × ℕ) → List Alarm
checks d [] = []
checks d ((dcount, now) ∷ more) =
    let (sent, d') = alarm_if_drops d dcount now in
    let rest = checks d' more in elim sent [ none ↦ rest | some a ↦ a ∷ rest ]

-- Alarms that are raised and cleared in turn, the first one `raise` if none is raised yet, with a
-- problem id that goes up with each clear.
abbrev pub InTurn : Bool → ℕ → List Alarm → Type 0
InTurn raised id [] = Unit
InTurn false id (raise i ∷ as') = (i ≡ id) × InTurn true id as'
InTurn true id (clear i ∷ as') = (i ≡ id) × InTurn false (id + 1) as'
InTurn false id (clear i ∷ as') = ⊥
InTurn true id (raise i ∷ as') = ⊥

abbrev drops : Bool → ℕ → ℕ → ℕ → Drops
drops raised ok last id = record {
  alarm_raised = raised;
  ok2clear = ok;
  lastd = last;
  prob_id = id;
}

turn_from :
    (inputs : List (ℕ × ℕ)) (raised : Bool) (ok last id : ℕ)
    → InTurn raised id (checks (drops raised ok last id) inputs)
unfolding checks alarm_if_drops
turn_from [] raised ok last id = tt
turn_from ((dcount, now) ∷ more) true ok last id = ground (
  arith,
  turn_from more true (now + 60) last id,
  turn_from more false ok last (id + 1),
  turn_from more true ok last id,
  turn_from more true 0 dcount id,
)
turn_from ((dcount, now) ∷ more) false ok last id =
    ground (arith, turn_from more false ok last id, turn_from more true ok last id)

-- Whatever the counts and times of the checks, alarms are raised and cleared in turn, and each clear
-- has the problem id of the raise before it.
pub checks-InTurn :
    (inputs : List (ℕ × ℕ)) (d : Drops) → InTurn d.alarm_raised d.prob_id (checks d inputs)
checks-InTurn inputs d = turn_from inputs d.alarm_raised d.ok2clear d.lastd d.prob_id
