-- ===== src/Alarm/Tests.antt =====
-- rt_generic_static.c: the theorem at a burst of drops that ends.
use ric_plt_lib_rmr.Base.{ℕ, ◌≡◌, refl, false, List, [], ◌∷◌}
use ric_plt_lib_rmr.Alarm.{Drops, raise, clear, alarm_if_drops, checks, InTurn, checks-InTurn}

abbrev at_first : Drops
at_first = record { alarm_raised = false; ok2clear = 0; lastd = 0; prob_id = 0 }

abbrev burst : List (ℕ × ℕ)
burst = (0, 10) ∷ (3, 20) ∷ (3, 30) ∷ (3, 40) ∷ (3, 90) ∷ (3, 101) ∷ (4, 110) ∷ []

burst_alarms : checks at_first burst ≡ raise 0 ∷ clear 0 ∷ raise 1 ∷ []
unfolding checks alarm_if_drops
burst_alarms = refl

checks-InTurn_example : InTurn false 0 (checks at_first burst)
checks-InTurn_example = checks-InTurn burst at_first
