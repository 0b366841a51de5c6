-- ===== src/Records/Tests.antt =====
-- rt_generic_static.c: the theorems at a first table with one entry.
use ric_plt_lib_rmr.Base.{
  ℕ, arith, ◌<◌, replicate, ◌≡◌, refl, ◌⊎◌, Bool, true, false, none, some, List, [], ◌∷◌, ◌++◌,
  length, str_eq,
}
use ric_plt_lib_rmr.Gate.{table_at, prep_take, prep_finish, in_use}
use ric_plt_lib_rmr.Gate.Keep.{Reaches}
use ric_plt_lib_rmr.Gate.Held.{no_gate}
use ric_plt_lib_rmr.Tools.{uta_tokenise, cut}
use ric_plt_lib_rmr.Records.Text.{clip, atoi, skip_spaces, trim_end, trim_tail}
use ric_plt_lib_rmr.Records.Tables.{
  Use, Shared, Ack, Rtc, parsed, gate_of, new_of, write_new, start_table, drain, drop_pending,
  prep_new_rt, counts_as,
}
use ric_plt_lib_rmr.Records.Parse.{
  newrt_rec, by_kind, of_kind, of_tokens, zero_updates, parse_rt_rec, parse_recs,
}
use ric_plt_lib_rmr.Records.Moves.{IsComplete}
use ric_plt_lib_rmr.Records.Active.{fields_of, parse_rt_rec-Active}
use ric_plt_lib_rmr.Records.Steps.{state_of, parse_rt_rec-Reaches}
use ric_plt_lib_rmr.Records.Entries.{is_entry}
use ric_plt_lib_rmr.Records.Start.{is_start, HasOld}
use ric_plt_lib_rmr.Records.Update.{IsEndOf, Settled}
use ric_plt_lib_rmr.Records.Session.{AllEntries, parse_recs-Settled}
use ric_plt_lib_rmr.Records.Seed.{
  unlines, AllLines, text, IsClean, AllClean, seed_records, seed_records-lines,
}
use ric_plt_lib_rmr.Records.Collector.{
  Collector, table_data, AllText, rtc_parse_msg, rtc_parse_msg-records,
}
use ric_plt_lib_rmr.Send.Message.{SendState, Msg, put32, put_bytes}
use ric_plt_lib_rmr.Send.Clone.{payload_addr}
use ric_plt_lib_rmr.Receive.{at_len0, rmr_hdr_len}
use ric_plt_lib_rmr.Endpoint.{has_char}
use ric_plt_lib_rmr.Base.Int.{pos, negsuc}

-- "newrt|start|a"
abbrev first_rec : List ℕ
first_rec =
    b'n' ∷ b'e' ∷ b'w' ∷ b'r' ∷ b't' ∷ b'|' ∷ b's' ∷ b't' ∷ b'a' ∷ b'r' ∷ b't' ∷ b'|' ∷ b'a' ∷ []

-- "rte| 5 |b:1 # b"
abbrev entry_rec : List ℕ
entry_rec =
    b'r' ∷ b't' ∷ b'e' ∷ b'|' ∷ b' ' ∷ b'5' ∷ b' ' ∷ b'|' ∷ b'b' ∷ b':' ∷ b'1' ∷ b' ' ∷ b'#' ∷ b'b'
    ∷ []

-- "newrt|end|1"
abbrev end_rec : List ℕ
end_rec = b'n' ∷ b'e' ∷ b'w' ∷ b'r' ∷ b't' ∷ b'|' ∷ b'e' ∷ b'n' ∷ b'd' ∷ b'|' ∷ b'1' ∷ []

abbrev one_entry : List ℕ
one_entry = b'1' ∷ []

abbrev new_rtc : Rtc
new_rtc = record {
  shared = record { gate = no_gate; readers = [] };
  self = record { my_name = b'm' ∷ b':' ∷ b'2' ∷ []; ip_list = none };
  table_id = none;
  rtable_ready = false;
  full_rt = false;
  pctx = none;
  acks = [];
}

abbrev all_sent : Ack → Bool
all_sent _ = true

abbrev nobody : ℕ → List Use
nobody _ = []

abbrev begun : Shared
begun = record { gate = prep_finish (prep_take no_gate).1 none false; readers = [] }

clipped : clip (b' ' ∷ b'5' ∷ b' ' ∷ b'#' ∷ b'x' ∷ []) ≡ b'5' ∷ []
unfolding clip skip_spaces trim_end trim_tail cut
clipped = refl

parse_recs-Settled_example :
    (p : ℕ) × (m' : Rtc) × (begun.gate.new_rtable ≡ some p)
    × (parse_recs all_sent nobody 0 new_rtc (first_rec ∷ ((entry_rec ∷ []) ++ (end_rec ∷ [])))
        ≡ parsed m')
    × Settled m' (counts_as (length (entry_rec ∷ [])) (atoi one_entry)) p none
unfolding HasOld prep_new_rt drain drop_pending in_use prep_take is_start str_eq AllEntries is_entry
    IsEndOf clip skip_spaces trim_end trim_tail cut uta_tokenise
parse_recs-Settled_example =
    parse_recs-Settled all_sent nobody 0 new_rtc begun first_rec (entry_rec ∷ []) end_rec one_entry
      (λ p e. cc) refl refl (refl, tt) (refl, refl, refl)

-- a first line with a carriage return
abbrev first_line : List (List ℕ × Bool)
first_line = (first_rec, true) ∷ []

first_line-AllClean : AllClean first_line
unfolding AllClean has_char
first_line-AllClean = ((refl, refl), tt)

end_rec-IsClean : IsClean end_rec
unfolding has_char
end_rec-IsClean = (refl, refl)

seed_records-lines_example :
    (seed_records (some (text first_line ++ end_rec)) ≡ first_rec ∷ end_rec ∷ [])
    × (seed_records (some ((text first_line ++ end_rec) ++ (b'\n' ∷ [])))
        ≡ first_rec ∷ end_rec ∷ [])
seed_records-lines_example =
    seed_records-lines first_line b'n'
      (b'e' ∷ b'w' ∷ b'r' ∷ b't' ∷ b'|' ∷ b'e' ∷ b'n' ∷ b'd' ∷ b'|' ∷ b'1' ∷ []) first_line-AllClean
      end_rec-IsClean

-- what the start record leaves
abbrev after_start : Rtc
after_start =
    write_new (record new_rtc { shared = begun; table_id = some (b'a' ∷ []) }) 0
      (begun.gate.store, zero_updates (table_at begun.gate 0))

starts : parse_rt_rec all_sent [] new_rtc first_rec ≡ parsed after_start
unfolding parse_rt_rec of_tokens of_kind by_kind newrt_rec start_table prep_new_rt drain
    drop_pending in_use prep_take prep_finish str_eq clip skip_spaces trim_end trim_tail cut
    uta_tokenise
starts = refl

parse_rt_rec-Active_example :
    ((gate_of after_start).rtable ≡ (gate_of new_rtc).rtable)
    ⊎ (IsComplete new_rtc (fields_of first_rec) × ((gate_of after_start).rtable ≡ new_of new_rtc))
parse_rt_rec-Active_example = parse_rt_rec-Active all_sent [] new_rtc first_rec after_start starts

parse_rt_rec-Reaches_example : Reaches (state_of new_rtc) (state_of after_start)
parse_rt_rec-Reaches_example = parse_rt_rec-Reaches all_sent [] new_rtc first_rec after_start starts

abbrev update : List (List ℕ)
update = first_rec ∷ entry_rec ∷ end_rec ∷ []

-- the update behind a header of 280 bytes
abbrev from_manager : Msg
from_manager = record {
  state = SendState.rmr_ok;
  mtype = pos table_data;
  sub_id = negsuc 0;
  len = pos 41;
  tp_buf = put_bytes (put32 (replicate 400 0) at_len0 280) 330 (unlines update);
  alloc_len = 400;
  rts_fd = pos 7;
  noalloc = false;
  addsrc = true;
}

abbrev collector : Collector
collector = record { rtc = new_rtc; pbuf_size = 0; have_update = false }

update-AllText : AllText update
unfolding AllText has_char
update-AllText = (refl, (refl, (refl, tt)))

update-AllLines : AllLines update
unfolding AllLines has_char
update-AllLines = (refl, (refl, (refl, tt)))

rtc_parse_msg-records_example :
    ((rtc_parse_msg all_sent nobody collector from_manager).result
      ≡ parse_recs all_sent nobody 0 new_rtc update)
    × (41 < (rtc_parse_msg all_sent nobody collector from_manager).pbuf_size)
unfolding unlines payload_addr put32 rmr_hdr_len put_bytes
rtc_parse_msg-records_example =
    rtc_parse_msg-records all_sent nobody collector from_manager 41 update refl refl (omega arith)
      refl update-AllText update-AllLines
