-- ===== src/Mbuf/Alloc.antt =====
-- rmr_si.c: new messages for a user, and one with another trace area. The context is not nil.
use ric_plt_lib_rmr.Base.{ℕ, none, List, ◌==◌, if◌then◌else◌}
use ric_plt_lib_rmr.Base.Int.{ℤ, pos, negsuc}
use ric_plt_lib_rmr.Send.Message.{SendState, rmr_ok, Msg, Origin, alloc_zcmsg}
use ric_plt_lib_rmr.Send.Realloc.{realloc_msg}
use ric_plt_lib_rmr.Mbuf.Trace.{rmr_set_trace}

-- DEF_TR_LEN, for the trace length of the context
abbrev pub def_tr_len : ℤ
def_tr_len = negsuc 0

unfoldable rmr_alloc_msg : Origin → (ℕ → List ℕ) → ℕ → Msg
rmr_alloc_msg ctx garbage size = alloc_zcmsg ctx garbage none size rmr_ok def_tr_len

-- the new message, unless its trace data was not set
abbrev pub initialised : ℕ → Msg × ℕ → Msg
initialised tr_size (m, n) =
    if n == tr_size then m else record m { state = SendState.rmr_err_initfailed }

-- A message with trace data, whose size is not negative.
unfoldable rmr_tralloc_msg : Origin → (ℕ → List ℕ) → ℕ → ℕ → List ℕ → Msg
rmr_tralloc_msg ctx garbage size tr_size trace =
    initialised tr_size
      (rmr_set_trace garbage (alloc_zcmsg ctx garbage none size rmr_ok (pos tr_size)) trace tr_size)

unfoldable rmr_realloc_msg : (ℕ → List ℕ) → Msg → ℕ → Msg
rmr_realloc_msg garbage m new_tr_size = realloc_msg garbage m new_tr_size
