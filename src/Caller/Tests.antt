-- ===== src/Caller/Tests.antt =====
-- rmr_si.c, mt_call_static.c: the theorems at a call with the id 2.
use ric_plt_lib_rmr.Base.{
  ℕ, ◌+◌, ◌*◌, ◌≤◌, ◌<◌, ◌≡◌, refl, true, false, none, some, List, [], ◌∷◌, arith, replicate,
  str_eq,
}
use ric_plt_lib_rmr.Base.Int.{ℤ, pos, negsuc}
use ric_plt_lib_rmr.Symtab.Valid.{empty}
use ric_plt_lib_rmr.Ring.Queue
use ric_plt_lib_rmr.Ring.Valid.{contents}
use ric_plt_lib_rmr.Ring.Tests.{counter, counter-IsSemaphore, wrapped, wrapped-Good}
use ric_plt_lib_rmr.Receive.{Mbuf, MsgState, Chute, Ctx, no_chute, set_chute, at_len0, queue_normal}
use ric_plt_lib_rmr.Gate.{Gate}
use ric_plt_lib_rmr.Mbuf.{rmr_get_xact}
use ric_plt_lib_rmr.Send.Wire.{writable, wrote, System}
use ric_plt_lib_rmr.Send.Message.{SendState, rmr_ok, Msg, Origin, put32}
use ric_plt_lib_rmr.Caller.{woken, expired, Answer, unpost, taken, received_msg, await, rmr_mt_rcv}
use ric_plt_lib_rmr.Caller.Call.{clear_mbuf, xaction_at, Called}
use ric_plt_lib_rmr.Caller.Deadline.{Timespec, deadline, nanoseconds, deadline_bounds}
use ric_plt_lib_rmr.Caller.Oldest.{taken_or, rmr_mt_rcv-oldest}
use ric_plt_lib_rmr.Caller.Matched.{Receivers}
use ric_plt_lib_rmr.Receive.{queue_normal}

abbrev origin : Origin
origin = record {
  my_name = b'm' ∷ b':' ∷ b'1' ∷ [];
  my_ip = b'1' ∷ b':' ∷ b'1' ∷ [];
  trace_data_len = 0;
  d1_len = 4;
  d2_len = 0;
  max_plen = 64;
}

abbrev msg : Msg
msg = record {
  state = SendState.rmr_ok;
  mtype = pos 12;
  sub_id = negsuc 0;
  len = pos 5;
  tp_buf = put32 (put32 (replicate 340 0) at_len0 280) (at_len0 + 8) 4;
  alloc_len = 340;
  rts_fd = negsuc 0;
  noalloc = false;
  addsrc = false;
}

abbrev zeros : ℕ → List ℕ
zeros n = replicate n 0

abbrev all_taken : ℕ → ℕ → System
all_taken group try = record { session = true; poll = writable; writes = λ i. wrote 1000 }

abbrev no_tables : Gate
no_tables = record {
  rtable = none;
  new_rtable = none;
  old_rtable = none;
  tables = [];
  store = record { rtes = []; links = record { eps = []; fd2ep = empty 11 }; ephash = empty 11 };
}

-- a received answer without a transaction id
abbrev answered : Mbuf
answered = record {
  state = MsgState.rmr_ok;
  mtype = pos 13;
  sub_id = negsuc 0;
  len = pos 0;
  tp_buf = record { bytes = replicate 340 0; nbytes = 340 };
  alloc_len = 340;
  rts_fd = 7;
  huge = false;
  zerocopy = false;
}

abbrev ctx : Ctx
ctx = record {
  mbufs = replicate 10 answered;
  mring = wrapped;
  chutes = record no_chute { barrier = 1 } ∷ no_chute ∷ no_chute ∷ [];
  dcount = 0;
  acc_dcount = 0;
  acc_ecount = 1;
  last_warning = 0;
  max_ibm = 4096;
  rivers = [];
  nrivers = 0;
  river_hash = empty 129;
}

-- the answer comes into chute 2
abbrev answers : Ctx → Ctx
answers c = set_chute c 2 (λ h. record h { mbuf = some 0; barrier = h.barrier + 1 })

abbrev quiet : Ctx → Ctx
quiet c = c

abbrev refuses : List ℕ → ℤ
refuses name = negsuc 0

abbrev wakes : List Answer
wakes = record { wake = woken; meanwhile = answers; afterwards = quiet } ∷ []

abbrev reply : Msg
reply = record (received_msg answered) { state = rmr_ok }

-- the answer was taken, and the post
abbrev done : Called
done = record {
  got = taken 0 reply;
  ctx = set_chute (set_chute (answers (set_chute ctx 2 clear_mbuf)) 2 unpost) 2 clear_mbuf;
  gate = no_tables;
}

abbrev too_late : Answer
too_late = record { wake = expired; meanwhile = answers; afterwards = quiet }

same_xaction : str_eq (rmr_get_xact msg.tp_buf) (xaction_at (answers ctx) 0) ≡ true
unfolding rmr_get_xact put32 ric_plt_lib_rmr.Mbuf.c_string str_eq
same_xaction = refl

abbrev now : Timespec
now = record { tv_sec = 5; tv_nsec = 999000000 }

deadline_bounds_example :
    ((deadline now 1500).tv_nsec < 1000000000)
    × (nanoseconds now + 1500 * 1000000 ≤ nanoseconds (deadline now 1500))
    × (nanoseconds (deadline now 1500) ≤ nanoseconds now + 1500 * 1000000 + 1)
deadline_bounds_example = deadline_bounds now 1500 (omega arith)

abbrev posted : List Answer
posted = record { wake = woken; meanwhile = quiet; afterwards = quiet } ∷ []

rmr_mt_rcv-oldest_example :
    (c' : Ctx) × (rmr_mt_rcv counter true (λ r. r) posted ctx none (negsuc 0)
      ≡ some (taken_or (set_chute ctx 0 unpost) none (Queue.pop (contents wrapped)).0, c'))
    × (contents c'.mring ≡ (Queue.pop (contents wrapped)).1)
unfolding await
rmr_mt_rcv-oldest_example =
    rmr_mt_rcv-oldest counter counter-IsSemaphore none posted ctx (set_chute ctx 0 unpost)
      (negsuc 0) refl refl wrapped-Good

abbrev started : Receivers
started = record { ctx = ctx; inserted = 0; woken = 0 }

abbrev one_woken : Receivers
one_woken = record { ctx = set_chute ctx 0 unpost; inserted = 0; woken = 1 }
