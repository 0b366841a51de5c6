-- ===== src/Caller.antt =====
-- src/rmr/si/src/rmr_si.c: rmr_mt_rcv, rmr_rcv_msg and rmr_torcv_msg, which take messages from the
-- receive ring, and `mt_call`, rmr_call and rmr_mt_call, which send a message and wait in a chute for
-- its answer; `init_mtcall` of src/rmr/common/src/mt_call_static.c. The context is not nil, and calls
-- are enabled. What a semaphore wait returns is a list of answers, each with what other threads did
-- to the context until then.
pub mod Deadline
pub mod Call
pub mod Chutes
pub mod Oldest
pub mod Matched
pub mod Posts
pub mod Replies
pub mod Return
mod Tests
use ric_plt_lib_rmr.Base.{
  ℕ, zero, suc, ◌+◌, ◌-◌, ◌*◌, ◌/◌, ◌%◌, Bool, true, false, Option, none, some, List, [], ◌∷◌, ltb,
  ◌==◌, if◌then◌else◌, str_eq, length, get_or, set, take, drop,
}
use ric_plt_lib_rmr.Base.Int.{ℤ, pos, negsuc}
use ric_plt_lib_rmr.Ring.{Pointer, Ring, Eventfd, uta_ring_extract}
use ric_plt_lib_rmr.River.{Raw}
use ric_plt_lib_rmr.Receive.{
  MsgState, Mbuf, alloc_mbuf, Chute, Ctx, no_chute, set_chute, at_flags, data1_addr,
}
use ric_plt_lib_rmr.Gate.{Gate}
use ric_plt_lib_rmr.Mbuf.{rmr_max_xid, at_xid, rmr_get_xact}
use ric_plt_lib_rmr.Send.Wire.{System}
use ric_plt_lib_rmr.Send.Message.{
  SendState, rmr_ok, rmr_err_timeout, rmr_err_badarg, Msg, Origin, send_msg,
}
use ric_plt_lib_rmr.Send.Clone.{raw_of}
use ric_plt_lib_rmr.Fanout.{Trip, is_ok, mtosend_msg}

-- What `sem_wait` or `sem_timedwait` returns: 0, -1 with EINTR, or -1 with ETIMEDOUT.
pub data Wake : Type 0 where
  woken interrupted expired : Wake

-- A wait's answer, what other threads did until then, and what they do before the next test of a loop.
pub record Answer : Type 0 where
  pub wake : Wake
  pub meanwhile : Ctx → Ctx
  pub afterwards : Ctx → Ctx

abbrev pub chute_at : Ctx → ℕ → Chute
chute_at ctx i = get_or ctx.chutes i no_chute

-- one post less; there is nothing to take from a count of 0
abbrev pub unpost : Chute → Chute
unpost c = record c { barrier = c.barrier - 1 }

-- The wait of a receiver, whether it ended well; `none` while it waits still. A wait ends well only
-- at a count above 0.
unfoldable pub await : List Answer → Ctx → Option (Bool × Ctx)
await [] ctx = none
await (a ∷ as') ctx = elim a.wake [
  | interrupted ↦ await as' (a.meanwhile ctx)
  | expired ↦ some (false, a.meanwhile ctx)
  | woken ↦
      if (chute_at (a.meanwhile ctx) 0).barrier == 0
      then none
      else some (true, set_chute (a.meanwhile ctx) 0 unpost)
]

-- What a caller gets: nothing, the message that it gave, or a received message, which has an index.
pub data Got : Type 0 where
  nothing : Got
  given_back : Msg → Got
  taken : ℕ → Msg → Got

state_of : MsgState → SendState
state_of MsgState.rmr_ok = rmr_ok
state_of MsgState.rmr_err_trunc = SendState.rmr_err_trunc
state_of MsgState.rmr_err_unset = SendState.rmr_err_unset

abbrev pub mbuf_at : Ctx → ℕ → Mbuf
mbuf_at ctx p = get_or ctx.mbufs p (alloc_mbuf (record { bytes = []; nbytes = 0 }) 0 false)

-- a received message as a user has it, with the flag MFL_ADDSRC
unfoldable pub received_msg : Mbuf → Msg
unfolding state_of
received_msg m = record {
  state = state_of m.state;
  mtype = m.mtype;
  sub_id = m.sub_id;
  len = m.len;
  tp_buf = m.tp_buf.bytes;
  alloc_len = m.alloc_len;
  rts_fd = pos m.rts_fd;
  noalloc = false;
  addsrc = true;
}

-- the message that was given, with the state RMR_ERR_TIMEOUT
abbrev pub timed_out : Option Msg → Got
timed_out none = nothing
timed_out (some m) = given_back (record m { state = rmr_err_timeout; len = pos 0 })

-- The same of a poll, which sets MFL_ADDSRC.
abbrev pub not_queued : Option Msg → Got
not_queued none = nothing
not_queued (some m) = given_back (record m { state = rmr_err_timeout; len = pos 0; addsrc = true })

abbrev pub with_ring : Ctx → Ring → Ctx
with_ring ctx r = record ctx { mring = r }

-- A poll, with what the ring gave. The state of a message is left alone; the count of the semaphore
-- goes down.
unfoldable pub polled : Ctx → Option Msg → Pointer × Ring → Got × Ctx
polled ctx old (none, ring) = (not_queued old, with_ring ctx ring)
polled ctx old (some p, ring) =
    (taken p (received_msg (mbuf_at ctx p)), set_chute (with_ring ctx ring) 0 unpost)

-- after a wait that ended well, with what the ring gave
unfoldable pub oldest_of : Ctx → Option Msg → Pointer × Ring → Got × Ctx
oldest_of ctx old (none, ring) = (timed_out old, with_ring ctx ring)
oldest_of ctx old (some p, ring) =
    (taken p (record (received_msg (mbuf_at ctx p)) { state = rmr_ok }), with_ring ctx ring)

abbrev pub is_poll : ℤ → Bool
is_poll (pos n) = n == 0
is_poll (negsuc n) = false

module _ (fd : Eventfd) (locked : Bool) (others : Ring → Ring) where
  unfoldable pub poll : Ctx → Option Msg → Got × Ctx
  unfolding polled
  poll ctx old = polled ctx old (uta_ring_extract fd locked others ctx.mring)

  unfoldable pub take_oldest : Ctx → Option Msg → Got × Ctx
  unfolding oldest_of
  take_oldest ctx old = oldest_of ctx old (uta_ring_extract fd locked others ctx.mring)

  unfoldable pub waited : Option Msg → Option (Bool × Ctx) → Option (Got × Ctx)
  waited old none = none
  waited old (some (false, ctx)) = some (timed_out old, ctx)
  waited old (some (true, ctx)) = some (take_oldest ctx old)

  unfoldable pub rmr_mt_rcv : List Answer → Ctx → Option Msg → ℤ → Option (Got × Ctx)
  unfolding waited
  rmr_mt_rcv answers ctx old max_wait =
      if is_poll max_wait then some (poll ctx old) else waited old (await answers ctx)

  unfoldable rmr_rcv_msg : List Answer → Ctx → Option Msg → Option (Got × Ctx)
  rmr_rcv_msg answers ctx old = rmr_mt_rcv answers ctx old (negsuc 0)

  unfoldable rmr_torcv_msg : List Answer → Ctx → Option Msg → ℤ → Option (Got × Ctx)
  rmr_torcv_msg answers ctx old ms_to = rmr_mt_rcv answers ctx old ms_to
