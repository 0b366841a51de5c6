-- ===== src/Caller/Call.antt =====
-- rmr_si.c: `mt_call`, rmr_call and rmr_mt_call.
use ric_plt_lib_rmr.Base.{
  ℕ, ◌+◌, ◌-◌, ◌*◌, ◌/◌, ◌%◌, ◌^◌, Bool, true, false, ◌||◌, Option, none, some, List, [], ◌∷◌, ltb,
  if◌then◌else◌, str_eq, get_or, set,
}
use ric_plt_lib_rmr.Base.Int.{ℤ, pos, negsuc}
use ric_plt_lib_rmr.Receive.{Chute, Ctx, set_chute, at_flags, data1_addr}
use ric_plt_lib_rmr.Gate.{Gate}
use ric_plt_lib_rmr.Mbuf.{rmr_get_xact}
use ric_plt_lib_rmr.Send.Wire.{System}
use ric_plt_lib_rmr.Send.Message.{rmr_ok, rmr_err_badarg, Msg, Origin, send_msg}
use ric_plt_lib_rmr.Send.Clone.{raw_of}
use ric_plt_lib_rmr.Fanout.{Trip, is_ok, mtosend_msg}
use ric_plt_lib_rmr.Caller.{
  Wake, woken, expired, Answer, chute_at, unpost, Got, nothing, given_back, taken, mbuf_at,
  received_msg,
}

abbrev pub clear_mbuf : Chute → Chute
clear_mbuf c = record c { mbuf = none }

-- the transaction id of a received message
abbrev pub xaction_at : Ctx → ℕ → List ℕ
xaction_at ctx p = rmr_get_xact (mbuf_at ctx p).tp_buf.bytes

-- The message as it is sent: HFL_CALL_MSG in the flags, the call id, and MFL_NOALLOC.
unfoldable pub as_call : Msg → ℕ → Msg
as_call m call_id =
    let b = get_or m.tp_buf at_flags 0 in
    let buf = set m.tp_buf at_flags (b + 4 * (1 - b / 4 % 2)) in
    record m { tp_buf = set buf (data1_addr (raw_of m)) (call_id % 2 ^ 8); noalloc = true }

-- a state that ends the wait well
abbrev pub was_woken : Wake → Bool
was_woken woken = true
was_woken _ = false

abbrev pub has_expired : Wake → Bool
has_expired expired = true
has_expired _ = false

-- The context after a wait; one that ended well takes a post.
abbrev pub after_wait : ℕ → Answer → Ctx → Ctx
after_wait id a ctx =
    if was_woken a.wake then set_chute (a.meanwhile ctx) id unpost else a.meanwhile ctx

-- The loop over the waits in a chute, and whether the last wait ended well; `none` while it waits
-- still. A message with another transaction id is dropped, and the loop goes on. Other threads act
-- before its next test.
unfoldable pub wait_reply : ℕ → List ℕ → List Answer → Ctx → Bool → Option (Bool × Ctx)
wait_reply id expect [] ctx ok = elim (chute_at ctx id).mbuf [
  | none ↦ none
  | some _ ↦ some (ok, ctx)
]
wait_reply id expect (a ∷ as') ctx ok =
    let ctx' = after_wait id a ctx in
    elim (chute_at ctx id).mbuf [
      | some _ ↦ some (ok, ctx)
      | none ↦ elim (chute_at ctx' id).mbuf [
        | none ↦
            let rest = wait_reply id expect as' (a.afterwards ctx') (was_woken a.wake) in
            if has_expired a.wake then some (false, a.afterwards ctx') else rest
        | some p ↦
            let rest = wait_reply id expect as' (a.afterwards ctx') (was_woken a.wake) in
            let dropped = a.afterwards (set_chute ctx' id clear_mbuf) in
            let again = wait_reply id expect as' dropped (was_woken a.wake) in
            if str_eq expect (xaction_at ctx' p)
            then (if has_expired a.wake then some (false, a.afterwards ctx') else rest)
            else again
      ]
    ]

-- What is returned after the loop. If the last wait did not end well, a message stays in the chute.
unfoldable pub reply_of : ℕ → Option (Bool × Ctx) → Option (Got × Ctx)
reply_of id none = none
reply_of id (some (false, ctx)) = some (nothing, ctx)
reply_of id (some (true, ctx)) = elim (chute_at ctx id).mbuf [
  | none ↦ some (nothing, ctx)
  | some p ↦ some (
    taken p (record (received_msg (mbuf_at ctx p)) { state = rmr_ok }),
    set_chute ctx id clear_mbuf,
  )
]

-- The wait after the send, unless the send gave the message back with an error. `during` is what
-- other threads did to the context until the wait starts.
unfoldable pub after_send :
    ℕ → List ℕ → List Answer → (Ctx → Ctx) → Ctx → Option Msg → Option (Got × Ctx)
unfolding reply_of
after_send id expect answers during ctx none =
    reply_of id (wait_reply id expect answers (during ctx) true)
after_send id expect answers during ctx (some m) =
    if is_ok m.state
    then reply_of id (wait_reply id expect answers (during ctx) true)
    else some (given_back m, during ctx)

-- A call's result: what the caller gets, the context of receiving, and that of sending.
pub record Called : Type 0 where
  pub got : Got
  pub ctx : Ctx
  pub gate : Gate

unfoldable pub called : Gate → Option (Got × Ctx) → Option Called
called g none = none
called g (some (got, ctx)) = some (record { got = got; ctx = ctx; gate = g })

module _ (connect : List ℕ → ℤ) (origin : Origin) (garbage : ℕ → List ℕ) (os : ℕ → ℕ → System)
    (send_retries : ℕ) (answers : List Answer) (during : Ctx → Ctx) where
  -- with what `mtosend_msg` gave
  unfoldable pub after_routed : Ctx → Msg → ℕ → Option Trip → Option Called
  unfolding called
  after_routed ctx m id none = none
  after_routed ctx m id (some t) =
      called t.gate (after_send id (rmr_get_xact m.tp_buf) answers during ctx t.msg)

  -- with what `send_msg` gave
  unfoldable pub after_direct : Ctx → Gate → Msg → ℕ → Option (Option Msg × List ℕ) → Option Called
  unfolding called
  after_direct ctx g m id none = none
  after_direct ctx g m id (some (r, w)) =
      called g (after_send id (rmr_get_xact m.tp_buf) answers during ctx r)

  -- By the route table, without retries, or to an endpoint. A message that is left in the chute is
  -- dropped first. Nothing is waited for if the message comes
  -- back.
  unfoldable pub mt_call : Ctx → Gate → Msg → ℕ → Option ℕ → Option Called
  unfolding after_routed after_direct
  mt_call ctx g m id none =
      after_routed (set_chute ctx id clear_mbuf) m id
        (mtosend_msg connect origin garbage os send_retries g (as_call m id) (pos 0))
  mt_call ctx g m id (some p) =
      after_direct (set_chute ctx id clear_mbuf) g m id
        (send_msg origin garbage (os 0) (as_call m id) (negsuc 0))

  unfoldable pub rmr_call : Ctx → Gate → Msg → Option Called
  rmr_call ctx g m = mt_call ctx g m 1 none

  -- The ids 0 and 1 are reserved, and 255 is the largest.
  bad_id : ℤ → Bool
  bad_id (negsuc n) = true
  bad_id (pos n) = ltb 255 n || ltb n 2

  id_of : ℤ → ℕ
  id_of (pos n) = n
  id_of (negsuc n) = 0

  unfoldable pub rmr_mt_call : Ctx → Gate → Msg → ℤ → Option Called
  unfolding bad_id id_of
  rmr_mt_call ctx g m call_id =
      if bad_id call_id
      then some
          (record { got = given_back (record m { state = rmr_err_badarg }); ctx = ctx; gate = g })
      else mt_call ctx g m (id_of call_id) none
