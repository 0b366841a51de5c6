-- ===== src/Wormhole/Send.antt =====
-- wormholes.c: rmr_wh_send_msg and rmr_wh_call, with `send2ep` of src/rmr/si/src/sr_si_static.c. The
-- message is not nil and has a header.
use ric_plt_lib_rmr.Base.{
  ℕ, ◌≡◌, inl, inr, refl, ap, ◌∙◌, Option, none, some, List, if◌then◌else◌, set, Bool-cases,
}
use ric_plt_lib_rmr.Base.Int.{ℤ, negsuc}
use ric_plt_lib_rmr.Endpoint.{ep_at}
use ric_plt_lib_rmr.Receive.{Ctx, data1_addr}
use ric_plt_lib_rmr.Gate.{Gate}
use ric_plt_lib_rmr.Send.Wire.{System}
use ric_plt_lib_rmr.Send.Message.{SendState, Msg, Origin, send_msg}
use ric_plt_lib_rmr.Send.Clone.{raw_of}
use ric_plt_lib_rmr.Send.Outcome.{Settled, send_msg-Settled}
use ric_plt_lib_rmr.Caller.{Answer, given_back}
use ric_plt_lib_rmr.Caller.Call.{Called, mt_call}
use ric_plt_lib_rmr.Wormhole.{WhCtx, WhState, rmr_ok, wh_endpoint, rmr_wh_open}
use ric_plt_lib_rmr.Wormhole.Open.{open-keeps}

-- the state of a message whose wormhole is refused
abbrev pub refusal : WhState → SendState
refusal WhState.rmr_err_nowhopen = SendState.rmr_err_nowhopen
refusal _ = SendState.rmr_err_whid

-- the message without a call id
unfoldable pub without_call : Msg → Msg
without_call m = record m {
  state = SendState.rmr_ok;
  tp_buf = set m.tp_buf (data1_addr (raw_of m)) 0;
}

-- what the caller gets, and what went out to which descriptor
pub record Sent : Type 0 where
  pub msg : Option Msg
  pub ctx : WhCtx
  pub wire : Option (ℤ × List ℕ)

-- with what `send2ep` gave
abbrev pub sent_to : WhCtx → ℤ → Option (Option Msg × List ℕ) → Option Sent
sent_to c fd none = none
sent_to c fd (some (r, w)) = some (record { msg = r; ctx = c; wire = some (fd, w) })

module _ (connect : List ℕ → ℤ) where
  -- A connection that was lost is made again, if it can be.
  unfoldable pub reopened : WhCtx → ℕ → WhCtx
  reopened c p =
      let ep = ep_at c.store.links p in if ep.open_now then c else (rmr_wh_open connect c ep.name).1

  module _ (origin : Origin) (garbage : ℕ → List ℕ) (os : ℕ → System) where
    unfoldable pub wh_send : WhCtx → Msg → WhState × Option ℕ → Option Sent
    wh_send c m (rc, none) =
        some (record { msg = some (record m { state = refusal rc }); ctx = c; wire = none })
    wh_send c m (rc, some p) =
        let c' = reopened c p in
        sent_to c' (ep_at c'.store.links p).nn_sock
          (send_msg origin garbage os (without_call m) (negsuc 0))

    unfoldable pub rmr_wh_send_msg : WhCtx → ℤ → Msg → Option Sent
    rmr_wh_send_msg c whid m = wh_send c m (wh_endpoint c whid)

  -- the store of the context, in which a wormhole was opened, belongs to the senders too
  abbrev pub seen_by : Gate → WhCtx → Gate
  seen_by g c = record g { store = c.store }

  module _ (origin : Origin) (garbage : ℕ → List ℕ) (os : ℕ → ℕ → System) (send_retries : ℕ)
      (answers : List Answer) (during : Ctx → Ctx) where
    unfoldable pub wh_call : Ctx → Gate → WhCtx → Msg → ℕ → WhState × Option ℕ → Option Called
    wh_call ctx g c m id (rc, none) =
        some (record { got = given_back (record m { state = refusal rc }); ctx = ctx; gate = g })
    wh_call ctx g c m id (rc, some p) =
        mt_call connect origin garbage os send_retries answers during ctx (seen_by g (reopened c p))
          (record m { state = SendState.rmr_ok }) id (some p)

    -- Any call id is taken; one without a chute is left out here.
    unfoldable rmr_wh_call : Ctx → Gate → WhCtx → ℤ → Msg → ℕ → Option Called
    rmr_wh_call ctx g c whid m id = wh_call ctx g c m id (wh_endpoint c whid)

  reopened-keeps :
      (c : WhCtx) (p : ℕ) (whid : ℤ) (q : ℕ)
      → wh_endpoint c whid ≡ (rmr_ok, some q)
      → wh_endpoint (reopened c p) whid ≡ (rmr_ok, some q)
  unfolding reopened
  reopened-keeps c p whid q e =
      let ep = ep_at c.store.links p in
      elim (Bool-cases ep.open_now) [
        | inl y ↦ rw y e
        | inr n ↦ rw n (open-keeps connect c ep.name whid q e)
      ]

-- A send to a wormhole that is in use always returns; the message goes to the descriptor of the
-- endpoint behind the wormhole, once and whole, or it comes back, to be sent again or as failed. The
-- wormhole still has this endpoint afterwards.
pub wh_send_msg-Direct :
    (connect : List ℕ → ℤ) (origin : Origin) (garbage : ℕ → List ℕ) (os : ℕ → System) (c : WhCtx)
    (whid : ℤ) (m : Msg) (p : ℕ)
    → wh_endpoint c whid ≡ (rmr_ok, some p)
    → (r : Sent) × (rmr_wh_send_msg connect origin garbage os c whid m ≡ some r)
      × (w : List ℕ) × (wh_endpoint r.ctx whid ≡ (rmr_ok, some p))
      × (r.wire ≡ some ((ep_at r.ctx.store.links p).nn_sock, w))
      × Settled origin garbage (without_call m) r.msg w
unfolding rmr_wh_send_msg wh_send
wh_send_msg-Direct connect origin garbage os c whid m p e =
    let c' = reopened connect c p in
    let fd = (ep_at c'.store.links p).nn_sock in
    let (r, w, f, st) = send_msg-Settled origin garbage os (without_call m) (negsuc 0) in
    (
      record { msg = r; ctx = c'; wire = some (fd, w) },
      ap (wh_send connect origin garbage os c m) e ∙ ap (sent_to c' fd) f,
      w,
      reopened-keeps connect c p whid p e,
      refl,
      st,
    )
