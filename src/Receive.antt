-- ===== src/Receive.antt =====
-- src/rmr/si/src/mt_call_si_static.c, with `ref_tpbuf` of sr_si_static.c: what the receive thread
-- does with a message that a river has completed, and with the loss of a connection. The header is
-- `uta_mhdr_t` of src/rmr/common/include/rmr_agnostic.h, read in place from the raw message.
pub mod Bounds
pub mod Deliver
pub mod Disconnect
mod Tests
use ric_plt_lib_rmr.Base.{
  ℕ, ◌+◌, ◌-◌, ◌/◌, ◌%◌, ◌^◌, Bool, true, false, not, Option, none, some, List, [], ◌∷◌, ◌++◌, ltb,
  ◌==◌, if◌then◌else◌, length, get_or, set,
}
use ric_plt_lib_rmr.Base.Int.{ℤ, pos, negsuc, signed32, ltb_ℤ}
use ric_plt_lib_rmr.Ring.{Ring, Eventfd, uta_ring_insert}
use ric_plt_lib_rmr.Endpoint.{Links, close_fd}
use ric_plt_lib_rmr.River.{
  River, new, Raw, Outcome, done, crashed, spinning, native32, net32, river_data,
}
use ric_plt_lib_rmr.Symtab.{SymTab, rmr_sym_pull, rmr_sym_map}

abbrev pub tp_hdr_len : ℕ
tp_hdr_len = 50

-- The offsets of header fields in the raw message, on a machine with 8-byte `long`.
abbrev pub at_mtype : ℕ
at_mtype = tp_hdr_len

abbrev pub at_plen : ℕ
at_plen = tp_hdr_len + 4

abbrev pub at_flags : ℕ
at_flags = tp_hdr_len + 192

abbrev pub at_len0 : ℕ
at_len0 = tp_hdr_len + 196

abbrev pub at_sub_id : ℕ
at_sub_id = tp_hdr_len + 212

-- RMR_HDR_LEN: the four lengths, added as `uint32_t`
unfoldable pub rmr_hdr_len : Raw → ℕ
rmr_hdr_len m =
    (net32 m.bytes at_len0
      + net32 m.bytes (at_len0 + 4)
      + net32 m.bytes (at_len0 + 8)
      + net32 m.bytes (at_len0 + 12))
    % 2 ^ 32

unfoldable pub payload_len : Raw → ℕ
payload_len m = net32 m.bytes at_plen % 2 ^ 32

unfoldable pub rmr_d1_len : Raw → ℕ
rmr_d1_len m = net32 m.bytes (at_len0 + 8)

-- DATA1_ADDR, as an offset in the raw message
unfoldable pub data1_addr : Raw → ℕ
data1_addr m = tp_hdr_len + (net32 m.bytes at_len0 + net32 m.bytes (at_len0 + 4)) % 2 ^ 32

-- the HFL_CALL_MSG bit of the flags, which are not in network order
unfoldable pub is_call_msg : Raw → Bool
is_call_msg m = native32 m.bytes at_flags / 4 % 2 == 1

pub data MsgState : Type 0 where
  rmr_ok rmr_err_trunc rmr_err_unset : MsgState

pub record Mbuf : Type 0 where
  pub state : MsgState
  pub mtype : ℤ
  pub sub_id : ℤ
  pub len : ℤ
  pub tp_buf : Raw
  pub alloc_len : ℕ
  pub rts_fd : ℕ
  pub huge : Bool
  pub zerocopy : Bool

-- `alloc_mbuf`, when it gets memory, with the raw message hung on it
abbrev pub alloc_mbuf : Raw → ℕ → Bool → Mbuf
alloc_mbuf raw fd huge = record {
  state = rmr_err_unset;
  mtype = negsuc 0;
  sub_id = negsuc 0;
  len = negsuc 0;
  tp_buf = raw;
  alloc_len = 0;
  rts_fd = fd;
  huge = huge;
  zerocopy = false;
}

-- The length that the sender gives is cut to what lies behind the header, should it be longer.
unfoldable pub ref_tpbuf : Mbuf → ℕ → Mbuf
ref_tpbuf m alen =
    let len = signed32 (payload_len m.tp_buf) in
    let room = signed32 ((alen + 2 ^ 32 - rmr_hdr_len m.tp_buf) % 2 ^ 32) in
    let truncated = ltb_ℤ room len in
    record m {
      len = if truncated then room else len;
      alloc_len = alen;
      zerocopy = true;
      mtype = signed32 (net32 m.tp_buf.bytes at_mtype % 2 ^ 32);
      sub_id = signed32 (net32 m.tp_buf.bytes at_sub_id % 2 ^ 32);
      state = if truncated then rmr_err_trunc else rmr_ok;
    }

-- `barrier` is the number of posts to the semaphore.
pub record Chute : Type 0 where
  pub mbuf : Option ℕ
  pub barrier : ℕ

-- The part of the context that receiving works on. Message buffers are in `mbufs`, and a pointer to
-- one is its index there; a river is named by its index in `rivers`, the first `nrivers` of which
-- are the array and the others allocated for descriptors beyond it. `last_warning` is the static variable of `queue_normal`.
pub record Ctx : Type 0 where
  pub mbufs : List Mbuf
  pub mring : Ring
  pub chutes : List Chute
  pub dcount : ℕ
  pub acc_dcount : ℕ
  pub acc_ecount : ℕ
  pub last_warning : ℕ
  pub max_ibm : ℕ
  pub rivers : List River
  pub nrivers : ℕ
  pub river_hash : SymTab ℕ

abbrev pub no_chute : Chute
no_chute = record { mbuf = none; barrier = 0 }

abbrev pub post : Chute → Chute
post c = record c { barrier = c.barrier + 1 }

abbrev pub set_chute : Ctx → ℕ → (Chute → Chute) → Ctx
set_chute ctx i f = record ctx { chutes = set ctx.chutes i (f (get_or ctx.chutes i no_chute)) }

-- the cross-check of the lengths, in `uint32_t`
unfoldable pub too_long : Raw → ℕ → Bool
too_long raw msg_size = ltb msg_size ((rmr_hdr_len raw + tp_hdr_len + payload_len raw) % 2 ^ 32)

unfoldable pub call_id : Raw → ℕ
call_id raw = get_or raw.bytes (data1_addr raw) 0

module _ (fd : Eventfd) where
  -- after the insertion: a full ring drops the message, and a warning starts the count anew
  unfoldable pub queued : ℕ → Ctx → Bool → Ring → Ctx
  queued now ctx true ring =
      set_chute (record ctx { mring = ring; acc_ecount = (ctx.acc_ecount + 1) % 2 ^ 64 }) 0 post
  queued now ctx false ring =
      let warn = ltb (ctx.last_warning + 60) now in
      record ctx {
        mring = ring;
        dcount = if warn then 0 else ctx.dcount + 1;
        acc_dcount = (ctx.acc_dcount + 1) % 2 ^ 64;
        last_warning = if warn then now else ctx.last_warning;
      }

  -- `now` is the time in seconds.
  unfoldable pub queue_normal : ℕ → Ctx → ℕ → Ctx
  unfolding queued
  queue_normal now ctx p =
      let (ok, ring) = uta_ring_insert fd true (λ r. r) ctx.mring (some p) in queued now ctx ok ring

  -- where a message goes: the ring, or the chute of its call id
  unfoldable pub dispatch : ℕ → Ctx → Raw → ℕ → Ctx
  unfolding call_id
  dispatch now ctx raw p =
      if is_call_msg raw
      then queue_normal now ctx p
      else if rmr_d1_len raw == 0
      then queue_normal now ctx p
      else if call_id raw == 0
      then queue_normal now ctx p
      else set_chute ctx (call_id raw) (λ c. post (record c { mbuf = some p }))

  -- `mem` says whether a message buffer could be got.
  unfoldable pub buf2mbuf : Bool → ℕ → Ctx → Raw → ℕ → Ctx
  buf2mbuf mem now ctx raw sender_fd =
      if too_long raw raw.nbytes
      then ctx
      else if not mem
      then ctx
      else (let huge = ltb (ctx.max_ibm + 1024) raw.nbytes in
          let m = ref_tpbuf (alloc_mbuf raw sender_fd huge) raw.nbytes in
          dispatch now (record ctx { mbufs = ctx.mbufs ++ (m ∷ []) }) raw (length ctx.mbufs))

  -- the messages of one transport buffer, in order
  unfoldable pub all2mbuf : Bool → ℕ → Ctx → List Raw → ℕ → Ctx
  all2mbuf mem now ctx [] sender_fd = ctx
  all2mbuf mem now ctx (raw ∷ raws) sender_fd =
      all2mbuf mem now (buf2mbuf mem now ctx raw sender_fd) raws sender_fd

-- a river as `memset` and the assignment of its state leave it
abbrev pub new_river : River
new_river = record { state = new; accum = []; nbytes = 0; ipt = 0; msg_size = pos 0 }

-- The river of a descriptor; one that is beyond the array and not in the hash is made.
unfoldable pub find_river : Ctx → ℕ → ℕ × Ctx
find_river ctx fd =
    let (found, hash) = rmr_sym_pull ctx.river_hash fd in
    let i = length ctx.rivers in
    if ltb fd ctx.nrivers then (fd, ctx) else elim found [
      | some j ↦ (j, record ctx { river_hash = hash })
      | none ↦ (
        i,
        record ctx {
          rivers = ctx.rivers ++ (new_river ∷ []);
          river_hash = (rmr_sym_map true hash fd i).1;
        },
      )
    ]

-- The callback returns SI_RET_OK, or writes outside of a buffer, or does not return.
pub data Called : Type 0 where
  returned : Ctx → Called
  fault : Called
  hangs : Called

module _ (fd : Eventfd) (mem : Bool) (now : ℕ) where
  received : Ctx → ℕ → ℕ → Outcome → Called
  received ctx i sock (done raws r) =
      returned (all2mbuf fd mem now (record ctx { rivers = set ctx.rivers i r }) raws sock)
  received ctx i sock (crashed raws) = fault
  received ctx i sock spinning = hangs

  unfoldable pub mt_data_cb : Ctx → ℤ → List ℕ → Called
  unfolding received
  mt_data_cb ctx (negsuc n) buf = returned ctx
  mt_data_cb ctx (pos sock) [] = returned ctx
  mt_data_cb ctx (pos sock) (b ∷ bs) =
      let (i, ctx') = find_river ctx sock in
      received ctx' i sock (river_data ctx.max_ibm (get_or ctx'.rivers i new_river) (b ∷ bs))

-- The river's buffer is freed, and it starts anew should the descriptor be used again.
abbrev pub renew : River → River
renew r = record r { state = new; accum = [] }

unfoldable pub reset_river : Ctx → ℤ → Ctx
reset_river ctx (negsuc n) = ctx
reset_river ctx (pos sock) =
    let (found, hash) = rmr_sym_pull ctx.river_hash sock in
    if ltb sock ctx.nrivers
    then record ctx { rivers = set ctx.rivers sock (renew (get_or ctx.rivers sock new_river)) }
    else if sock == 0
    then ctx
    else elim found [
      | none ↦ record ctx { river_hash = hash }
      | some i ↦ record ctx {
        river_hash = hash;
        rivers = set ctx.rivers i (renew (get_or ctx.rivers i new_river));
      }
    ]

-- `mt_disc_cb` on the context, and on the endpoints by way of `fd2ep_del`
unfoldable pub mt_disc_cb : Ctx → Links → ℤ → Ctx × Links
mt_disc_cb ctx links sock = (reset_river ctx sock, close_fd links sock)
