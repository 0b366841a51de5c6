-- ===== src/Send/Message.antt =====
-- sr_si_static.c: the message buffer as the send path uses it, `alloc_zcmsg` and `send_msg`. Memory is
-- available. Pools of buffers (`zcb_mring`) are empty: buffers that are freed are not kept.
use ric_plt_lib_rmr.Base.{
  ℕ, ◌+◌, ◌-◌, ◌%◌, ◌^◌, Bool, true, false, Option, none, some, List, [], ◌∷◌, ◌++◌, ltb, leb,
  if◌then◌else◌, set, take, replicate,
}
use ric_plt_lib_rmr.Base.Int.{ℤ, pos, negsuc, signed32, ltb_ℤ}
use ric_plt_lib_rmr.River.{net32}
use ric_plt_lib_rmr.River.Length.{byte, insert_mlen}
use ric_plt_lib_rmr.Receive.{tp_hdr_len, at_mtype, at_plen, at_len0, at_sub_id, rmr_hdr_len}
use ric_plt_lib_rmr.Route.{pattern32}
use ric_plt_lib_rmr.Tools.{zt_buf_fill}
use ric_plt_lib_rmr.Send.Wire.{Errno, eagain, System}
use ric_plt_lib_rmr.Send.Loop.{Looped, start_budget, most, send_loop}

-- sizeof( uta_mhdr_t ), and the offsets of the other fields that are written here
abbrev pub sizeof_mhdr : ℕ
sizeof_mhdr = 280

abbrev pub at_rmr_ver : ℕ
at_rmr_ver = tp_hdr_len + 8

abbrev pub at_src : ℕ
at_src = tp_hdr_len + 76

abbrev pub at_srcip : ℕ
at_srcip = tp_hdr_len + 216

abbrev pub rmr_max_src : ℕ
rmr_max_src = 64

-- the states that sending reports
pub data SendState : Type 0 where
  rmr_ok rmr_err_retry rmr_err_sendfailed rmr_err_noendpt : SendState
  rmr_err_badarg rmr_err_timeout rmr_err_initfailed rmr_err_trunc rmr_err_unset rmr_err_nowhopen
        rmr_err_whid :
      SendState

-- `noalloc` and `addsrc` are the flags MFL_NOALLOC and MFL_ADDSRC; `rts_fd` is -1 if there is none.
pub record Msg : Type 0 where
  pub state : SendState
  pub mtype : ℤ
  pub sub_id : ℤ
  pub len : ℤ
  pub tp_buf : List ℕ
  pub alloc_len : ℕ
  pub rts_fd : ℤ
  pub noalloc : Bool
  pub addsrc : Bool

-- the members of the context that messages are made with
pub record Origin : Type 0 where
  pub my_name : List ℕ
  pub my_ip : List ℕ
  pub trace_data_len : ℕ
  pub d1_len : ℕ
  pub d2_len : ℕ
  pub max_plen : ℕ

-- a number that is stored in network order
unfoldable pub put32 : List ℕ → ℕ → ℕ → List ℕ
put32 buf i v =
    set (set (set (set buf i (byte v 3)) (i + 1) (byte v 2)) (i + 2) (byte v 1)) (i + 3) (byte v 0)

-- bytes that are copied over others
unfoldable pub put_bytes : List ℕ → ℕ → List ℕ → List ℕ
put_bytes buf i [] = buf
put_bytes buf i (b ∷ bs) = put_bytes (set buf i b) (i + 1) bs

-- `zt_buf_fill` into a field of `rmr_max_src` bytes
unfoldable pub fill_src : List ℕ → ℕ → List ℕ → List ℕ
fill_src buf i name = put_bytes buf i ((zt_buf_fill name rmr_max_src).1 ++ (0 ∷ []))

-- RMR_TR_LEN as an `int`
abbrev pub tr_len_of : Msg → ℤ
tr_len_of m = signed32 (net32 m.tp_buf (at_len0 + 4) % 2 ^ 32)

-- The buffer of a new message: the size, a header of zeros but for the version, the subscription id,
-- the lengths and the source. `old` is what the memory held.
unfoldable pub new_header : Origin → ℕ → List ℕ → List ℕ
new_header ctx mlen old =
    let b0 = put_bytes (insert_mlen mlen old) tp_hdr_len (replicate sizeof_mhdr 0) in
    let b1 = put32 (put32 b0 at_rmr_ver 3) at_sub_id (2 ^ 32 - 1) in
    let b2 = put32 (put32 b1 at_len0 sizeof_mhdr) (at_len0 + 4) ctx.trace_data_len in
    let b3 = put32 b2 (at_len0 + 8) ctx.d1_len in
    fill_src (fill_src b3 at_src ctx.my_name) at_srcip ctx.my_ip

-- the trace length that is asked for, or else that of the context
abbrev pub trace_len : Origin → ℤ → ℕ
trace_len ctx (pos n) = if leb n 0 then ctx.trace_data_len else n
trace_len ctx (negsuc n) = ctx.trace_data_len

-- the size of the buffer that is asked for
abbrev pub wanted_len : Origin → ℕ → ℤ → ℕ
wanted_len ctx size trlo =
    sizeof_mhdr
    + trace_len ctx trlo
    + ctx.d1_len
    + ctx.d2_len
    + (if leb size 0 then ctx.max_plen else size)
    + tp_hdr_len

-- a buffer of that size at least, with its size; one that is large enough is used again
abbrev pub room_for : (ℕ → List ℕ) → ℕ → Option Msg → ℕ × List ℕ
room_for garbage want none = (want, garbage want)
room_for garbage want (some m) =
    if ltb m.alloc_len want then (want, garbage want) else (m.alloc_len, m.tp_buf)

-- `garbage` is what newly allocated memory holds.
unfoldable pub alloc_zcmsg : Origin → (ℕ → List ℕ) → Option Msg → ℕ → SendState → ℤ → Msg
alloc_zcmsg ctx garbage msg size state trlo =
    let (mlen, old) = room_for garbage (wanted_len ctx size trlo) msg in
    record {
      state = state;
      mtype = negsuc 0;
      sub_id = negsuc 0;
      len = pos 0;
      tp_buf = new_header ctx mlen old;
      alloc_len = mlen;
      rts_fd = negsuc 0;
      noalloc = false;
      addsrc = false;
    }

-- the type, the length and the subscription id of a message, put into its header
abbrev pub stamped : Msg → List ℕ
stamped m =
    put32 (put32 (put32 m.tp_buf at_mtype (pattern32 m.mtype)) at_sub_id (pattern32 m.sub_id))
      at_plen (pattern32 m.len)

-- a message that was received gets our source
abbrev pub with_source : Origin → Bool → List ℕ → List ℕ
with_source ctx false buf = buf
with_source ctx true buf = fill_src (fill_src buf at_src ctx.my_name) at_srcip ctx.my_ip

-- the bytes of an `int` length
abbrev pub bytes_of : ℤ → List ℕ → List ℕ
bytes_of (pos n) buf = take n buf
bytes_of (negsuc n) buf = []

-- `tot_len`: what was used and the headers, but not more than was allocated
unfoldable pub total_len : Msg → List ℕ → ℤ
total_len m buf =
    let hdr = rmr_hdr_len (record { bytes = buf; nbytes = m.alloc_len }) in
    let tot = signed32 ((pattern32 m.len + hdr + tp_hdr_len) % 2 ^ 32) in
    if ltb_ℤ (pos m.alloc_len) tot then pos m.alloc_len else tot

-- What is handed to SIsendt, in each round the same.
unfoldable pub send_bytes : Origin → Msg → List ℕ
send_bytes ctx m =
    let buf = with_source ctx m.addsrc (stamped m) in
    let tot = total_len m buf in bytes_of tot (insert_mlen (pattern32 tot) buf)

-- the buffer as the sending leaves it
abbrev pub sent_buf : Origin → Msg → List ℕ
sent_buf ctx m =
    let buf = with_source ctx m.addsrc (stamped m) in insert_mlen (pattern32 (total_len m buf)) buf

abbrev pub is_eagain : Errno → Bool
is_eagain eagain = true
is_eagain _ = false

-- the state of a message that was not sent
abbrev pub failure : Looped → SendState
failure l =
    if l.blocked
    then rmr_err_retry
    else if is_eagain l.errno
    then rmr_err_retry
    else rmr_err_sendfailed

-- What the caller gets for the end of the loop: a new buffer, nil if it wants none, or the message.
unfoldable pub send_done : Origin → (ℕ → List ℕ) → Msg → Looped → Option Msg
send_done ctx garbage m l =
    if l.sent
    then (if m.noalloc
        then none
        else some (alloc_zcmsg ctx garbage (some m) 0 rmr_ok (tr_len_of m)))
    else some (record m { state = failure l })

-- `none` outside is the end of the fuel; the bytes that went out come with the result.
unfoldable pub send_msg :
    Origin → (ℕ → List ℕ) → (ℕ → System) → Msg → ℤ → Option (Option Msg × List ℕ)
send_msg ctx garbage os msg retries =
    let m = record msg { tp_buf = sent_buf ctx msg } in
    elim (send_loop os (send_bytes ctx msg) (most (start_budget retries)) (start_budget retries) []
      0) [ none ↦ none | some l ↦ some (send_done ctx garbage m l, l.wire) ]
