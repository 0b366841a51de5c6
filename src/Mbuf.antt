-- ===== src/Mbuf.antt =====
-- src/rmr/common/src/mbuf_api.c: access to the fields of the header and to the payload. A message is
-- not nil and has a header, and `xaction` points into it; a source that is copied from has as many
-- bytes as are asked for.
pub mod Fields
pub mod Trace
pub mod Traced
pub mod Alloc
pub mod Truncated
mod Tests
use ric_plt_lib_rmr.Base.{
  ℕ, zero, suc, ◌+◌, ◌-◌, ◌*◌, ◌%◌, ◌^◌, Bool, true, false, not, Option, none, some, List, [], ◌∷◌,
  ◌++◌, ltb, leb, ◌==◌, if◌then◌else◌, length, set, get_or, take, drop,
}
use ric_plt_lib_rmr.Base.Int.{ℤ, pos, negsuc, signed32}
use ric_plt_lib_rmr.River.{net32}
use ric_plt_lib_rmr.Receive.{tp_hdr_len, at_len0}
use ric_plt_lib_rmr.Tools.{zt_buf_fill}
use ric_plt_lib_rmr.Send.Message.{put_bytes, at_src, at_srcip, at_rmr_ver, rmr_max_src, sizeof_mhdr}

abbrev pub rmr_max_meid : ℕ
rmr_max_meid = 32

abbrev pub rmr_max_xid : ℕ
rmr_max_xid = 32

abbrev pub at_xid : ℕ
at_xid = tp_hdr_len + 12

abbrev pub at_meid : ℕ
at_meid = tp_hdr_len + 140

-- What a setter returns: its value, whether errno is EOVERFLOW or EMSGSIZE, and the buffer.
pub record Set (A : Type 0) : Type 0 where
  pub value : A
  pub overflow : Bool
  pub buf : List ℕ

-- the end of the string in the field of the meid, when `n` bytes were copied
terminated : List ℕ → ℕ → Bool → Set ℕ
terminated buf n over =
    if n == rmr_max_meid
    then (if get_or buf (at_meid + n - 1) 0 == 0
        then record { value = n; overflow = over; buf = buf }
        else record { value = n; overflow = true; buf = set buf (at_meid + n - 1) 0 })
    else record { value = n; overflow = over; buf = set buf (at_meid + n) 0 }

-- The number of bytes that are copied is returned.
unfoldable pub rmr_bytes2meid : List ℕ → List ℕ → ℕ → Set ℕ
unfolding terminated
rmr_bytes2meid buf src len =
    let over = ltb rmr_max_meid len in
    let n = if over then rmr_max_meid else len in
    terminated (put_bytes buf at_meid (take n src)) n over

-- RMR_OK or RMR_ERR_OVERFLOW
pub data Status : Type 0 where
  rmr_ok rmr_err_overflow : Status

-- a string with its terminator
abbrev pub z : List ℕ → List ℕ
z str = str ++ (0 ∷ [])

unfoldable pub rmr_str2meid : List ℕ → List ℕ → Set Status
rmr_str2meid buf str =
    if ltb (rmr_max_meid - 1) (length str)
    then record { value = rmr_err_overflow; overflow = true; buf = buf }
    else (let s = rmr_bytes2meid buf (z str) (length str + 1) in
        record { value = rmr_ok; overflow = s.overflow; buf = s.buf })

unfoldable pub rmr_bytes2xact : List ℕ → List ℕ → ℕ → Set ℕ
rmr_bytes2xact buf src len =
    let over = ltb rmr_max_xid len in
    let n = if over then rmr_max_xid else len in
    record { value = n; overflow = over; buf = put_bytes buf at_xid (take n src) }

unfoldable pub rmr_str2xact : List ℕ → List ℕ → Set Status
rmr_str2xact buf str =
    if ltb (rmr_max_xid - 1) (length str)
    then record { value = rmr_err_overflow; overflow = true; buf = buf }
    else (let s = rmr_bytes2xact buf (z str) (length str + 1) in
        record { value = rmr_ok; overflow = s.overflow; buf = s.buf })

-- The whole field is copied.
unfoldable pub rmr_get_xact : List ℕ → List ℕ
rmr_get_xact buf = take rmr_max_xid (drop at_xid buf)

unfoldable pub rmr_get_meid : List ℕ → List ℕ
rmr_get_meid buf = take rmr_max_meid (drop at_meid buf)

-- The bytes that go into the payload, whose number is the new length, and the state; `alloc_len` is that of the message, and at
-- least `sizeof_mhdr`. The limit leaves out the transport header.
unfoldable pub rmr_bytes2payload : ℕ → List ℕ → ℕ → List ℕ × Status
rmr_bytes2payload alloc_len src len =
    if ltb (alloc_len - sizeof_mhdr) len
    then (take (alloc_len - sizeof_mhdr) src, rmr_err_overflow)
    else (take len src, rmr_ok)

unfoldable pub rmr_str2payload : ℕ → List ℕ → List ℕ × Status
rmr_str2payload alloc_len str = rmr_bytes2payload alloc_len (z str) (length str + 1)

-- TRACE_ADDR and RMR_TR_LEN
abbrev pub trace_addr : List ℕ → ℕ
trace_addr buf = tp_hdr_len + net32 buf at_len0

unfoldable pub rmr_get_trlen : List ℕ → ℤ
rmr_get_trlen buf = signed32 (net32 buf (at_len0 + 4) % 2 ^ 32)

-- the offset of the trace data in the buffer and its size; `none` is nil
abbrev trace_of : List ℕ → ℤ → Option ℕ × ℕ
trace_of buf (negsuc n) = (none, 0)
trace_of buf (pos n) = if n == 0 then (none, 0) else (some (trace_addr buf), n)

unfoldable pub rmr_trace_ref : List ℕ → Option ℕ × ℕ
rmr_trace_ref buf = trace_of buf (rmr_get_trlen buf)

-- The sizes are compared as `uint32_t`; the smaller one is copied if it is positive as an `int`.
copied : List ℕ → ℤ → List ℕ
copied buf (negsuc n) = []
copied buf (pos n) = take n (drop (trace_addr buf) buf)

unfoldable pub rmr_get_trace : List ℕ → ℕ → List ℕ
unfolding copied
rmr_get_trace buf size =
    let len = net32 buf (at_len0 + 4) % 2 ^ 32 in
    copied buf (if ltb size len then pos size else signed32 len)

-- the string at an offset, within so many bytes
unfoldable pub c_string : ℕ → List ℕ → ℕ → List ℕ
c_string zero buf i = []
c_string (suc max) buf i =
    let rest = c_string max buf (i + 1) in if get_or buf i 0 == 0 then [] else get_or buf i 0 ∷ rest

unfoldable pub rmr_get_src : List ℕ → List ℕ
rmr_get_src buf = (zt_buf_fill (c_string rmr_max_src buf at_src) rmr_max_src).1

-- An old header has no address; its name is returned.
unfoldable pub rmr_get_srcip : List ℕ → List ℕ
rmr_get_srcip buf =
    if ltb 2 (net32 buf at_rmr_ver)
    then (zt_buf_fill (c_string rmr_max_src buf at_srcip) rmr_max_src).1
    else rmr_get_src buf
