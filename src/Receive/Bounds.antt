-- ===== src/Receive/Bounds.antt =====
-- mt_call_si_static.c and sr_si_static.c: the lengths of a received message.
use ric_plt_lib_rmr.Base.{◌+◌, ◌-◌, ◌^◌, ◌≤◌, ◌<◌, ◌≡◌, false, arith}
use ric_plt_lib_rmr.Base.Int.{pos, negsuc}
use ric_plt_lib_rmr.River.{Raw}
use ric_plt_lib_rmr.Receive.{
  Mbuf, rmr_ok, rmr_hdr_len, payload_len, too_long, ref_tpbuf, tp_hdr_len,
}

module _ (raw : Raw) (m : Mbuf) (hung : m.tp_buf ≡ raw) (small : raw.nbytes < 2 ^ 31) where
  hdr-lt : rmr_hdr_len raw < 2 ^ 32
  unfolding rmr_hdr_len
  hdr-lt = omega arith

  plen-lt : payload_len raw < 2 ^ 32
  unfolding payload_len
  plen-lt = omega arith

  -- A message that passes the check of `buf2mbuf`, and whose three lengths add up below 2 ^ 32, is
  -- given to the application with the length that its sender set and state RMR_OK, and its
  -- transport header, header and payload lie within the buffer.
  pub accepted_bounds :
      rmr_hdr_len raw + tp_hdr_len + payload_len raw < 2 ^ 32
      → too_long raw raw.nbytes ≡ false
      → ((ref_tpbuf m raw.nbytes).len ≡ pos (payload_len raw))
        × ((ref_tpbuf m raw.nbytes).state ≡ rmr_ok)
        × (tp_hdr_len + rmr_hdr_len raw + payload_len raw ≤ raw.nbytes)
  unfolding too_long ref_tpbuf
  accepted_bounds no_wrap passed = rw hung (ground (arith, hdr-lt, plen-lt))

  -- If the lengths add up past 2 ^ 32 to what wraps below the size of the buffer, the message passes
  -- the check although its payload does not fit; a payload length from 2 ^ 31 on then comes out
  -- as a negative number with state RMR_OK.
  pub wrapped_accepted :
      2 ^ 32 ≤ rmr_hdr_len raw + tp_hdr_len + payload_len raw
      → rmr_hdr_len raw + tp_hdr_len + payload_len raw ≤ 2 ^ 32 + raw.nbytes
      → 2 ^ 31 ≤ payload_len raw
      → rmr_hdr_len raw ≤ raw.nbytes
      → (too_long raw raw.nbytes ≡ false)
        × ((ref_tpbuf m raw.nbytes).len ≡ negsuc (2 ^ 32 - payload_len raw - 1))
        × ((ref_tpbuf m raw.nbytes).state ≡ rmr_ok)
  unfolding too_long ref_tpbuf
  wrapped_accepted over under big fits = rw hung (ground (arith, hdr-lt, plen-lt))
