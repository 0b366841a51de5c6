-- ===== src/Send/Clone.antt =====
-- sr_si_static.c: `clone_msg`. A message's payload pointer is where its header says. Memory is
-- available. A copy that runs past the end of a buffer, of the header for one, is undefined in C; here
-- it ends there, and what is stated of clones has the premise that no copy does.
use ric_plt_lib_rmr.Base.{ℕ, ◌+◌, List, take, drop}
use ric_plt_lib_rmr.Base.Int.{pos}
use ric_plt_lib_rmr.River.{Raw, net32}
use ric_plt_lib_rmr.Receive.{tp_hdr_len, at_len0, rmr_hdr_len}
use ric_plt_lib_rmr.Send.Message.{Msg, put_bytes, bytes_of}

abbrev pub raw_of : Msg → Raw
raw_of m = record { bytes = m.tp_buf; nbytes = m.alloc_len }

-- PAYLOAD_ADDR, as an offset in the buffer
unfoldable pub payload_addr : Msg → ℕ
payload_addr m = tp_hdr_len + rmr_hdr_len (raw_of m)

-- The bytes that are copied as the header; the areas behind it are in RMR_HDR_LEN, and are added once
-- more.
unfoldable pub header_copied : Msg → ℕ
header_copied m =
    rmr_hdr_len (raw_of m)
    + net32 m.tp_buf (at_len0 + 4)
    + net32 m.tp_buf (at_len0 + 8)
    + net32 m.tp_buf (at_len0 + 12)

-- a new buffer with a copy of the header
unfoldable pub with_header : (ℕ → List ℕ) → Msg → List ℕ
with_header garbage m =
    put_bytes (garbage (m.alloc_len + tp_hdr_len)) tp_hdr_len
      (take (header_copied m) (drop tp_hdr_len m.tp_buf))

-- The descriptor of the sender is not copied, and is 0.
unfoldable pub clone_msg : (ℕ → List ℕ) → Msg → Msg
clone_msg garbage m =
    let nm = record m { tp_buf = with_header garbage m; rts_fd = pos 0 } in
    record nm {
      tp_buf =
          put_bytes nm.tp_buf (payload_addr nm) (bytes_of m.len (drop (payload_addr m) m.tp_buf));
    }
