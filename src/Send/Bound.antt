-- ===== src/Send/Bound.antt =====
-- sr_si_static.c: the number of bytes that `send_msg` hands to SIsendt.
use ric_plt_lib_rmr.Base.{
  ℕ, zero, suc, ◌+◌, ◌%◌, ◌^◌, ◌≤◌, inl, inr, List, [], ◌∷◌, arith, length, take, ltb,
  if◌then◌else◌, Bool-cases,
}
use ric_plt_lib_rmr.Base.Int.{ℤ, pos, negsuc, signed32, ltb_ℤ}
use ric_plt_lib_rmr.River.Length.{insert_mlen}
use ric_plt_lib_rmr.Receive.{rmr_hdr_len, tp_hdr_len}
use ric_plt_lib_rmr.Route.{pattern32}
use ric_plt_lib_rmr.Send.Message.{
  Msg, Origin, stamped, with_source, total_len, send_bytes, bytes_of,
}

take_bound : (n : ℕ) (xs : List ℕ) → length (take n xs) ≤ n
take_bound zero xs = omega arith
take_bound (suc n) [] = omega arith
take_bound (suc n) (x ∷ xs) = omega (arith, take_bound n xs)

bytes_bound :
    (t : ℤ) (alloc : ℕ) (buf : List ℕ)
    → length (bytes_of (if ltb_ℤ (pos alloc) t then pos alloc else t) buf) ≤ alloc
bytes_bound (negsuc n) alloc buf = omega arith
bytes_bound (pos n) alloc buf = elim (Bool-cases (ltb alloc n)) [
  | inl e ↦ rw e (take_bound alloc buf)
  | inr e ↦ rw e (ground (arith, take_bound n buf))
]

-- No more bytes are sent than were allocated, whatever length and type the message says.
pub send_bytes_bound : (ctx : Origin) (m : Msg) → length (send_bytes ctx m) ≤ m.alloc_len
unfolding send_bytes total_len
send_bytes_bound ctx m =
    let buf = with_source ctx m.addsrc (stamped m) in
    let hdr = rmr_hdr_len (record { bytes = buf; nbytes = m.alloc_len }) in
    bytes_bound (signed32 ((pattern32 m.len + hdr + tp_hdr_len) % 2 ^ 32)) m.alloc_len
      (insert_mlen (pattern32 (total_len m buf)) buf)
