-- ===== src/Rts/Tests.antt =====
-- rmr_si.c: a message whose sender is unknown comes back to be returned again.
use ric_plt_lib_rmr.Base.{
  ℕ, ◌≡◌, ◌⊎◌, true, false, none, some, List, [], ◌∷◌, arith, length-replicate, replicate,
}
use ric_plt_lib_rmr.Base.Int.{ℤ, pos, negsuc}
use ric_plt_lib_rmr.Symtab.Valid.{empty}
use ric_plt_lib_rmr.Route.{Store}
use ric_plt_lib_rmr.Send.Wire.{no_room, wrote, System}
use ric_plt_lib_rmr.Send.Message.{SendState, Msg, Origin, put_bytes, at_src, at_srcip}
use ric_plt_lib_rmr.Rts.{Returned, src_of, srcip_of, rmr_rts_msg}
use ric_plt_lib_rmr.Rts.Source.{rmr_rts_msg-source}

abbrev ctx : Origin
ctx = record {
  my_name = b'm' ∷ b':' ∷ b'1' ∷ [];
  my_ip = b'1' ∷ b':' ∷ b'1' ∷ [];
  trace_data_len = 0;
  d1_len = 4;
  d2_len = 0;
  max_plen = 64;
}

abbrev msg : Msg
msg = record {
  state = SendState.rmr_ok;
  mtype = pos 12;
  sub_id = negsuc 0;
  len = pos 5;
  tp_buf = put_bytes (put_bytes (replicate 340 0) at_src (97 ∷ [])) at_srcip (98 ∷ 99 ∷ []);
  alloc_len = 340;
  rts_fd = pos 7;
  noalloc = false;
  addsrc = true;
}

abbrev zeros : ℕ → List ℕ
zeros n = replicate n 0

abbrev busy : ℕ → System
busy try = record { session = true; poll = no_room; writes = λ i. wrote 0 }

abbrev refuses : List ℕ → ℤ
refuses name = negsuc 0

abbrev no_routes : Store
no_routes = record { rtes = []; links = record { eps = []; fd2ep = empty 11 }; ephash = empty 11 }

rmr_rts_msg-source_example :
    (r : Returned) × (rmr_rts_msg refuses ctx zeros busy no_routes msg ≡ some r)
    × ((r.msg ≡ none)
        ⊎ ((m' : Msg) × (r.msg ≡ some m')
            × (src_of m' ≡ src_of msg)
            × (srcip_of m' ≡ srcip_of msg)))
unfolding ric_plt_lib_rmr.Mbuf.c_string put_bytes
rmr_rts_msg-source_example =
    rmr_rts_msg-source refuses ctx zeros busy no_routes msg (λ k. length-replicate k 0)
      (omega arith) (omega arith) (omega arith)
