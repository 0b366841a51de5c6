-- ===== src/Fanout/Tests.antt =====
-- sr_si_static.c: the theorems at a message that goes to two groups.
use ric_plt_lib_rmr.Base.{
  ℕ, zero, suc, ◌+◌, ◌≡◌, refl, true, false, none, some, List, [], ◌∷◌, arith, length, replicate,
}
use ric_plt_lib_rmr.Base.Int.{ℤ, pos, negsuc}
use ric_plt_lib_rmr.Symtab.{SymTab, rmr_sym_pull, num, putin, find_ele, slot, hits, new_ele}
use ric_plt_lib_rmr.Symtab.Valid.{empty}
use ric_plt_lib_rmr.Receive.{at_len0}
use ric_plt_lib_rmr.Endpoint.{Endpoint, no_endpoint}
use ric_plt_lib_rmr.Route.{RrGroup, RouteTable, Store, rte_at, uta_get_rte, build_rt_key}
use ric_plt_lib_rmr.Gate.{Gate, table_at}
use ric_plt_lib_rmr.Send.Wire.{writable, wrote, System}
use ric_plt_lib_rmr.Send.Message.{SendState, Msg, Origin, put32}
use ric_plt_lib_rmr.Fanout.{Trip, sent_of, mtosend_msg}
use ric_plt_lib_rmr.Fanout.Round.{any_sent}
use ric_plt_lib_rmr.Fanout.Groups.{IsFull, AllFull}
use ric_plt_lib_rmr.Fanout.Ends.{held, mtosend_msg-Told}
use ric_plt_lib_rmr.Fanout.Users.{SameUsers, mtosend_msg-SameUsers}

abbrev ctx : Origin
ctx = record {
  my_name = b'm' ∷ b':' ∷ b'1' ∷ [];
  my_ip = b'1' ∷ b':' ∷ b'1' ∷ [];
  trace_data_len = 0;
  d1_len = 4;
  d2_len = 0;
  max_plen = 64;
}

abbrev msg : Msg
msg = record {
  state = SendState.rmr_ok;
  mtype = pos 12;
  sub_id = negsuc 0;
  len = pos 5;
  tp_buf = put32 (put32 (replicate 340 0) at_len0 280) (at_len0 + 8) 4;
  alloc_len = 340;
  rts_fd = negsuc 0;
  noalloc = false;
  addsrc = false;
}

abbrev zeros : ℕ → List ℕ
zeros n = replicate n 0

-- everything is taken
abbrev ready : ℕ → ℕ → System
ready group try = record { session = true; poll = writable; writes = λ i. wrote 1000 }

abbrev refuses : List ℕ → ℤ
refuses name = negsuc 0

-- the messages of type 12 go to two groups of one endpoint
abbrev hash : SymTab ℕ
hash = (putin true (empty 11) (num 0xffffffff0000000c) 0).1

abbrev table : RouteTable
table = record { failed = false; hash = hash; updates = 1; mupdates = 0; ref_count = 0 }

abbrev connected : ℤ → Endpoint
connected fd = record no_endpoint { name = b'a' ∷ b':' ∷ b'1' ∷ []; nn_sock = fd; open_now = true }

abbrev group : ℕ → RrGroup
group p = record { ep_idx = 0; epts = some p ∷ [] }

abbrev store : Store
store = record {
  rtes =
      record {
        key = 0xffffffff0000000c;
        refs = 1;
        mtype = pos 0;
        rrgroups = some (group 0) ∷ some (group 1) ∷ [];
      }
      ∷ [];
  links = record { eps = connected (pos 8) ∷ connected (pos 9) ∷ []; fd2ep = empty 11 };
  ephash = empty 11;
}

abbrev gate : Gate
gate = record {
  rtable = some 0;
  new_rtable = none;
  old_rtable = none;
  tables = table ∷ [];
  store = store;
}

found : (uta_get_rte (table_at (held gate 0) 0) (negsuc 0) (pos 12) true).0 ≡ some 0
unfolding uta_get_rte build_rt_key putin rmr_sym_pull find_ele slot hits new_ele
found = refl

group-IsFull : (p : ℕ) → IsFull (group p)
unfolding IsFull
group-IsFull p zero h = (p, refl)
group-IsFull p (suc k) h = absurd (omega (arith, h))

groups-AllFull : AllFull (rte_at store 0)
unfolding AllFull
groups-AllFull zero h = (group 0, refl, group-IsFull 0)
groups-AllFull (suc zero) h = (group 1, refl, group-IsFull 1)
groups-AllFull (suc (suc k)) h = absurd (omega (arith, h))

mtosend_msg-Told_example :
    (t : Trip) × (mtosend_msg refuses ctx zeros ready 1 gate msg (pos 0) ≡ some t)
    × (length t.tries ≡ 2)
    × (sent_of t.msg ≡ any_sent t.tries)
mtosend_msg-Told_example =
    mtosend_msg-Told refuses ctx zeros ready 1 gate msg (pos 0) 0 0 refl (omega arith) found
      (omega arith) groups-AllFull

mtosend_msg-SameUsers_example :
    (t : Trip) × (mtosend_msg refuses ctx zeros ready 1 gate msg (pos 0) ≡ some t)
    × SameUsers gate t.gate
mtosend_msg-SameUsers_example =
    mtosend_msg-SameUsers refuses ctx zeros ready 1 gate msg (pos 0) 0 refl (omega arith) 0 found
      (omega arith) groups-AllFull
