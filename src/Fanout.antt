-- ===== src/Fanout.antt =====
-- src/rmr/si/src/sr_si_static.c: `mtosend_msg`, the send of a message to one endpoint in each group
-- of its route table entry, and `incr_ep_counts`, rmr_mtosend_msg and rmr_send_msg of
-- src/rmr/si/src/rmr_si.c. The message is not nil and has a header. Other threads do not move the
-- tables meanwhile.
pub mod Round
pub mod Groups
pub mod Ends
pub mod Users
mod Tests
use ric_plt_lib_rmr.Base.{
  ℕ, zero, suc, ◌+◌, ◌-◌, ◌/◌, ◌%◌, ◌*◌, Bool, true, false, Option, none, some, List, [], ◌∷◌, ◌++◌,
  ltb, ◌==◌, if◌then◌else◌, length, get_or, set,
}
use ric_plt_lib_rmr.Base.Int.{ℤ, pos, negsuc}
use ric_plt_lib_rmr.Endpoint.{Links, Endpoint, ep_at, set_ep}
use ric_plt_lib_rmr.Receive.{at_flags, data1_addr}
use ric_plt_lib_rmr.Route.{Store, RouteTable, RtableEnt, rte_at, uta_get_rte}
use ric_plt_lib_rmr.Route.Select.{Selected, uta_epsock_rr, epsock_meid}
use ric_plt_lib_rmr.Gate.{Gate, table_at, set_table, get_rt, release_rt}
use ric_plt_lib_rmr.Mbuf.{at_meid, rmr_max_meid, c_string}
use ric_plt_lib_rmr.Send.Wire.{System}
use ric_plt_lib_rmr.Send.Message.{
  SendState, rmr_ok, rmr_err_retry, rmr_err_noendpt, Msg, Origin, send_msg,
}
use ric_plt_lib_rmr.Send.Clone.{raw_of, clone_msg}

counted : SendState → Endpoint → Endpoint
counted rmr_ok e = record e { good = e.good + 1 }
counted rmr_err_retry e = record e { trans = e.trans + 1 }
counted _ e = record e { fail = e.fail + 1 }

unfoldable pub incr_ep_counts : SendState → Option ℕ → Links → Links
unfolding counted
incr_ep_counts state none l = l
incr_ep_counts state (some p) l = set_ep l p (counted state (ep_at l p))

abbrev pub with_links : Gate → Links → Gate
with_links g l = record g { store = record g.store { links = l } }

-- An attempt at a group: the descriptor that was selected, the bytes that went out there, and
-- whether the message was sent.
pub record Try : Type 0 where
  pub reached : Option ℤ
  pub wire : List ℕ
  pub sent : Bool

-- What the loop carries: `msg` is none if the last send left no message.
pub record Trip : Type 0 where
  pub gate : Gate
  pub msg : Option Msg
  pub ok_sends : ℕ
  pub tries : List Try

-- a trip with one more attempt, which is counted for its endpoint if there is a message
unfoldable pub after_try : Trip → Gate → Option ℕ → Option Msg → Bool → Try → Trip
after_try t g ep none ok try = record {
  gate = g;
  msg = none;
  ok_sends = t.ok_sends;
  tries = t.tries ++ (try ∷ []);
}
after_try t g ep (some m) ok try = record {
  gate = with_links g (incr_ep_counts m.state ep g.store.links);
  msg = some m;
  ok_sends = if ok then t.ok_sends + 1 else t.ok_sends;
  tries = t.tries ++ (try ∷ []);
}

-- The store that a selection leaves, and the counters of the table that it searched.
abbrev pub selected_at : Gate → ℕ → Selected × RouteTable → Selected × Gate
selected_at g p (s, rt) = (record s { more = false }, record (set_table g p rt) { store = s.store })

module _ (connect : List ℕ → ℤ) where
  -- the endpoint for a group, or, if the entry has no groups, the owner of the meid of the message
  unfoldable pub select_ep : Gate → ℕ → ℕ → ℕ → Msg → Option (Selected × Gate)
  select_ep g p rte group m =
      if ltb 0 (length (rte_at g.store rte).rrgroups)
      then (elim (uta_epsock_rr connect g.store (some rte) (pos group)) [
        | none ↦ none
        | some s ↦ some (s, record g { store = s.store })
      ])
      else some (
          selected_at g p
            (epsock_meid connect g.store (table_at g p) (c_string rmr_max_meid m.tp_buf at_meid)))

abbrev pub is_ok : SendState → Bool
is_ok rmr_ok = true
is_ok _ = false

-- what the caller of the last send gets; nil says that the message was sent
unfoldable pub sent_of : Option Msg → Bool
sent_of none = true
sent_of (some m) = is_ok m.state

unfoldable pub unreached : Trip → Gate → Msg → Trip
unreached t g m = record t {
  gate = g;
  msg = some (record m { state = rmr_err_noendpt });
  tries = t.tries ++ (record { reached = none; wire = []; sent = false } ∷ []);
}

-- the message that is returned: one that was sent to a group is reported as sent
unfoldable pub returned : ℕ → Option Msg → Option Msg
returned ok none = none
returned ok (some m) =
    some (record m { noalloc = false; state = if ltb 0 ok then rmr_ok else m.state })

unfoldable pub finished : ℕ → Trip → Trip
unfolding returned
finished p t = record t { gate = release_rt t.gate p; msg = returned t.ok_sends t.msg }

abbrev pub trip_of : Gate → Msg → Trip
trip_of g m = record { gate = g; msg = some m; ok_sends = 0; tries = [] }

unfoldable pub unrouted : Gate → ℕ → Msg → Trip
unrouted g p m = trip_of (release_rt g p) (record m { state = rmr_err_noendpt })

-- The clone `c` goes on; it goes on with the state of the message before if the send failed.
unfoldable pub after_cloned :
    Trip → Gate → Msg → Option ℕ → ℤ → Option (Option Msg × List ℕ) → Option Trip
after_cloned t g c ep fd none = none
after_cloned t g c ep fd (some (none, w)) = some (
    after_try t g ep (some (record c { state = rmr_ok })) true
      (record { reached = some fd; wire = w; sent = true }))
after_cloned t g c ep fd (some (some _, w)) =
    some (after_try t g ep (some c) false (record { reached = some fd; wire = w; sent = false }))

unfoldable pub after_last : Trip → Gate → Option ℕ → ℤ → Option (Option Msg × List ℕ) → Option Trip
unfolding sent_of
after_last t g ep fd none = none
after_last t g ep fd (some (r, w)) =
    some (after_try t g ep r false (record { reached = some fd; wire = w; sent = sent_of r }))

module _ (connect : List ℕ → ℤ) (ctx : Origin) (garbage : ℕ → List ℕ) (os : ℕ → ℕ → System)
    (max_to : ℤ) where
  -- with a socket; `more` is whether there are more groups
  unfoldable pub try_socket : Trip → Gate → Msg → ℕ → Option ℕ → Bool → Option ℤ → Option Trip
  unfolding after_cloned after_last
  try_socket t g m group ep more none = none
  try_socket t g m group ep true (some fd) =
      after_cloned t g (clone_msg garbage m) ep fd
        (send_msg ctx garbage (os group) (record m { noalloc = true }) max_to)
  try_socket t g m group ep false (some fd) =
      after_last t g ep fd (send_msg ctx garbage (os group) m max_to)

  -- one round of the loop
  unfoldable pub try_group : Trip → Msg → ℕ → Selected → Gate → Option Trip
  unfolding try_socket unreached
  try_group t m group s g =
      if s.state == 0 then some (unreached t g m) else try_socket t g m group s.uep s.more s.nn_sock

  -- `while( send_again )` from a group on, with a round for each group; `none` is a nil pointer
  -- that is followed, or the end of the fuel.
  unfoldable pub send_groups : ℕ → ℕ → ℕ → Trip → Msg → ℕ → Option Trip
  unfolding try_group
  send_groups zero p rte t m group = none
  send_groups (suc fuel) p rte t m group = elim (select_ep connect t.gate p rte group m) [
    | none ↦ none
    | some (s, g) ↦ elim (try_group t m group s g) [
      | none ↦ none
      | some t' ↦
          if s.more
          then (elim t'.msg [ none ↦ none | some m' ↦ send_groups fuel p rte t' m' (suc group) ])
          else some t'
    ]
  ]

  -- with the table `p`, whose user count is up
  unfoldable pub routed : Gate → ℕ → Msg → Option Trip
  unfolding unrouted finished
  routed g p m =
      let (rte, rt) = uta_get_rte (table_at g p) m.sub_id m.mtype true in
      let g1 = set_table g p rt in
      elim rte [
        | none ↦ some (unrouted g1 p m)
        | some e ↦
            elim (send_groups (suc (length (rte_at g1.store e).rrgroups)) p e (trip_of g1 m) m 0) [
              | none ↦ none
              | some t ↦ some (finished p t)
            ]
      ]

-- `send_retries` is that of the context, for a negative number of retries.
unfoldable pub retries_of : ℕ → ℤ → ℤ
retries_of send_retries (pos n) = pos n
retries_of send_retries (negsuc _) = pos send_retries

module _ (connect : List ℕ → ℤ) (ctx : Origin) (garbage : ℕ → List ℕ) (os : ℕ → ℕ → System) where
  -- Without a table no entry is found.
  unfoldable pub with_table : ℤ → Msg → Option ℕ × Gate → Option Trip
  unfolding routed
  with_table retries m (none, g) = some (trip_of g (record m { state = rmr_err_noendpt }))
  with_table retries m (some p, g) = routed connect ctx garbage os retries g p m

  unfoldable pub mtosend_msg : ℕ → Gate → Msg → ℤ → Option Trip
  unfolding retries_of with_table
  mtosend_msg send_retries g m max_to = with_table (retries_of send_retries max_to) m (get_rt g)

-- HFL_CALL_MSG taken off the flags, and no call id
unfoldable pub no_call : Msg → Msg
no_call m =
    let b = get_or m.tp_buf at_flags 0 in
    let buf = set m.tp_buf at_flags (b - 4 * (b / 4 % 2)) in
    record m { tp_buf = set buf (data1_addr (raw_of m)) 0 }

module _ (connect : List ℕ → ℤ) (ctx : Origin) (garbage : ℕ → List ℕ) (os : ℕ → ℕ → System) where
  unfoldable pub rmr_mtosend_msg : ℕ → Gate → Msg → ℤ → Option Trip
  rmr_mtosend_msg send_retries g m max_to =
      mtosend_msg connect ctx garbage os send_retries g (no_call m) max_to

  unfoldable rmr_send_msg : ℕ → Gate → Msg → Option Trip
  rmr_send_msg send_retries g m = rmr_mtosend_msg send_retries g (no_call m) (negsuc 0)
