-- ===== src/Lib.antt =====
-- The RMR library of the O-RAN RIC platform, in its SI95 build: messages between applications over
-- TCP, routed by message type and subscription id.
--
-- A connection delivers bytes to the receive callback, which keeps a river for each connection and
-- cuts the stream into messages; each message gets a message buffer and goes into the receive ring or
-- to the chute of the caller that waits for it. A sender looks up the route table for the entry of a
-- message, selects an endpoint in each group of it, and connects the endpoint if needed. The route
-- table collector builds the next table beside the active one and rolls it in. A wormhole is an id for
-- an endpoint that a user sends to directly. Rings carry pointers between threads; symbol tables
-- hold routes, endpoints, and what belongs to descriptors.
--
-- Base: shared names, Boolean tests, lists and signed integers over the native numbers.
-- Symtab (src/rmr/common/src/symtab.c): Sym_ele and Sym_tab, and the rmr_sym_ functions and what they
--   call, each under its own name. A chain is a list. rmr_sym_free, rmr_sym_dump and rmr_sym_stats
--   are left out: they release and print.
-- Ring (src/rmr/common/src/ring_static.c): ring_t, uta_mk_ring, uta_ring_config, uta_ring_getpfd,
--   uta_ring_extract and uta_ring_insert. Locks and the event descriptor belong to the operating
--   system: whether a lock is got, what other threads did until then, and the descriptor's count
--   are parameters.
-- River (src/rmr/si/src/mt_call_si_static.c): river_t, extract_mlen and the loop of mt_data_cb.
--   River.Length also has insert_mlen of src/rmr/si/src/sr_si_static.c. The loop runs on fuel, one
--   round for each byte of the transport buffer, which is enough for a stream of messages since a
--   round that goes on uses one byte at least.
-- Receive (the same file, and ref_tpbuf and alloc_mbuf of sr_si_static.c): queue_normal, buf2mbuf,
--   mt_data_cb whole and mt_disc_cb. A message buffer is an index into those allocated.
-- Endpoint (src/rmr/si/src/rtable_si_static.c): endpoints, uta_link2, rt_link2_ep and the fd2ep
--   functions; SIconnect is a parameter.
-- Route (src/rmr/common/src/rt_generic_static.c, rtable_si_static.c): build_rt_key, uta_get_rte,
--   get_meid_owner, rt_ensure_ep, uta_add_rte, uta_add_ep; Route.Select has uta_epsock_rr,
--   uta_epsock_byname and epsock_meid, Route.Clone has uta_rt_init, uta_rt_clone and the clearing.
--   What is freed in the source stays in the store, and nobody points at it.
-- Gate (rt_generic_static.c): get_rt, release_rt, roll_tables and prep_new_rt as steps of senders
--   and of the collector, in any order.
-- Wormhole (src/rmr/common/src/wormholes.c): wh_init, wh_extend, rmr_wh_open, rmr_wh_close and
--   rmr_wh_state; Wormhole.Send has rmr_wh_send_msg and rmr_wh_call, over Send and Caller.
-- Tools (src/rmr/common/src/tools_static.c): zt_buf_fill and uta_tokenise; Tools.Addresses has
--   uta_has_str, is_this_myip, has_myip and uta_rmip_tokenise.
-- Records (rt_generic_static.c): Records.Text has clip and ensure_nlterm, Records.Entry build_entry,
--   trash_entry, parse_meid_ar and parse_meid_del, Records.Tables send_rt_ack, the wait of
--   prep_new_rt and what starts, ends and drops a table, Records.Parse meid_parser and
--   parse_rt_rec, Records.Seed read_static_rt, and Records.Collector
--   rtc_parse_msg of src/rmr/common/src/rtc_static.c. What senders do while the collector waits is a list
--   of steps; if the old table is in use at its end, the parser has not returned. Whether an
--   acknowledgement could be sent is a parameter, and the text of one is kept as a value.
-- Send (src/rmr/si/src/si95/sisendt.c and sr_si_static.c): Send.Wire has SIsendt over the answers of
--   select and SEND, which are parameters, Send.Loop the retry loop, Send.Message alloc_zcmsg and
--   send_msg. The loop runs on fuel, the greatest number of attempts that the retries allow. What new
--   memory holds is a parameter. Send.Clone has clone_msg, of which
--   copies that run past a buffer are cut there, where the source's are undefined, Send.Realloc realloc_msg and realloc_payload.
-- Fanout (sr_si_static.c and src/rmr/si/src/rmr_si.c): mtosend_msg, which sends to an endpoint in each
--   group of an entry or to the owner of a meid, rmr_mtosend_msg and rmr_send_msg. The loop runs on
--   fuel, one round for each group and one more. What the system answers is a parameter for each
--   group.
-- Caller (rmr_si.c and src/rmr/common/src/mt_call_static.c): rmr_mt_rcv, rmr_rcv_msg and rmr_torcv_msg;
--   Caller.Call has mt_call, rmr_call and rmr_mt_call, Caller.Deadline the time at which a wait ends,
--   Caller.Chutes init_mtcall. Caller.Matched has the insertions and posts of queue_normal and the waits
--   and extractions of rmr_mt_rcv as steps of several threads, in any order, without polls. What the waits return is a list of answers, each with what other threads
--   did until then, and for mt_call what they did between the wait and the next test; at its end the
--   function has not returned.
-- Rts (rmr_si.c): rmr_rts_msg.
-- Mbuf (src/rmr/common/src/mbuf_api.c): the functions that put and get the meid, the transaction id,
--   the payload, the trace data and the addresses of a message; Mbuf.Trace has rmr_set_trace,
--   Mbuf.Alloc rmr_alloc_msg, rmr_tralloc_msg and rmr_realloc_msg of rmr_si.c.
--   The tests for nil pointers and negative lengths are left out.
-- Alarm (rt_generic_static.c): alarm_if_drops, whose static variables are a state.
--
-- Not modelled: the stash of received records in a file, the start of the library and of the
-- collector's thread, the sending of alarms, logging, the SI95 socket code (its callbacks are where the model
-- starts) and the older nng and nanomsg transports. Where a comment says that memory is available, the
-- failure of malloc is left out.
pub mod Base
pub mod Symtab
pub mod Ring
pub mod River
pub mod Endpoint
pub mod Receive
pub mod Route
pub mod Gate
pub mod Wormhole
pub mod Tools
pub mod Records
pub mod Send
pub mod Mbuf
pub mod Fanout
pub mod Caller
pub mod Rts
pub mod Alarm
