-- ===== src/Records/Tables.antt =====
-- rt_generic_static.c: what a record does to the tables of the context: the wait of `prep_new_rt`,
-- `send_rt_ack`, and the parts of the parsers that start, finish and drop a table.
use ric_plt_lib_rmr.Base.{
  ℕ, Bool, true, false, Option, none, some, List, [], ◌∷◌, ◌++◌, ltb, ◌==◌, if◌then◌else◌,
}
use ric_plt_lib_rmr.Base.Int.{ℤ, pos, negsuc}
use ric_plt_lib_rmr.Route.{RouteTable, Store}
use ric_plt_lib_rmr.Gate.{
  Gate, table_at, set_table, get_rt, release_rt, roll_tables, prep_take, in_use, prep_finish,
  drop_new,
}
use ric_plt_lib_rmr.Gate.Safe.{holders, leave, taken_table}
use ric_plt_lib_rmr.Records.Entry.{Self}
use ric_plt_lib_rmr.Records.Text.{atoi}

-- what senders do: get a table, or release one, which only a holder does
pub data Use : Type 0 where
  gets : Use
  releases : ℕ → Use

-- The tables, and a table once for each sender that holds it.
pub record Shared : Type 0 where
  pub gate : Gate
  pub readers : List ℕ

unfoldable pub use_table : Use → Shared → Shared
use_table gets s = record {
  gate = (get_rt s.gate).1;
  readers = taken_table (get_rt s.gate) s.readers;
}
use_table (releases p) s =
    if ltb 0 (holders p s.readers)
    then record { gate = release_rt s.gate p; readers = leave p s.readers }
    else s

-- The wait for the old table: while it is in use, the gate is open for one step of a sender. `none`
-- means that it is in use when the steps have run out: the thread still waits.
unfoldable pub drain : List Use → Shared → Option ℕ → Option Shared
drain [] s o = if in_use s.gate o then none else some s
drain (u ∷ us) s o =
    let rest = drain us (use_table u s) o in if in_use s.gate o then rest else some s

unfoldable pub prep_new_rt : List Use → Shared → Bool → Option Shared
prep_new_rt uses s all =
    let (old, g) = prep_take s.gate in
    elim (drain uses (record s { gate = g }) old) [
      | none ↦ none
      | some s' ↦ some (record s' { gate = prep_finish s'.gate old all })
    ]

-- The reason in an acknowledgement: the announced number and the number received, an uninitialised
-- buffer, or one of the fixed texts.
pub data Reason : Type 0 where
  no_reason : Reason
  not_complete : Reason
  missing_records : List ℕ → ℕ → Reason
  uninitialised : Reason

pub record Ack : Type 0 where
  pub table_id : Option (List ℕ)
  pub ok : Bool
  pub reason : Reason

-- The private context of the collector: its wormhole to the route manager and the flag CFL_NO_RTACK.
pub record Pctx : Type 0 where
  pub rtg_whid : ℤ
  pub no_rtack : Bool

-- The context: `full_rt` is the flag CFL_FULLRT; `acks` are the acknowledgements sent so far. `pctx`
-- is none if a file is read.
pub record Rtc : Type 0 where
  pub shared : Shared
  pub self : Self
  pub table_id : Option (List ℕ)
  pub rtable_ready : Bool
  pub full_rt : Bool
  pub pctx : Option Pctx
  pub acks : List Ack

abbrev pub gate_of : Rtc → Gate
gate_of m = m.shared.gate

abbrev pub with_gate : Rtc → Gate → Rtc
with_gate m g = record m { shared = record m.shared { gate = g } }

abbrev pub with_pctx : Rtc → Pctx → Bool → Rtc
with_pctx m c ok = record m { pctx = some (if ok then c else record c { rtg_whid = negsuc 0 }) }

-- What parsing a record comes to: a nil pointer is followed, the thread waits, or it returns.
pub data Parsed : Type 0 where
  crashes : Parsed
  waits : Parsed
  parsed : Rtc → Parsed

abbrev pub new_of : Rtc → Option ℕ
new_of m = (gate_of m).new_rtable

-- the table under construction and its store, changed
unfoldable pub write_new : Rtc → ℕ → Store × RouteTable → Rtc
write_new m p (s, t) = with_gate m (record (set_table (gate_of m) p t) { store = s })

unfoldable pub counts_as : ℕ → ℤ → Bool
counts_as n (pos k) = n == k
counts_as n (negsuc k) = false

-- `sent` says that the state of the message after its send is RMR_OK.
module _ (sent : Ack → Bool) where
  -- the wormhole and the flag of the private context
  unfoldable pub ack_to : Rtc → Pctx → ℤ → Bool → Ack → Rtc
  ack_to m c (negsuc _) no_ack a = m
  ack_to m c (pos _) true a = m
  ack_to m c (pos _) false a = with_pctx (record m { acks = m.acks ++ (a ∷ []) }) c (sent a)

  unfoldable pub ack_by : Rtc → Option Pctx → Ack → Rtc
  ack_by m none a = m
  ack_by m (some c) a = ack_to m c c.rtg_whid c.no_rtack a

  -- If an acknowledgement cannot be sent, the connection to the route manager is given up.
  unfoldable pub send_rt_ack : Rtc → Bool → Reason → Rtc
  send_rt_ack m ok why = ack_by m m.pctx (record { table_id = m.table_id; ok = ok; reason = why })

  -- the table in progress is given up
  unfoldable pub reject : Rtc → Reason → Rtc
  reject m why = let m' = send_rt_ack m false why in with_gate m' (drop_new (gate_of m'))

  -- A start record drops a table in progress.
  unfoldable pub drop_pending : Rtc → Rtc
  drop_pending m = elim (new_of m) [ none ↦ m | some _ ↦ reject m not_complete ]

  -- The table in progress becomes the active one.
  unfoldable pub finish : Rtc → Rtc
  finish m = send_rt_ack (with_gate m (roll_tables (gate_of m))) true no_reason

  -- The part of an end record that checks the announced number `count`, if there is one, against the
  -- number that `received` reads off the table; without a table that is a nil pointer. `done` goes
  -- on.
  unfoldable pub check_count :
      Rtc → Option (List ℕ) → (RouteTable → ℕ) → (List ℕ → RouteTable → Reason) → Parsed → Parsed
  check_count m none received why done = done
  check_count m (some count) received why done = elim (new_of m) [
    | none ↦ crashes
    | some p ↦
        let t = table_at (gate_of m) p in
        if counts_as (received t) (atoi count) then done else parsed (reject m (why count t))
  ]

  -- The start of a table, all of the active one being copied or its meids only; `zeroed` clears a
  -- count.
  unfoldable pub start_table :
      List Use → Rtc → Option (List ℕ) → Bool → (RouteTable → RouteTable) → Parsed
  start_table uses m table_id all zeroed =
      let m' = drop_pending m in
      elim (prep_new_rt uses m'.shared all) [
        | none ↦ waits
        | some s ↦
            let m2 = record m' { shared = s; table_id = table_id } in
            elim (new_of m2) [
              | none ↦ crashes
              | some p ↦ parsed (write_new m2 p (s.gate.store, zeroed (table_at s.gate p)))
            ]
      ]
