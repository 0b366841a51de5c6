-- ===== src/Records/Moves.antt =====
-- rt_generic_static.c: the ways in which a record moves the tables of the context.
use ric_plt_lib_rmr.Base.{
  ℕ, ◌≡◌, refl, sym, Bool, true, false, Option, none, some, List, [], ◌∷◌, if◌then◌else◌, arith,
  str_eq,
}
use mathlib.Core.Path.{subst}
use ric_plt_lib_rmr.Base.Int.{ℤ, pos, negsuc}
use ric_plt_lib_rmr.Route.{RouteTable, Store}
use ric_plt_lib_rmr.Gate.{Gate, table_at, set_table, roll_tables, drop_new}
use ric_plt_lib_rmr.Records.Text.{clip, atoi}
use ric_plt_lib_rmr.Records.Tables.{
  Use, Shared, prep_new_rt, Ack, Reason, no_reason, Rtc, Parsed, crashes, waits, parsed, gate_of,
  new_of, write_new, reject, drop_pending, finish, counts_as, check_count, start_table,
}
use ric_plt_lib_rmr.Records.Parse.{to_new, ended, third, end_word, meid_map_word}
use ric_plt_lib_rmr.Records.Outcome.{Returns, if-Returns, send_rt_ack-shared}

abbrev pub with_shared_gate : Shared → Gate → Shared
with_shared_gate s g = record s { gate = g }

-- the table under construction, changed
abbrev pub write_at : Shared → ℕ → Store → RouteTable → Shared
write_at s p st t = with_shared_gate s (record (set_table s.gate p t) { store = st })

-- The number in an end record, if there is one, is that of the records received.
unfoldable pub Announced : Rtc → Option (List ℕ) → (RouteTable → ℕ) → Type 0
Announced m none received = Unit
Announced m (some count) received =
    (p : ℕ) × (new_of m ≡ some p) × (atoi count ≡ pos (received (table_at (gate_of m) p)))

-- what an end record of that kind compares
abbrev pub received_of : List ℕ → RouteTable → ℕ
received_of kind t = if str_eq kind meid_map_word then t.mupdates else t.updates

-- The fields behind the kind are those of an end record that announces what was received.
unfoldable pub IsEnd : Rtc → List ℕ → List (List ℕ) → Type 0
IsEnd m kind [] = ⊥
IsEnd m kind (what ∷ rest) = (clip what ≡ end_word) × Announced m (third rest) (received_of kind)

unfoldable pub IsComplete : Rtc → List (List ℕ) → Type 0
IsComplete m [] = ⊥
IsComplete m (kind ∷ fields) = IsEnd m (clip kind) fields

-- What the tables can be after a record: as before, without the table in progress, with that changed,
-- with it rolled in at the end, or with a new one in progress. `Here` says which kind and fields the
-- record has.
pub record Moves (sent : Ack → Bool) (uses : List Use) (m : Rtc) (P : Shared → Type 0)
    (Here : List ℕ → List (List ℕ) → Type 0) : Type 0 where
  pub same : P m.shared
  pub dropped : P (with_shared_gate m.shared (drop_new (gate_of m)))
  pub written :
      (p : ℕ) (s : Store) (t : RouteTable)
      → new_of m ≡ some p
      → t.ref_count ≡ (table_at (gate_of m) p).ref_count
      → P (write_at m.shared p s t)
  pub rolled :
      (kind : List ℕ) (fields : List (List ℕ))
      → Here kind fields
      → IsEnd m kind fields
      → P (with_shared_gate m.shared (roll_tables (gate_of m)))
  pub started :
      (s : Shared) (all : Bool) (p : ℕ) (t : RouteTable)
      → prep_new_rt uses (drop_pending sent m).shared all ≡ some s
      → s.gate.new_rtable ≡ some p
      → t.ref_count ≡ (table_at s.gate p).ref_count
      → P (write_at s p s.gate.store t)

counts_as_sound : (n : ℕ) (z : ℤ) → counts_as n z ≡ true → z ≡ pos n
unfolding counts_as
counts_as_sound n (pos k) h = ground arith
counts_as_sound n (negsuc k) h = cc

module _ (sent : Ack → Bool) (uses : List Use) (m : Rtc) (P : Shared → Type 0)
    (Here : List ℕ → List (List ℕ) → Type 0) (moves : Moves sent uses m P Here) where
  abbrev Ok : Parsed → Type 0
  Ok r = Returns (λ m'. P m'.shared) r

  reject-Ok : (why : Reason) → P (reject sent m why).shared
  unfolding reject
  reject-Ok why =
      subst (λ s. P (with_shared_gate s (drop_new s.gate)))
        (sym (send_rt_ack-shared sent m false why)) moves.dropped

  check_at-Ok :
      (count : List ℕ) (received : RouteTable → ℕ) (why : List ℕ → RouteTable → Reason)
      (done : Parsed) (o : Option ℕ)
      → new_of m ≡ o
      → (Announced m (some count) received → Ok done)
      → Ok (elim o [
        | none ↦ crashes
        | some p ↦
            let t = table_at (gate_of m) p in
            if counts_as (received t) (atoi count)
            then done
            else parsed (reject sent m (why count t))
      ])
  unfolding Announced Returns
  check_at-Ok count received why done none e h = tt
  check_at-Ok count received why done (some p) e h =
      let t = table_at (gate_of m) p in
      if-Returns _ (counts_as (received t) (atoi count)) _ _
        (λ c. h (p, e, counts_as_sound (received t) (atoi count) c)) (λ _. reject-Ok (why count t))

  pub check_count-Ok :
      (count : Option (List ℕ)) (received : RouteTable → ℕ) (why : List ℕ → RouteTable → Reason)
      (done : Parsed)
      → (Announced m count received → Ok done)
      → Ok (check_count sent m count received why done)
  unfolding check_count Announced
  check_count-Ok none received why done h = h tt
  check_count-Ok (some count) received why done h =
      check_at-Ok count received why done (new_of m) refl h

  new_at-Ok :
      (change : Store → RouteTable → Store × RouteTable) (o : Option ℕ)
      → new_of m ≡ o
      → ((s : Store) (t : RouteTable) → (change s t).1.ref_count ≡ t.ref_count)
      → Ok (elim o [
        | none ↦ parsed m
        | some p ↦ parsed (write_new m p (change (gate_of m).store (table_at (gate_of m) p)))
      ])
  unfolding Returns write_new
  new_at-Ok change none e h = moves.same
  new_at-Ok change (some p) e h =
      let t = table_at (gate_of m) p in
      let st = (gate_of m).store in moves.written p (change st t).0 (change st t).1 e (h st t)

  pub to_new-Ok :
      (change : Store → RouteTable → Store × RouteTable)
      → ((s : Store) (t : RouteTable) → (change s t).1.ref_count ≡ t.ref_count)
      → Ok (to_new m change)
  unfolding to_new
  to_new-Ok change h = new_at-Ok change (new_of m) refl h

  started_at-Ok :
      (id : Option (List ℕ)) (all : Bool) (zeroed : RouteTable → RouteTable) (s : Shared)
      (o : Option ℕ)
      → prep_new_rt uses (drop_pending sent m).shared all ≡ some s
      → s.gate.new_rtable ≡ o
      → ((t : RouteTable) → (zeroed t).ref_count ≡ t.ref_count)
      → Ok (elim o [
        | none ↦ crashes
        | some p ↦ parsed (
            write_new
              (record (drop_pending sent m) { shared = s; table_id = id })
              p
              (s.gate.store, zeroed (table_at s.gate p)))
      ])
  unfolding Returns write_new
  started_at-Ok id all zeroed s none e k z = tt
  started_at-Ok id all zeroed s (some p) e k z =
      moves.started s all p (zeroed (table_at s.gate p)) e k (z (table_at s.gate p))

  prepared-Ok :
      (id : Option (List ℕ)) (all : Bool) (zeroed : RouteTable → RouteTable) (o : Option Shared)
      → prep_new_rt uses (drop_pending sent m).shared all ≡ o
      → ((t : RouteTable) → (zeroed t).ref_count ≡ t.ref_count)
      → Ok (elim o [
        | none ↦ waits
        | some s ↦
            let m2 = record (drop_pending sent m) { shared = s; table_id = id } in
            elim (new_of m2) [
              | none ↦ crashes
              | some p ↦ parsed (write_new m2 p (s.gate.store, zeroed (table_at s.gate p)))
            ]
      ])
  unfolding Returns
  prepared-Ok id all zeroed none e z = tt
  prepared-Ok id all zeroed (some s) e z = started_at-Ok id all zeroed s s.gate.new_rtable e refl z

  pub start_table-Ok :
      (id : Option (List ℕ)) (all : Bool) (zeroed : RouteTable → RouteTable)
      → ((t : RouteTable) → (zeroed t).ref_count ≡ t.ref_count)
      → Ok (start_table sent uses m id all zeroed)
  unfolding start_table
  start_table-Ok id all zeroed z =
      prepared-Ok id all zeroed (prep_new_rt uses (drop_pending sent m).shared all) refl z

  finish-Ok :
      (kind : List ℕ) (fields : List (List ℕ))
      → Here kind fields
      → IsEnd m kind fields
      → P (finish sent m).shared
  unfolding finish
  finish-Ok kind fields h c =
      let m' = record m { shared = with_shared_gate m.shared (roll_tables (gate_of m)) } in
      subst P (sym (send_rt_ack-shared sent m' true no_reason)) (moves.rolled kind fields h c)

  ended_at-Ok :
      (after : Rtc → Rtc) (o : Option ℕ)
      → ((m' : Rtc) → (after m').shared ≡ m'.shared)
      → P (finish sent m).shared
      → Ok (elim o [ none ↦ parsed m | some _ ↦ parsed (after (finish sent m)) ])
  unfolding Returns
  ended_at-Ok after none same f = moves.same
  ended_at-Ok after (some p) same f = subst P (sym (same (finish sent m))) f

  pub ended-Ok :
      (after : Rtc → Rtc) (kind : List ℕ) (fields : List (List ℕ))
      → ((m' : Rtc) → (after m').shared ≡ m'.shared)
      → Here kind fields
      → IsEnd m kind fields
      → Ok (ended sent uses m after)
  unfolding ended
  ended-Ok after kind fields same h c =
      ended_at-Ok after (new_of m) same (finish-Ok kind fields h c)
