-- ===== src/Records/Parse.antt =====
-- rt_generic_static.c: `meid_parser`, `parse_rt_rec`, and the loop of `read_static_rt`.
use ric_plt_lib_rmr.Base.{
  ℕ, ◌+◌, Bool, true, false, Option, none, some, List, [], ◌∷◌, ◌==◌, if◌then◌else◌, str_eq,
}
use ric_plt_lib_rmr.Route.{RouteTable, Store, unset_subid}
use ric_plt_lib_rmr.Gate.{table_at}
use ric_plt_lib_rmr.Tools.{uta_tokenise}
use ric_plt_lib_rmr.Records.Text.{skip_spaces, trim_tail, clip, atoi}
use ric_plt_lib_rmr.Records.Entry.{build_entry, trash_entry, parse_meid_ar, parse_meid_del}
use ric_plt_lib_rmr.Records.Tables.{
  Use, Rtc, Parsed, crashes, waits, parsed, Ack, missing_records, uninitialised, gate_of, new_of,
  write_new, finish, check_count, start_table,
}

-- "end", "mse", "meid_map", "mme_ar", "mme_del"
abbrev pub end_word : List ℕ
end_word = b'e' ∷ b'n' ∷ b'd' ∷ []

abbrev pub mse_word : List ℕ
mse_word = b'm' ∷ b's' ∷ b'e' ∷ []

abbrev pub meid_map_word : List ℕ
meid_map_word = b'm' ∷ b'e' ∷ b'i' ∷ b'd' ∷ b'_' ∷ b'm' ∷ b'a' ∷ b'p' ∷ []

abbrev pub mme_ar_word : List ℕ
mme_ar_word = b'm' ∷ b'm' ∷ b'e' ∷ b'_' ∷ b'a' ∷ b'r' ∷ []

abbrev pub mme_del_word : List ℕ
mme_del_word = b'm' ∷ b'm' ∷ b'e' ∷ b'_' ∷ b'd' ∷ b'e' ∷ b'l' ∷ []

abbrev pub one_more : Store × RouteTable → Store × RouteTable
one_more (s, t) = (s, record t { updates = t.updates + 1 })

abbrev pub one_meid_more : Store × RouteTable → Store × RouteTable
one_meid_more (s, t) = (s, record t { mupdates = t.mupdates + 1 })

abbrev pub zero_updates : RouteTable → RouteTable
zero_updates t = record t { updates = 0 }

abbrev pub zero_mupdates : RouteTable → RouteTable
zero_mupdates t = record t { mupdates = 0 }

-- the third field
abbrev pub third : List (List ℕ) → Option (List ℕ)
third [] = none
third (t ∷ ts) = some t

-- the third field as a table id
abbrev pub id_of : List (List ℕ) → Option (List ℕ)
id_of [] = none
id_of (t ∷ ts) = some (clip t)

-- an update start keeps the id that it does not replace
abbrev pub id_or : Option (List ℕ) → List (List ℕ) → Option (List ℕ)
id_or old [] = old
id_or old (t ∷ ts) = some (clip t)

abbrev pub ready_full : Rtc → Rtc
ready_full m = record m { rtable_ready = true; full_rt = true }

abbrev pub ready_update : Rtc → Rtc
ready_update m = record m { rtable_ready = true }

abbrev pub starts_with_s : List ℕ → Bool
starts_with_s [] = false
starts_with_s (c ∷ s) = c == b's'

-- A change of the table in progress; without one the record is ignored.
unfoldable pub to_new : Rtc → (Store → RouteTable → Store × RouteTable) → Parsed
to_new m change = elim (new_of m) [
  | none ↦ parsed m
  | some p ↦ parsed (write_new m p (change (gate_of m).store (table_at (gate_of m) p)))
]

-- `rest` are the fields from the third on.
module _ (sent : Ack → Bool) (uses : List Use) (m : Rtc) where
  -- an end with a table in progress
  unfoldable pub ended : (Rtc → Rtc) → Parsed
  ended after = elim (new_of m) [ none ↦ parsed m | some _ ↦ parsed (after (finish sent m)) ]

  -- newrt|start|<id> or newrt|end|<count>
  unfoldable pub newrt_rec : List ℕ → List (List ℕ) → Parsed
  unfolding ended
  newrt_rec what rest =
      if str_eq (clip what) end_word
      then check_count sent m (third rest) (λ t. t.updates) (λ n t. missing_records n t.updates)
          (ended ready_full)
      else start_table sent uses m (id_of rest) false zero_updates

  -- A replacement is refused until a whole table came from the route manager.
  unfoldable pub update_rec : List ℕ → List (List ℕ) → Parsed
  unfolding ended
  update_rec what rest =
      if str_eq (clip what) end_word
      then elim (new_of m) [
        | none ↦ parsed m
        | some _ ↦
            check_count sent m (third rest) (λ t. t.updates) (λ n t. uninitialised)
              (ended ready_update)
      ]
      else start_table sent uses m (id_or m.table_id rest) true zero_updates

  -- The nack of a wrong number of meid records tells the number of updates of routes.
  unfoldable pub meid_map_rec : List ℕ → List (List ℕ) → Parsed
  unfolding ended
  meid_map_rec what rest =
      if starts_with_s (clip what)
      then start_table sent uses m (id_of rest) true zero_mupdates
      else if str_eq (clip what) end_word
      then check_count sent m (third rest) (λ t. t.mupdates) (λ n t. missing_records n t.updates)
          (ended (λ m'. m'))
      else parsed m

  unfoldable pub mme_ar_rec : List ℕ → List (List ℕ) → Parsed
  mme_ar_rec owner [] = parsed m
  mme_ar_rec owner (meids ∷ rest) = to_new m (λ s t. one_meid_more (parse_meid_ar s t owner meids))

  -- `head` is the first field.
  unfoldable pub meid_parser : List ℕ → List (List ℕ) → Parsed
  unfolding mme_ar_rec
  meid_parser kind [] = parsed m
  meid_parser kind (field ∷ rest) =
      if str_eq kind meid_map_word
      then meid_map_rec field rest
      else if str_eq kind mme_ar_word
      then mme_ar_rec field rest
      else if str_eq kind mme_del_word
      then to_new m (λ s t. one_meid_more (s, parse_meid_del t field))
      else parsed m

  -- a record with that number of fields at least; the others are ignored
  unfoldable pub del_rec : List (List ℕ) → Parsed
  del_rec (ts ∷ subid ∷ rest) = to_new m (λ s t. one_more (trash_entry m.self s t ts (atoi subid)))
  del_rec _ = parsed m

  unfoldable pub mse_rec : List (List ℕ) → Parsed
  mse_rec (ts ∷ subid ∷ rr ∷ rest) =
      to_new m (λ s t. one_more (build_entry m.self s t ts (atoi subid) rr))
  mse_rec _ = parsed m

  -- A missing field is a nil pointer for `clip`.
  unfoldable pub rte_rec : List (List ℕ) → Parsed
  rte_rec (ts ∷ rr ∷ subid ∷ rest) =
      to_new m (λ s t. one_more (build_entry m.self s t ts (atoi subid) rr))
  rte_rec (ts ∷ rr ∷ []) = to_new m (λ s t. one_more (build_entry m.self s t ts unset_subid rr))
  rte_rec _ = elim (new_of m) [ none ↦ parsed m | some _ ↦ crashes ]

  unfoldable pub by_kind : ℕ → List ℕ → List (List ℕ) → Parsed
  unfolding del_rec mse_rec rte_rec
  by_kind c kind fields =
      if c == b'd'
      then del_rec fields
      else if c == b'n'
      then elim fields [ [] ↦ crashes | what ∷ rest ↦ newrt_rec what rest ]
      else if c == b'm'
      then (if str_eq kind mse_word then mse_rec fields else meid_parser kind fields)
      else if c == b'r'
      then rte_rec fields
      else if c == b'u'
      then if m.full_rt
        then elim fields [ [] ↦ crashes | what ∷ rest ↦ update_rec what rest ]
        else parsed m
      else parsed m

  -- Blanks, comments and unknown records are ignored.
  unfoldable pub of_kind : List ℕ → List (List ℕ) → Parsed
  unfolding by_kind
  of_kind [] fields = parsed m
  of_kind (c ∷ kind) fields = by_kind c (c ∷ kind) fields

  unfoldable pub of_tokens : List (List ℕ) → Parsed
  unfolding of_kind
  of_tokens [] = parsed m
  of_tokens (kind ∷ fields) = of_kind (clip kind) fields

  unfoldable pub parse_rt_rec : List ℕ → Parsed
  parse_rt_rec buf = of_tokens (uta_tokenise (trim_tail (skip_spaces buf)) 128 b'|')

-- Records one after the other: what senders do during the record of a number is `uses` of it.
unfoldable pub parse_recs : (Ack → Bool) → (ℕ → List Use) → ℕ → Rtc → List (List ℕ) → Parsed
parse_recs sent uses i m [] = parsed m
parse_recs sent uses i m (rec ∷ recs) = elim (parse_rt_rec sent (uses i) m rec) [
  | crashes ↦ crashes
  | waits ↦ waits
  | parsed m' ↦ parse_recs sent uses (i + 1) m' recs
]
