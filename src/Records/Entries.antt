-- ===== src/Records/Entries.antt =====
-- rt_generic_static.c: the entries of an update: each is taken into the table in progress.
use mathlib.Core.Option.{some-injective}
use mathlib.Core.Path.{subst}
use ric_plt_lib_rmr.Base.{
  ℕ, ◌+◌, ◌<◌, ◌≡◌, refl, sym, ap, ◌∙◌, Bool, true, false, Option, none, some, List, [], ◌∷◌, arith,
  length, set, get_or, get_or-set, length-set, ◌==◌, if◌then◌else◌, str_eq, leb,
}
use ric_plt_lib_rmr.Route.{RouteTable, Store, unset_subid}
use ric_plt_lib_rmr.Route.Clone.{uta_rt_init, frame}
use ric_plt_lib_rmr.Gate.{table_at}
use ric_plt_lib_rmr.Records.Text.{clip, atoi}
use ric_plt_lib_rmr.Records.Entry.{build_entry, trash_entry}
use ric_plt_lib_rmr.Records.Tables.{
  Use, Ack, Rtc, Parsed, crashes, parsed, gate_of, new_of, write_new,
}
use ric_plt_lib_rmr.Records.Parse.{
  to_new, newrt_rec, update_rec, meid_parser, del_rec, mse_rec, rte_rec, by_kind, of_kind,
  of_tokens, parse_rt_rec, mse_word, one_more,
}
use ric_plt_lib_rmr.Records.Outcome.{build_entry-frame, trash_entry-frame}
use ric_plt_lib_rmr.Records.Active.{fields_of}

-- the first field of an entry, and the fields behind it
abbrev pub entry_kind : List ℕ → List (List ℕ) → Bool
entry_kind [] fields = false
entry_kind (c ∷ kind) fields =
    if c == b'd'
    then leb 2 (length fields)
    else if c == b'n'
    then false
    else if c == b'm'
    then (if str_eq (c ∷ kind) mse_word then leb 3 (length fields) else false)
    else if c == b'r'
    then leb 2 (length fields)
    else false

-- A record rte or del with two fields or more behind its kind, or mse with three or more.
unfoldable pub is_entry : List (List ℕ) → Bool
is_entry [] = false
is_entry (kind ∷ fields) = entry_kind (clip kind) fields

-- The table `p` is in progress, without an error, with `n` updates, and that one is active.
pub record InProgress (m : Rtc) (p n : ℕ) (active : Option ℕ) : Type 0 where
  pub new : new_of m ≡ some p
  pub room : p < length (gate_of m).tables
  pub updates : (table_at (gate_of m) p).updates ≡ n
  pub failed : (table_at (gate_of m) p).failed ≡ false
  pub active_is : (gate_of m).rtable ≡ active

abbrev with_updates : RouteTable → ℕ → RouteTable
with_updates t n = record t { updates = n }

abbrev one_up : RouteTable → RouteTable
one_up t = with_updates t (t.updates + 1)

module _ (sent : Ack → Bool) (uses : List Use) (p n : ℕ) (active : Option ℕ) where
  abbrev pub Grows : Parsed → Type 0
  Grows r = (m' : Rtc) × (r ≡ parsed m') × InProgress m' p (n + 1) active

  write_new-InProgress :
      (m : Rtc) (st : Store) (t : RouteTable)
      → InProgress m p n active
      → frame t ≡ frame (record (table_at (gate_of m) p) { updates = n + 1 })
      → InProgress (write_new m p (st, t)) p (n + 1) active
  unfolding write_new
  write_new-InProgress m st t h e =
      let at : get_or (set (gate_of m).tables p t) p uta_rt_init ≡ t =
        ground (arith, get_or-set (gate_of m).tables p p t uta_rt_init h.room) in
      record {
        new = h.new;
        room = omega (arith, h.room, length-set (gate_of m).tables p t);
        updates = ap (λ u. u.updates) at ∙ ap (λ u. u.updates) e;
        failed = ap (λ u. u.failed) at ∙ ap (λ u. u.failed) e ∙ h.failed;
        active_is = h.active_is;
      }

  to_new-Grows :
      (m : Rtc) (change : Store → RouteTable → Store × RouteTable) (o : Option ℕ)
      → new_of m ≡ o
      → o ≡ some p
      → InProgress m p n active
      → ((s : Store) (t : RouteTable) → frame (change s t).1 ≡ frame t)
      → Grows (elim o [
        | none ↦ parsed m
        | some q ↦
            parsed (write_new m q (one_more (change (gate_of m).store (table_at (gate_of m) q))))
      ])
  to_new-Grows m change none e k h f = cc
  to_new-Grows m change (some q) e k h f =
      let at : RouteTable = table_at (gate_of m) p in
      let st = (gate_of m).store in
      let e' = ap one_up (f st at) ∙ ap (λ i. frame (with_updates at (i + 1))) h.updates in
      let grown = write_new-InProgress m (change st at).0 (one_more (change st at)).1 h e' in
      (
        write_new m q (one_more (change st (table_at (gate_of m) q))),
        refl,
        subst
            (λ i.
              InProgress (write_new m i (one_more (change st (table_at (gate_of m) i)))) p (n + 1)
                active)
            (sym (some-injective q p k)) grown,
      )

  changed :
      (m : Rtc) (change : Store → RouteTable → Store × RouteTable)
      → InProgress m p n active
      → ((s : Store) (t : RouteTable) → frame (change s t).1 ≡ frame t)
      → Grows (to_new m (λ s t. one_more (change s t)))
  unfolding to_new
  changed m change h f = to_new-Grows m change (new_of m) refl h.new h f

  del-Grows :
      (m : Rtc) (fields : List (List ℕ))
      → InProgress m p n active
      → leb 2 (length fields) ≡ true
      → Grows (del_rec sent uses m fields)
  unfolding del_rec
  del-Grows m [] h e = cc
  del-Grows m (_ ∷ []) h e = cc
  del-Grows m (ts ∷ subid ∷ rest) h e =
      changed m (λ s t. trash_entry m.self s t ts (atoi subid)) h
        (λ s t. trash_entry-frame m.self s t ts (atoi subid))

  mse-Grows :
      (m : Rtc) (fields : List (List ℕ))
      → InProgress m p n active
      → leb 3 (length fields) ≡ true
      → Grows (mse_rec sent uses m fields)
  unfolding mse_rec
  mse-Grows m [] h e = cc
  mse-Grows m (_ ∷ []) h e = cc
  mse-Grows m (_ ∷ _ ∷ []) h e = cc
  mse-Grows m (ts ∷ subid ∷ rr ∷ rest) h e =
      changed m (λ s t. build_entry m.self s t ts (atoi subid) rr) h
        (λ s t. build_entry-frame m.self s t ts (atoi subid) rr)

  rte-Grows :
      (m : Rtc) (fields : List (List ℕ))
      → InProgress m p n active
      → leb 2 (length fields) ≡ true
      → Grows (rte_rec sent uses m fields)
  unfolding rte_rec
  rte-Grows m [] h e = cc
  rte-Grows m (_ ∷ []) h e = cc
  rte-Grows m (ts ∷ rr ∷ []) h e =
      changed m (λ s t. build_entry m.self s t ts unset_subid rr) h
        (λ s t. build_entry-frame m.self s t ts unset_subid rr)
  rte-Grows m (ts ∷ rr ∷ subid ∷ rest) h e =
      changed m (λ s t. build_entry m.self s t ts (atoi subid) rr) h
        (λ s t. build_entry-frame m.self s t ts (atoi subid) rr)

  pick-Grows :
      (m : Rtc) (fields : List (List ℕ)) (d n' m' mse r : Bool) (x y z : Parsed)
      → InProgress m p n active
      → (if d
          then leb 2 (length fields)
          else if n'
          then false
          else if m'
          then (if mse then leb 3 (length fields) else false)
          else if r
          then leb 2 (length fields)
          else false)
        ≡ true
      → Grows (
          if d
          then del_rec sent uses m fields
          else if n'
          then x
          else if m'
          then (if mse then mse_rec sent uses m fields else y)
          else if r
          then rte_rec sent uses m fields
          else z)
  pick-Grows m fields true _ _ _ _ x y z h e = del-Grows m fields h e
  pick-Grows m fields false true _ _ _ x y z h e = cc
  pick-Grows m fields false false true true _ x y z h e = mse-Grows m fields h e
  pick-Grows m fields false false true false _ x y z h e = cc
  pick-Grows m fields false false false _ true x y z h e = rte-Grows m fields h e
  pick-Grows m fields false false false _ false x y z h e = cc

  kind-Grows :
      (m : Rtc) (kind : List ℕ) (fields : List (List ℕ))
      → InProgress m p n active
      → entry_kind kind fields ≡ true
      → Grows (of_kind sent uses m kind fields)
  unfolding of_kind by_kind
  kind-Grows m [] fields h e = cc
  kind-Grows m (c ∷ kind) fields h e =
      pick-Grows m fields (c == b'd') (c == b'n') (c == b'm') (str_eq (c ∷ kind) mse_word)
        (c == b'r') (elim fields [ [] ↦ crashes | what ∷ rest ↦ newrt_rec sent uses m what rest ])
        (meid_parser sent uses m (c ∷ kind) fields)
        (if c == b'u'
          then if m.full_rt
            then elim fields [ [] ↦ crashes | what ∷ rest ↦ update_rec sent uses m what rest ]
            else parsed m
          else parsed m)
        h e

  tokens-Grows :
      (m : Rtc) (toks : List (List ℕ))
      → InProgress m p n active
      → is_entry toks ≡ true
      → Grows (of_tokens sent uses m toks)
  unfolding of_tokens is_entry
  tokens-Grows m [] h e = cc
  tokens-Grows m (kind ∷ fields) h e = kind-Grows m (clip kind) fields h e

  -- With a table in progress, an entry is taken: one update more, and nothing else about the table
  -- or the active one changes.
  pub entry-Grows :
      (m : Rtc) (buf : List ℕ)
      → InProgress m p n active
      → is_entry (fields_of buf) ≡ true
      → Grows (parse_rt_rec sent uses m buf)
  unfolding parse_rt_rec
  entry-Grows m buf h e = tokens-Grows m (fields_of buf) h e
