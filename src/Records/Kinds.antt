-- ===== src/Records/Kinds.antt =====
-- rt_generic_static.c: the moves of the tables for each kind of record, and for all of them.
use ric_plt_lib_rmr.Base.{
  ℕ, ◌≡◌, refl, ap, Bool, true, false, Option, none, some, List, [], ◌∷◌, arith, ◌==◌, str_eq,
  str_eq_sound, str_eq-first,
}
use mathlib.Core.Path.{subst}
use ric_plt_lib_rmr.Route.{RouteTable, unset_subid}
use ric_plt_lib_rmr.Records.Text.{clip, atoi}
use ric_plt_lib_rmr.Records.Entry.{build_entry, trash_entry, parse_meid_ar, parse_meid_del}
use ric_plt_lib_rmr.Records.Tables.{
  Use, Shared, Ack, missing_records, uninitialised, Rtc, Parsed, crashes, parsed, new_of,
  check_count,
}
use ric_plt_lib_rmr.Records.Parse.{
  ended, newrt_rec, update_rec, meid_map_rec, mme_ar_rec, meid_parser, del_rec, mse_rec, rte_rec,
  by_kind, of_kind, of_tokens, third, id_of, id_or, end_word, meid_map_word, mse_word, mme_ar_word,
  mme_del_word, one_more, one_meid_more, zero_updates, zero_mupdates, ready_update, ready_full,
  starts_with_s,
}
use ric_plt_lib_rmr.Records.Outcome.{
  Returns, if-Returns, build_entry-frame, trash_entry-frame, parse_meid_ar-frame,
  parse_meid_del-frame,
}
use ric_plt_lib_rmr.Records.Moves.{
  Moves, Announced, received_of, IsEnd, check_count-Ok, to_new-Ok, start_table-Ok, ended-Ok,
}

-- An end of routes compares the updates of routes.
Announced-updates :
    (m : Rtc) (kind : List ℕ) (count : Option (List ℕ))
    → str_eq kind meid_map_word ≡ false
    → Announced m count (λ t. t.updates)
    → Announced m count (received_of kind)
unfolding Announced
Announced-updates m kind none e h = tt
Announced-updates m kind (some c) e (p, n, h) = (p, n, rw e h)

Announced-mupdates :
    (m : Rtc) (kind : List ℕ) (count : Option (List ℕ))
    → str_eq kind meid_map_word ≡ true
    → Announced m count (λ t. t.mupdates)
    → Announced m count (received_of kind)
unfolding Announced
Announced-mupdates m kind none e h = tt
Announced-mupdates m kind (some c) e (p, n, h) = (p, n, rw e h)

module _ (sent : Ack → Bool) (uses : List Use) (m : Rtc) (P : Shared → Type 0)
    (Here : List ℕ → List (List ℕ) → Type 0) (moves : Moves sent uses m P Here) where
  abbrev Ok : Parsed → Type 0
  Ok r = Returns (λ m'. P m'.shared) r

  pub newrt_rec-Ok :
      (kind what : List ℕ) (rest : List (List ℕ))
      → str_eq kind meid_map_word ≡ false
      → Here kind (what ∷ rest)
      → Ok (newrt_rec sent uses m what rest)
  unfolding newrt_rec IsEnd
  newrt_rec-Ok kind what rest e here =
      let updates : RouteTable → ℕ = λ t. t.updates in
      if-Returns _ (str_eq (clip what) end_word) _ _
        (λ w.
          check_count-Ok sent uses m P Here moves (third rest) updates
            (λ n t. missing_records n t.updates) (ended sent uses m ready_full)
            (λ a.
              ended-Ok sent uses m P Here moves ready_full kind (what ∷ rest) (λ m'. refl) here
                (str_eq_sound (clip what) end_word w, Announced-updates m kind (third rest) e a)))
        (λ _. start_table-Ok sent uses m P Here moves (id_of rest) false zero_updates (λ t. refl))

  update_at-Ok : (r : Parsed) (o : Option ℕ) → Ok r → Ok (elim o [ none ↦ parsed m | some _ ↦ r ])
  unfolding Returns
  update_at-Ok r none h = moves.same
  update_at-Ok r (some p) h = h

  pub update_rec-Ok :
      (kind what : List ℕ) (rest : List (List ℕ))
      → str_eq kind meid_map_word ≡ false
      → Here kind (what ∷ rest)
      → Ok (update_rec sent uses m what rest)
  unfolding update_rec IsEnd
  update_rec-Ok kind what rest e here =
      let updates : RouteTable → ℕ = λ t. t.updates in
      if-Returns _ (str_eq (clip what) end_word) _ _
        (λ w.
          update_at-Ok
            (check_count sent m (third rest) updates (λ n t. uninitialised)
              (ended sent uses m ready_update))
            (new_of m)
            (check_count-Ok sent uses m P Here moves (third rest) updates (λ n t. uninitialised)
              (ended sent uses m ready_update)
              (λ a.
                ended-Ok sent uses m P Here moves ready_update kind (what ∷ rest) (λ m'. refl) here
                  (
                    str_eq_sound (clip what) end_word w,
                    Announced-updates m kind (third rest) e a,
                  ))))
        (λ _.
          start_table-Ok sent uses m P Here moves (id_or m.table_id rest) true zero_updates
            (λ t. refl))

  pub meid_map_rec-Ok :
      (kind what : List ℕ) (rest : List (List ℕ))
      → str_eq kind meid_map_word ≡ true
      → Here kind (what ∷ rest)
      → Ok (meid_map_rec sent uses m what rest)
  unfolding meid_map_rec IsEnd Returns
  meid_map_rec-Ok kind what rest e here =
      let mupdates : RouteTable → ℕ = λ t. t.mupdates in
      if-Returns _ (starts_with_s (clip what)) _ _
        (λ _. start_table-Ok sent uses m P Here moves (id_of rest) true zero_mupdates (λ t. refl))
        (λ _.
          if-Returns _ (str_eq (clip what) end_word) _ _
            (λ w.
              check_count-Ok sent uses m P Here moves (third rest) mupdates
                (λ n t. missing_records n t.updates) (ended sent uses m (λ m'. m'))
                (λ a.
                  ended-Ok sent uses m P Here moves (λ m'. m') kind (what ∷ rest) (λ m'. refl) here
                    (
                      str_eq_sound (clip what) end_word w,
                      Announced-mupdates m kind (third rest) e a,
                    )))
            (λ _. moves.same))

  mme_ar_rec-Ok : (owner : List ℕ) (rest : List (List ℕ)) → Ok (mme_ar_rec sent uses m owner rest)
  unfolding mme_ar_rec Returns
  mme_ar_rec-Ok owner [] = moves.same
  mme_ar_rec-Ok owner (meids ∷ rest) =
      to_new-Ok sent uses m P Here moves (λ s t. one_meid_more (parse_meid_ar s t owner meids))
        (λ s t. ap (λ u. u.ref_count) (parse_meid_ar-frame s t owner meids))

  meid_parser-Ok :
      (kind : List ℕ) (fields : List (List ℕ))
      → Here kind fields
      → Ok (meid_parser sent uses m kind fields)
  unfolding meid_parser Returns
  meid_parser-Ok kind [] here = moves.same
  meid_parser-Ok kind (field ∷ rest) here =
      if-Returns _ (str_eq kind meid_map_word) _ _ (λ e. meid_map_rec-Ok kind field rest e here)
        (λ _.
          if-Returns _ (str_eq kind mme_ar_word) _ _ (λ _. mme_ar_rec-Ok field rest)
            (λ _.
              if-Returns _ (str_eq kind mme_del_word) _ _
                (λ _.
                  to_new-Ok sent uses m P Here moves
                    (λ s t. one_meid_more (s, parse_meid_del t field))
                    (λ s t. ap (λ u. u.ref_count) (parse_meid_del-frame t field)))
                (λ _. moves.same)))

  del_rec-Ok : (fields : List (List ℕ)) → Ok (del_rec sent uses m fields)
  unfolding del_rec Returns
  del_rec-Ok [] = moves.same
  del_rec-Ok (_ ∷ []) = moves.same
  del_rec-Ok (ts ∷ subid ∷ rest) =
      to_new-Ok sent uses m P Here moves (λ s t. one_more (trash_entry m.self s t ts (atoi subid)))
        (λ s t. ap (λ u. u.ref_count) (trash_entry-frame m.self s t ts (atoi subid)))

  mse_rec-Ok : (fields : List (List ℕ)) → Ok (mse_rec sent uses m fields)
  unfolding mse_rec Returns
  mse_rec-Ok [] = moves.same
  mse_rec-Ok (_ ∷ []) = moves.same
  mse_rec-Ok (_ ∷ _ ∷ []) = moves.same
  mse_rec-Ok (ts ∷ subid ∷ rr ∷ rest) =
      to_new-Ok sent uses m P Here moves
        (λ s t. one_more (build_entry m.self s t ts (atoi subid) rr))
        (λ s t. ap (λ u. u.ref_count) (build_entry-frame m.self s t ts (atoi subid) rr))

  too_short-Ok : (o : Option ℕ) → Ok (elim o [ none ↦ parsed m | some _ ↦ crashes ])
  unfolding Returns
  too_short-Ok none = moves.same
  too_short-Ok (some p) = tt

  rte_rec-Ok : (fields : List (List ℕ)) → Ok (rte_rec sent uses m fields)
  unfolding rte_rec
  rte_rec-Ok [] = too_short-Ok (new_of m)
  rte_rec-Ok (_ ∷ []) = too_short-Ok (new_of m)
  rte_rec-Ok (ts ∷ rr ∷ []) =
      to_new-Ok sent uses m P Here moves
        (λ s t. one_more (build_entry m.self s t ts unset_subid rr))
        (λ s t. ap (λ u. u.ref_count) (build_entry-frame m.self s t ts unset_subid rr))
  rte_rec-Ok (ts ∷ rr ∷ subid ∷ rest) =
      to_new-Ok sent uses m P Here moves
        (λ s t. one_more (build_entry m.self s t ts (atoi subid) rr))
        (λ s t. ap (λ u. u.ref_count) (build_entry-frame m.self s t ts (atoi subid) rr))

  -- a record whose first field has the word `f` after its first letter
  with_what :
      (fields : List (List ℕ)) (f : List ℕ → List (List ℕ) → Parsed)
      → ((what : List ℕ) (rest : List (List ℕ)) → fields ≡ what ∷ rest → Ok (f what rest))
      → Ok (elim fields [ [] ↦ crashes | what ∷ rest ↦ f what rest ])
  unfolding Returns
  with_what [] f h = tt
  with_what (what ∷ rest) f h = h what rest refl

  not_meid_map :
      (c d : ℕ) (kind : List ℕ)
      → (c == d) ≡ true
      → (d == b'm') ≡ false
      → str_eq (c ∷ kind) meid_map_word ≡ false
  not_meid_map c d kind e n =
      str_eq-first c b'm' kind (b'e' ∷ b'i' ∷ b'd' ∷ b'_' ∷ b'm' ∷ b'a' ∷ b'p' ∷ []) (ground arith)

  pub by_kind-Ok :
      (c : ℕ) (kind : List ℕ) (fields : List (List ℕ))
      → Here (c ∷ kind) fields
      → Ok (by_kind sent uses m c (c ∷ kind) fields)
  unfolding by_kind Returns
  by_kind-Ok c kind fields here =
      if-Returns _ (c == b'd') _ _ (λ _. del_rec-Ok fields)
        (λ _.
          if-Returns _ (c == b'n') _ _
            (λ n. with_what fields (newrt_rec sent uses m) (λ what rest same.
              newrt_rec-Ok (c ∷ kind) what rest (not_meid_map c b'n' kind n refl)
                (subst (Here (c ∷ kind)) same here)))
            (λ _.
              if-Returns _ (c == b'm') _ _
                (λ _.
                  if-Returns _ (str_eq (c ∷ kind) mse_word) _ _ (λ _. mse_rec-Ok fields)
                    (λ _. meid_parser-Ok (c ∷ kind) fields here))
                (λ _.
                  if-Returns _ (c == b'r') _ _ (λ _. rte_rec-Ok fields)
                    (λ _.
                      if-Returns _ (c == b'u') _ _
                        (λ u.
                          if-Returns _ m.full_rt _ _
                            (λ _. with_what fields (update_rec sent uses m) (λ what rest same.
                              update_rec-Ok (c ∷ kind) what rest (not_meid_map c b'u' kind u refl)
                                (subst (Here (c ∷ kind)) same here)))
                            (λ _. moves.same))
                        (λ _. moves.same)))))

  of_kind-Ok :
      (kind : List ℕ) (fields : List (List ℕ))
      → Here kind fields
      → Ok (of_kind sent uses m kind fields)
  unfolding of_kind Returns
  of_kind-Ok [] fields here = moves.same
  of_kind-Ok (c ∷ kind) fields here = by_kind-Ok c kind fields here

  pub of_tokens-Ok :
      (toks : List (List ℕ))
      → ((kind : List ℕ) (fields : List (List ℕ)) → toks ≡ kind ∷ fields → Here (clip kind) fields)
      → Ok (of_tokens sent uses m toks)
  unfolding of_tokens Returns
  of_tokens-Ok [] h = moves.same
  of_tokens-Ok (kind ∷ fields) h = of_kind-Ok (clip kind) fields (h kind fields refl)
