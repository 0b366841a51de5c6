-- ===== src/Route/Added.antt =====
-- rt_generic_static.c and rtable_si_static.c: what the lookup for a message finds after `uta_add_rte`.
use ric_plt_lib_rmr.Base.{
  ℕ, ◌≡◌, ◌≢◌, ◌⊎◌, inl, inr, refl, sym, ap, ◌∙◌, Bool, true, false, not, ◌&&◌, Option, none, some,
  arith, if◌then◌else◌,
}
use ric_plt_lib_rmr.Base.Int.{ℤ}
use ric_plt_lib_rmr.Symtab.{SymTab, num}
use ric_plt_lib_rmr.Symtab.Find.{key_eq}
use ric_plt_lib_rmr.Symtab.Valid.{IsValid, lookup}
use ric_plt_lib_rmr.Route.{
  Store, RouteTable, unset_subid, is_unset, build_rt_key, uta_get_rte, uta_add_rte,
}
use ric_plt_lib_rmr.Route.Key.{IsInt32, unset-key, build_rt_key-injective, get_rte-lookup}
use ric_plt_lib_rmr.Route.Entries.{add_rte-lookup, add_rte-IsValid}

-- the entry for a message, by the map of entries
pick : Option ℕ → Option ℕ → Bool → Option ℕ
pick (some p) second alt = some p
pick none second alt = if alt then second else none

abbrev route : SymTab ℕ → ℤ → ℤ → Bool → Option ℕ
route h sub mtype alt =
    pick (lookup h (num (build_rt_key sub mtype))) (lookup h (num (build_rt_key unset_subid mtype)))
      (alt && not (is_unset sub))

get_rte-route :
    (rt : RouteTable)
    → IsValid rt.hash
    → (sub mtype : ℤ) → build_rt_key sub mtype ≢ 0
    → (alt : Bool) → (uta_get_rte rt sub mtype alt).0 ≡ route rt.hash sub mtype alt
unfolding pick
get_rte-route rt valid sub mtype set alt =
    (get_rte-lookup rt valid sub mtype set alt).0
    ∙ elim (lookup rt.hash (num (build_rt_key sub mtype)))
        as (λ x.
          (elim x [
            | some p ↦ some p
            | none ↦
                if alt && not (is_unset sub)
                then lookup rt.hash (num (build_rt_key unset_subid mtype))
                else none
          ])
          ≡ pick x (lookup rt.hash (num (build_rt_key unset_subid mtype)))
              (alt && not (is_unset sub))) [ some p ↦ refl | none ↦ refl ]

module _ (s : Store) (rt : RouteTable) (valid : IsValid rt.hash) (sub mtype : ℤ) (hs : IsInt32 sub)
    (hm : IsInt32 mtype) (set : build_rt_key sub mtype ≢ 0) (n : ℤ) where
  abbrev p : ℕ
  p = (uta_add_rte s rt (build_rt_key sub mtype) n).0

  abbrev rt' : RouteTable
  rt' = (uta_add_rte s rt (build_rt_key sub mtype) n).2

  abbrev key : ℕ
  key = build_rt_key sub mtype

  lookup-same : lookup rt'.hash (num key) ≡ some p
  unfolding key_eq
  lookup-same =
      let same : key_eq (num key) (num key) ≡ true = ground arith in
      add_rte-lookup s rt valid key set n key set
      ∙ ap (λ b. if b then some p else lookup rt.hash (num key)) same

  lookup-other : (q : ℕ) → q ≢ 0 → key ≢ q → lookup rt'.hash (num q) ≡ lookup rt.hash (num q)
  unfolding key_eq
  lookup-other q set' other =
      let differ : key_eq (num key) (num q) ≡ false = ground (arith, other) in
      add_rte-lookup s rt valid key set n q set'
      ∙ ap (λ b. if b then some p else lookup rt.hash (num q)) differ

  -- other types have other keys
  other-key :
      (sub' mtype' : ℤ)
      → IsInt32 sub'
      → IsInt32 mtype'
      → mtype' ≢ mtype
      → key ≢ build_rt_key sub' mtype'
  other-key sub' mtype' hs' hm' other e =
      let (_, _, same) = build_rt_key-injective sub mtype sub' mtype' hs hm hs' hm' e in
      other (sym same)

  valid' : IsValid rt'.hash
  valid' = add_rte-IsValid s rt valid key set n

  found-own : (uta_get_rte rt' sub mtype true).0 ≡ some p
  found-own = (get_rte-lookup rt' valid' sub mtype set true).0 ∙ rw lookup-same refl

-- a subscription id that stands for itself, or one that has no entry of its own while the added entry
-- is for the message type alone
abbrev pub Serves : SymTab ℕ → ℤ → ℤ → ℤ → Type 0
Serves h sub mtype sub' =
    (sub' ≡ sub)
    ⊎ ((sub ≡ unset_subid)
        × (is_unset sub' ≡ false)
        × (lookup h (num (build_rt_key sub' mtype)) ≡ none))

module _ (s : Store) (rt : RouteTable) (valid : IsValid rt.hash) (mtype : ℤ) (hm : IsInt32 mtype)
    (sub' : ℤ) (hs' : IsInt32 sub') (set' : build_rt_key sub' mtype ≢ 0) (n : ℤ) where
  -- the entry of the type alone serves an id without one
  found-type :
      (is_unset sub' ≡ false)
      → (lookup rt.hash (num (build_rt_key sub' mtype)) ≡ none)
      → let (p, _, rt') = uta_add_rte s rt (build_rt_key unset_subid mtype) n in
        (uta_get_rte rt' sub' mtype true).0 ≡ some p
  found-type given missing =
      let alone : IsInt32 unset_subid = omega arith in
      let set = unset-key mtype in
      let (_, _, rt') = uta_add_rte s rt (build_rt_key unset_subid mtype) n in
      let differ : build_rt_key unset_subid mtype ≢ build_rt_key sub' mtype = λ e.
        (let (_, same, _) = build_rt_key-injective unset_subid mtype sub' mtype alone hm hs' hm e in
          let never : is_unset sub' ≡ true = ap is_unset (sym same) in cc) in
      let own =
        lookup-other s rt valid unset_subid mtype alone hm set n (build_rt_key sub' mtype) set'
          differ
        ∙ missing in
      (get_rte-lookup rt' (add_rte-IsValid s rt valid (build_rt_key unset_subid mtype) set n) sub'
        mtype set' true).0
      ∙ rw (own, given) (lookup-same s rt valid unset_subid mtype alone hm set n)

module _ (s : Store) (rt : RouteTable) (valid : IsValid rt.hash) (sub mtype : ℤ) (hs : IsInt32 sub)
    (hm : IsInt32 mtype) (set : build_rt_key sub mtype ≢ 0) (n : ℤ) where
  -- messages of another type
  others-same :
      (sub' mtype' : ℤ) (alt : Bool)
      → IsInt32 sub'
      → IsInt32 mtype'
      → build_rt_key sub' mtype' ≢ 0
      → mtype' ≢ mtype
      → (uta_get_rte (uta_add_rte s rt (build_rt_key sub mtype) n).2 sub' mtype' alt).0
        ≡ (uta_get_rte rt sub' mtype' alt).0
  others-same sub' mtype' alt hs' hm' set' other =
      let rt' = (uta_add_rte s rt (build_rt_key sub mtype) n).2 in
      let alone : IsInt32 unset_subid = omega arith in
      let full =
        lookup-other s rt valid sub mtype hs hm set n (build_rt_key sub' mtype') set'
          (other-key s rt valid sub mtype hs hm set n sub' mtype' hs' hm' other) in
      let type_alone =
        lookup-other s rt valid sub mtype hs hm set n (build_rt_key unset_subid mtype')
          (unset-key mtype')
          (other-key s rt valid sub mtype hs hm set n unset_subid mtype' alone hm' other) in
      get_rte-route rt' (add_rte-IsValid s rt valid (build_rt_key sub mtype) set n) sub' mtype' set'
        alt
      ∙ ap
          (λ x.
            pick x (lookup rt'.hash (num (build_rt_key unset_subid mtype')))
              (alt && not (is_unset sub')))
          full
      ∙ ap
          (λ x.
            pick (lookup rt.hash (num (build_rt_key sub' mtype'))) x (alt && not (is_unset sub')))
          type_alone
      ∙ sym (get_rte-route rt valid sub' mtype' set' alt)

-- In a well-formed table, an entry that is added is found for a message of its type with its
-- subscription id, and, if it was added for the type alone, for a message of the type with another id
-- that has no entry; for messages of other types the same is found as before. No key is 0, which is
-- type 0 with id 0.
pub get_rte-added :
    (s : Store) (rt : RouteTable) (sub mtype sub' sub'' mtype' : ℤ) (n : ℤ) (alt : Bool)
    → IsValid rt.hash
    → IsInt32 sub
    → IsInt32 mtype
    → IsInt32 sub'
    → IsInt32 sub''
    → IsInt32 mtype'
    → build_rt_key sub mtype ≢ 0
    → build_rt_key sub' mtype ≢ 0
    → build_rt_key sub'' mtype' ≢ 0
    → Serves rt.hash sub mtype sub'
    → mtype' ≢ mtype
    → let (p, _, rt') = uta_add_rte s rt (build_rt_key sub mtype) n in
      ((uta_get_rte rt' sub' mtype true).0 ≡ some p)
      × ((uta_get_rte rt' sub'' mtype' alt).0 ≡ (uta_get_rte rt sub'' mtype' alt).0)
get_rte-added s rt sub mtype sub' sub'' mtype' n alt valid hs hm hs' hs'' hm' set set' set'' serves
      other =
    (
      elim serves [
        | inl e ↦
            ap (λ x. (uta_get_rte (uta_add_rte s rt (build_rt_key sub mtype) n).2 x mtype true).0) e
            ∙ found-own s rt valid sub mtype hs hm set n
        | inr (e, given, missing) ↦
            ap (λ x. (uta_get_rte (uta_add_rte s rt (build_rt_key x mtype) n).2 sub' mtype true).0)
              e
            ∙ found-type s rt valid mtype hm sub' hs' set' n given missing
            ∙ ap (λ x. some (uta_add_rte s rt (build_rt_key x mtype) n).0) (sym e)
      ],
      others-same s rt valid sub mtype hs hm set n sub'' mtype' alt hs'' hm' set'' other,
    )
