-- ===== src/Route/Names.antt =====
-- rt_generic_static.c: endpoints by name, and entries by key, in the shared tables.
use ric_plt_lib_rmr.Base.{
  ℕ, ◌≡◌, false, none, some, List, ◌∷◌, arith, length, Option, inl, inr, ap, sym, ◌∙◌, Bool-cases,
  Option-cases,
}
use ric_plt_lib_rmr.Symtab.{SymKey, text, rmr_sym_get, rmr_sym_put}
use ric_plt_lib_rmr.Symtab.Find.{IsKey, key_eq, key_eq_refl, key_eq_sound}
use ric_plt_lib_rmr.Symtab.Valid.{IsValid, lookup}
use ric_plt_lib_rmr.Symtab.Put.{putin-IsValid, lookup-putin, get-lookup}
use ric_plt_lib_rmr.Route.{Store, rt_name_space, uta_get_ep, rt_ensure_ep}

module _ (s : Store) (valid : IsValid s.ephash) (c : ℕ) (cs : List ℕ) where
  abbrev name_key : SymKey
  name_key = text (c ∷ cs) rt_name_space

  name_key-IsKey : IsKey name_key
  name_key-IsKey = λ e. absurd (omega arith)

  -- With a well-formed table of names, a name that is not empty has an endpoint afterwards, the one
  -- that it had or a new one, and the table stays well formed.
  pub ensure_ep-lookup :
      ((rt_ensure_ep s (c ∷ cs)).0
        ≡ elim (lookup s.ephash name_key) [ some p ↦ some p | none ↦ some (length s.links.eps) ])
      × (lookup (rt_ensure_ep s (c ∷ cs)).1.ephash name_key ≡ (rt_ensure_ep s (c ∷ cs)).0)
      × IsValid (rt_ensure_ep s (c ∷ cs)).1.ephash
  unfolding rt_ensure_ep uta_get_ep rmr_sym_put
  ensure_ep-lookup =
      let (found, same, valid') = get-lookup s.ephash valid name_key name_key-IsKey in
      let h = (rmr_sym_get s.ephash name_key).1 in
      let i = length s.links.eps in
      let (put, _) = lookup-putin h valid' name_key name_key-IsKey i name_key name_key-IsKey in
      let valid'' = putin-IsValid h valid' name_key name_key-IsKey i in
      ground
        (arith, found, same name_key name_key-IsKey, valid', put, valid'', key_eq_refl name_key)

  -- With a well-formed table of names, no client's key but that of the name itself is affected.
  pub ensure_ep-others :
      (q : SymKey)
      → IsKey q
      → key_eq name_key q ≡ false
      → lookup (rt_ensure_ep s (c ∷ cs)).1.ephash q ≡ lookup s.ephash q
  unfolding rt_ensure_ep uta_get_ep rmr_sym_put
  ensure_ep-others q hq ne =
      let (found, same, valid') = get-lookup s.ephash valid name_key name_key-IsKey in
      let h = (rmr_sym_get s.ephash name_key).1 in
      let (put, _) = lookup-putin h valid' name_key name_key-IsKey (length s.links.eps) q hq in
      ground (arith, found, same q hq, put, ne)

abbrev or_new : ℕ → Option ℕ → Option ℕ
or_new n x = elim x [ some p ↦ some p | none ↦ some n ]

first_some :
    (s : Store) (valid : IsValid s.ephash) (c : ℕ) (cs : List ℕ)
    → (p : ℕ) × ((rt_ensure_ep s (c ∷ cs)).0 ≡ some p)
first_some s valid c cs =
    let (first, _, _) = ensure_ep-lookup s valid c cs in
    elim (Option-cases (lookup s.ephash (name_key s valid c cs))) [
      | inl e ↦ (length s.links.eps, first ∙ ap (or_new (length s.links.eps)) e)
      | inr (p, e) ↦ (p, first ∙ ap (or_new (length s.links.eps)) e)
    ]

-- What a key leads to stays when a name is ensured.
kept_name :
    (s : Store) (valid : IsValid s.ephash) (c : ℕ) (cs : List ℕ) (k : SymKey)
    → IsKey k
    → (p : ℕ) → lookup s.ephash k ≡ some p
    → lookup (rt_ensure_ep s (c ∷ cs)).1.ephash k ≡ some p
kept_name s valid c cs k hk p e =
    let q = name_key s valid c cs in
    let (first, there, _) = ensure_ep-lookup s valid c cs in
    elim (Bool-cases (key_eq q k)) [
      | inl y ↦
          let same = key_eq_sound q k y in
          ap (lookup (rt_ensure_ep s (c ∷ cs)).1.ephash) (sym same)
          ∙ there
          ∙ first
          ∙ ap (or_new (length s.links.eps)) (ap (lookup s.ephash) same ∙ e)
      | inr n ↦ ensure_ep-others s valid c cs k hk n ∙ e
    ]

-- With a well-formed table of names: a name that is not empty has one endpoint, also after another
-- name, or the same, was ensured.
pub ensure_ep-stable :
    (s : Store) (c c' : ℕ) (cs cs' : List ℕ)
    → IsValid s.ephash
    → let (ep, s') = rt_ensure_ep s (c ∷ cs) in
      let (_, s'') = rt_ensure_ep s' (c' ∷ cs') in
      (p : ℕ) × (ep ≡ some p) × ((rt_ensure_ep s'' (c ∷ cs)).0 ≡ some p)
ensure_ep-stable s c c' cs cs' valid =
    let k = name_key s valid c cs in
    let hk : IsKey k = λ e. absurd (omega arith) in
    let (first, there, valid') = ensure_ep-lookup s valid c cs in
    let s' = (rt_ensure_ep s (c ∷ cs)).1 in
    let (again, there', valid'') = ensure_ep-lookup s' valid' c' cs' in
    let s'' = (rt_ensure_ep s' (c' ∷ cs')).1 in
    let (last, _, _) = ensure_ep-lookup s'' valid'' c cs in
    let (p, is_p) = first_some s valid c cs in
    let kept : lookup s''.ephash k ≡ some p = kept_name s' valid' c' cs' k hk p (there ∙ is_p) in
    (p, is_p, last ∙ ap (or_new (length s''.links.eps)) kept)
