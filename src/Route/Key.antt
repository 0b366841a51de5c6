-- ===== src/Route/Key.antt =====
-- rt_generic_static.c and rtable_si_static.c: the keys of route table entries and the lookup by them.
use ric_plt_lib_rmr.Base.{
  ℕ, zero, suc, ◌+◌, ◌*◌, ◌^◌, ◌≡◌, ◌≢◌, ◌<◌, refl, Bool, not, ◌&&◌, none, some, arith,
  if◌then◌else◌, ap,
}
use ric_plt_lib_rmr.Base.Int.{ℤ, pos, negsuc}
use ric_plt_lib_rmr.Symtab.{SymTab, num, rmr_sym_pull}
use ric_plt_lib_rmr.Symtab.Valid.{IsValid, lookup}
use ric_plt_lib_rmr.Symtab.Put.{get-lookup}
use ric_plt_lib_rmr.Route.{RouteTable, pattern32, unset_subid, is_unset, build_rt_key, uta_get_rte}

-- the values of an int32_t
abbrev pub IsInt32 : ℤ → Type 0
IsInt32 (pos n) = n < 0x80000000
IsInt32 (negsuc n) = n < 0x80000000

pattern32_bound : (z : ℤ) → IsInt32 z → pattern32 z < 0x100000000
pattern32_bound (pos n) h = omega arith
pattern32_bound (negsuc n) h = omega arith

pattern32-injective : (a b : ℤ) → IsInt32 a → IsInt32 b → pattern32 a ≡ pattern32 b → a ≡ b
pattern32-injective (pos m) (pos n) h k e = ap pos (omega arith)
pattern32-injective (pos m) (negsuc n) h k e = absurd (omega arith)
pattern32-injective (negsuc m) (pos n) h k e = absurd (omega arith)
pattern32-injective (negsuc m) (negsuc n) h k e = ap negsuc (omega arith)

key-pattern :
    (sub mtype : ℤ) → build_rt_key sub mtype ≡ pattern32 sub * 0x100000000 + pattern32 mtype
unfolding build_rt_key
key-pattern (pos n) mtype = refl
key-pattern (negsuc zero) mtype = refl
key-pattern (negsuc (suc n)) mtype = ground arith

-- A key is a 64-bit number, and two pairs of a subscription id and a message type have the same key
-- only if they are the same pair; no id at all, -1, is one of them.
pub build_rt_key-injective :
    (sub mtype sub' mtype' : ℤ)
    → IsInt32 sub
    → IsInt32 mtype
    → IsInt32 sub'
    → IsInt32 mtype'
    → build_rt_key sub mtype ≡ build_rt_key sub' mtype'
    → (build_rt_key sub mtype < 2 ^ 64) × (sub ≡ sub') × (mtype ≡ mtype')
build_rt_key-injective sub mtype sub' mtype' hs hm hs' hm' e =
    let b1 = pattern32_bound sub hs in
    let b2 = pattern32_bound mtype hm in
    let b3 = pattern32_bound sub' hs' in
    let b4 = pattern32_bound mtype' hm' in
    let k = key-pattern sub mtype in
    let k' = key-pattern sub' mtype' in
    (
      omega (arith, k, b1, b2),
      pattern32-injective sub sub' hs hs' (omega (arith, e, k, k', b2, b4)),
      pattern32-injective mtype mtype' hm hm' (omega (arith, e, k, k', b2, b4)),
    )

pub unset-key : (mtype : ℤ) → build_rt_key unset_subid mtype ≢ 0
unset-key mtype e = absurd (omega (arith, key-pattern unset_subid mtype))

pub pull-lookup :
    {V : Type 0} (t : SymTab V)
    → IsValid t
    → (key : ℕ) → key ≢ 0
    → ((rmr_sym_pull t key).0 ≡ lookup t (num key))
      × ((q : ℕ) → q ≢ 0 → lookup (rmr_sym_pull t key).1 (num q) ≡ lookup t (num q))
      × IsValid (rmr_sym_pull t key).1
unfolding rmr_sym_pull
pull-lookup t valid key set =
    let (first, same, valid') = get-lookup t valid (num key) set in
    (first, λ q. same (num q), valid')

module _ (rt : RouteTable) (valid : IsValid rt.hash) (sub mtype : ℤ)
    (key_set : build_rt_key sub mtype ≢ 0) (try_alt : Bool) where
  -- In a well-formed table, for a key that is not 0, the entry that is found is that of the full
  -- key; if there is none, the alternative is allowed and a subscription id was given, it is that of
  -- the message type alone. The table stays well formed.
  pub get_rte-lookup :
      ((uta_get_rte rt sub mtype try_alt).0 ≡ elim (lookup rt.hash (num (build_rt_key sub mtype))) [
        | some p ↦ some p
        | none ↦
            if try_alt && not (is_unset sub)
            then lookup rt.hash (num (build_rt_key unset_subid mtype))
            else none
      ])
      × IsValid (uta_get_rte rt sub mtype try_alt).1.hash
  unfolding uta_get_rte
  get_rte-lookup =
      let key = build_rt_key sub mtype in
      let alt = build_rt_key unset_subid mtype in
      let (first, same, valid') = pull-lookup rt.hash valid key key_set in
      let (second, _, valid'') =
        pull-lookup (rmr_sym_pull rt.hash key).1 valid' alt (unset-key mtype) in
      ground (arith, first, same alt (unset-key mtype), valid', second, valid'')
