-- ===== src/Symtab/Tests.antt =====
-- symtab.c: the theorems at tables with a few entries.
use ric_plt_lib_rmr.Base.{List, ℕ, ◌≡◌, refl, true, none, some, [], ◌∷◌, arith, if◌then◌else◌}
use ric_plt_lib_rmr.Symtab.{
  SymTab, SymKey, text, num, existed, new_entry, putin, rmr_sym_del, find_ele, slot, hits, new_ele,
  sym_hash,
}
use ric_plt_lib_rmr.Symtab.Find.{IsKey, key_eq}
use ric_plt_lib_rmr.Symtab.Valid.{IsValid, empty, empty-IsValid, lookup}
use ric_plt_lib_rmr.Symtab.Put.{putin-IsValid, lookup-putin}
use ric_plt_lib_rmr.Symtab.Delete.{lookup-del}

abbrev no_entries : SymTab ℕ
no_entries = empty 11

no_entries-IsValid : IsValid no_entries
no_entries-IsValid = empty-IsValid 11 (omega arith)

-- "meid" in class 2, and two numbers of one chain
abbrev meid : SymKey
meid = text (b'm' ∷ b'e' ∷ b'i' ∷ b'd' ∷ []) 2

abbrev five : SymKey
five = num 5

abbrev sixteen : SymKey
sixteen = num 16

five-IsKey : IsKey five
five-IsKey = λ e. absurd (omega arith)

sixteen-IsKey : IsKey sixteen
sixteen-IsKey = λ e. absurd (omega arith)

meid-IsKey : IsKey meid
meid-IsKey = λ e. absurd (omega arith)

abbrev with_five : SymTab ℕ
with_five = (putin true no_entries five 70).1

with_five-IsValid : IsValid with_five
with_five-IsValid = putin-IsValid no_entries no_entries-IsValid five five-IsKey 70

abbrev with_both : SymTab ℕ
with_both = (putin true with_five sixteen 80).1

with_both-IsValid : IsValid with_both
with_both-IsValid = putin-IsValid with_five with_five-IsValid sixteen sixteen-IsKey 80

both_found :
    (lookup with_both five ≡ some 70)
    × (lookup with_both sixteen ≡ some 80)
    × (lookup with_both meid ≡ none)
unfolding putin find_ele slot hits new_ele sym_hash
both_found = (refl, refl, refl)

lookup-putin_example :
    (lookup (putin true with_both five 71).1 sixteen
      ≡ (if key_eq five sixteen then some 71 else lookup with_both sixteen))
    × ((putin true with_both five 71).0
        ≡ elim (lookup with_both five) [ none ↦ new_entry | some _ ↦ existed ])
lookup-putin_example =
    lookup-putin with_both with_both-IsValid five five-IsKey 71 sixteen sixteen-IsKey

lookup-del_example :
    IsValid (rmr_sym_del with_both sixteen)
    × ((q : SymKey)
        → IsKey q
        → lookup (rmr_sym_del with_both sixteen) q
          ≡ (if key_eq sixteen q then none else lookup with_both q))
lookup-del_example = lookup-del with_both with_both-IsValid sixteen sixteen-IsKey

-- "c" hashes to 99, a multiple of 11.
abbrev letter : List ℕ
letter = b'c' ∷ []
