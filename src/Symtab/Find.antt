-- ===== src/Symtab/Find.antt =====
-- symtab.c: the search of a chain, and what writes to a chain do to later searches.
use ric_plt_lib_rmr.Base.{
  ℕ, ◌+◌, ◌≤◌, ◌<◌, ◌≡◌, refl, ◌≢◌, ◌⊎◌, inl, inr, Bool, true, false, ◌&&◌, Option, none, some,
  List, [], ◌∷◌, arith, ◌==◌, if◌then◌else◌, str_eq, str_eq_sound, str_eq_refl, length,
}
use ric_plt_lib_rmr.Symtab.{
  SymEle, SymKey, text, num, name_is, hits, find_ele, update_ele, unchain, new_ele, replace,
  referred,
}

-- The keys that clients use: a string in a class, or a number other than 0.
abbrev pub IsKey : SymKey → Type 0
IsKey (text n class) = class ≢ 0
IsKey (num nkey) = nkey ≢ 0

unfoldable pub key_eq : SymKey → SymKey → Bool
key_eq (text n c) (text m d) = c == d && str_eq n m
key_eq (text n c) (num m) = false
key_eq (num n) (text m d) = false
key_eq (num n) (num m) = n == m

pub key_eq_refl : (k : SymKey) → key_eq k k ≡ true
unfolding key_eq
key_eq_refl (text n c) = ground (arith, str_eq_refl n)
key_eq_refl (num n) = ground arith

pub key_eq_sound : (k q : SymKey) → key_eq k q ≡ true → k ≡ q
unfolding key_eq
key_eq_sound (text n c) (text m d) h = ground (arith, str_eq_sound n m)
key_eq_sound (text n c) (num m) h = cc
key_eq_sound (num n) (text m d) h = cc
key_eq_sound (num n) (num m) h = ground arith

pub key_eq_symm : (k q : SymKey) → key_eq k q ≡ key_eq q k
key_eq_symm k q = ground (arith, key_eq_sound k q, key_eq_sound q k, key_eq_refl k, key_eq_refl q)

name_is_sound : (o : Option (List ℕ)) (n : List ℕ) → name_is o n ≡ true → o ≡ some n
unfolding name_is
name_is_sound none n h = cc
name_is_sound (some m) n h = ground (arith, str_eq_sound m n)

module _ {ℓ} {V : Type ℓ} where
  -- An entry with a name has no number.
  abbrev pub IsGood : SymEle V → Type 0
  IsGood e = (e.class ≡ 0) ⊎ (e.nkey ≡ 0)

  abbrev pub AllGood : List (SymEle V) → Type 0
  AllGood [] = Unit
  AllGood (e ∷ c) = IsGood e × AllGood c

  pub hits-same :
      (k q : SymKey) (e : SymEle V)
      → IsKey k
      → IsKey q
      → IsGood e
      → hits k e ≡ true
      → hits q e ≡ key_eq k q
  unfolding hits key_eq
  hits-same (text n c) (text m d) e hk hq g h = ground (arith, name_is_sound e.name n)
  hits-same (text n c) (num m) e hk hq g h = ground arith
  hits-same (num n) (text m d) e hk hq g h = ground arith
  hits-same (num n) (num m) e hk hq g h = ground arith

  -- what a search of the chain reads
  abbrev pub value : SymKey → List (SymEle V) → Option V
  value k [] = none
  value k (e ∷ c) = if hits k e then some e.val else value k c

  abbrev pub count : SymKey → List (SymEle V) → ℕ
  count k [] = 0
  count k (e ∷ c) = (if hits k e then 1 else 0) + count k c

  pub value-find :
      (k : SymKey) (c : List (SymEle V))
      → elim (find_ele k c) [ none ↦ none | some e ↦ some e.val ] ≡ value k c
  unfolding find_ele
  value-find k [] = refl
  value-find k (e ∷ c) = ground (arith, value-find k c)

  pub count-find : (k : SymKey) (c : List (SymEle V)) → find_ele k c ≡ none → count k c ≡ 0
  unfolding find_ele
  count-find k [] h = refl
  count-find k (e ∷ c) h = ground (arith, count-find k c)

  pub count-pos :
      (k : SymKey) (c : List (SymEle V)) (e : SymEle V) → find_ele k c ≡ some e → 0 < count k c
  unfolding find_ele
  count-pos k [] e h = cc
  count-pos k (x ∷ c) e h = ground (arith, count-pos k c e)

  pub value-none : (k : SymKey) (c : List (SymEle V)) → count k c ≡ 0 → value k c ≡ none
  value-none k [] h = refl
  value-none k (e ∷ c) h = ground (arith, value-none k c)

  pub new-IsGood : (k : SymKey) (v : V) → IsGood (new_ele k v)
  unfolding new_ele
  new-IsGood (text n c) v = inr refl
  new-IsGood (num n) v = inl refl

  pub hits-new : (k : SymKey) (v : V) → hits k (new_ele k v) ≡ true
  unfolding hits new_ele
  hits-new (text n c) v = ground (arith, str_eq_refl n)
  hits-new (num n) v = ground arith

  val-new : (k : SymKey) (v : V) → (new_ele k v).val ≡ v
  unfolding new_ele
  val-new (text n c) v = refl
  val-new (num n) v = refl

  -- Changes of an element that keep what identifies it.
  pub hits-replace : (k : SymKey) (v : V) (e : SymEle V) → hits k (replace v e) ≡ hits k e
  unfolding hits
  hits-replace (text n c) v e = refl
  hits-replace (num n) v e = refl

  pub hits-referred : (k : SymKey) (e : SymEle V) → hits k (referred e) ≡ hits k e
  unfolding hits
  hits-referred (text n c) e = refl
  hits-referred (num n) e = refl

  module _ (k q : SymKey) (hk : IsKey k) (hq : IsKey q) where
    -- An element is found under both keys only if they are one.
    apart : (e : SymEle V) → IsGood e → hits k e ≡ true → hits q e ≡ key_eq k q
    apart e g h = hits-same k q e hk hq g h

    apart_back : (e : SymEle V) → IsGood e → hits q e ≡ true → hits k e ≡ key_eq k q
    apart_back e g h = rw (key_eq_symm k q) (hits-same q k e hq hk g h)

    pub value-update :
        (v : V) (c : List (SymEle V)) (old : SymEle V)
        → AllGood c
        → find_ele k c ≡ some old
        → value q (update_ele k (replace v) c) ≡ (if key_eq k q then some v else value q c)
    unfolding find_ele update_ele
    value-update v [] old g h = cc
    value-update v (e ∷ c) old g h =
        ground (arith, value-update v c old, apart e, apart_back e, hits-replace q v e)

    pub value-referred : (c : List (SymEle V)) → value q (update_ele k referred c) ≡ value q c
    unfolding update_ele
    value-referred [] = refl
    value-referred (e ∷ c) = ground (arith, value-referred c, hits-referred q e)

    pub value-new :
        (v : V) (c : List (SymEle V))
        → value q (new_ele k v ∷ c) ≡ (if key_eq k q then some v else value q c)
    value-new v c = ground (arith, apart (new_ele k v), hits-new k v, new-IsGood k v, val-new k v)

    pub value-unchain :
        (c : List (SymEle V))
        → AllGood c
        → count k c ≤ 1
        → value q (unchain k c) ≡ (if key_eq k q then none else value q c)
    unfolding unchain
    value-unchain [] g h = ground arith
    value-unchain (e ∷ c) g h =
        ground (arith, value-unchain c, apart e, apart_back e, value-none k c, key_eq_sound k q)

    pub count-update :
        (f : SymEle V → SymEle V) (c : List (SymEle V))
        → ((e : SymEle V) → hits q (f e) ≡ hits q e)
        → count q (update_ele k f c) ≡ count q c
    unfolding update_ele
    count-update f [] same = refl
    count-update f (e ∷ c) same = ground (arith, count-update f c, same e)

    pub count-new :
        (v : V) (c : List (SymEle V))
        → count q (new_ele k v ∷ c) ≡ (if key_eq k q then 1 else 0) + count q c
    count-new v c = ground (arith, apart (new_ele k v), hits-new k v, new-IsGood k v)

    pub count-unchain-le : (c : List (SymEle V)) → count q (unchain k c) ≤ count q c
    unfolding unchain
    count-unchain-le [] = omega arith
    count-unchain-le (e ∷ c) = ground (arith, count-unchain-le c)

  pub length-update :
      (k : SymKey) (f : SymEle V → SymEle V) (c : List (SymEle V))
      → length (update_ele k f c) ≡ length c
  unfolding update_ele
  length-update k f [] = refl
  length-update k f (e ∷ c) = ground (arith, length-update k f c)

  pub length-unchain :
      (k : SymKey) (c : List (SymEle V)) (e : SymEle V)
      → find_ele k c ≡ some e
      → length (unchain k c) + 1 ≡ length c
  unfolding unchain find_ele
  length-unchain k [] e h = cc
  length-unchain k (x ∷ c) e h = ground (arith, length-unchain k c e)
