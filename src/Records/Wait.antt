-- ===== src/Records/Wait.antt =====
-- rt_generic_static.c: the wait of `prep_new_rt`: what the steps of senders keep holds at its end.
use mathlib.Core.Option.{some-injective}
use mathlib.Core.Path.{subst}
use ric_plt_lib_rmr.Base.{
  ℕ, ◌≡◌, refl, ◌⊎◌, inl, inr, Bool, true, false, Option, none, some, List, [], ◌∷◌, if◌then◌else◌,
}
use ric_plt_lib_rmr.Gate.{prep_take, in_use, prep_finish}
use ric_plt_lib_rmr.Records.Tables.{Use, Shared, use_table, drain, prep_new_rt}

if-some :
    {A : Type 0} (b : Bool) (x y : Option A) (a : A)
    → (if b then x else y) ≡ some a
    → ((b ≡ true) × (x ≡ some a)) ⊎ ((b ≡ false) × (y ≡ some a))
if-some true x y a h = inl (refl, h)
if-some false x y a h = inr (refl, h)

module _ (P : Shared → Type 0) (closed : (u : Use) (s : Shared) → P s → P (use_table u s)) where
  stays :
      (o : Option ℕ) (s s' : Shared)
      → P s
      → in_use s.gate o ≡ false
      → some s ≡ some s'
      → P s' × (in_use s'.gate o ≡ false)
  stays o s s' p e h = subst (λ z. P z × (in_use z.gate o ≡ false)) (some-injective s s' h) (p, e)

  drain_lem :
      (us : List Use) (s : Shared) (o : Option ℕ) (s' : Shared)
      → P s
      → drain us s o ≡ some s'
      → P s' × (in_use s'.gate o ≡ false)
  unfolding drain
  drain_lem [] s o s' p h = elim (if-some (in_use s.gate o) none (some s) s' h) [
    | inl (_, k) ↦ cc
    | inr (e, k) ↦ stays o s s' p e k
  ]
  drain_lem (u ∷ us) s o s' p h =
      elim (if-some (in_use s.gate o) (drain us (use_table u s) o) (some s) s' h) [
        | inl (_, k) ↦ drain_lem us (use_table u s) o s' (closed u s p) k
        | inr (e, k) ↦ stays o s s' p e k
      ]

  waited :
      (Q : Shared → Type 0) (o : Option ℕ) (all : Bool) (d : Option Shared) (s' : Shared)
      → ((s1 : Shared) → d ≡ some s1 → P s1 × (in_use s1.gate o ≡ false))
      → ((s1 : Shared)
          → P s1
          → in_use s1.gate o ≡ false
          → Q (record s1 { gate = prep_finish s1.gate o all }))
      → elim d [ none ↦ none | some s1 ↦ some (record s1 { gate = prep_finish s1.gate o all }) ]
        ≡ some s'
      → Q s'
  waited Q o all none s' f g h = cc
  waited Q o all (some s1) s' f g h =
      let (p, e) = f s1 refl in
      subst Q (some-injective (record s1 { gate = prep_finish s1.gate o all }) s' h) (g s1 p e)

-- What the steps of senders keep, from the state without the old table on, holds when the wait is
-- over, and the table that is waited for has no user then.
pub prep_new_rt_lem :
    (P Q : Shared → Type 0) (us : List Use) (s : Shared) (all : Bool) (s' : Shared)
    → ((u : Use) (s1 : Shared) → P s1 → P (use_table u s1))
    → P (record s { gate = (prep_take s.gate).1 })
    → ((s1 : Shared)
        → P s1
        → in_use s1.gate (prep_take s.gate).0 ≡ false
        → Q (record s1 { gate = prep_finish s1.gate (prep_take s.gate).0 all }))
    → prep_new_rt us s all ≡ some s'
    → Q s'
unfolding prep_new_rt
prep_new_rt_lem P Q us s all s' closed p g h =
    let took : Shared = record s { gate = (prep_take s.gate).1 } in
    let o = (prep_take s.gate).0 in
    waited P closed Q o all (drain us took o) s' (λ s1 e. drain_lem P closed us took o s1 p e) g h
