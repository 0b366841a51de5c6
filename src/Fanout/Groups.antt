-- ===== src/Fanout/Groups.antt =====
-- sr_si_static.c, rtable_si_static.c: the endpoint that `mtosend_msg` gets for each group.
use mathlib.Core.Path.{subst}
use native.Mathlib.Nat.{mod-lt}
use ric_plt_lib_rmr.Base.{
  ℕ, ◌+◌, ◌%◌, ◌<◌, ◌≡◌, ◌⊎◌, inl, inr, refl, ap, ◌∙◌, sym, Bool, true, false, Option, none, some,
  List, [], ◌∷◌, arith, ltb, ◌==◌, if◌then◌else◌, length, get_or, set, length-set, get_or-set,
  get_or-outside, Bool-cases,
}
use ric_plt_lib_rmr.Base.Int.{ℤ}
use ric_plt_lib_rmr.Endpoint.{ep_at}
use ric_plt_lib_rmr.Gate.{Gate}
use ric_plt_lib_rmr.Route.{RrGroup, RtableEnt, Store, no_rte, rte_at, group_at, set_group}
use ric_plt_lib_rmr.Route.Select.{
  choose, Selected, nothing, more_of, open_ep, give_ep, give, select_from, uta_epsock_rr,
}
use ric_plt_lib_rmr.Send.Message.{Msg}
use ric_plt_lib_rmr.Fanout.{select_ep}

-- There is an endpoint at each place of a group, and a group in each slot of an entry.
unfoldable pub IsFull : RrGroup → Type 0
IsFull r = (k : ℕ) → k < length r.epts → (p : ℕ) × (get_or r.epts k none ≡ some p)

unfoldable pub AllFull : RtableEnt → Type 0
AllFull e = (g : ℕ) → g < length e.rrgroups → (r : RrGroup) × (group_at e g ≡ some r) × IsFull r

-- What a choice is: nothing, or an endpoint.
abbrev Chosen : Option (ℕ × Option ℕ) → Type 0
Chosen c = (c ≡ none) ⊎ ((st : ℕ) × (p : ℕ) × (c ≡ some (st, some p)))

choose-Chosen :
    (epts : List (Option ℕ)) (i : ℕ)
    → IsFull (record { ep_idx = i; epts = epts })
    → Chosen (choose (record { ep_idx = i; epts = epts })).0
      × ((choose (record { ep_idx = i; epts = epts })).1.epts ≡ epts)
unfolding choose IsFull
choose-Chosen [] i h = (inl refl, refl)
choose-Chosen (x ∷ []) i h =
    let (p, e) = h 0 (omega arith) in (inr (1, p, ap (λ o. some (1, o)) e), refl)
choose-Chosen (x ∷ (y ∷ r)) i h =
    let n = length (x ∷ (y ∷ r)) in
    let (p, e) = h (i % n) (mod-lt i {m = n} (omega arith)) in
    (inr (i % n + 1, p, ap (λ o. some (i % n + 1, o)) e), refl)

IsFull-same : (r r' : RrGroup) → r'.epts ≡ r.epts → IsFull r → IsFull r'
unfolding IsFull
IsFull-same r r' e f =
    subst (λ l. (k : ℕ) → k < length l → (p : ℕ) × (get_or l k none ≡ some p)) (sym e) f

-- A selection without an endpoint has state 0.
abbrev pub Usable : Selected → Type 0
Usable s = (s.state ≡ 0) ⊎ ((fd : ℤ) × (s.nn_sock ≡ some fd))

-- a selection that tells whether there are more groups, is usable, and keeps the entries
abbrev pub Gives : Bool → Store → Selected → Type 0
Gives more s r = (r.more ≡ more) × Usable r × (r.store.rtes ≡ s.rtes)

if-Gives :
    (s : Store) (b more : Bool) (x y : Selected)
    → Gives more s x
    → Gives more s y
    → Gives more s (if b then x else y)
if-Gives s true more x y h k = h
if-Gives s false more x y h k = k

module _ (connect : List ℕ → ℤ) where
  pub give_ep-Gives :
      (registers more : Bool) (state : ℕ) (s : Store) (p : ℕ)
      → Gives more s (give_ep connect registers more state s p)
  unfolding give_ep
  give_ep-Gives registers more state s p =
      let (ok, l) = open_ep connect registers s.links p in
      if-Gives s ok more _ _ (refl, inr ((ep_at l p).nn_sock, refl), refl) (refl, inl refl, refl)

  give-Gives :
      (more : Bool) (s : Store) (c : Option (ℕ × Option ℕ))
      → Chosen c
      → (r : Selected) × (give connect more s c ≡ some r) × Gives more s r
  unfolding give
  give-Gives more s none h = (nothing more s, refl, (refl, inl refl, refl))
  give-Gives more s (some (st, none)) (inl e) = cc
  give-Gives more s (some (st, none)) (inr (st', p, e)) = cc
  give-Gives more s (some (st, some p)) h =
      (give_ep connect true more st s p, refl, give_ep-Gives true more st s p)

  module _ (s : Store) (rte group : ℕ) (h : group < length (rte_at s rte).rrgroups)
      (full : AllFull (rte_at s rte)) where
    more_of-ltb : more_of (rte_at s rte) group ≡ ltb (group + 1) (length (rte_at s rte).rrgroups)
    unfolding AllFull
    more_of-ltb = elim (Bool-cases (ltb (group + 1) (length (rte_at s rte).rrgroups))) [
      | inl y ↦ (let (r, e, f) = full (group + 1) (ground (arith, y)) in rw (y, e) refl)
      | inr n ↦ rw n refl
    ]

    in_store : rte < length s.rtes
    in_store = elim (Bool-cases (ltb rte (length s.rtes))) [
      | inl y ↦ ground (arith, y)
      | inr n ↦
          (let gone = get_or-outside s.rtes rte no_rte (ground (arith, n)) in
            absurd (omega (arith, ap (λ e. length e.rrgroups) gone, h)))
    ]

    -- the entry after a choice in the group
    rte_at-set_group :
        (r : RrGroup)
        → rte_at (set_group s rte group r) rte
          ≡ record (rte_at s rte) { rrgroups = set (rte_at s rte).rrgroups group (some r) }
    unfolding set_group
    rte_at-set_group r =
        let e = record (rte_at s rte) { rrgroups = set (rte_at s rte).rrgroups group (some r) } in
        get_or-set s.rtes rte rte e no_rte in_store ∙ ground arith

    group_at-set :
        (r : RrGroup)
        → IsFull r
        → AllFull (record (rte_at s rte) { rrgroups = set (rte_at s rte).rrgroups group (some r) })
    unfolding AllFull
    group_at-set r f g l =
        let groups = (rte_at s rte).rrgroups in
        let at = get_or-set groups group g (some r) none h in
        elim (Bool-cases (group == g)) [
          | inl y ↦ (r, at ∙ ap (λ b. if b then some r else get_or groups g none) y, f)
          | inr n ↦
              (let (r', e, f') = full g (omega (arith, l, length-set groups group (some r))) in
                (r', at ∙ ap (λ b. if b then some r else get_or groups g none) n ∙ e, f'))
        ]

    after_choice :
        (r : RrGroup)
        → IsFull r
        → (length (rte_at (set_group s rte group r) rte).rrgroups ≡ length (rte_at s rte).rrgroups)
          × AllFull (rte_at (set_group s rte group r) rte)
    after_choice r f =
        let groups = (rte_at s rte).rrgroups in
        (
          ap (λ e. length e.rrgroups) (rte_at-set_group r) ∙ length-set groups group (some r),
          subst AllFull (sym (rte_at-set_group r)) (group_at-set r f),
        )

    select-Gives :
        (r : Selected) × (g' : Store) × (select_from connect s rte group
            (group_at (rte_at s rte) group)
          ≡ some r)
        × Gives (ltb (group + 1) (length (rte_at s rte).rrgroups)) g' r
        × (length (rte_at g' rte).rrgroups ≡ length (rte_at s rte).rrgroups)
        × AllFull (rte_at g' rte)
    unfolding select_from AllFull
    select-Gives =
        let (r, e, f) = full group h in
        let (chosen, same) = choose-Chosen r.epts r.ep_idx f in
        let (choice, r') = choose r in
        let (x, given, gives) =
          give-Gives (more_of (rte_at s rte) group) (set_group s rte group r') choice chosen in
        let (kept, full') = after_choice r' (IsFull-same r r' same f) in
        (
          x,
          set_group s rte group r',
          subst (λ o. select_from connect s rte group o ≡ some x) (sym e) given,
          (gives.0 ∙ more_of-ltb, gives.1, gives.2),
          kept,
          full',
        )

  -- the selection for a group of an entry
  pub select_ep-Gives :
      (g : Gate) (p rte group : ℕ) (m : Msg)
      → group < length (rte_at g.store rte).rrgroups
      → AllFull (rte_at g.store rte)
      → (s : Selected) × (g' : Gate) × (select_ep connect g p rte group m ≡ some (s, g'))
        × (s.more ≡ ltb (group + 1) (length (rte_at g.store rte).rrgroups))
        × Usable s
        × (g'.tables ≡ g.tables)
        × (length (rte_at g'.store rte).rrgroups ≡ length (rte_at g.store rte).rrgroups)
        × AllFull (rte_at g'.store rte)
  unfolding select_ep uta_epsock_rr
  select_ep-Gives g p rte group m h full =
      let (s, st, e, gives, kept, full') = select-Gives g.store rte group h full in
      let some_groups : ltb 0 (length (rte_at g.store rte).rrgroups) ≡ true = ground arith in
      let there : ltb group (length (rte_at g.store rte).rrgroups) ≡ true = ground arith in
      let entry : rte_at s.store rte ≡ rte_at st rte = ap (λ l. get_or l rte no_rte) gives.2 in
      (
        s,
        record g { store = s.store },
        rw (some_groups, there, e) refl,
        gives.0,
        gives.1,
        refl,
        ap (λ x. length x.rrgroups) entry ∙ kept,
        subst AllFull (sym entry) full',
      )
