-- ===== src/Send/Wire.antt =====
-- src/rmr/si/src/si95/sisendt.c: `SIsendt`. What the operating system answers to `select` and to each
-- `SEND` is a parameter; a send of some bytes takes one at least.
use ric_plt_lib_rmr.Base.{
  ℕ, zero, suc, ◌+◌, ◌≡◌, ◌≢◌, refl, ap, Bool, true, false, List, [], ◌∷◌, ◌++◌,
}

pub data Errno : Type 0 where
  no_errno einval ebadfd ebusy eagain eintr other_errno : Errno

pub data SiState : Type 0 where
  si_ok si_error si_err_blocked : SiState

-- the result of `select`: nothing within the time, an exception, or room to write
pub data Poll : Type 0 where
  no_room exception writable : Poll

-- the result of a `SEND`: so many bytes more than one, or a failure
pub data Write : Type 0 where
  wrote : ℕ → Write
  failed : Errno → Write

-- what the system answers to one call; `session` says whether the descriptor is that of a session
pub record System : Type 0 where
  pub session : Bool
  pub poll : Poll
  pub writes : ℕ → Write

-- the state, errno, and the bytes that went out
pub record Sent : Type 0 where
  pub status : SiState
  pub errno : Errno
  pub wire : List ℕ

abbrev pub no_bytes : SiState → Errno → Sent
no_bytes st e = record { status = st; errno = e; wire = [] }

abbrev pub out : ℕ → Sent → Sent
out b s = record s { wire = b ∷ s.wire }

-- The loop from the `SEND` of a number on, when `n` bytes more are taken by the last one. An error
-- ends it whatever errno is, since the test of errno always holds.
unfoldable pub write_all : (ℕ → Write) → ℕ → ℕ → List ℕ → Sent
write_all ws i n [] = no_bytes si_ok no_errno
write_all ws i (suc n) (b ∷ bs) = out b (write_all ws i n bs)
write_all ws i zero (b ∷ bs) = elim (ws i) [
  | wrote n ↦ out b (write_all ws (i + 1) n bs)
  | failed e ↦ no_bytes si_error e
]

-- A message without bytes leaves the first value of the status.
unfoldable pub write_some : (ℕ → Write) → List ℕ → Sent
write_some ws [] = no_bytes si_error no_errno
write_some ws (b ∷ bs) = write_all ws 0 0 (b ∷ bs)

unfoldable pub si_sendt : System → List ℕ → Sent
unfolding write_some
si_sendt os bytes = elim os.session [
  | false ↦ no_bytes si_error ebadfd
  | true ↦ elim os.poll [
    | no_room ↦ no_bytes si_err_blocked ebusy
    | exception ↦ no_bytes si_error ebadfd
    | writable ↦ write_some os.writes bytes
  ]
]

-- A front of the bytes went out, and all of them if the state is SI_OK.
unfoldable pub IsFrontOf : List ℕ → Sent → Type 0
IsFrontOf bytes s =
    ((rest : List ℕ) × (s.wire ++ rest ≡ bytes)) × (s.status ≡ si_ok → s.wire ≡ bytes)

out-IsFrontOf : (b : ℕ) (bs : List ℕ) (s : Sent) → IsFrontOf bs s → IsFrontOf (b ∷ bs) (out b s)
unfolding IsFrontOf
out-IsFrontOf b bs s ((rest, e), f) = ((rest, ap (◌∷◌ b) e), λ k. ap (◌∷◌ b) (f k))

stopped-IsFrontOf :
    (bs : List ℕ) (st : SiState) (e : Errno) → (st ≡ si_ok → ⊥) → IsFrontOf bs (no_bytes st e)
unfolding IsFrontOf
stopped-IsFrontOf bs st e h = ((bs, refl), λ k. absurd (h k))

-- one `SEND` and what follows it
first-IsFrontOf :
    (b : ℕ) (bs : List ℕ) (w : Write) (go_on : ℕ → Sent)
    → ((n : ℕ) → IsFrontOf bs (go_on n))
    → IsFrontOf (b ∷ bs) (elim w [ wrote n ↦ out b (go_on n) | failed e ↦ no_bytes si_error e ])
first-IsFrontOf b bs (wrote n) go_on h = out-IsFrontOf b bs (go_on n) (h n)
first-IsFrontOf b bs (failed e) go_on h = stopped-IsFrontOf (b ∷ bs) si_error e (λ k. cc)

write_all-IsFrontOf : (ws : ℕ → Write) (i n : ℕ) (bs : List ℕ) → IsFrontOf bs (write_all ws i n bs)
unfolding write_all IsFrontOf
write_all-IsFrontOf ws i n [] = (([], refl), λ _. refl)
write_all-IsFrontOf ws i (suc n) (b ∷ bs) =
    out-IsFrontOf b bs (write_all ws i n bs) (write_all-IsFrontOf ws i n bs)
write_all-IsFrontOf ws i zero (b ∷ bs) =
    first-IsFrontOf b bs (ws i) (λ n. write_all ws (i + 1) n bs)
      (λ n. write_all-IsFrontOf ws (i + 1) n bs)

write_some-IsFrontOf : (ws : ℕ → Write) (bs : List ℕ) → IsFrontOf bs (write_some ws bs)
unfolding write_some
write_some-IsFrontOf ws [] = stopped-IsFrontOf [] si_error no_errno (λ k. cc)
write_some-IsFrontOf ws (b ∷ bs) = write_all-IsFrontOf ws 0 0 (b ∷ bs)

polled-IsFrontOf :
    (session : Bool) (poll : Poll) (ws : ℕ → Write) (bytes : List ℕ)
    → IsFrontOf bytes (si_sendt (record { session = session; poll = poll; writes = ws }) bytes)
unfolding si_sendt
polled-IsFrontOf false poll ws bytes = stopped-IsFrontOf bytes si_error ebadfd (λ k. cc)
polled-IsFrontOf true no_room ws bytes = stopped-IsFrontOf bytes si_err_blocked ebusy (λ k. cc)
polled-IsFrontOf true exception ws bytes = stopped-IsFrontOf bytes si_error ebadfd (λ k. cc)
polled-IsFrontOf true writable ws bytes = write_some-IsFrontOf ws bytes

-- Whatever the system answers, the bytes that went out are a front of those given, in order, and all
-- of them if the state is SI_OK.
pub si_sendt-IsFrontOf : (os : System) (bytes : List ℕ) → IsFrontOf bytes (si_sendt os bytes)
si_sendt-IsFrontOf os bytes = polled-IsFrontOf os.session os.poll os.writes bytes

-- A call that would block sends nothing, and errno is not EAGAIN then.
pub si_sendt-blocked :
    (os : System) (bytes : List ℕ)
    → os.session ≡ true
    → os.poll ≡ no_room
    → si_sendt os bytes ≡ no_bytes si_err_blocked ebusy
unfolding si_sendt
si_sendt-blocked os bytes s p = rw (s, p) refl

first-blocked :
    (b : ℕ) (w : Write) (go_on : ℕ → Sent)
    → ((n : ℕ) → (go_on n).status ≢ si_err_blocked)
    → (elim w as (λ _. Sent) [ wrote n ↦ out b (go_on n) | failed e ↦ no_bytes si_error e ]).status
      ≢ si_err_blocked
first-blocked b (wrote n) go_on h e = h n e
first-blocked b (failed k) go_on h e = cc

write_all-blocked :
    (ws : ℕ → Write) (i n : ℕ) (bs : List ℕ) → (write_all ws i n bs).status ≢ si_err_blocked
unfolding write_all
write_all-blocked ws i n [] e = cc
write_all-blocked ws i (suc n) (b ∷ bs) e = write_all-blocked ws i n bs e
write_all-blocked ws i zero (b ∷ bs) e =
    first-blocked b (ws i) (λ n. write_all ws (i + 1) n bs) (λ n. write_all-blocked ws (i + 1) n bs)
      e

polled-quiet :
    (session : Bool) (poll : Poll) (ws : ℕ → Write) (bytes : List ℕ)
    → let s = si_sendt (record { session = session; poll = poll; writes = ws }) bytes in
      s.status ≡ si_err_blocked → s.wire ≡ []
unfolding si_sendt write_some
polled-quiet false poll ws bytes e = refl
polled-quiet true no_room ws bytes e = refl
polled-quiet true exception ws bytes e = refl
polled-quiet true writable ws [] e = refl
polled-quiet true writable ws (b ∷ bs) e = absurd (write_all-blocked ws 0 0 (b ∷ bs) e)

-- A call that would block has put no byte out.
pub si_sendt-quiet :
    (os : System) (bytes : List ℕ)
    → (si_sendt os bytes).status ≡ si_err_blocked
    → (si_sendt os bytes).wire ≡ []
si_sendt-quiet os bytes e = polled-quiet os.session os.poll os.writes bytes e
