-- ===== src/Records/Seed.antt =====
-- rt_generic_static.c: `read_static_rt`, the seed table in a file.
use ric_plt_lib_rmr.Base.{
  ℕ, ◌≡◌, refl, ap, ◌∙◌, inl, inr, Bool, true, false, Option, none, some, List, [], ◌∷◌, ◌++◌, ◌==◌,
  if◌then◌else◌, Bool-cases, arith,
}
use ric_plt_lib_rmr.Endpoint.{has_char}
use mathlib.Core.List.{append_assoc}
use ric_plt_lib_rmr.Records.Text.{ensure_nlterm, last_of}
use ric_plt_lib_rmr.Records.Tables.{Use, Ack, Pctx, Rtc, Parsed, crashes, waits, parsed}
use ric_plt_lib_rmr.Records.Parse.{parse_recs}

-- A carriage return becomes a newline.
unfoldable pub fix_returns : List ℕ → List ℕ
fix_returns [] = []
fix_returns (c ∷ s) = (if c == b'\r' then b'\n' else c) ∷ fix_returns s

-- a character before the first record; a last record without a newline is not parsed
unfoldable pub to_first : ℕ → List (List ℕ) → List (List ℕ)
to_first c [] = []
to_first c (r ∷ rs) = (c ∷ r) ∷ rs

-- the loop that cuts the buffer at newlines
unfoldable pub split_records : List ℕ → List (List ℕ)
unfolding to_first
split_records [] = []
split_records (c ∷ s) =
    let rest = split_records s in if c == b'\n' then [] ∷ rest else to_first c rest

abbrev pub seed_records : Option (List ℕ) → List (List ℕ)
seed_records fbuf = split_records (fix_returns (ensure_nlterm fbuf))

abbrev restore : Option Pctx → Parsed → Parsed
restore c crashes = crashes
restore c waits = waits
restore c (parsed m) = parsed (record m { pctx = c })

-- `fbuf` is what `uta_fib` read; no acknowledgement can be sent.
unfoldable pub read_static_rt : (Ack → Bool) → (ℕ → List Use) → Rtc → Option (List ℕ) → Parsed
read_static_rt sent uses m fbuf =
    restore m.pctx (parse_recs sent uses 0 (record m { pctx = none }) (seed_records fbuf))

-- each record with a newline behind it
unfoldable pub unlines : List (List ℕ) → List ℕ
unlines [] = []
unlines (r ∷ rs) = r ++ (b'\n' ∷ unlines rs)

-- No record has a newline in it.
unfoldable pub AllLines : List (List ℕ) → Type 0
AllLines [] = Unit
AllLines (r ∷ rs) = (has_char b'\n' r ≡ false) × AllLines rs

-- lines, each ended by a carriage return or by a newline
unfoldable pub text : List (List ℕ × Bool) → List ℕ
text [] = []
text ((r, ret) ∷ rs) = r ++ ((if ret then b'\r' else b'\n') ∷ text rs)

abbrev pub lines : List (List ℕ × Bool) → List (List ℕ)
lines [] = []
lines ((r, ret) ∷ rs) = r ∷ lines rs

-- without carriage returns and newlines
abbrev pub IsClean : List ℕ → Type 0
IsClean r = (has_char b'\r' r ≡ false) × (has_char b'\n' r ≡ false)

unfoldable pub AllClean : List (List ℕ × Bool) → Type 0
AllClean [] = Unit
AllClean ((r, ret) ∷ rs) = IsClean r × AllClean rs

-- A line and its end are the first record.
split-line :
    (r s : List ℕ) (ret : Bool)
    → has_char b'\r' r ≡ false
    → has_char b'\n' r ≡ false
    → split_records (fix_returns (r ++ ((if ret then b'\r' else b'\n') ∷ s)))
      ≡ r ∷ split_records (fix_returns s)
unfolding split_records fix_returns to_first has_char
split-line [] s true h k = refl
split-line [] s false h k = refl
split-line (c ∷ r) s ret h k = elim (Bool-cases (c == b'\r')) [
  | inl y ↦ ground (arith, y, h)
  | inr n ↦ elim (Bool-cases (c == b'\n')) [
    | inl y ↦ ground (arith, y, k)
    | inr f ↦
        (let rest = split-line r s ret (ground (arith, n, h)) (ground (arith, f, k)) in
          rw n (rw f (ap (to_first c) rest)))
  ]
]

split-text :
    (rs : List (List ℕ × Bool)) (s : List ℕ)
    → AllClean rs
    → split_records (fix_returns (text rs ++ s)) ≡ lines rs ++ split_records (fix_returns s)
unfolding text AllClean
split-text [] s h = refl
split-text ((r, ret) ∷ rs) s (clean, h) =
    ap (λ x. split_records (fix_returns x)) (append_assoc r _ s)
    ∙ split-line r (text rs ++ s) ret clean.0 clean.1
    ∙ ap (◌∷◌ r) (split-text rs s h)

last-append : (c : ℕ) (s : List ℕ) (d : ℕ) (t : List ℕ) → last_of c (s ++ (d ∷ t)) ≡ last_of d t
last-append c [] d t = refl
last-append c (e ∷ s) d t = last-append e s d t

last-clean : (d : ℕ) (t : List ℕ) → has_char b'\n' (d ∷ t) ≡ false → (last_of d t == b'\n') ≡ false
unfolding has_char
last-clean d [] h = ground (arith, h)
last-clean d (e ∷ t) h = last-clean e t (ground (arith, h))

nlterm_lem :
    (c : ℕ) (s : List ℕ)
    → ensure_nlterm (some (c ∷ s))
      ≡ (if last_of c s == b'\n' then c ∷ s else (c ∷ s) ++ (b'\n' ∷ []))
unfolding ensure_nlterm
nlterm_lem c [] = refl
nlterm_lem c (d ∷ s) = refl

-- A newline is put behind a last line that has none,
nlterm-open :
    (x : List ℕ) (d : ℕ) (t : List ℕ)
    → has_char b'\n' (d ∷ t) ≡ false
    → ensure_nlterm (some (x ++ (d ∷ t))) ≡ (x ++ (d ∷ t)) ++ (b'\n' ∷ [])
nlterm-open [] d t h =
    nlterm_lem d t ∙ ap (λ b. if b then d ∷ t else (d ∷ t) ++ (b'\n' ∷ [])) (last-clean d t h)
nlterm-open (c ∷ x) d t h =
    let s = x ++ (d ∷ t) in
    let other : (last_of c s == b'\n') ≡ false =
      ap (λ l. l == b'\n') (last-append c x d t) ∙ last-clean d t h in
    nlterm_lem c s ∙ ap (λ b. if b then c ∷ s else (c ∷ s) ++ (b'\n' ∷ [])) other

-- and none behind one that has.
nlterm-closed : (x : List ℕ) → ensure_nlterm (some (x ++ (b'\n' ∷ []))) ≡ x ++ (b'\n' ∷ [])
nlterm-closed [] = nlterm_lem b'\n' []
nlterm-closed (c ∷ x) =
    let s = x ++ (b'\n' ∷ []) in
    nlterm_lem c s
    ∙ ap (λ b. if b then c ∷ s else (c ∷ s) ++ (b'\n' ∷ []))
        (ap (λ l. l == b'\n') (last-append c x b'\n' []))

split-last :
    (rs : List (List ℕ × Bool)) (last : List ℕ)
    → AllClean rs
    → IsClean last
    → split_records (fix_returns ((text rs ++ last) ++ (b'\n' ∷ []))) ≡ lines rs ++ (last ∷ [])
unfolding split_records fix_returns
split-last rs last h clean =
    ap (λ x. split_records (fix_returns x)) (append_assoc (text rs) last (b'\n' ∷ []))
    ∙ split-text rs (last ++ (b'\n' ∷ [])) h
    ∙ ap (λ x. lines rs ++ x) (split-line last [] false clean.0 clean.1)

-- The records of a seed file are its lines, each ended by a newline or by a carriage return; the
-- last line, which is not empty, is a record too, whether a newline ends it or the file does.
pub seed_records-lines :
    (rs : List (List ℕ × Bool)) (d : ℕ) (t : List ℕ)
    → AllClean rs
    → IsClean (d ∷ t)
    → (seed_records (some (text rs ++ (d ∷ t))) ≡ lines rs ++ ((d ∷ t) ∷ []))
      × (seed_records (some ((text rs ++ (d ∷ t)) ++ (b'\n' ∷ []))) ≡ lines rs ++ ((d ∷ t) ∷ []))
seed_records-lines rs d t h clean =
    let parsed_as = λ (x : List ℕ). split_records (fix_returns x) in
    (
      ap parsed_as (nlterm-open (text rs) d t clean.1) ∙ split-last rs (d ∷ t) h clean,
      ap parsed_as (nlterm-closed (text rs ++ (d ∷ t))) ∙ split-last rs (d ∷ t) h clean,
    )
