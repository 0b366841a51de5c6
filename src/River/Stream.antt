-- ===== src/River/Stream.antt =====
-- mt_call_si_static.c: the loop of `mt_data_cb` over a stream of messages.
use ric_plt_lib_rmr.Base.{
  ℕ, zero, suc, ◌+◌, ◌≤◌, ◌<◌, ◌≡◌, refl, sym, ap, ◌∙◌, inl, inr, List, [], ◌∷◌, ◌++◌, arith, ltb,
  Bool-cases, length, length-append,
}
use mathlib.Core.List.{append_assoc, append-nil}
use mathlib.Core.Path.{subst}
use ric_plt_lib_rmr.River.{
  River, native32, Raw, Outcome, done, pass_on, find_size, fill, goes_on, returns, waits, complete,
  data_loop,
}
use ric_plt_lib_rmr.River.Length.{native32-append}
use ric_plt_lib_rmr.River.Frames.{Fits, IsFrame, IsPartial, AllFrames, concat}
use ric_plt_lib_rmr.River.Step.{Holding, find_size-few, find_size-enough}
use ric_plt_lib_rmr.River.Fill.{between, between-Holding, fill-waits, fill-complete}

-- The buffers hold these messages, each with room for its bytes.
abbrev pub Carry : List Raw → List (List ℕ) → Type 0
Carry [] [] = Unit
Carry [] (m ∷ ms) = ⊥
Carry (raw ∷ raws) [] = ⊥
Carry (raw ∷ raws) (m ∷ ms) = (raw.bytes ≡ m) × (length m ≤ raw.nbytes) × Carry raws ms

abbrev pub Delivers : Outcome → List (List ℕ) → List ℕ → Type 0
Delivers o ms l = (raws : List Raw) × (r : River) × (o ≡ done raws r) × Carry raws ms × Holding l r

-- What is held is less than the message that the stream goes on with.
held_less :
    (p c m more : List ℕ) (r : River)
    → Holding p r
    → p ++ c ≡ m ++ more
    → IsFrame m
    → length p < length m
held_less p c m more r h e f =
    ground (arith, h.phase, ap (λ s. native32 s 0) e, native32-append p c, native32-append m more)

whole_size : (s m more : List ℕ) → s ≡ m ++ more → IsFrame m → native32 s 0 ≡ length m
whole_size s m more e f = ground (arith, ap (λ s. native32 s 0) e, native32-append m more)

module _ (max_ibm fuel : ℕ) (r r' : River) (b : ℕ) (bs : List ℕ) where
  loop_returns :
      find_size r (b ∷ bs) ≡ returns r' → data_loop max_ibm (suc fuel) r (b ∷ bs) ≡ done [] r'
  unfolding data_loop
  loop_returns e = rw (e, data_loop)

  loop_waits :
      (r'' : River) (rest : List ℕ)
      → find_size r (b ∷ bs) ≡ goes_on r' rest
      → fill max_ibm r' rest ≡ waits r''
      → data_loop max_ibm (suc fuel) r (b ∷ bs) ≡ done [] r''
  unfolding data_loop
  loop_waits r'' rest e e' = rw (e, data_loop, e')

  loop_complete :
      (raw : Raw) (r'' : River) (rest more : List ℕ)
      → find_size r (b ∷ bs) ≡ goes_on r' rest
      → fill max_ibm r' rest ≡ complete raw r'' more
      → data_loop max_ibm (suc fuel) r (b ∷ bs) ≡ pass_on raw (data_loop max_ibm fuel r'' more)
  unfolding data_loop
  loop_complete raw r'' rest more e e' = rw (e, data_loop, e')

-- The start of a message says its size once it is long enough.
size_known :
    (l : List ℕ) → IsPartial l → 9 ≤ length l → (length l < native32 l 0) × Fits (native32 l 0)
size_known l part h = ground arith

module _ (max_ibm fuel : ℕ) (p : List ℕ) (b : ℕ) (bs : List ℕ) (r : River) (h : Holding p r) where
  -- A round that cannot complete a message keeps all bytes.
  round_partial :
      (l : List ℕ)
      → IsPartial l
      → p ++ b ∷ bs ≡ l
      → Delivers (data_loop max_ibm (suc fuel) r (b ∷ bs)) [] l
  round_partial l part e =
      let c = b ∷ bs in
      let lens : length p + length c ≡ length l = sym (length-append p c) ∙ ap length e in
      let is_l : native32 (p ++ c) 0 ≡ native32 l 0 = ap (λ s. native32 s 0) e in
      elim (Bool-cases (ltb (length p + length c) 9)) [
        | inl few ↦
            let (r', runs, h') = find_size-few p c r h (ground arith) in
            ([], r', loop_returns max_ibm fuel r r' b bs runs, tt, subst (λ s. Holding s r') e h')
        | inr many ↦
            let (few, fits) = size_known l part (ground (arith, lens)) in
            let (r', p', rest, runs, same, s) =
              find_size-enough p c r h (ground arith) (subst Fits (sym is_l) fits) in
            let lens' : length p' + length rest ≡ length l =
              sym (length-append p' rest) ∙ ap length (same ∙ e) in
            let (r'', runs', h') =
              fill-waits max_ibm (native32 (p ++ c) 0) p' rest r' s
                (omega (arith, is_l, few, lens')) (ap (λ s. native32 s 0) same)
                (ground (arith, lens', lens, many)) in
            (
              [],
              r'',
              loop_waits max_ibm fuel r r' b bs r'' rest runs runs',
              tt,
              subst (λ s. Holding s r'') (same ∙ e) h',
            )
      ]

  -- A round that completes a message passes it on and goes on with the bytes behind it.
  round_frame :
      (m more : List ℕ)
      → IsFrame m
      → p ++ b ∷ bs ≡ m ++ more
      → (raw : Raw) × (data_loop max_ibm (suc fuel) r (b ∷ bs)
          ≡ pass_on raw (data_loop max_ibm fuel (between max_ibm) more))
        × (raw.bytes ≡ m)
        × (length m ≤ raw.nbytes)
        × (length more ≤ length bs)
  round_frame m more f e =
      let c = b ∷ bs in
      let less = held_less p c m more r h e f in
      let size = whole_size (p ++ c) m more e f in
      let lens : length p + length c ≡ length m + length more =
        sym (length-append p c) ∙ ap length e ∙ length-append m more in
      let (r', p', rest, runs, same, s) =
        find_size-enough p c r h (omega arith) (subst Fits (sym size) f.1) in
      let (raw, runs', bytes, room) =
        fill-complete max_ibm (native32 (p ++ c) 0) p' rest r' s m more (same ∙ e) (sym size) in
      (
        raw,
        loop_complete max_ibm fuel r r' b bs raw (between max_ibm) rest more runs runs',
        bytes,
        room,
        omega arith,
      )

module _ (max_ibm : ℕ) where
  -- What is held when a buffer is empty is not a whole message.
  pub loop_empty :
      (ms : List (List ℕ)) (l p : List ℕ) (r : River)
      → Holding p r
      → AllFrames ms
      → p ++ [] ≡ concat ms ++ l
      → Carry [] ms × Holding l r
  loop_empty [] l p r h fs e = (tt, subst (λ s. Holding s r) (sym (append-nil p) ∙ e) h)
  loop_empty (m ∷ ms) l p r h fs e =
      let e' = e ∙ append_assoc m (concat ms) l in
      let less = held_less p [] m (concat ms ++ l) r h e' fs.0 in
      let sizes : length p ≡ length m + length (concat ms ++ l) =
        ap length (sym (append-nil p) ∙ e') ∙ length-append m (concat ms ++ l) in
      absurd (omega arith)

  -- Over one transport buffer, with a round for each byte.
  pub loop-Delivers :
      (fuel : ℕ) (ms : List (List ℕ)) (l p c : List ℕ) (r : River)
      → Holding p r
      → AllFrames ms
      → IsPartial l
      → p ++ c ≡ concat ms ++ l
      → length c ≤ fuel
      → Delivers (data_loop max_ibm fuel r c) ms l
  unfolding data_loop
  loop-Delivers fuel ms l p [] r h fs part e enough =
      let (carry, h') = loop_empty ms l p r h fs e in ([], r, refl, carry, h')
  loop-Delivers zero ms l p (b ∷ bs) r h fs part e enough = absurd (omega arith)
  loop-Delivers (suc fuel) [] l p (b ∷ bs) r h fs part e enough =
      round_partial max_ibm fuel p b bs r h l part e
  loop-Delivers (suc fuel) (m ∷ ms) l p (b ∷ bs) r h fs part e enough =
      let more = concat ms ++ l in
      let (raw, runs, bytes, room, fewer) =
        round_frame max_ibm fuel p b bs r h m more fs.0 (e ∙ append_assoc m (concat ms) l) in
      let (raws, r', runs', carry, h') =
        loop-Delivers fuel ms l [] more (between max_ibm) (between-Holding max_ibm) fs.1 part refl
          (omega arith) in
      (raw ∷ raws, r', runs ∙ ap (pass_on raw) runs', (bytes, room, carry), h')
