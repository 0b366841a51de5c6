-- ===== src/River/Step.antt =====
-- mt_call_si_static.c: one round of the loop of `mt_data_cb`.
use ric_plt_lib_rmr.Base.{
  ℕ, ◌+◌, ◌-◌, ◌≤◌, ◌<◌, ◌≡◌, refl, sym, ap, ◌∙◌, ◌⊎◌, inl, inr, false, some, List, [], ◌∷◌, ◌++◌,
  arith, ltb, lt→ltb, Bool-cases, length, take, drop, take-all, take-append-drop, length-take,
  length-append,
}
use mathlib.Core.List.{append_assoc}
use ric_plt_lib_rmr.Base.Int.{pos, is_positive}
use ric_plt_lib_rmr.River.{River, good, native32, grab, sized, returns, goes_on, find_size}
use ric_plt_lib_rmr.River.Length.{extract_mlen-native, native32-append}
use ric_plt_lib_rmr.River.Frames.{Fits}

-- The river has `p`, the start of a message, and has read the size if it is there.
pub record Holding (p : List ℕ) (r : River) : Type 0 where
  pub bytes : r.accum ≡ p
  pub ipt : r.ipt ≡ length p
  pub state : r.state ≡ good
  pub room : 1024 ≤ r.nbytes
  pub phase :
      ((length p < 9) × (is_positive r.msg_size ≡ false))
      ⊎ ((9 ≤ length p)
          × (length p < native32 p 0)
          × Fits (native32 p 0)
          × (r.msg_size ≡ pos (native32 p 0))
          × (native32 p 0 ≤ r.nbytes))

-- The size `n` is known, and the accumulator has room for it and `p` in it.
pub record Sized (n : ℕ) (p : List ℕ) (r : River) : Type 0 where
  pub bytes : r.accum ≡ p
  pub ipt : r.ipt ≡ length p
  pub state : r.state ≡ good
  pub room : 1024 ≤ r.nbytes
  pub size : r.msg_size ≡ pos n
  pub short : length p ≤ n
  pub fits : Fits n
  pub holds : n ≤ r.nbytes

-- A copy that stays in the accumulator adds to what is held.
pub grab-lem :
    (p c : List ℕ) (r : River)
    → r.accum ≡ p
    → r.ipt ≡ length p
    → length p + length c ≤ r.nbytes
    → grab r c ≡ some (record r { accum = p ++ c; ipt = length p + length c })
unfolding grab
grab-lem p c r e i h =
    let same : take r.ipt r.accum ≡ p = rw (e, i) (take-all p) in ground (arith, same)

sized-lem :
    (n : ℕ) (p rest : List ℕ) (r : River)
    → Fits n
    → r.accum ≡ p
    → r.ipt ≡ length p
    → r.state ≡ good
    → 1024 ≤ r.nbytes
    → length p ≤ 9
    → (r' : River) × (sized r n rest ≡ goes_on r' rest) × Sized n p r'
unfolding sized
sized-lem n p rest r f e i s room l = elim (Bool-cases (ltb r.nbytes n)) [
  | inl big ↦ (
    record r { msg_size = pos n; nbytes = n + 128 },
    ground arith,
    record {
      bytes = e;
      ipt = i;
      state = s;
      room = ground arith;
      size = refl;
      short = omega arith;
      fits = f;
      holds = omega arith;
    },
  )
  | inr small ↦ (
    record r { msg_size = pos n },
    ground arith,
    record {
      bytes = e;
      ipt = i;
      state = s;
      room = room;
      size = refl;
      short = omega arith;
      fits = f;
      holds = ground arith;
    },
  )
]

length-zero : (p : List ℕ) → length p ≡ 0 → p ≡ []
length-zero [] h = refl
length-zero (x ∷ p) h = absurd (omega arith)

module _ (p c : List ℕ) (r : River) (h : Holding p r) where
  -- Too few bytes for the size field: they are kept.
  pub find_size-few :
      length p + length c < 9 → (r' : River) × (find_size r c ≡ returns r') × Holding (p ++ c) r'
  unfolding find_size
  find_size-few few =
      let g = grab-lem p c r h.bytes h.ipt (omega (arith, h.room)) in
      let unset : is_positive r.msg_size ≡ false = ground (arith, h.phase) in
      (
        record r { accum = p ++ c; ipt = length p + length c },
        rw (unset, lt→ltb (length c) (9 - r.ipt) (omega (arith, h.ipt)), g),
        record {
          bytes = refl;
          ipt = sym (length-append p c);
          state = h.state;
          room = h.room;
          phase = inl (rw (length-append p c) few, unset);
        },
      )

  -- Otherwise the size is known afterwards, and no byte is lost.
  pub find_size-enough :
      9 ≤ length p + length c
      → Fits (native32 (p ++ c) 0)
      → (r' : River) × (p' : List ℕ) × (rest : List ℕ) × (find_size r c ≡ goes_on r' rest)
        × (p' ++ rest ≡ p ++ c)
        × Sized (native32 (p ++ c) 0) p' r'
  unfolding find_size
  find_size-enough enough fits = elim h.phase [
    | inr (len, less, fits', size, room) ↦
        let same = native32-append p c (omega arith) in
        (
          r,
          p,
          c,
          rw size (rw (lt→ltb 0 (native32 p 0) (omega arith))),
          refl,
          record {
            bytes = h.bytes;
            ipt = h.ipt;
            state = h.state;
            room = h.room;
            size = size ∙ ap pos (sym same);
            short = omega (arith, same);
            fits = fits;
            holds = omega (arith, same);
          },
        )
    | inl (len, unset) ↦
        let enough' : ltb (length c) (9 - r.ipt) ≡ false = ground (arith, h.ipt) in
        elim (Bool-cases (ltb 0 r.ipt)) [
          | inr none_yet ↦
              let nothing : p ≡ [] = length-zero p (ground (arith, h.ipt)) in
              let same : native32 (p ++ c) 0 ≡ native32 c 0 = rw nothing in
              let (r', runs, sized') =
                sized-lem (native32 (p ++ c) 0) p c r fits h.bytes h.ipt h.state h.room
                  (omega arith) in
              (
                r',
                p,
                c,
                rw (unset, enough', none_yet, extract_mlen-native c) (rw same at runs),
                refl,
                sized',
              )
          | inl some_yet ↦
              let need : ℕ = 9 - r.ipt in
              let a = take need c in
              let len_a : length a ≡ need = length-take need c (omega (arith, h.ipt)) in
              let r₂ : River = record r { accum = p ++ a; ipt = length p + length a } in
              let split : p ++ c ≡ (p ++ a) ++ drop need c =
                ap (◌++◌ p) (sym (take-append-drop need c))
                ∙ sym (append_assoc p a (drop need c)) in
              let len9 : length (p ++ a) ≡ 9 = omega (arith, length-append p a, len_a, h.ipt) in
              let same : native32 (p ++ c) 0 ≡ native32 (p ++ a) 0 =
                rw split (native32-append (p ++ a) (drop need c) (omega (arith, len9))) in
              let (r', runs, sized') =
                sized-lem (native32 (p ++ c) 0) (p ++ a) (drop need c) r₂ fits refl
                  (sym (length-append p a)) h.state h.room (omega (arith, len9)) in
              (
                r',
                p ++ a,
                drop need c,
                rw
                    (
                      unset,
                      enough',
                      some_yet,
                      grab-lem p a r h.bytes h.ipt (omega (arith, h.room, length-append p a, len9)),
                      extract_mlen-native (p ++ a),
                    )
                    (rw same at runs),
                sym split,
                sized',
              )
        ]
  ]
