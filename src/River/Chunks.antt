-- ===== src/River/Chunks.antt =====
-- mt_call_si_static.c: the callback over all the transport buffers of a connection.
use ric_plt_lib_rmr.Base.{
  ℕ, ◌+◌, ◌≡◌, refl, sym, ap, ◌∙◌, inl, inr, some, List, [], ◌∷◌, ◌++◌, arith, ltb, Bool-cases,
  length, length-append, append-split,
}
use mathlib.Core.Path.{subst}
use mathlib.Core.List.{append_assoc, append-nil}
use ric_plt_lib_rmr.Base.Int.{pos}
use ric_plt_lib_rmr.River.{
  ready_in, River, RiverState, new, good, reset, Raw, Outcome, done, crashed, spinning, ready_in,
  ready, river_data,
}
use ric_plt_lib_rmr.River.Frames.{IsPartial, AllFrames, concat, front-IsPartial, front-frame}
use ric_plt_lib_rmr.River.Step.{Holding}
use ric_plt_lib_rmr.River.Stream.{Carry, Delivers, loop_empty, loop-Delivers}

-- what was passed on before, and what is now
abbrev pub after : List Raw → Outcome → Outcome
after ms (done ms' r) = done (ms ++ ms') r
after ms (crashed ms') = crashed (ms ++ ms')
after ms spinning = spinning

-- the callback for each transport buffer in turn, on the river that the one before left
unfoldable pub river_run : ℕ → River → List (List ℕ) → Outcome
river_run max_ibm r [] = done [] r
river_run max_ibm r (c ∷ cs) = elim (river_data max_ibm r c) [
  | done ms r' ↦ after ms (river_run max_ibm r' cs)
  | crashed ms ↦ crashed ms
  | spinning ↦ spinning
]

-- A river that a connection has not used yet, or that has `p` of a message.
abbrev pub ReadyIn : List ℕ → River → RiverState → Type 0
ReadyIn p r new = p ≡ []
ReadyIn p r good = Holding p r
ReadyIn p r reset = ⊥

abbrev pub IsReady : List ℕ → River → Type 0
IsReady p r = ReadyIn p r r.state

Holding-IsReady : (p : List ℕ) (r : River) → Holding p r → IsReady p r
Holding-IsReady p r h = subst (ReadyIn p r) (sym h.state) h

-- a front of a stream: some of its messages, and the start of the next
record Front (ms : List (List ℕ)) (l a b : List ℕ) : Type 0 where
  before : List (List ℕ)
  start : List ℕ
  behind : List (List ℕ)
  all : ms ≡ before ++ behind
  frames : AllFrames before
  frames' : AllFrames behind
  part : IsPartial start
  front : a ≡ concat before ++ start
  back : start ++ b ≡ concat behind ++ l

Front-of :
    (ms : List (List ℕ)) (l a b : List ℕ)
    → AllFrames ms
    → IsPartial l
    → a ++ b ≡ concat ms ++ l
    → Front ms l a b
Front-of [] l a b fs part e = record {
  before = [];
  start = a;
  behind = [];
  all = refl;
  frames = tt;
  frames' = tt;
  part = front-IsPartial a b (rw e part);
  front = refl;
  back = e;
}
Front-of (m ∷ ms) l a b fs part e =
    let e' = e ∙ append_assoc m (concat ms) l in
    elim (Bool-cases (ltb (length a) (length m))) [
      | inl less ↦
          let (q, cut, rest) = append-split a b m (concat ms ++ l) e' (ground arith) in
          record {
            before = [];
            start = a;
            behind = m ∷ ms;
            all = refl;
            frames = tt;
            frames' = fs;
            part =
                front-frame a q (rw (← cut) fs.0)
                  (ground (arith, ap length cut, length-append a q));
            front = refl;
            back = e;
          }
      | inr more ↦
          let (q, cut, rest) = append-split m (concat ms ++ l) a b (sym e') (ground arith) in
          let f = Front-of ms l q b fs.1 part (sym rest) in
          record {
            before = m ∷ f.before;
            start = f.start;
            behind = f.behind;
            all = ap (◌∷◌ m) f.all;
            frames = (fs.0, f.frames);
            frames' = f.frames';
            part = f.part;
            front = cut ∙ ap (◌++◌ m) f.front ∙ sym (append_assoc m (concat f.before) f.start);
            back = f.back;
          }
    ]

Carry-append :
    (raws raws' : List Raw) (ms ms' : List (List ℕ))
    → Carry raws ms
    → Carry raws' ms'
    → Carry (raws ++ raws') (ms ++ ms')
Carry-append [] raws' [] ms' c c' = c'
Carry-append [] raws' (m ∷ ms) ms' c c' = absurd c
Carry-append (raw ∷ raws) raws' [] ms' c c' = absurd c
Carry-append (raw ∷ raws) raws' (m ∷ ms) ms' c c' =
    (c.0, c.1, Carry-append raws raws' ms ms' c.2 c')

module _ (max_ibm : ℕ) where
  ready-Holding :
      (p : List ℕ) (r : River) (s : RiverState)
      → r.state ≡ s
      → ReadyIn p r s
      → (r' : River) × (ready max_ibm r ≡ some r') × Holding p r'
  unfolding ready
  ready-Holding p r new e h = (
    record { state = good; accum = []; nbytes = max_ibm + 1024; ipt = 0; msg_size = pos 0 },
    ap (ready_in max_ibm r) e,
    record {
      bytes = sym h;
      ipt = ap length (sym h);
      state = refl;
      room = omega arith;
      phase = inl (omega (arith, ap length h), refl);
    },
  )
  ready-Holding p r good e h = (r, ap (ready_in max_ibm r) e, h)
  ready-Holding p r reset e h = absurd h

  data-Delivers :
      (ms : List (List ℕ)) (l p c : List ℕ) (r : River)
      → IsReady p r
      → AllFrames ms
      → IsPartial l
      → p ++ c ≡ concat ms ++ l
      → Delivers (river_data max_ibm r c) ms l
  unfolding river_data
  data-Delivers ms l p c r h fs part e =
      let (r', runs, h') = ready-Holding p r r.state refl h in
      let (raws, r'', runs', carry, h'') =
        loop-Delivers max_ibm (length c) ms l p c r' h' fs part e (omega arith) in
      (raws, r'', rw (runs, river_data) runs', carry, h'')

  run_none :
      (ms : List (List ℕ)) (l p : List ℕ) (r : River) (s : RiverState)
      → r.state ≡ s
      → ReadyIn p r s
      → AllFrames ms
      → p ++ [] ≡ concat ms ++ l
      → Carry [] ms × IsReady l r
  run_none [] l p r new at h fs e = (tt, subst (ReadyIn l r) (sym at) (sym e ∙ append-nil p ∙ h))
  run_none (m ∷ ms) l p r new at h fs e = absurd (
      omega (
        arith,
        fs.0,
        ap length h,
        ap length (sym (append-nil p) ∙ e ∙ append_assoc m (concat ms) l),
        length-append m (concat ms ++ l),
      ))
  run_none ms l p r good at h fs e =
      let (carry, h') = loop_empty max_ibm ms l p r h fs e in (carry, Holding-IsReady l r h')
  run_none ms l p r reset at h fs e = absurd h

  -- On a river that is new or holds the start of a message, however the rest of a stream of messages
  -- and of the start of another (each size from 9 up, with room for 128 more in an int) is cut into
  -- transport buffers,
  -- the callback passes on exactly those messages, in order and each whole, in buffers with room
  -- for them, and the river holds the start of the next one.
  pub run-Delivers :
      (cs : List (List ℕ)) (ms : List (List ℕ)) (l p : List ℕ) (r : River)
      → IsReady p r
      → AllFrames ms
      → IsPartial l
      → p ++ concat cs ≡ concat ms ++ l
      → (raws : List Raw) × (r' : River) × (river_run max_ibm r cs ≡ done raws r')
        × Carry raws ms
        × IsReady l r'
  unfolding river_run
  run-Delivers [] ms l p r h fs part e =
      let (carry, h') = run_none ms l p r r.state refl h fs e in ([], r, refl, carry, h')
  run-Delivers (c ∷ cs) ms l p r h fs part e =
      let f = Front-of ms l (p ++ c) (concat cs) fs part (append_assoc p c (concat cs) ∙ e) in
      let (raws, r', runs, carry, h') =
        data-Delivers f.before f.start p c r h f.frames f.part f.front in
      let (raws', r'', runs', carry', h'') =
        run-Delivers cs f.behind l f.start r' (Holding-IsReady f.start r' h') f.frames' part
          f.back in
      (
        raws ++ raws',
        r'',
        rw (runs, river_run, runs'),
        subst (Carry (raws ++ raws')) (sym f.all)
            (Carry-append raws raws' f.before f.behind carry carry'),
        h'',
      )
