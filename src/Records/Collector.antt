-- ===== src/Records/Collector.antt =====
-- src/rmr/common/src/rtc_static.c: `rtc_parse_msg`, which parses a message from the route manager.
use ric_plt_lib_rmr.Base.{
  ℕ, ◌+◌, ◌*◌, ◌<◌, ◌≡◌, inl, inr, refl, ap, sym, ◌∙◌, Bool, true, false, List, [], ◌∷◌, ◌++◌,
  arith, ltb, leb, ◌%◌, ◌^◌, ◌==◌, if◌then◌else◌, take, drop, Bool-cases,
}
use ric_plt_lib_rmr.Base.Int.{ℤ, pos, negsuc, signed32}
use ric_plt_lib_rmr.Endpoint.{has_char}
use ric_plt_lib_rmr.Tools.{uta_tokenise}
use ric_plt_lib_rmr.Send.Message.{Msg}
use ric_plt_lib_rmr.Send.Clone.{payload_addr}
use ric_plt_lib_rmr.Records.Text.{skip_spaces, trim_tail, clip}
use ric_plt_lib_rmr.Records.Tables.{Use, Ack, Rtc, Parsed, crashes, waits, parsed}
use ric_plt_lib_rmr.Records.Parse.{parse_rt_rec, parse_recs, of_tokens, of_kind}
use ric_plt_lib_rmr.Records.Seed.{to_first, unlines, AllLines}

-- RMRRM_TABLE_DATA
abbrev pub table_data : ℕ
table_data = 20

-- What stays between messages: the context, the size of the work buffer, 0 if there is none, and the
-- flag RTCFL_HAVE_UPDATE.
pub record Collector : Type 0 where
  pub rtc : Rtc
  pub pbuf_size : ℕ
  pub have_update : Bool

pub record Collected : Type 0 where
  pub result : Parsed
  pub pbuf_size : ℕ
  pub have_update : Bool
  pub msg : Msg

-- The records in the work buffer, which ends with a 0. What is behind the last newline is a record
-- too, also if it is empty.
unfoldable pub records_in : List ℕ → List (List ℕ)
unfolding to_first
records_in [] = [] ∷ []
records_in (c ∷ s) =
    let rest = records_in s in
    if c == 0 then [] ∷ [] else if c == b'\n' then [] ∷ rest else to_first c rest

-- the size of the work buffer for `mlen` bytes, in C's int
unfoldable pub pbuf_for : ℕ → ℕ → ℤ
pbuf_for size mlen =
    if leb size mlen
    then (if ltb mlen 512 then pos 1024 else signed32 (mlen * 2 % 2 ^ 32))
    else pos size

abbrev is_table : ℤ → Bool
is_table (pos n) = n == table_data
is_table (negsuc n) = false

-- Messages that are no table data are ignored.
abbrev ignored : Collector → Msg → Collected
ignored c m = record {
  result = parsed c.rtc;
  pbuf_size = c.pbuf_size;
  have_update = c.have_update;
  msg = m;
}

abbrev crashed : Collector → Msg → Collected
crashed c m = record { result = crashes; pbuf_size = c.pbuf_size; have_update = true; msg = m }

module _ (sent : Ack → Bool) (uses : ℕ → List Use) where
  -- With the size of the work buffer. No buffer is got for a negative size, and the copy follows nil.
  unfoldable pub with_pbuf : Collector → Msg → ℕ → ℤ → Collected
  with_pbuf c m n (negsuc _) = crashed c m
  with_pbuf c m n (pos size) = record {
    result = parse_recs sent uses 0 c.rtc (records_in (take n (drop (payload_addr m) m.tp_buf)));
    pbuf_size = size;
    have_update = true;
    msg = record m { len = pos 0 };
  }

  -- table data; the copy of a negative number of bytes crashes
  unfoldable pub parse_table : Collector → Msg → ℤ → Collected
  unfolding with_pbuf
  parse_table c m (negsuc n) = crashed c m
  parse_table c m (pos n) = with_pbuf c m n (pbuf_for c.pbuf_size n)

  unfoldable pub rtc_parse_msg : Collector → Msg → Collected
  unfolding parse_table
  rtc_parse_msg c m = if is_table m.mtype then parse_table c m m.len else ignored c m

-- No record has a 0 in it.
unfoldable pub AllText : List (List ℕ) → Type 0
AllText [] = Unit
AllText (r ∷ rs) = (has_char 0 r ≡ false) × AllText rs

record-first :
    (r : List ℕ) (s : List ℕ)
    → has_char 0 r ≡ false
    → has_char b'\n' r ≡ false
    → records_in (r ++ (b'\n' ∷ s)) ≡ r ∷ records_in s
unfolding records_in has_char to_first
record-first [] s h k = refl
record-first (c ∷ r) s h k = elim (Bool-cases (c == 0)) [
  | inl y ↦ ground (arith, y, h)
  | inr n ↦ elim (Bool-cases (c == b'\n')) [
    | inl y ↦ ground (arith, y, k)
    | inr f ↦
        (let rest = record-first r s (ground (arith, n, h)) (ground (arith, f, k)) in
          rw n (rw f (ap (to_first c) rest)))
  ]
]

records_in-unlines :
    (recs : List (List ℕ))
    → AllText recs
    → AllLines recs
    → records_in (unlines recs) ≡ recs ++ ([] ∷ [])
unfolding records_in AllText AllLines unlines
records_in-unlines [] t l = refl
records_in-unlines (r ∷ rs) (h, t) (k, l) =
    record-first r (unlines rs) h k ∙ ap (◌∷◌ r) (records_in-unlines rs t l)

module _ (sent : Ack → Bool) (uses : ℕ → List Use) where
  empty-parsed : (i : ℕ) (m : Rtc) → parse_rt_rec sent (uses i) m [] ≡ parsed m
  unfolding parse_rt_rec of_tokens of_kind uta_tokenise skip_spaces trim_tail clip
  empty-parsed i m = refl

  -- the records behind one that was parsed
  abbrev and_then : ℕ → List (List ℕ) → Parsed → Parsed
  and_then i rs crashes = crashes
  and_then i rs waits = waits
  and_then i rs (parsed m) = parse_recs sent uses (i + 1) m rs

  parse_recs-cons :
      (i : ℕ) (m : Rtc) (r : List ℕ) (rs : List (List ℕ))
      → parse_recs sent uses i m (r ∷ rs) ≡ and_then i rs (parse_rt_rec sent (uses i) m r)
  unfolding parse_recs
  parse_recs-cons i m r rs = elim (parse_rt_rec sent (uses i) m r) [
    | crashes ↦ refl
    | waits ↦ refl
    | parsed _ ↦ refl
  ]

  and_then-same :
      (i : ℕ) (rs qs : List (List ℕ))
      → ((m : Rtc) → parse_recs sent uses (i + 1) m rs ≡ parse_recs sent uses (i + 1) m qs)
      → (r : Parsed) → and_then i rs r ≡ and_then i qs r
  and_then-same i rs qs h crashes = refl
  and_then-same i rs qs h waits = refl
  and_then-same i rs qs h (parsed m) = h m

  -- an empty record at the end does nothing
  parse_recs-end :
      (recs : List (List ℕ)) (i : ℕ) (m : Rtc)
      → parse_recs sent uses i m (recs ++ ([] ∷ [])) ≡ parse_recs sent uses i m recs
  unfolding parse_recs
  parse_recs-end [] i m = parse_recs-cons i m [] [] ∙ ap (and_then i []) (empty-parsed i m)
  parse_recs-end (r ∷ rs) i m =
      parse_recs-cons i m r (rs ++ ([] ∷ []))
      ∙ and_then-same i (rs ++ ([] ∷ [])) rs (λ m'. parse_recs-end rs (i + 1) m')
          (parse_rt_rec sent (uses i) m r)
      ∙ sym (parse_recs-cons i m r rs)

  big_enough : (size n : ℕ) → n < 2 ^ 30 → (b : ℕ) × (pbuf_for size n ≡ pos b) × (n < b)
  unfolding pbuf_for
  big_enough size n h = elim (Bool-cases (leb size n)) [
    | inl y ↦ elim (Bool-cases (ltb n 512)) [
      | inl l ↦ (1024, rw (y, l) refl, ground (arith, l))
      | inr g ↦ (n * 2, rw (y, g) (ground (arith, h)), ground (arith, g))
    ]
    | inr f ↦ (size, rw f refl, ground (arith, f))
  ]

  -- A message of table data of less than 2^30 bytes, whose payload is records, each with a newline
  -- behind it, is parsed record by record, nothing else; its bytes and the 0 behind them fit into the
  -- work buffer, which may have been too small before. No record has a newline or a 0 in it.
  pub rtc_parse_msg-records :
      (c : Collector) (m : Msg) (n : ℕ) (recs : List (List ℕ))
      → m.mtype ≡ pos table_data
      → m.len ≡ pos n
      → n < 2 ^ 30
      → take n (drop (payload_addr m) m.tp_buf) ≡ unlines recs
      → AllText recs
      → AllLines recs
      → ((rtc_parse_msg sent uses c m).result ≡ parse_recs sent uses 0 c.rtc recs)
        × (n < (rtc_parse_msg sent uses c m).pbuf_size)
  unfolding rtc_parse_msg parse_table with_pbuf
  rtc_parse_msg-records c m n recs t l small e text lines =
      let split = ap records_in e ∙ records_in-unlines recs text lines in
      let (b, size, room) = big_enough c.pbuf_size n small in
      let run : rtc_parse_msg sent uses c m ≡ with_pbuf sent uses c m n (pos b) =
        ap (λ k. if is_table k then parse_table sent uses c m m.len else ignored c m) t
        ∙ ap (parse_table sent uses c m) l
        ∙ ap (with_pbuf sent uses c m n) size in
      (
        ap Collected.result run
            ∙ ap (parse_recs sent uses 0 c.rtc) split
            ∙ parse_recs-end recs 0 c.rtc,
        omega (arith, ap Collected.pbuf_size run, room),
      )
