-- ===== src/River.antt =====
-- src/rmr/si/src/mt_call_si_static.c: the receive side of the SI transport. A river is the state of
-- one inbound stream; `mt_data_cb` cuts what arrives into messages. The constants are those of
-- src/rmr/si/include/rmr_si_private.h, the length codec also of sr_si_static.c.
-- `River` is the loop over one transport buffer; `Frames` says what a stream of messages is.
pub mod Length
pub mod Frames
pub mod Step
pub mod Fill
pub mod Stream
pub mod Chunks
pub mod BadSize
pub mod Tests
use ric_plt_lib_rmr.Base.{
  ℕ, zero, suc, ◌+◌, ◌-◌, ◌*◌, ◌^◌, Option, none, some, List, [], ◌∷◌, ◌++◌, ltb, leb, ◌==◌,
  if◌then◌else◌, length, get_or, take, drop,
}
use ric_plt_lib_rmr.Base.Int.{ℤ, pos, negsuc, is_positive, magnitude, signed32}

-- RS_NEW, RS_GOOD and RS_RESET
pub data RiverState : Type 0 where
  new good reset : RiverState

-- `accum` has the bytes written to the accumulator since it was allocated with `nbytes` bytes,
-- those past them being unset. The flag RF_DROP is left out: only a disabled line sets it.
pub record River : Type 0 where
  pub state : RiverState
  pub accum : List ℕ
  pub nbytes : ℕ
  pub ipt : ℕ
  pub msg_size : ℤ

abbrev pub tp_szfield_len : ℕ
tp_szfield_len = 9

abbrev pub tp_sz_marker : ℕ
tp_sz_marker = b'$'

-- a `uint32_t` read from memory, in the order of a little-endian machine and of the network
abbrev pub native32 : List ℕ → ℕ → ℕ
native32 b i =
    get_or b i 0
    + 2 ^ 8 * get_or b (i + 1) 0
    + 2 ^ 16 * get_or b (i + 2) 0
    + 2 ^ 24 * get_or b (i + 3) 0

abbrev pub net32 : List ℕ → ℕ → ℕ
net32 b i =
    2 ^ 24 * get_or b i 0
    + 2 ^ 16 * get_or b (i + 1) 0
    + 2 ^ 8 * get_or b (i + 2) 0
    + get_or b (i + 3) 0

unfoldable pub extract_mlen : List ℕ → ℕ
extract_mlen buf =
    if get_or buf (4 * 2) 0 == tp_sz_marker
    then (let osize = native32 buf 0 in
        let size = net32 buf 4 in if osize == size then size else osize)
    else native32 buf 0

-- What goes to `buf2mbuf`: the accumulator and its size.
pub record Raw : Type 0 where
  pub bytes : List ℕ
  pub nbytes : ℕ

-- A copy behind the insertion point; `none` if it goes past the accumulator.
unfoldable pub grab : River → List ℕ → Option River
grab r bytes =
    if leb (r.ipt + length bytes) r.nbytes
    then some (record r { accum = take r.ipt r.accum ++ bytes; ipt = r.ipt + length bytes })
    else none

-- How a round, or the part of it that finds the size, goes on: the callback returns, memory is
-- overrun or cannot be allocated, or there are bytes left.
pub data Round : Type 0 where
  returns : River → Round
  overrun : Round
  goes_on : River → List ℕ → Round

returns_or : Option River → Round
returns_or none = overrun
returns_or (some r) = returns r

-- a buffer for a message of `size` bytes; `size + 128` has to fit an int
make_room : River → ℕ → List ℕ → Round
make_room r size rest =
    if ltb r.nbytes size
    then if ltb (size + 128) (2 ^ 31)
      then goes_on (record r { nbytes = size + 128 }) rest
      else overrun
    else goes_on r rest

-- after the size field has been read
unfoldable pub sized : River → ℕ → List ℕ → Round
unfolding make_room
sized r mlen rest =
    let r' = record r { msg_size = signed32 mlen } in
    if ltb mlen (2 ^ 31) then make_room r' mlen rest else returns (record r' { state = reset })

sized_accum : Option River → List ℕ → Round
sized_accum none rest = overrun
sized_accum (some r) rest = sized r (extract_mlen r.accum) rest

-- The part of a round that makes sure the size is known. `rest` is what remains of the transport
-- buffer. `need` does not wrap: without a size the insertion point is within the size field.
unfoldable pub find_size : River → List ℕ → Round
unfolding returns_or sized_accum
find_size r rest =
    if is_positive r.msg_size
    then goes_on r rest
    else (let need = tp_szfield_len - r.ipt in
        if ltb (length rest) need
        then returns_or (grab r rest)
        else if ltb 0 r.ipt
        then sized_accum (grab r (take need rest)) (drop need rest)
        else sized r (extract_mlen rest) rest)

-- What is left to do in a round: the callback returns, with the message and the bytes behind it,
-- or memory is overrun.
pub data Filled : Type 0 where
  waits : River → Filled
  broken : Filled
  complete : Raw → River → List ℕ → Filled

waits_or : Option River → Filled
waits_or none = broken
waits_or (some r) = waits r

-- `max_ibm` is the largest message that the application expects.
completes : ℕ → Option River → List ℕ → Filled
completes max_ibm none rest = broken
completes max_ibm (some r) rest =
    complete (record { bytes = r.accum; nbytes = r.nbytes })
      (record {
        state = r.state;
        accum = [];
        nbytes = max_ibm + 1024;
        ipt = 0;
        msg_size = negsuc 0;
      })
      rest

-- The second part of a round. A size below the insertion point makes a negative count of bytes to
-- copy.
unfoldable pub fill : ℕ → River → List ℕ → Filled
unfolding waits_or completes
fill max_ibm r rest =
    let size = magnitude r.msg_size in
    if ltb (r.ipt + length rest) size
    then waits_or (grab r rest)
    else if ltb size r.ipt
    then broken
    else (let need = size - r.ipt in completes max_ibm (grab r (take need rest)) (drop need rest))

-- What the loop has done when it ends: the messages passed on, in order, and the river.
-- `spinning` says that the fuel ran out.
pub data Outcome : Type 0 where
  done : List Raw → River → Outcome
  crashed : List Raw → Outcome
  spinning : Outcome

abbrev pub pass_on : Raw → Outcome → Outcome
pass_on m (done ms r) = done (m ∷ ms) r
pass_on m (crashed ms) = crashed (m ∷ ms)
pass_on m spinning = spinning

-- `while( remain > 0 )`. A round that returns or that empties the buffer ends it.
unfoldable pub data_loop : ℕ → ℕ → River → List ℕ → Outcome
data_loop max_ibm fuel r [] = done [] r
data_loop max_ibm zero r (b ∷ bs) = spinning
data_loop max_ibm (suc fuel) r (b ∷ bs) = elim (find_size r (b ∷ bs)) [
  | returns r' ↦ done [] r'
  | overrun ↦ crashed []
  | goes_on r' rest ↦ elim (fill max_ibm r' rest) [
    | waits r'' ↦ done [] r''
    | broken ↦ crashed []
    | complete m r'' rest' ↦ pass_on m (data_loop max_ibm fuel r'' rest')
  ]
]

ready_in : ℕ → River → RiverState → Option River
ready_in max_ibm r good = some r
ready_in max_ibm r new =
    some (record { state = good; accum = []; nbytes = max_ibm + 1024; ipt = 0; msg_size = pos 0 })
ready_in max_ibm r reset = none

-- the reset of a river that is not in the good state; none for one that is to stay as it is
unfoldable pub ready : ℕ → River → Option River
unfolding ready_in
ready max_ibm r = ready_in max_ibm r r.state

abbrev pub data_loop_or : Option River → River → (River → Outcome) → Outcome
data_loop_or none r run = done [] r
data_loop_or (some r') r run = run r'

-- The callback on the river of a descriptor, for a transport buffer of any length; a round for each
-- byte is fuel enough wherever no message has size 0.
unfoldable pub river_data : ℕ → River → List ℕ → Outcome
river_data max_ibm r buf =
    data_loop_or (ready max_ibm r) r (λ r'. data_loop max_ibm (length buf) r' buf)
