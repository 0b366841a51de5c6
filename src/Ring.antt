-- ===== src/Ring.antt =====
-- src/rmr/common/src/ring_static.c: the ring of pointers that carries messages between threads,
-- and the constants of it in src/rmr/common/include/rmr_agnostic.h. `Queue` is what the children hold
-- it against.
pub mod Queue
pub mod Valid
pub mod Refine
pub mod Run
pub mod Tests
use ric_plt_lib_rmr.Base.{
  ℕ, ◌+◌, ◌-◌, ◌%◌, ◌^◌, ◌<◌, ◌≡◌, Bool, true, false, ◌&&◌, ◌||◌, not, Option, none, some, List,
  leb, ◌==◌, if◌then◌else◌, get_or, set, replicate,
}

-- A nil pointer is `none`.
abbrev pub Pointer : Type 0
Pointer = Option ℕ

-- `pfd` is the count of the event descriptor, `none` for a negative descriptor; `rgate` and `wgate`
-- say whether the lock was made, `flock` is the RING_FL_FLOCK flag.
pub record Ring : Type 0 where
  pub head : ℕ
  pub tail : ℕ
  pub nelements : ℕ
  pub items : List Pointer
  pub pfd : Option ℕ
  pub flock : Bool
  pub rgate : Bool
  pub wgate : Bool

-- The kernel's side of an event descriptor in semaphore mode: what a write of 1 and a read make of
-- the count.
pub record Eventfd : Type 0 where
  pub signal : ℕ → ℕ
  pub drain : ℕ → ℕ

-- What eventfd(2) says of a descriptor that blocks nobody.
pub record IsSemaphore (fd : Eventfd) : Type 0 where
  pub counts_up : (c : ℕ) → c < 2 ^ 64 - 2 → fd.signal c ≡ c + 1
  pub counts_down : (c : ℕ) → 0 < c → fd.drain c ≡ c - 1

-- the fields that `uta_mk_ring` sets
abbrev pub fresh : Bool → ℕ → Ring
fresh made nelements = record {
  head = 0;
  tail = 0;
  nelements = nelements;
  items = replicate (nelements + 1) none;
  pfd = if made then some 0 else none;
  flock = false;
  rgate = false;
  wgate = false;
}

-- `max` is the unsigned 16 bit value of -1, and the last assignment narrows to 16 bits.
abbrev pub nelements_of : ℕ → ℕ
nelements_of size = let max = 2 ^ 16 - 1 in (if leb max size then size - 1 else size) % 2 ^ 16

-- `size` is an int; `mem` says whether the two allocations succeed, `made` whether eventfd does.
unfoldable pub uta_mk_ring : Bool → Bool → ℕ → Option Ring
uta_mk_ring mem made size =
    if size == 0 || not mem then none else some (fresh made (nelements_of size))

-- the RING_* options that were passed, each as a bit
pub record Options : Type 0 where
  pub rlock : Bool
  pub wlock : Bool
  pub frlock : Bool

-- False stands for 0: a lock could not be allocated. Options set before that stay.
unfoldable pub uta_ring_config : Bool → Bool → Ring → Options → Bool × Ring
uta_ring_config wmem rmem r o =
    let needs_w = o.wlock && not r.wgate in
    let r' = if needs_w then record r { wgate = true } else r in
    let needs_r = (o.rlock || o.frlock) && not r.rgate in
    let r'' =
      if o.rlock || o.frlock then record r' { rgate = true; flock = r.flock || o.frlock } else r' in
    if needs_w && not wmem
    then (false, r)
    else if needs_r && not rmem
    then (false, r')
    else (true, r'')

-- The descriptor is made if there is none yet.
unfoldable pub uta_ring_getpfd : Bool → Ring → Ring
uta_ring_getpfd made r = elim r.pfd [
  | some c ↦ r
  | none ↦ record r { pfd = if made then some 0 else none }
]

-- one past an index of `nelements` slots
abbrev pub step : ℕ → ℕ → ℕ
step n i = let j = (i + 1) % 2 ^ 16 in if leb n j then 0 else j

abbrev pub is_empty : Ring → Bool
is_empty r = r.tail == r.head

abbrev pub counted : (ℕ → ℕ) → Option ℕ → Option ℕ
counted f none = none
counted f (some c) = some (f c)

module _ (fd : Eventfd) where
  take_next : Ring → Pointer × Ring
  take_next r = (
    get_or r.items r.tail none,
    record r {
      tail = step r.nelements r.tail;
      items = set r.items r.tail none;
      pfd = counted fd.drain r.pfd;
    },
  )

  -- `locked` says whether the read lock was got, by one try or by waiting, and `meanwhile` what the
  -- other threads did to the ring until then. Both are used only if the ring has that lock.
  unfoldable pub uta_ring_extract : Bool → (Ring → Ring) → Ring → Pointer × Ring
  unfolding take_next
  uta_ring_extract locked meanwhile r =
      if is_empty r
      then (none, r)
      else if r.rgate
      then (let r' = meanwhile r in
          if not locked then (none, r') else if is_empty r' then (none, r') else take_next r')
      else take_next r

  put_next : Ring → Pointer → Ring
  put_next r new_data = record r {
    head = step r.nelements r.head;
    items = set r.items r.head new_data;
    pfd = counted fd.signal r.pfd;
  }

  abbrev pub full : Ring → Bool
  full r = (r.head + 1 == r.tail) || (leb r.nelements (r.head + 1) && (r.tail == 0))

  -- False stands for 0; `locked` and `meanwhile` are as above, of the write lock.
  unfoldable pub uta_ring_insert : Bool → (Ring → Ring) → Ring → Pointer → Bool × Ring
  unfolding put_next
  uta_ring_insert locked meanwhile r new_data =
      let r' = if r.wgate then meanwhile r else r in
      if r.wgate && not locked
      then (false, r')
      else if full r'
      then (false, r')
      else (true, put_next r' new_data)
