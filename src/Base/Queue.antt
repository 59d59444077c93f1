-- ===== src/Base/Queue.antt =====
-- include/base/queue.h: a ring of item pointers whose size is a power of two. The four counters are
-- `uint32_t`, so their increments and decrements wrap at 2 ^ 32 before the mask is applied.
pub mod Window
pub mod Refine
pub mod Clients
mod Tests
use Prim.Native.Nat.{bit_and}
use neon_eds.Common.{ℕ, Bool, List, get_or, set, ◌==◌, u32, inc, dec}

-- `struct nqueue`. Items are addresses; the buffer is the array that `buf` points at.
pub record Nqueue : Type 0 where
  pub head : ℕ
  pub tail : ℕ
  pub empty : ℕ
  pub mask : ℕ
  pub buf : List ℕ

-- Reading out of the array gives 0, and writing out of it changes nothing: `Window.in_bounds`
-- is the reason why no operation does either.
abbrev pub read : List ℕ → ℕ → ℕ
read buf i = get_or buf i 0

-- `nqueue_init`: `size` slots behind `buf`.
pub nqueue_init : ℕ → List ℕ → Nqueue
nqueue_init size buf = record { head = 0; tail = 0; empty = u32 size; mask = dec size; buf = buf }

pub nqueue_size : Nqueue → ℕ
nqueue_size q = inc q.mask

pub nqueue_empty : Nqueue → ℕ
nqueue_empty q = q.empty

unfoldable pub nqueue_is_full : Nqueue → Bool
nqueue_is_full q = q.empty == 0

pub nqueue_is_empty : Nqueue → Bool
unfolding nqueue_size
nqueue_is_empty q = q.empty == nqueue_size q

pub nqueue_put_fifo : Nqueue → ℕ → Nqueue
nqueue_put_fifo self item = record self {
  buf = set self.buf self.head item;
  head = bit_and (inc self.head) self.mask;
  empty = dec self.empty;
}

pub nqueue_put_lifo : Nqueue → ℕ → Nqueue
nqueue_put_lifo self item =
    let tail = bit_and (dec self.tail) self.mask in
    record self { tail = tail; buf = set self.buf tail item; empty = dec self.empty }

-- The item, and the queue without it.
pub nqueue_get : Nqueue → ℕ × Nqueue
nqueue_get self = (
  read self.buf self.tail,
  record self { tail = bit_and (inc self.tail) self.mask; empty = inc self.empty },
)

pub nqueue_head : Nqueue → ℕ
nqueue_head self = read self.buf (bit_and (dec self.head) self.mask)

pub nqueue_tail : Nqueue → ℕ
nqueue_tail self = read self.buf self.tail
