-- ===== src/IoQueue.antt =====
-- kernel/ioqueue.c and include/book/ioqueue.h: a ring of units of 1, 2, 4 or 8 bytes, with one
-- waiting producer and one waiting consumer. A call that has to wait is tried again when its task
-- is woken; `try_put` and `try_get` are one such trial.
pub mod Units
pub mod Ring
pub mod Trips
mod Tests
use xbook.Prelude.{
  ℕ, zero, suc, ◌+◌, ◌-◌, ◌*◌, ◌/◌, ◌%◌, ◌^◌, Bool, true, false, ◌||◌, Option, none, some, leb,
  ◌==◌, if◌then◌else◌,
}
use xbook.Memory.{Memory, store}
use xbook.Strings.{memset}

-- `struct IoQueue` without its lock; a waiting task is known by its pid.
pub record IoQueue : Type 0 where
  pub buf : ℕ
  pub buflen : ℕ
  pub head : ℕ
  pub tail : ℕ
  pub size : ℕ
  pub factor : ℕ
  pub producer : Option ℕ
  pub consumer : Option ℕ

-- `IoQueueInit`
unfoldable pub io_queue_init : Memory → (buf buflen factor : ℕ) → Memory × IoQueue
io_queue_init m buf buflen factor = (
  memset m buf 0 buflen,
  record {
    buf = buf;
    buflen = buflen;
    head = buf;
    tail = buf;
    size = 0;
    factor = factor;
    producer = none;
    consumer = none;
  },
)

unfoldable pub io_queue_empty : IoQueue → Bool
io_queue_empty q = q.size == 0

unfoldable pub io_queue_full : IoQueue → Bool
io_queue_full q = q.size == q.buflen / q.factor

-- The bytes that a case of the `switch` copies; the default copies none.
abbrev pub unit_bytes : ℕ → ℕ
unit_bytes factor =
    if factor == 1 || (factor == 2 || (factor == 4 || factor == 8)) then factor else 0

-- `*head++ = *p++`, that many times; `word` is what stands at `&data`, its first byte lowest.
unfoldable pub copy_in : (count : ℕ) → Memory → (head word : ℕ) → Memory
copy_in zero m head word = m
copy_in (suc count) m head word = copy_in count (store m head (word % 256)) (head + 1) (word / 256)

-- `*p++ = *tail++`, that many times, over what stands at `&data`, which is not initialised.
unfoldable pub copy_out : (count : ℕ) → Memory → (tail junk : ℕ) → ℕ
copy_out zero m tail junk = junk
copy_out (suc count) m tail junk = m tail + 256 * copy_out count m (tail + 1) (junk / 256)

-- The pointer after a unit, back at the start if it has reached the end.
unfoldable pub advance : IoQueue → ℕ → ℕ
advance q p =
    let next = p + unit_bytes q.factor in if leb (q.buf + q.buflen) next then q.buf else next

-- A trial waits, or is done and wakes the task that waited on the other side; a second task that
-- has to wait fails the assertion of `IoQueueWait`.
pub data Trial (A : Type 0) : Type 0 where
  waits : IoQueue → Trial A
  done : A → IoQueue → (woken : Option ℕ) → Trial A
  panics : Trial A

-- `IoQueuePut`
unfoldable pub try_put : (current word : ℕ) → Memory → IoQueue → Trial Memory
try_put current word m q =
    if io_queue_full q
    then elim q.producer [ none ↦ waits (record q { producer = some current }) | some _ ↦ panics ]
    else done (copy_in (unit_bytes q.factor) m q.head word)
        (record q { head = advance q q.head; size = (q.size + 1) % 2 ^ 32; consumer = none })
        q.consumer

-- `IoQueueGet`; the result is an `unsigned long`.
unfoldable pub try_get : (current junk : ℕ) → Memory → IoQueue → Trial ℕ
try_get current junk m q =
    if io_queue_empty q
    then elim q.consumer [ none ↦ waits (record q { consumer = some current }) | some _ ↦ panics ]
    else done (copy_out (unit_bytes q.factor) m q.tail junk % 2 ^ 32)
        (record q {
          tail = advance q q.tail;
          size = (q.size + 2 ^ 32 - 1) % 2 ^ 32;
          producer = none;
        })
        q.producer
