-- ===== src/IoQueue/Trips.antt =====
-- A new queue of kernel/ioqueue.c is an empty ring, and a word that is put comes out.
use xbook.Prelude.{ℕ, ◌+◌, ◌*◌, ◌/◌, ◌%◌, ◌^◌, ◌<◌, ◌≡◌, ap, ◌∙◌, ◌==◌, if◌then◌else◌, arith}
use xbook.Memory.{Memory}
use xbook.IoQueue.{IoQueue, io_queue_init, unit_bytes, copy_in, done, try_put, try_get}
use xbook.IoQueue.Units.{splice}
use xbook.IoQueue.Ring.{IsRing, slot, after_put, after_get, try_put_lem, try_get_lem}

-- `IoQueueInit` makes an empty ring of a buffer that is a whole number of units, at least one and
-- fewer than 2^32.
pub io_queue_init-IsRing :
    (m : Memory) (buf buflen factor : ℕ) (items : ℕ → ℕ)
    → unit_bytes factor ≡ factor
    → buflen ≡ factor * (buflen / factor)
    → 0 < buflen / factor
    → buflen / factor < 2 ^ 32
    → let (m', q) = io_queue_init m buf buflen factor in IsRing m' q 0 items
unfolding io_queue_init
io_queue_init-IsRing m buf buflen factor items unit whole some' word = record {
  unit = unit;
  whole = whole;
  word = word;
  place = some';
  room = omega arith;
  at_tail = omega arith;
  at_head = start;
  units = λ i junk lt. absurd (omega (arith, lt));
}
  where
    start : buf ≡ buf + factor * slot (buflen / factor) (0 + 0)
    start = let first : slot (buflen / factor) (0 + 0) ≡ 0 = ground arith in rw first (omega arith)

-- With units of four bytes, a word that is put into an empty queue is what the next `try_get`
-- returns, whatever stood in its result before.
pub try_get-try_put :
    (current other word junk t : ℕ) (m : Memory) (q : IoQueue) (items : ℕ → ℕ)
    → IsRing m q t items
    → q.size ≡ 0
    → q.factor ≡ 4
    → word < 2 ^ 32
    → (try_put current word m q
        ≡ done (copy_in (unit_bytes q.factor) m q.head word) (after_put q) q.consumer)
      × (try_get other junk (copy_in (unit_bytes q.factor) m q.head word) (after_put q)
          ≡ done word (after_get (after_put q)) q.producer)
unfolding splice
try_get-try_put current other word junk t m q items ring empty four small =
    let (put, full) = try_put_lem current word t m q items ring (omega (arith, ring.place)) in
    let m' = copy_in (unit_bytes q.factor) m q.head word in
    let got =
      (try_get_lem other junk t m' (after_put q) (λ i. if i == q.size then word else items i) full
        (omega arith)).0 in
    let value : splice q.factor (if 0 == q.size then word else items 0) junk % 2 ^ 32 ≡ word =
      rw (four, empty) (omega arith) in
    (put, got ∙ ap (λ v. done v (after_get (after_put q)) q.producer) value)
