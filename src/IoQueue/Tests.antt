-- ===== src/IoQueue/Tests.antt =====
-- kernel/ioqueue.c at a ring of four words.
use xbook.Prelude.{◌+◌, ◌%◌, ◌^◌, ◌≡◌, refl, none, some, ◌==◌, if◌then◌else◌, arith}
use xbook.Memory.{Memory}
use xbook.IoQueue.{IoQueue, copy_in, done, try_put, try_get}
use xbook.IoQueue.Units.{splice}
use xbook.IoQueue.Ring.{IsRing, after_put, after_get, try_put_lem, try_get_lem}

abbrev blank : Memory
blank a = 0

abbrev queue : IoQueue
queue = record {
  buf = 100;
  buflen = 16;
  head = 100;
  tail = 100;
  size = 0;
  factor = 4;
  producer = none;
  consumer = some 7;
}

queue-IsRing : IsRing blank queue 0 (λ i. 0)
queue-IsRing = record {
  unit = refl;
  whole = refl;
  word = omega arith;
  place = omega arith;
  room = omega arith;
  at_tail = refl;
  at_head = refl;
  units = λ i junk lt. absurd (omega (arith, lt));
}

abbrev one_put : Memory
one_put = copy_in 4 blank 100 0x1234_5678

try_put_lem_example :
    (try_put 3 0x1234_5678 blank queue ≡ done one_put (after_put queue) (some 7))
    × IsRing one_put (after_put queue) 0 (λ i. if i == 0 then 0x1234_5678 else 0)
try_put_lem_example = try_put_lem 3 0x1234_5678 0 blank queue (λ i. 0) queue-IsRing (omega arith)

one_put-IsRing : IsRing one_put (after_put queue) 0 (λ i. if i == 0 then 0x1234_5678 else 0)
one_put-IsRing = (try_put_lem 3 0x1234_5678 0 blank queue (λ i. 0) queue-IsRing (omega arith)).1

try_get_lem_example :
    (try_get 5 9 one_put (after_put queue)
      ≡ done (splice 4 0x1234_5678 9 % 2 ^ 32) (after_get (after_put queue)) none)
    × IsRing one_put (after_get (after_put queue)) 1 (λ i. if i + 1 == 0 then 0x1234_5678 else 0)
try_get_lem_example =
    try_get_lem 5 9 0 one_put (after_put queue) (λ i. if i == 0 then 0x1234_5678 else 0)
      one_put-IsRing (omega arith)
