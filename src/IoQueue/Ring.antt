-- ===== src/IoQueue/Ring.antt =====
-- The ring of kernel/ioqueue.c holds a queue: what is put comes out in order.
use native.Mathlib.Nat.{mul-le-mul_left, mul-suc}
use native.Mathlib.Decide.{ℕ_discrete}
use xbook.Prelude.{
  ℕ, suc, ◌+◌, ◌-◌, ◌*◌, ◌/◌, ◌%◌, ◌^◌, ◌≤◌, ◌<◌, ◌≡◌, ◌≢◌, sym, ap, ◌∙◌, inl, inr, true, false,
  none, Bool-cases, leb, ltb, ◌==◌, if◌then◌else◌, arith,
}
use xbook.Memory.{Memory}
use xbook.IoQueue.{
  IoQueue, io_queue_empty, io_queue_full, unit_bytes, copy_in, copy_out, advance, done, try_put,
  try_get,
}
use xbook.IoQueue.Units.{splice, copy_out_apart, copy_out_here, units_apart}

-- How many units the buffer has, and the slot of a position before wrapping around once.
abbrev capacity : IoQueue → ℕ
capacity q = q.buflen / q.factor

abbrev pub slot : (units position : ℕ) → ℕ
slot units position = if ltb position units then position else position - units

abbrev pub address : IoQueue → ℕ → ℕ
address q position = q.buf + q.factor * slot (capacity q) position

-- The queue holds `items`, the first of them in slot `t`, and its pointers agree with that. The
-- buffer is a whole number of units, and their number is a 32-bit word.
pub record IsRing (m : Memory) (q : IoQueue) (t : ℕ) (items : ℕ → ℕ) : Type 0 where
  pub unit : unit_bytes q.factor ≡ q.factor
  pub whole : q.buflen ≡ q.factor * capacity q
  pub word : capacity q < 2 ^ 32
  pub place : t < capacity q
  pub room : q.size ≤ capacity q
  pub at_tail : q.tail ≡ q.buf + q.factor * t
  pub at_head : q.head ≡ address q (t + q.size)
  pub units :
      (i junk : ℕ)
      → i < q.size
      → copy_out q.factor m (address q (t + i)) junk ≡ splice q.factor (items i) junk

-- The unit size of a ring is not 0.
factor_pos : (q : IoQueue) → unit_bytes q.factor ≡ q.factor → 0 < capacity q → 0 < q.factor
factor_pos q u c = ground arith

advance_lem :
    (q : IoQueue) (s : ℕ)
    → unit_bytes q.factor ≡ q.factor
    → q.buflen ≡ q.factor * capacity q
    → s < capacity q
    → advance q (q.buf + q.factor * s) ≡ q.buf + q.factor * slot (capacity q) (suc s)
unfolding advance
advance_lem q s unit whole below =
    let inside : suc (suc s) ≤ capacity q → q.factor * suc (suc s) ≤ q.factor * capacity q =
      mul-le-mul_left q.factor in
    let pos : 0 < q.factor = factor_pos q unit (omega arith) in
    let step : q.factor * (suc s) ≡ q.factor * s + q.factor = mul-suc q.factor s in
    let next : q.factor * suc (suc s) ≡ q.factor * (suc s) + q.factor = mul-suc q.factor (suc s) in
    elim (Bool-cases (ltb (suc s) (capacity q))) [
      | inl more ↦
          let up = inside (ground arith) in
          let low : leb (q.buf + q.buflen) (q.buf + q.factor * s + unit_bytes q.factor) ≡ false =
            ground (arith, up, pos, step, next, whole, unit) in
          rw (low, more) (omega (arith, unit, step))
      | inr end' ↦
          let last : suc s ≡ capacity q = ground arith in
          let reach : q.factor * (suc s) ≡ q.buflen = ap (λ k. q.factor * k) last ∙ sym whole in
          let high : leb (q.buf + q.buflen) (q.buf + q.factor * s + unit_bytes q.factor) ≡ true =
            ground (arith, step, reach, unit) in
          let none' : q.factor * (suc s - capacity q) ≡ q.factor * 0 =
            ap (λ k. q.factor * k) (omega (arith, last)) in
          rw (high, end') (omega (arith, none'))
    ]

-- The queue after a unit was put, and after one was got.
abbrev pub after_put : IoQueue → IoQueue
after_put q = record q { head = advance q q.head; size = (q.size + 1) % 2 ^ 32; consumer = none }

abbrev pub after_get : IoQueue → IoQueue
after_get q = record q {
  tail = advance q q.tail;
  size = (q.size + 2 ^ 32 - 1) % 2 ^ 32;
  producer = none;
}

-- The slots of a ring that is not full are apart.
slots_apart :
    (units t i j : ℕ) → t < units → i < j → j < units → slot units (t + i) ≢ slot units (t + j)
slots_apart units t i j p q r = λ e. ground arith

slot_next :
    (units t i : ℕ)
    → t < units
    → i < units
    → slot units (suc (slot units (t + i))) ≡ slot units (t + (i + 1))
slot_next units t i p q = ground arith

slot_below : (units t i : ℕ) → t < units → i ≤ units → slot units (t + i) < units
slot_below units t i p q = ground arith

-- `try_put` on a queue that is not full writes the unit behind the others and wakes the consumer
-- that waited.
pub try_put_lem :
    (current word t : ℕ) (m : Memory) (q : IoQueue) (items : ℕ → ℕ)
    → IsRing m q t items
    → q.size < capacity q
    → (try_put current word m q
        ≡ done (copy_in (unit_bytes q.factor) m q.head word) (after_put q) q.consumer)
      × IsRing
          (copy_in (unit_bytes q.factor) m q.head word)
          (after_put q)
          t
          (λ i. if i == q.size then word else items i)
unfolding try_put io_queue_full
try_put_lem current word t m q items ring room =
    let s = slot (capacity q) (t + q.size) in
    let size' : (q.size + 1) % 2 ^ 32 ≡ q.size + 1 = omega (arith, ring.word) in
    let low : s < capacity q = slot_below (capacity q) t q.size ring.place (omega arith) in
    (
      ground arith,
      record {
        unit = ring.unit;
        whole = ring.whole;
        word = ring.word;
        place = ring.place;
        room = omega arith;
        at_tail = ring.at_tail;
        at_head =
            ap (advance q) ring.at_head
            ∙ advance_lem q s ring.unit ring.whole low
            ∙ ap (λ k. q.buf + q.factor * k) (slot_next (capacity q) t q.size ring.place room)
            ∙ ap (λ k. address q (t + k)) (sym size');
        units = λ i junk lt. elim (ℕ_discrete i q.size) [
          | yes e ↦ here i junk e ∙ ap (λ v. splice q.factor v junk) (ground arith)
          | no ne ↦ there i junk ne (omega arith) ∙ ap (λ v. splice q.factor v junk) (ground arith)
        ];
      },
    )
  where
    here :
        (i junk : ℕ)
        → i ≡ q.size
        → copy_out q.factor (copy_in (unit_bytes q.factor) m q.head word) (address q (t + i)) junk
          ≡ splice q.factor word junk
    here i junk e =
        rw (ring.unit, ring.at_head, e)
          (copy_out_here q.factor m (address q (t + q.size)) word junk)

    there :
        (i junk : ℕ)
        → i ≢ q.size
        → i < q.size + 1
        → copy_out q.factor (copy_in (unit_bytes q.factor) m q.head word) (address q (t + i)) junk
          ≡ splice q.factor (items i) junk
    there i junk ne lt =
        rw (ring.unit, ring.at_head)
          (copy_out_apart q.factor m (address q (t + q.size)) word (address q (t + i)) junk (
              units_apart q.buf q.factor (slot (capacity q) (t + i))
                (slot (capacity q) (t + q.size))
                (slots_apart (capacity q) t i q.size ring.place (omega arith) room))
            ∙ ring.units i junk (omega arith))

slot_shift :
    (units t i : ℕ)
    → t < units
    → i < units
    → slot units (slot units (t + 1) + i) ≡ slot units (t + (i + 1))
slot_shift units t i p q = ground arith

-- `try_get` on a queue that is not empty returns the unit that was put first, over the bytes that
-- stood in the result before, takes it out, and wakes the producer that waited.
pub try_get_lem :
    (current junk t : ℕ) (m : Memory) (q : IoQueue) (items : ℕ → ℕ)
    → IsRing m q t items
    → 0 < q.size
    → (try_get current junk m q
        ≡ done (splice q.factor (items 0) junk % 2 ^ 32) (after_get q) q.producer)
      × IsRing m (after_get q) (slot (capacity q) (t + 1)) (λ i. items (i + 1))
unfolding try_get io_queue_empty
try_get_lem current junk t m q items ring some' =
    let size' : (q.size + 2 ^ 32 - 1) % 2 ^ 32 ≡ q.size - 1 = omega (arith, ring.word, ring.room) in
    let start : slot (capacity q) (t + 0) ≡ t = ground (arith, ring.place) in
    let shift : (i : ℕ)
        → i < q.size
        → address q (slot (capacity q) (t + 1) + i) ≡ address q (t + (i + 1)) =
      λ i lt.
        ap (λ k. q.buf + q.factor * k)
          (slot_shift (capacity q) t i ring.place (omega (arith, ring.room))) in
    let value : copy_out (unit_bytes q.factor) m q.tail junk ≡ splice q.factor (items 0) junk =
      rw (ring.unit, ring.at_tail)
        (ap (λ k. copy_out q.factor m (q.buf + q.factor * k) junk) (sym start)
          ∙ ring.units 0 junk some') in
    (
      ground (arith, value),
      record {
        unit = ring.unit;
        whole = ring.whole;
        word = ring.word;
        place = slot_below (capacity q) t 1 ring.place (omega (arith, ring.place));
        room = omega (arith, ring.room);
        at_tail =
            ap (advance q) ring.at_tail
            ∙ advance_lem q t ring.unit ring.whole ring.place
            ∙ ap (λ k. q.buf + q.factor * slot (capacity q) k) (omega arith);
        at_head =
            ring.at_head
            ∙ ap (λ k. address q (t + k)) (omega arith)
            ∙ sym (shift (q.size - 1) (omega arith))
            ∙ ap (λ k. address q (slot (capacity q) (t + 1) + k)) (sym size');
        units = λ i over lt.
            ap (λ a. copy_out q.factor m a over) (shift i (omega (arith, lt, size')))
            ∙ ring.units (i + 1) over (omega (arith, lt, size'));
      },
    )
