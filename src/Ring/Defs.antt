-- ===== src/Ring/Defs.antt =====
-- bluefin/src/utils/ring_buffer.rs: `RingBuffer`. The default element is a parameter.
use bluefin.Prelude.{ℕ, zero, suc, ◌+◌, ◌-◌, ◌%◌, ◌==◌, Bool, if◌then◌else◌}
use bluefin.Prelude.{List, get_or, set, replicate, Option, none, some}

pub record RingBuffer (A : Type 0) : Type 0 where
  pub buffer : List A
  pub capacity : ℕ
  pub head : ℕ
  pub tail : ℕ
  pub len : ℕ

module _ {A : Type 0} (default : A) where
  unfoldable pub new : ℕ → RingBuffer A
  new capacity = record {
    buffer = replicate capacity default;
    capacity = capacity;
    head = 0;
    tail = 0;
    len = 0;
  }

  unfoldable pub default_ring : RingBuffer A
  default_ring = new 128

  unfoldable pub is_empty : RingBuffer A → Bool
  is_empty rb = rb.len == 0

  unfoldable pub is_full : RingBuffer A → Bool
  is_full rb = rb.len == rb.capacity

  unfoldable pub push_back : RingBuffer A → A → RingBuffer A × Option A
  push_back rb value = if is_full rb then (rb, some value) else (
    record rb {
      buffer = set rb.buffer rb.tail value;
      tail = (rb.tail + 1) % rb.capacity;
      len = rb.len + 1;
    },
    none,
  )

  unfoldable pub head_before : RingBuffer A → ℕ
  head_before rb = if rb.head == 0 then rb.capacity - 1 else rb.head - 1

  unfoldable pub push_front : RingBuffer A → A → RingBuffer A × Option A
  push_front rb value = if is_full rb then (rb, some value) else (
    record rb {
      buffer = set rb.buffer (head_before rb) value;
      head = head_before rb;
      len = rb.len + 1;
    },
    none,
  )

  -- `std::mem::take` leaves the default element in the slot.
  unfoldable pub pop_front : RingBuffer A → RingBuffer A × Option A
  pop_front rb = if is_empty rb then (rb, none) else (
    record rb {
      buffer = set rb.buffer rb.head default;
      head = (rb.head + 1) % rb.capacity;
      len = rb.len - 1;
    },
    some (get_or rb.buffer rb.head default),
  )

  unfoldable pub front : RingBuffer A → Option A
  front rb = if is_empty rb then none else some (get_or rb.buffer rb.head default)

  -- `clear` pops while there is an element; `n` is the number of rounds.
  unfoldable pub clear_loop : ℕ → RingBuffer A → RingBuffer A
  clear_loop zero rb = rb
  clear_loop (suc n) rb =
      let rest = clear_loop n (pop_front rb).0 in if is_empty rb then rb else rest

  unfoldable pub clear : RingBuffer A → RingBuffer A
  clear rb = clear_loop rb.len rb
