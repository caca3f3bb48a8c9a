-- ===== src/Conn/Acks.antt =====
-- bluefin/src/net/ack_handler.rs: `AckBuffer` over the sliding window, the poll of
-- `AckConsumerFuture`, and what `AckConsumer::run` stores.
use bluefin.Prelude.{
  ℕ, Bool, if◌then◌else◌, Option, none, some, Result, ok, err, no_such_waker_error,
}
use bluefin.Packet.{Packet}
use bluefin.Window
use bluefin.Window.{SlidingWindow, ConsumeResult}

pub record AckBuffer (Waker : Type 0) : Type 0 where
  pub received_acks : SlidingWindow
  pub waker : Option Waker

module _ {Waker : Type 0} where
  unfoldable pub new_ack_buffer : ℕ → AckBuffer Waker
  new_ack_buffer smallest = record { received_acks = Window.new smallest; waker = none }

  unfoldable pub buffer_in_ack_packet :
      AckBuffer Waker → Packet → AckBuffer Waker × Result (Unit {0})
  buffer_in_ack_packet b p =
      let out : SlidingWindow × Result (Unit {0}) =
        Window.insert_range b.received_acks p.header.packet_number p.header.type_specific_payload in
      (record b { received_acks = out.0 }, out.1)

  -- `wake`: the task that is woken, or the error.
  unfoldable pub wake : AckBuffer Waker → Result Waker
  wake b = elim b.waker [ some w ↦ ok w | none ↦ err no_such_waker_error ]

  -- `poll`: what the window gives, or `none` for pending, with the waker kept.
  unfoldable pub poll_acks :
      (Waker → Waker → Bool) → AckBuffer Waker → Waker → AckBuffer Waker × Option ConsumeResult
  poll_acks will_wake b w =
      let out : SlidingWindow × Option ConsumeResult = Window.consume b.received_acks in
      elim out.1 [
        | some r ↦ (record b { received_acks = out.0 }, some r)
        | none ↦ (
          elim b.waker [
            | some existing ↦
                if will_wake existing w
                then record b { received_acks = out.0 }
                else record b { received_acks = out.0; waker = some w }
            | none ↦ record b { received_acks = out.0; waker = some w }
          ],
          none,
        )
      ]
