-- ===== src/Receive/Closing.antt =====
-- bluefin/src/worker/conn_reader.rs: `Fin` and `FinAck` packets, and the end of the stream that they
-- bring to the reader of bluefin/src/worker/reader.rs.
use mathlib.Core.Path.{subst}
use bluefin.Prelude.{◌≡◌, ◌⊎◌, inl, inr, refl, sym, ◌∙◌, ap, Bool, false}
use bluefin.Prelude.{List, [], ◌∷◌, All}
use bluefin.Prelude.{Result, ok, panic, ◌>>=◌}
use bluefin.Header.Kind.{PacketType, ack, fin, fin_ack, unencrypted_data, unencrypted_client_hello}
use bluefin.Header.Kind.{unencrypted_server_hello, client_ack}
use bluefin.Packet.{Packet}
use bluefin.Receive.Defs.{
  ConnectionManagedBuffers, Closing, close_packet, close_packets, note_fin, note_fin_ack,
}
use bluefin.Receive.Defs.{buffer_in_close_packets, buffer_in_packets, route_packets, after_close}

unfoldable pub IsCloseType : PacketType → Type 0
IsCloseType fin = Unit
IsCloseType fin_ack = Unit
IsCloseType _ = ⊥

abbrev pub IsClose : Packet → Type 0
IsClose p = IsCloseType p.header.type_field

-- The datagrams that the task gets through: behind a `Fin` or a `FinAck` nothing else comes.
unfoldable pub IsUnmixedFrom : PacketType → List Packet → Type 0
IsUnmixedFrom fin rest = All IsClose rest
IsUnmixedFrom fin_ack rest = All IsClose rest
IsUnmixedFrom _ rest = Unit

unfoldable pub IsUnmixed : List Packet → Type 0
IsUnmixed [] = Unit
IsUnmixed (p ∷ ps) = IsUnmixedFrom p.header.type_field ps

-- A call that goes through exactly where `P` holds, and panics otherwise.
abbrev pub OkOrPanic : {A : Type 0} → Type 0 → Result A → Type 0
OkOrPanic {A} P r = (P × (a : A) × (r ≡ ok a)) ⊎ ((P → ⊥) × (r ≡ panic))

close_packet-type :
    (wired : Bool) (s : Closing) (p : Packet) (t : PacketType)
    → p.header.type_field ≡ t
    → (IsCloseType t × (s' : Closing) × (close_packet wired s p ≡ ok s'))
      ⊎ ((IsCloseType t → ⊥) × (close_packet wired s p ≡ panic))
unfolding close_packet IsCloseType
close_packet-type wired s p fin e = inl (tt, note_fin wired s p, simp (e, close_packet))
close_packet-type wired s p fin_ack e = inl (tt, note_fin_ack wired s p, simp (e, close_packet))
close_packet-type wired s p ack e = inr ((λ h. h), rw e refl)
close_packet-type wired s p unencrypted_data e = inr ((λ h. h), rw e refl)
close_packet-type wired s p unencrypted_client_hello e = inr ((λ h. h), rw e refl)
close_packet-type wired s p unencrypted_server_hello e = inr ((λ h. h), rw e refl)
close_packet-type wired s p client_ack e = inr ((λ h. h), rw e refl)

close_packets-OkOrPanic :
    (wired : Bool) (s : Closing) (ps : List Packet)
    → OkOrPanic (All IsClose ps) (close_packets wired s ps)
unfolding close_packets
close_packets-OkOrPanic wired s [] = inl (tt, s, refl)
close_packets-OkOrPanic wired s (p ∷ ps) =
    elim (close_packet-type wired s p p.header.type_field refl) [
      | inl (h, s', e) ↦
          let front : close_packet wired s p >>= (λ x. close_packets wired x ps)
              ≡ close_packets wired s' ps =
            ap (λ r. r >>= λ x. close_packets wired x ps) e in
          elim (close_packets-OkOrPanic wired s' ps) [
            | inl (hs, s'', done) ↦ inl ((h, hs), s'', front ∙ done)
            | inr (mixed, bad) ↦ inr ((λ (_, hs). mixed hs), front ∙ bad)
          ]
      | inr (mixed, e) ↦ inr ((λ (h, _). mixed h), ap (λ r. r >>= λ x. close_packets wired x ps) e)
    ]

module _ {Addr Waker : Type 0} where
  buffer_in_close_packets-OkOrPanic :
      (m : ConnectionManagedBuffers Addr Waker) (ps : List Packet)
      → OkOrPanic (All IsClose ps) (buffer_in_close_packets m ps)
  unfolding buffer_in_close_packets
  buffer_in_close_packets-OkOrPanic m ps =
      bound
        (close_packets m.diag_tx
          (record { close_buff = m.close_buff; saw_fin = false; events = [] }) ps)
        (close_packets-OkOrPanic m.diag_tx _ ps)
    where
      bound :
          (r : Result Closing)
          → OkOrPanic (All IsClose ps) r
          → OkOrPanic (All IsClose ps) (r >>= λ s. ok (after_close m s))
      bound r (inl (h, s, e)) =
          inl (h, after_close m s, ap (λ x. x >>= λ s. ok (after_close m s)) e)
      bound r (inr (h, e)) = inr (h, ap (λ x. x >>= λ s. ok (after_close m s)) e)

  behind-IsClose :
      (m : ConnectionManagedBuffers Addr Waker) (p : Packet) (ps : List Packet)
      → IsClose p
      → OkOrPanic (All IsClose ps) (buffer_in_close_packets m (p ∷ ps))
  behind-IsClose m p ps h = elim (buffer_in_close_packets-OkOrPanic m (p ∷ ps)) [
    | inl ((_, hs), out, done) ↦ inl (hs, out, done)
    | inr (mixed, bad) ↦ inr ((λ hs. mixed (h, hs)), bad)
  ]

  -- Rest of a datagram whose first packet has the type `t`.
  route_packets-OkOrPanic :
      (t : PacketType) (m : ConnectionManagedBuffers Addr Waker) (p : Packet) (ps : List Packet)
      → p.header.type_field ≡ t
      → OkOrPanic (IsUnmixedFrom t ps) (route_packets t m (p ∷ ps))
  unfolding route_packets IsUnmixedFrom IsCloseType
  route_packets-OkOrPanic ack m p ps e = inl (tt, _, refl)
  route_packets-OkOrPanic unencrypted_data m p ps e = inl (tt, _, refl)
  route_packets-OkOrPanic unencrypted_client_hello m p ps e = inl (tt, _, refl)
  route_packets-OkOrPanic unencrypted_server_hello m p ps e = inl (tt, _, refl)
  route_packets-OkOrPanic client_ack m p ps e = inl (tt, _, refl)
  route_packets-OkOrPanic fin m p ps e = behind-IsClose m p ps (subst IsCloseType (sym e) tt)
  route_packets-OkOrPanic fin_ack m p ps e = behind-IsClose m p ps (subst IsCloseType (sym e) tt)

  -- The task gets through a datagram exactly where it is empty, or begins with a packet other than
  -- `Fin` and `FinAck`, or holds nothing but these two. Any other datagram ends the task in a panic.
  pub buffer_in_packets-OkOrPanic :
      (m : ConnectionManagedBuffers Addr Waker) (ps : List Packet)
      → OkOrPanic (IsUnmixed ps) (buffer_in_packets m ps)
  unfolding buffer_in_packets IsUnmixed
  buffer_in_packets-OkOrPanic m [] = inl (tt, _, refl)
  buffer_in_packets-OkOrPanic m (p ∷ ps) = route_packets-OkOrPanic p.header.type_field m p ps refl
