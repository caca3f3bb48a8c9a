-- ===== src/Receive/Routes.antt =====
-- bluefin/src/worker/reader.rs: where a round of `ReaderTxChannel::run` puts the packets of a datagram.
use bluefin.Prelude.{ℕ, ◌≡◌, ◌⊎◌, Bool, true, false}
use bluefin.Prelude.{if◌then◌else◌, List, [], ◌∷◌, Option, none, some, Result, ok, err, panic}
use bluefin.Prelude.{BluefinError}
use bluefin.Packet.{Packet, from_bytes}
use bluefin.Handshake.{BluefinHost, client, pack_leader, pack_follower, is_hello_packet}
use bluefin.Conn.Manager.{Key, same_key, get}
use bluefin.Receive.Defs.{ConnectionManagedBuffers}
use bluefin.Receive.Route.{buffer_in_all}
use bluefin.Receive.Run.{Host, Locks, is_poisoned}

-- Whose packets these are: the key of a connection, and whether they open it. `ids` are the slots of
-- the accepts that wait.
abbrev pub opened_by : BluefinHost → List ℕ → Packet → Option (Key × Bool)
opened_by pack_leader [] p = none
opened_by pack_leader (id ∷ ids) p = some ((id, 0), true)
opened_by client ids p = some ((p.header.destination_connection_id, 0), true)
opened_by pack_follower ids p = none

abbrev pub target : BluefinHost → List ℕ → List Packet → Option (Key × Bool)
target host ids [] = none
target host ids (p ∷ []) =
    if is_hello_packet host p
    then opened_by host ids p
    else some ((p.header.destination_connection_id, p.header.source_connection_id), false)
target host ids (p ∷ q ∷ rest) =
    some ((p.header.destination_connection_id, p.header.source_connection_id), false)

module _ {Addr Waker : Type 0} (locks : Key → Locks) where
  -- The connections are as before, and nobody is woken.
  abbrev pub Untouched : Host Addr Waker → Result (Host Addr Waker × List Waker) → Type 0
  Untouched h r = (h' : Host Addr Waker) × (r ≡ ok (h', [])) × (h'.connections ≡ h.connections)

  -- The packets get to the buffers `m` under the key, unless one needs a poisoned lock.
  abbrev pub Arrives :
      BluefinHost
      → Host Addr Waker
      → Addr
      → List Packet
      → Key
      → Bool
      → Result (Host Addr Waker × List Waker)
      → Option (ConnectionManagedBuffers Addr Waker)
      → Type 0
  Arrives host h a packets key opens r none = Untouched h r
  Arrives host h a packets key opens r (some m) =
      ((is_poisoned opens host (locks key) packets ≡ true) × (r ≡ panic))
      ⊎ ((is_poisoned opens host (locks key) packets ≡ false)
          × ((h' : Host Addr Waker) × (r ≡ ok (h', (buffer_in_all opens host a m packets).1))
              × (get h'.connections key ≡ some (buffer_in_all opens host a m packets).0)
              × ((other : Key)
                  → same_key key other ≡ false
                  → get h'.connections other ≡ get h.connections other)))

  abbrev pub Routed :
      BluefinHost
      → Host Addr Waker
      → Addr
      → List Packet
      → Result (Host Addr Waker × List Waker)
      → Option (Key × Bool)
      → Type 0
  Routed host h a packets r none = Untouched h r
  Routed host h a packets r (some (key, opens)) =
      Arrives host h a packets key opens r (get h.connections key)

  -- What a datagram of any bytes does.
  abbrev pub Routes :
      BluefinHost → Host Addr Waker → List ℕ → Addr → Result (Host Addr Waker × List Waker) → Type 0
  Routes host h bytes a r =
      ((from_bytes bytes ≡ panic) × (r ≡ panic))
      ⊎ ((e : BluefinError) × (from_bytes bytes ≡ err e) × (r ≡ ok (h, [])))
      ⊎ ((packets : List Packet) × (from_bytes bytes ≡ ok packets)
          × Routed host h a packets r (target host h.hellos.pending_accept_ids packets))
