-- ===== src/Transfer/Arrivals.antt =====
-- The packets of the datagrams that a writer makes (bluefin/src/worker/writer.rs), among those that
-- arrive.
use mathlib.Core.Path.{subst}
use bluefin.Prelude.{ℕ, ◌<◌, ◌≡◌, ◌⊎◌, inl, inr, refl, sym, ◌∙◌, ap, ap₂, add_u64}
use bluefin.Prelude.{List, [], ◌∷◌, ◌++◌, append_assoc, length}
use bluefin.Prelude.{joined, joined-append, All, ok}
use bluefin.Header
use bluefin.Packet.{Packet, from_bytes}
use bluefin.Writer.Chunk.{number_after, data_packets, data_packet}
use bluefin.Writer.Defs.{data_header}
use bluefin.OrderedBytes.Reassemble.{Has}
use bluefin.Receive.Data.{IsData, IsDataType, all_packets}
use bluefin.Receive.Tasks.{parsed, parsed_by, Harmless}
use bluefin.Transfer.{payloads-data_packets}
use bluefin.Transfer.Flush.{received, payloads_of}
use bluefin.Transfer.Laid.{Laid}

-- The datagram is one of those.
abbrev pub In : List ℕ → List (List ℕ) → Type 0
In d [] = ⊥
In d (e ∷ es) = (d ≡ e) ⊎ In d es

-- All packets of the datagrams that parse.
abbrev pub packets_in : List (List ℕ) → List Packet
packets_in ds = all_packets (parsed ds)

all_packets-++ :
    (xs ys : List (List Packet)) → all_packets (xs ++ ys) ≡ all_packets xs ++ all_packets ys
unfolding all_packets
all_packets-++ [] ys = refl
all_packets-++ (d ∷ xs) ys =
    ap (λ x. d ++ x) (all_packets-++ xs ys) ∙ sym (append_assoc d (all_packets xs) (all_packets ys))

packets_in-cons :
    (d : List ℕ) (ds : List (List ℕ)) (ps : List Packet)
    → from_bytes d ≡ ok ps
    → packets_in (d ∷ ds) ≡ ps ++ packets_in ds
unfolding parsed all_packets
packets_in-cons d ds ps e = ap (λ r. all_packets (parsed_by r ++ parsed ds)) e

Has-front : (p : Packet) (xs ys : List Packet) → Has p xs → Has p (xs ++ ys)
unfolding Has
Has-front p [] ys h = absurd h
Has-front p (x ∷ xs) ys (inl e) = inl e
Has-front p (x ∷ xs) ys (inr h) = inr (Has-front p xs ys h)

Has-back : (p : Packet) (xs ys : List Packet) → Has p ys → Has p (xs ++ ys)
unfolding Has
Has-back p [] ys h = h
Has-back p (x ∷ xs) ys h = inr (Has-back p xs ys h)

Has-cases : (p : Packet) (xs ys : List Packet) → Has p (xs ++ ys) → Has p xs ⊎ Has p ys
unfolding Has
Has-cases p [] ys h = inr h
Has-cases p (x ∷ xs) ys (inl e) = inl (inl e)
Has-cases p (x ∷ xs) ys (inr h) = elim (Has-cases p xs ys h) [ inl a ↦ inl (inr a) | inr b ↦ inr b ]

-- Each datagram parses, and holds packets of the data class.
abbrev pub Carries : List ℕ → Type 0
Carries d = (ps : List Packet) × (from_bytes d ≡ ok ps) × IsData ps

-- The packets of a datagram that is there are there.
Has-packets_in :
    (p : Packet) (d : List ℕ) (ds : List (List ℕ)) (ps : List Packet)
    → All Carries ds
    → In d ds
    → from_bytes d ≡ ok ps
    → Has p ps
    → Has p (packets_in ds)
Has-packets_in p d [] ps all h e has = absurd h
Has-packets_in p d (d' ∷ ds) ps ((qs, e', _), all) (inl same) e has =
    subst (Has p) (sym (packets_in-cons d' ds ps (ap from_bytes (sym same) ∙ e)))
      (Has-front p ps (packets_in ds) has)
Has-packets_in p d (d' ∷ ds) ps ((qs, e', _), all) (inr h) e has =
    subst (Has p) (sym (packets_in-cons d' ds qs e'))
      (Has-back p qs (packets_in ds) (Has-packets_in p d ds ps all h e has))

-- Datagrams that are among `es` hold packets that are among those of `es`.
pub packets_in-among :
    (p : Packet) (ds es : List (List ℕ))
    → All Carries ds
    → All Carries es
    → All (λ d. In d es) ds
    → Has p (packets_in ds)
    → Has p (packets_in es)
unfolding parsed all_packets Has
packets_in-among p [] es all all' among h = absurd h
packets_in-among p (d ∷ ds) es ((qs, e, dt), all) all' (here, among) h =
    elim (Has-cases p qs (packets_in ds) (subst (Has p) (packets_in-cons d ds qs e) h)) [
      | inl a ↦ Has-packets_in p d es qs all' here e a
      | inr b ↦ packets_in-among p ds es all all' among b
    ]

pub All-of : {P : Packet → Type 0} (qs : List Packet) → ((q : Packet) → Has q qs → P q) → All P qs
unfolding Has
All-of [] h = tt
All-of (q ∷ qs) h = (h q (inl refl), All-of qs (λ x k. h x (inr k)))

pub All-Carries : (ds es : List (List ℕ)) → All Carries es → All (λ d. In d es) ds → All Carries ds
All-Carries [] es all among = tt
All-Carries (d ∷ ds) es all (here, among) = (Carries-In d es all here, All-Carries ds es all among)
  where
    Carries-In : (d : List ℕ) (es : List (List ℕ)) → All Carries es → In d es → Carries d
    Carries-In d [] all h = absurd h
    Carries-In d (e ∷ es) (c, all) (inl same) = subst Carries (sym same) c
    Carries-In d (e ∷ es) (c, all) (inr h) = Carries-In d es all h

data_packets-++ :
    (src dst n : ℕ) (cs ds : List (List ℕ))
    → data_packets src dst n (cs ++ ds)
      ≡ data_packets src dst n cs ++ data_packets src dst (number_after n (length cs)) ds
unfolding data_packets number_after
data_packets-++ src dst n [] ds = refl
data_packets-++ src dst n (c ∷ cs) ds =
    ap (λ ps. data_packet src dst n c ∷ ps) (data_packets-++ src dst (add_u64 n 1) cs ds)

data_packets-IsData :
    (src dst n : ℕ) (cs : List (List ℕ))
    → 0 < length (joined cs)
    → IsData (data_packets src dst n cs)
unfolding data_packets data_header Header.with_packet_number Header.new IsData IsDataType joined
data_packets-IsData src dst n [] h = tt
data_packets-IsData src dst n (c ∷ cs) h = tt

-- What numbered datagrams hold together.
pub Laid-packets_in :
    (src dst n m : ℕ) (ds : List (List ℕ))
    → Laid src dst n ds m
    → (cs : List (List ℕ)) × (packets_in ds ≡ data_packets src dst n cs)
      × (received ds ≡ joined cs)
      × All Carries ds
unfolding received parsed all_packets data_packets joined
Laid-packets_in src dst n m [] e = ([], refl, refl, tt)
Laid-packets_in src dst n m (d ∷ ds) (cs, pos, e, rest) =
    let one : payloads_of (from_bytes d) ≡ joined cs =
      ap payloads_of e ∙ unfold payloads_of in payloads-data_packets src dst n cs in
    let (more, packets, bytes, all) =
      Laid-packets_in src dst (number_after n (length cs)) m ds rest in
    (
      cs ++ more,
      packets_in-cons d ds (data_packets src dst n cs) e
          ∙ ap (λ ps. data_packets src dst n cs ++ ps) packets
          ∙ sym (data_packets-++ src dst n cs more),
      ap₂ (λ xs ys. xs ++ ys) one bytes ∙ sym (joined-append cs more),
      ((data_packets src dst n cs, e, data_packets-IsData src dst n cs pos), all),
    )

pub Laid-front :
    (src dst n m : ℕ) (ds es : List (List ℕ))
    → Laid src dst n (ds ++ es) m
    → (k : ℕ) × Laid src dst n ds k
Laid-front src dst n m [] es h = (n, refl)
Laid-front src dst n m (d ∷ ds) es (cs, pos, e, rest) =
    let (k, front) = Laid-front src dst (number_after n (length cs)) m ds es rest in
    (k, (cs, pos, e, front))

pub Carries-Harmless : (ds : List (List ℕ)) → All Carries ds → All (λ d. Harmless (from_bytes d)) ds
Carries-Harmless [] all = tt
Carries-Harmless (d ∷ ds) ((ps, e, _), all) = (subst Harmless (sym e) tt, Carries-Harmless ds all)

pub Carries-IsData : (ds : List (List ℕ)) → All Carries ds → All IsData (parsed ds)
unfolding parsed
Carries-IsData [] all = tt
Carries-IsData (d ∷ ds) ((ps, e, h), all) =
    subst (λ r. All IsData (parsed_by r ++ parsed ds)) (sym e) (h, Carries-IsData ds all)
