-- ===== src/Receive/Hellos.antt =====
-- bluefin/src/net/mod.rs, server.rs and worker/reader.rs: `HelloState`, between the packets that open a
-- connection and the calls of `accept()`. Each event takes the lock once.
use bluefin.Prelude.{ℕ, ◌<◌, ◌≤◌, ◌≡◌, ◌⊎◌, inl, inr, refl, sym, ◌∙◌, ap, arith}
use bluefin.Prelude.{lt→ltb, le→not-ltb, All, false, true, ltb, if◌then◌else◌, Bool-cases}
use bluefin.Prelude.{List, [], ◌∷◌, ◌++◌, length, length-append, map, append-nil, append_assoc}
use mathlib.Core.List.{cons≢nil}
use mathlib.Core.Path.{subst}
use bluefin.Prelude.{Option, none, some, Result, ok}
use bluefin.Packet.{Packet}
use bluefin.Handshake.{pack_leader, is_hello_packet}
use bluefin.Receive.Route.{HelloState, HelloAction, routed, queued, handle_hello_single}
use bluefin.Receive.Route.{max_queued_hellos}

-- The lock of `accept()`: a hello that waits, or the slot is put in the line.
unfoldable pub claim_hello :
    {Addr : Type 0} → HelloState Addr → ℕ → HelloState Addr × Option (Packet × Addr)
claim_hello s id = elim s.hello_queue [
  | hello ∷ rest ↦ (record s { hello_queue = rest }, some hello)
  | [] ↦ (record s { pending_accept_ids = s.pending_accept_ids ++ (id ∷ []) }, none)
]

pub data Event (Addr : Type 0) : Type 0 where
  hello : Packet → Addr → Event Addr
  accept : ℕ → Event Addr

pub record Pairing (Addr : Type 0) : Type 0 where
  pub slot : ℕ
  pub opening : Packet × Addr

-- A hello that is dropped, with how many hellos and how many accepts wait as it comes.
pub record Loss (Addr : Type 0) : Type 0 where
  pub opening : Packet × Addr
  pub waiting : ℕ
  pub accepting : ℕ

-- The state with what has happened: the accepts, all hellos in the order in which they came, those that
-- went neither to an accept nor into the queue, and who got whom.
pub record Log (Addr : Type 0) : Type 0 where
  pub state : HelloState Addr
  pub accepts : List ℕ
  pub hellos : List (Packet × Addr)
  pub dropped : List (Loss Addr)
  pub matched : List (Pairing Addr)

-- The third list holds the first two, each in its order.
pub data Merge {A : Type 0} : List A → List A → List A → Type 0 where
  nothing : Merge [] [] []
  first : {x : A} → {xs ys zs : List A} → Merge xs ys zs → Merge (x ∷ xs) ys (x ∷ zs)
  second : {y : A} → {xs ys zs : List A} → Merge xs ys zs → Merge xs (y ∷ ys) (y ∷ zs)

first_last :
    {A : Type 0} {xs ys zs : List A} (x : A)
    → Merge xs ys zs
    → Merge (xs ++ (x ∷ [])) ys (zs ++ (x ∷ []))
first_last x nothing = first nothing
first_last x (first m) = first (first_last x m)
first_last x (second m) = second (first_last x m)

second_last :
    {A : Type 0} {xs ys zs : List A} (y : A)
    → Merge xs ys zs
    → Merge xs (ys ++ (y ∷ [])) (zs ++ (y ∷ []))
second_last y nothing = second nothing
second_last y (first m) = first (second_last y m)
second_last y (second m) = second (second_last y m)

map-append_one :
    {A B : Type 0} (f : A → B) (xs : List A) (x : A)
    → map f (xs ++ (x ∷ [])) ≡ map f xs ++ (f x ∷ [])
map-append_one f [] x = refl
map-append_one f (y ∷ xs) x = ap (◌∷◌ (f y)) (map-append_one f xs x)

ltb-lt : (m n : ℕ) → ltb m n ≡ true → m < n
ltb-lt m n e = ground (arith, e)

module _ {Addr : Type 0} where
  -- What is queued is seen by the queue, which has grown.
  unfoldable pub on_hello :
      Log Addr → Packet → Addr → HelloState Addr × Result HelloAction → Log Addr
  on_hello l p a (s, ok (routed id)) = record {
    state = s;
    accepts = l.accepts;
    hellos = l.hellos ++ ((p, a) ∷ []);
    dropped = l.dropped;
    matched = l.matched ++ (record { slot = id; opening = (p, a) } ∷ []);
  }
  on_hello l p a (s, ok queued) =
      let loss : Loss Addr = record {
        opening = (p, a);
        waiting = length l.state.hello_queue;
        accepting = length l.state.pending_accept_ids;
      } in
      record {
        state = s;
        accepts = l.accepts;
        hellos = l.hellos ++ ((p, a) ∷ []);
        dropped =
            if ltb (length l.state.hello_queue) (length s.hello_queue)
            then l.dropped
            else l.dropped ++ (loss ∷ []);
        matched = l.matched;
      }
  on_hello l p a (s, _) = record l { state = s }

  unfoldable pub on_accept : Log Addr → ℕ → HelloState Addr × Option (Packet × Addr) → Log Addr
  on_accept l id (s, some (p, a)) = record {
    state = s;
    accepts = l.accepts ++ (id ∷ []);
    hellos = l.hellos;
    dropped = l.dropped;
    matched = l.matched ++ (record { slot = id; opening = (p, a) } ∷ []);
  }
  on_accept l id (s, none) = record {
    state = s;
    accepts = l.accepts ++ (id ∷ []);
    hellos = l.hellos;
    dropped = l.dropped;
    matched = l.matched;
  }

  unfoldable pub step : Log Addr → Event Addr → Log Addr
  step l (hello p a) = on_hello l p a (handle_hello_single pack_leader l.state p a)
  step l (accept id) = on_accept l id (claim_hello l.state id)

  unfoldable pub run : Log Addr → List (Event Addr) → Log Addr
  run l [] = l
  run l (e ∷ es) = run (step l e) es

  unfoldable pub new : Log Addr
  new = record {
    state = record { pending_accept_ids = []; hello_queue = [] };
    accepts = [];
    hellos = [];
    dropped = [];
    matched = [];
  }

  -- A hello that came with 64 hellos and no accept waiting.
  abbrev pub IsOverflow : Loss Addr → Type 0
  IsOverflow d = (d.waiting ≡ max_queued_hellos) × (d.accepting ≡ 0)

  -- First come, first served, nobody waits on both sides, and hellos are lost to a full queue only.
  abbrev pub IsFair : Log Addr → Type 0
  IsFair l =
      (l.accepts ≡ map (λ m. m.slot) l.matched ++ l.state.pending_accept_ids)
      × Merge (map (λ m. m.opening) l.matched ++ l.state.hello_queue)
          (map (λ d. d.opening) l.dropped) l.hellos
      × All IsOverflow l.dropped
      × ((l.state.pending_accept_ids ≡ []) ⊎ (l.state.hello_queue ≡ []))
      × (length l.state.hello_queue ≤ max_queued_hellos)

  abbrev log :
      List ℕ
      → List (Packet × Addr)
      → List ℕ
      → List (Packet × Addr)
      → List (Loss Addr)
      → List (Pairing Addr)
      → Log Addr
  log ids queue accepts hellos dropped matched = record {
    state = record { pending_accept_ids = ids; hello_queue = queue };
    accepts = accepts;
    hellos = hellos;
    dropped = dropped;
    matched = matched;
  }

  claim-IsFair :
      (ids : List ℕ) (queue : List (Packet × Addr)) (accepts : List ℕ)
      (hellos : List (Packet × Addr)) (dropped : List (Loss Addr)) (matched : List (Pairing Addr))
      (id : ℕ)
      → IsFair (log ids queue accepts hellos dropped matched)
      → IsFair (step (log ids queue accepts hellos dropped matched) (accept id))
  unfolding step on_accept claim_hello
  claim-IsFair ids [] accepts hellos dropped matched id (e, f, o, g, h) = (
    ap (λ xs. xs ++ (id ∷ [])) e ∙ append_assoc (map (λ m. m.slot) matched) ids (id ∷ []),
    f,
    o,
    inr refl,
    h,
  )
  claim-IsFair [] ((p, a) ∷ rest) accepts hellos dropped matched id (e, f, o, g, h) = (
    ap (λ xs. xs ++ (id ∷ [])) (e ∙ append-nil (map (λ m. m.slot) matched))
        ∙ sym (append-nil (map (λ m. m.slot) matched ++ (id ∷ [])))
        ∙ ap (λ xs. xs ++ []) (sym (map-append_one (λ m. m.slot) matched _)),
    subst (λ xs. Merge xs (map (λ d. d.opening) dropped) hellos)
        (sym (append_assoc (map (λ m. m.opening) matched) ((p, a) ∷ []) rest)
          ∙ ap (λ xs. xs ++ rest) (sym (map-append_one (λ m. m.opening) matched _)))
        f,
    o,
    inl refl,
    omega (arith, h),
  )
  claim-IsFair (i ∷ ids) ((p, a) ∷ rest) accepts hellos dropped matched id (e, f, o, inl g, h) =
      absurd (cons≢nil g)
  claim-IsFair (i ∷ ids) ((p, a) ∷ rest) accepts hellos dropped matched id (e, f, o, inr g, h) =
      absurd (cons≢nil g)

  -- A hello that goes to the accept `id`, with nothing in the queue.
  routed-Merge :
      (queue hellos : List (Packet × Addr)) (lost : List (Packet × Addr))
      (matched : List (Pairing Addr)) (m : Pairing Addr)
      → queue ≡ []
      → Merge (map (λ m. m.opening) matched ++ queue) lost hellos
      → Merge
          (map (λ m. m.opening) (matched ++ (m ∷ [])) ++ queue)
          lost
          (hellos ++ (m.opening ∷ []))
  routed-Merge queue hellos lost matched m alone f =
      let shown : List (Packet × Addr) = map (λ m. m.opening) matched in
      subst (λ xs. Merge xs lost (hellos ++ (m.opening ∷ [])))
        (ap (λ q. (shown ++ q) ++ (m.opening ∷ [])) alone
          ∙ ap (λ xs. xs ++ (m.opening ∷ [])) (append-nil shown)
          ∙ sym (map-append_one (λ m. m.opening) matched m)
          ∙ sym (append-nil (map (λ m. m.opening) (matched ++ (m ∷ []))))
          ∙ ap (λ q. map (λ m. m.opening) (matched ++ (m ∷ [])) ++ q) (sym alone))
        (first_last m.opening f)

  All-last :
      (P : Loss Addr → Type 0) (ds : List (Loss Addr)) (d : Loss Addr)
      → All P ds
      → P d
      → All P (ds ++ (d ∷ []))
  All-last P [] d h k = (k, tt)
  All-last P (x ∷ ds) d (h, hs) k = (h, All-last P ds d hs k)

  -- The hello path, by what `is_hello_packet` says.
  hello-IsFair :
      (ids : List ℕ) (queue : List (Packet × Addr)) (accepts : List ℕ)
      (hellos : List (Packet × Addr)) (dropped : List (Loss Addr)) (matched : List (Pairing Addr))
      (p : Packet) (a : Addr)
      → IsFair (log ids queue accepts hellos dropped matched)
      → IsFair (step (log ids queue accepts hellos dropped matched) (hello p a))
  unfolding step on_hello handle_hello_single
  hello-IsFair (id ∷ ids) queue accepts hellos dropped matched p a (e, f, o, g, h) =
      elim (Bool-cases (is_hello_packet pack_leader p)) [
        | inr other ↦ rw other (e, f, o, g, h)
        | inl is_hello ↦
            let alone : queue ≡ [] = elim g [
              | inl none_waits ↦ absurd (cons≢nil none_waits)
              | inr none_queued ↦ none_queued
            ] in
            let m : Pairing Addr = record { slot = id; opening = (p, a) } in
            rw is_hello (
              e
                  ∙ sym (append_assoc (map (λ m. m.slot) matched) (id ∷ []) ids)
                  ∙ ap (λ xs. xs ++ ids) (sym (map-append_one (λ m. m.slot) matched m)),
              routed-Merge queue hellos (map (λ d. d.opening) dropped) matched m alone f,
              o,
              inr alone,
              h,
            )
      ]
  hello-IsFair [] queue accepts hellos dropped matched p a (e, f, o, g, h) =
      let shown : List (Packet × Addr) = map (λ m. m.opening) matched in
      elim (Bool-cases (is_hello_packet pack_leader p)) [
        | inr other ↦ rw other (e, f, o, g, h)
        | inl is_hello ↦ elim (Bool-cases (ltb (length queue) max_queued_hellos)) [
          | inr full ↦
              let loss : Loss Addr = record {
                opening = (p, a);
                waiting = length queue;
                accepting = 0;
              } in
              let same : ltb (length queue) (length queue) ≡ false =
                le→not-ltb (length queue) (length queue) (omega arith) in
              rw (is_hello, full, same)
                (
                  e,
                  subst (λ ls. Merge (shown ++ queue) ls (hellos ++ ((p, a) ∷ [])))
                      (sym (map-append_one (λ d. d.opening) dropped loss)) (second_last (p, a) f),
                  All-last IsOverflow dropped loss o (ground (arith, full, h), refl),
                  g,
                  h,
                )
          | inl room ↦
              let grown : ltb (length queue) (length (queue ++ ((p, a) ∷ []))) ≡ true =
                lt→ltb (length queue) _ (omega (arith, length-append queue ((p, a) ∷ []))) in
              rw (is_hello, room, grown)
                (
                  e,
                  subst (λ xs. Merge xs (map (λ d. d.opening) dropped) (hellos ++ ((p, a) ∷ [])))
                      (append_assoc shown queue ((p, a) ∷ [])) (first_last (p, a) f),
                  o,
                  inl refl,
                  omega (arith, length-append queue ((p, a) ∷ []), ltb-lt (length queue) 64 room),
                )
        ]
      ]

  step-IsFair : (l : Log Addr) (e : Event Addr) → IsFair l → IsFair (step l e)
  step-IsFair l (hello p a) fair =
      hello-IsFair l.state.pending_accept_ids l.state.hello_queue l.accepts l.hellos l.dropped
        l.matched p a fair
  step-IsFair l (accept id) fair =
      claim-IsFair l.state.pending_accept_ids l.state.hello_queue l.accepts l.hellos l.dropped
        l.matched id fair

  run-from : (l : Log Addr) (es : List (Event Addr)) → IsFair l → IsFair (run l es)
  unfolding run
  run-from l [] fair = fair
  run-from l (e ∷ es) fair = run-from (step l e) es (step-IsFair l e fair)

  -- Whatever packets come and whenever `accept()` is called: the accepts, in the order of their calls,
  -- are those that got a hello and then those that wait. The hellos that came are those that an accept
  -- got and then those in the queue, in the order of their arrival, and between them those that were
  -- dropped; each of these came while 64 hellos and no accept waited. Accepts and hellos never wait at
  -- the same time, and at most 64 hellos wait.
  pub run-IsFair : (es : List (Event Addr)) → IsFair (run new es)
  unfolding new
  run-IsFair es = run-from new es (refl, nothing, tt, inl refl, omega arith)
