-- ===== src/Orders/Broadcast.antt =====
-- What the stream of status events counts and delivers, up to the sockets of the gateway.
use nest_js_ecomm_rd.Base.{
  ℕ, ◌+◌, ◌≡◌, refl, sym, ap, subst, ◌∙◌, String, true, Option, none, some, [], ◌∷◌, if◌then◌else◌,
  str_eq, eq_iff, filterb, filterb-All, All, length, arith, Option-cases, inl, inr,
}
use nest_js_ecomm_rd.Orders.Message.{OrderStatusChangedEvent}
use nest_js_ecomm_rd.Realtime.{Socket, order_room, hears}
use nest_js_ecomm_rd.Orders.Events.{
  OrdersEventsService, initial, publish_status_changed, tap_emitted, repeats, same_version, Timed,
  Stream, Kept, ends, first, drops, emits, last, IsSpaced, about, Operators, group_pipe, events,
}

-- The events are published one after the other.
abbrev pub publish_all : Stream → OrdersEventsService → OrdersEventsService
publish_all [] s = s
publish_all (x ∷ xs) s = publish_all xs (publish_status_changed x.event s)

-- Each event that comes out is counted. The counters do not depend on how this mixes with the publishing.
abbrev pub emit_all : Stream → OrdersEventsService → OrdersEventsService
emit_all [] s = s
emit_all (x ∷ xs) s = emit_all xs (tap_emitted s)

emit_all-counts :
    (xs : Stream) (s : OrdersEventsService)
    → let m = (emit_all xs s).metrics in
      (m.received ≡ s.metrics.received)
      × (m.dedup_dropped ≡ s.metrics.dedup_dropped)
      × (m.emitted ≡ s.metrics.emitted + length xs)
emit_all-counts [] s = (refl, refl, omega arith)
emit_all-counts (x ∷ xs) s =
    let (received, dropped, emitted) = emit_all-counts xs (tap_emitted s) in
    (received, dropped, omega (arith, emitted))

publish_all-emitted :
    (xs : Stream) (s : OrdersEventsService) → (publish_all xs s).metrics.emitted ≡ s.metrics.emitted
unfolding publish_status_changed
publish_all-emitted [] s = refl
publish_all-emitted (x ∷ xs) s = publish_all-emitted xs (publish_status_changed x.event s)

-- One event about the order.
record IsCounted (id : String) (x : Timed) (s s' : OrdersEventsService) (count : ℕ) : Type 0 where
  received : s'.metrics.received ≡ s.metrics.received + 1
  dropped : s'.metrics.dedup_dropped ≡ s.metrics.dedup_dropped + count
  known : s'.last_version id ≡ some x.event.version

publish-IsCounted :
    (id : String) (x : Timed) (s : OrdersEventsService) (version : Option ℕ)
    → about id x ≡ true
    → s.last_version id ≡ version
    → IsCounted id x s
        (publish_status_changed x.event s)
        (if repeats version x.event.version then 1 else 0)
unfolding publish_status_changed
publish-IsCounted id x s version mine known =
    let named : x.event.order_id ≡ id = ground (arith, eq_iff x.event.order_id id) in
    let stored : s.last_version x.event.order_id ≡ version = ap s.last_version named ∙ known in
    record { received = refl; dropped = ground (arith, stored); known = ground arith }

-- The counters after events about one order, whose last event was `e`.
abbrev version_of : Option OrderStatusChangedEvent → Option ℕ
version_of none = none
version_of (some e) = some e.version

abbrev Counts : Stream → Stream → OrdersEventsService → Type 0
Counts xs ys s =
    ((publish_all xs s).metrics.received ≡ s.metrics.received + length xs)
    × ((publish_all xs s).metrics.dedup_dropped + length ys ≡ s.metrics.dedup_dropped + length xs)

counted :
    (id : String) (xs ys : Stream) (e : Option OrderStatusChangedEvent) (s : OrdersEventsService)
    → All (λ x. about id x ≡ true) xs
    → Kept same_version e xs ys
    → s.last_version id ≡ version_of e
    → Counts xs ys s
counted id [] [] e s all ends known = (omega arith, omega arith)
counted id [] (y ∷ ys) e s all kept known = elim kept [ ]
counted id (x ∷ xs) [] none s all kept known = elim kept [ ]
counted id (x ∷ xs) (_ ∷ ys) none s (mine, all) (first rest) known =
    let c = publish-IsCounted id x s none mine known in
    let (received, dropped) =
      counted id xs ys (some x.event) (publish_status_changed x.event s) all rest c.known in
    (omega (arith, c.received, received), omega (arith, c.dropped, dropped))
counted id (x ∷ xs) ys (some l) s (mine, all) (drops same rest) known =
    let c = publish-IsCounted id x s (some l.version) mine known in
    let one = c.dropped ∙ ap (λ b. s.metrics.dedup_dropped + (if b then 1 else 0)) same in
    let version : l.version ≡ x.event.version = ground arith in
    let (received, dropped) =
      counted id xs ys (some l) (publish_status_changed x.event s) all rest
        (c.known ∙ ap some (sym version)) in
    (omega (arith, c.received, received), omega (arith, one, dropped))
counted id (x ∷ xs) (_ ∷ ys) (some l) s (mine, all) (emits new rest) known =
    let c = publish-IsCounted id x s (some l.version) mine known in
    let one = c.dropped ∙ ap (λ b. s.metrics.dedup_dropped + (if b then 1 else 0)) new in
    let (received, dropped) =
      counted id xs ys (some x.event) (publish_status_changed x.event s) all rest c.known in
    (omega (arith, c.received, received), omega (arith, one, dropped))

-- The version that has come last, `version` if nothing has come.
abbrev version_after : Option ℕ → Stream → Option ℕ
version_after version [] = version
version_after version (x ∷ xs) = version_after (some x.event.version) xs

Kept-version_after :
    (e : Option OrderStatusChangedEvent) (xs ys : Stream)
    → Kept same_version e xs ys
    → version_after (version_of e) xs ≡ version_after (version_of e) ys
Kept-version_after e [] [] ends = refl
Kept-version_after e [] (y ∷ ys) kept = elim kept [ ]
Kept-version_after none (x ∷ xs) [] kept = elim kept [ ]
Kept-version_after none (x ∷ xs) (_ ∷ ys) (first rest) =
    Kept-version_after (some x.event) xs ys rest
Kept-version_after (some l) (x ∷ xs) ys (drops same rest) =
    let version : x.event.version ≡ l.version = ground arith in
    ap (λ v. version_after (some v) xs) version ∙ Kept-version_after (some l) xs ys rest
Kept-version_after (some l) (x ∷ xs) (_ ∷ ys) (emits new rest) =
    Kept-version_after (some x.event) xs ys rest

last-cons : (x y : Timed) (ys : Stream) → last (x ∷ y ∷ ys) ≡ last (y ∷ ys)
last-cons x y ys = elim (Option-cases (last ys)) [
  | inl alone ↦ ground (arith, alone)
  | inr (z, more) ↦ ground (arith, more)
]

last-version_after :
    (v : Option ℕ) (xs : Stream) (x : Timed)
    → last xs ≡ some x
    → version_after v xs ≡ some x.event.version
last-version_after v [] x h = cc
last-version_after v (y ∷ []) x h = ground arith
last-version_after v (y ∷ z ∷ zs) x h =
    last-version_after (some y.event.version) (z ∷ zs) x (sym (last-cons y z zs) ∙ h)

version_after-last :
    (xs : Stream) (n : ℕ)
    → version_after none xs ≡ some n
    → (x : Timed) × (last xs ≡ some x) × (x.event.version ≡ n)
version_after-last [] n h = cc
version_after-last (x ∷ xs) n h = elim (Option-cases (last xs)) [
  | inl alone ↦
      let there : last (x ∷ xs) ≡ some x = ground (arith, alone) in
      let own = last-version_after none (x ∷ xs) x there in (x, there, cc)
  | inr (y, more) ↦
      let there : last (x ∷ xs) ≡ some y = ground (arith, more) in
      let own = last-version_after none (x ∷ xs) y there in (y, there, cc)
]

Kept-nil : (ys : Stream) → Kept same_version none [] ys → ys ≡ []
Kept-nil [] kept = refl
Kept-nil (y ∷ ys) kept = elim kept [ ]

Kept-about :
    (id : String) (e : Option OrderStatusChangedEvent) (xs ys : Stream)
    → All (λ x. about id x ≡ true) xs
    → Kept same_version e xs ys
    → All (λ x. about id x ≡ true) ys
Kept-about id e [] [] all ends = tt
Kept-about id e [] (y ∷ ys) all kept = elim kept [ ]
Kept-about id none (x ∷ xs) [] all kept = elim kept [ ]
Kept-about id none (x ∷ xs) (_ ∷ ys) (mine, all) (first rest) =
    (mine, Kept-about id (some x.event) xs ys all rest)
Kept-about id (some l) (x ∷ xs) ys (mine, all) (drops same rest) =
    Kept-about id (some l) xs ys all rest
Kept-about id (some l) (x ∷ xs) (_ ∷ ys) (mine, all) (emits new rest) =
    (mine, Kept-about id (some x.event) xs ys all rest)

-- A socket in the room of the order hears each event about it.
pub about-hears :
    (id : String) (client : Socket) (xs : Stream)
    → client.connected ≡ true
    → client.rooms (order_room id) ≡ true
    → All (λ x. about id x ≡ true) xs
    → All (λ x. hears x.event client ≡ true) xs
about-hears id client [] connected joined all = tt
about-hears id client (x ∷ xs) connected joined (mine, all) =
    let named : x.event.order_id ≡ id = ground (arith, eq_iff x.event.order_id id) in
    let room = ap (λ i. client.rooms (order_room i)) named ∙ joined in
    (ground (arith, connected, room), about-hears id client xs connected joined all)

module _ (ops : Operators) where
  -- For the events about one order, what has been received is what has been counted as dropped and what
  -- `distinctUntilChanged` lets through, so that the counter in the first `tap` agrees with the operator;
  -- and as many are counted as emitted as come out of the stream.
  received_split :
      (id : String) (xs : Stream)
      → All (λ x. about id x ≡ true) xs
      → let m = (emit_all (events ops xs) (publish_all xs initial)).metrics in
        (m.received ≡ length xs)
        × (m.received ≡ m.dedup_dropped + length (ops.distinct same_version xs))
        × (m.emitted ≡ length (events ops xs))
  received_split id xs all =
      let (received, dropped) =
        counted id xs (ops.distinct same_version xs) none initial all
          (ops.distinct-Kept same_version xs) refl in
      let (same, same', emitted) = emit_all-counts (events ops xs) (publish_all xs initial) in
      let before = publish_all-emitted xs initial in
      (
        omega (arith, received, same),
        omega (arith, received, dropped, same, same'),
        omega (arith, emitted, before),
      )

  -- The pipe of a group stays with the order.
  pub group_pipe-about :
      (id : String) (xs : Stream)
      → All (λ x. about id x ≡ true) xs
      → All (λ x. about id x ≡ true) (group_pipe ops xs)
  unfolding group_pipe
  group_pipe-about id xs all =
      ops.throttle-All 300 (λ e. str_eq e.order_id id) (ops.distinct same_version xs)
        (Kept-about id none xs _ all (ops.distinct-Kept same_version xs))

  pub group_pipe-nil : group_pipe ops [] ≡ []
  unfolding group_pipe
  group_pipe-nil =
      ap (ops.throttle 300) (Kept-nil _ (ops.distinct-Kept same_version [])) ∙ ops.throttle-nil 300

  -- The last event that a group lets out has the version of the last one that came in.
  group_pipe-last :
      (xs : Stream) (x : Timed)
      → last xs ≡ some x
      → (y : Timed) × (last (group_pipe ops xs) ≡ some y) × (y.event.version ≡ x.event.version)
  unfolding group_pipe
  group_pipe-last xs x h =
      let kept = Kept-version_after none xs _ (ops.distinct-Kept same_version xs) in
      let (y, passed, version) =
        version_after-last (ops.distinct same_version xs) x.event.version
          (sym kept ∙ last-version_after none xs x h) in
      let (z, sent, same) = ops.throttle-last 300 (ops.distinct same_version xs) y passed in
      (z, sent, ap (λ e. e.version) same ∙ version)

  -- When events are published, a connected socket in the room of an order is sent what the stream lets out
  -- about the order: messages at least 300 milliseconds apart, of which the last has the version of the last
  -- event published about it.
  pub last_version_heard :
      (id : String) (xs : Stream) (x : Timed) (client : Socket)
      → last (filterb (about id) xs) ≡ some x
      → client.connected ≡ true
      → client.rooms (order_room id) ≡ true
      → let sent = filterb (about id) (events ops xs) in
        (y : Timed) × (last sent ≡ some y)
        × (y.event.version ≡ x.event.version)
        × IsSpaced 300 sent
        × All (λ z. hears z.event client ≡ true) sent
  unfolding events group_pipe
  last_version_heard id xs x client published connected joined =
      let mine = filterb (about id) xs in
      let merged : filterb (about id) (events ops xs) ≡ group_pipe ops mine =
        ops.group_merge-about (group_pipe ops) id xs group_pipe-nil group_pipe-about in
      let (y, sent, version) = group_pipe-last mine x published in
      (
        y,
        ap last merged ∙ sent,
        version,
        subst (IsSpaced 300) (sym merged)
            (ops.throttle-IsSpaced 300 (ops.distinct same_version mine)),
        about-hears id client (filterb (about id) (events ops xs)) connected joined
            (filterb-All (about id) (events ops xs)),
      )
