-- ===== src/Orders/Events.antt =====
-- src/orders/orders-events.service.ts: `OrdersEventsService`. A stream is the list of what it emits, each
-- event with its time in milliseconds. The operators of rxjs are the record `Operators`, with what their
-- documentation says of them; an operator that fails (`catchError`) is not modelled.
use nest_js_ecomm_rd.Base.{
  ℕ, ◌+◌, ◌≤◌, ◌==◌, String, ◌≡◌, Bool, true, false, Option, none, some, List, [], ◌∷◌,
  if◌then◌else◌, str_eq, Map, empty_map, set, filterb, All, length,
}
use nest_js_ecomm_rd.Orders.Message.{OrderStatusChangedEvent}

pub record OrderEventsMetrics : Type 0 where
  pub received : ℕ
  pub dedup_dropped : ℕ
  pub emitted : ℕ

-- The metrics, and `lastVersion` of each group.
pub record OrdersEventsService : Type 0 where
  pub metrics : OrderEventsMetrics
  pub last_version : Map ℕ

abbrev pub initial : OrdersEventsService
initial = record {
  metrics = record { received = 0; dedup_dropped = 0; emitted = 0 };
  last_version = empty_map;
}

-- `lastVersion === event.version`
abbrev pub repeats : Option ℕ → ℕ → Bool
repeats none version = false
repeats (some last) version = last == version

-- The first `tap` of the group of the event.
abbrev pub tap_version : OrderStatusChangedEvent → OrdersEventsService → OrdersEventsService
tap_version event s =
    let m = s.metrics in
    record {
      metrics = record m {
        dedup_dropped =
            if repeats (s.last_version event.order_id) event.version
            then m.dedup_dropped + 1
            else m.dedup_dropped;
      };
      last_version = set event.order_id event.version s.last_version;
    }

-- `publishStatusChanged`, up to the operators after the first `tap`.
unfoldable pub publish_status_changed :
    OrderStatusChangedEvent → OrdersEventsService → OrdersEventsService
publish_status_changed event s =
    tap_version event
      (record s { metrics = record s.metrics { received = s.metrics.received + 1 } })

-- The second `tap`.
abbrev pub tap_emitted : OrdersEventsService → OrdersEventsService
tap_emitted s = record s { metrics = record s.metrics { emitted = s.metrics.emitted + 1 } }

abbrev pub same_version : OrderStatusChangedEvent → OrderStatusChangedEvent → Bool
same_version left right = left.version == right.version

pub record Timed : Type 0 where
  pub at : ℕ
  pub event : OrderStatusChangedEvent

abbrev pub Stream : Type 0
Stream = List Timed

-- `distinctUntilChanged(same)`, after the value `last`: what it emits of what comes in.
pub data Kept (same : OrderStatusChangedEvent → OrderStatusChangedEvent → Bool)
    : Option OrderStatusChangedEvent → Stream → Stream → Type 0 where
  ends : {last : Option OrderStatusChangedEvent} → Kept same last [] []
  first :
      {x : Timed} {xs ys : Stream}
      → Kept same (some x.event) xs ys
      → Kept same none (x ∷ xs) (x ∷ ys)
  drops :
      {last : OrderStatusChangedEvent} {x : Timed} {xs ys : Stream}
      → same last x.event ≡ true
      → Kept same (some last) xs ys
      → Kept same (some last) (x ∷ xs) ys
  emits :
      {last : OrderStatusChangedEvent} {x : Timed} {xs ys : Stream}
      → same last x.event ≡ false
      → Kept same (some x.event) xs ys
      → Kept same (some last) (x ∷ xs) (x ∷ ys)

abbrev pub last : Stream → Option Timed
last [] = none
last (x ∷ xs) = elim (last xs) [ none ↦ some x | some y ↦ some y ]

-- Neighbours are `duration` apart at least.
abbrev pub IsSpaced : ℕ → Stream → Type 0
IsSpaced duration [] = Unit
IsSpaced duration (x ∷ []) = Unit
IsSpaced duration (x ∷ y ∷ rest) = (x.at + duration ≤ y.at) × IsSpaced duration (y ∷ rest)

abbrev pub about : String → Timed → Bool
about id x = str_eq x.event.order_id id

pub record Operators : Type 0 where
  pub distinct : (OrderStatusChangedEvent → OrderStatusChangedEvent → Bool) → Stream → Stream
  -- `throttleTime(duration, undefined, { leading: true, trailing: true })`
  pub throttle : ℕ → Stream → Stream
  -- `groupBy` on the order with `mergeMap`
  pub group_merge : (Stream → Stream) → Stream → Stream
  pub distinct-Kept :
      (same : OrderStatusChangedEvent → OrderStatusChangedEvent → Bool) (xs : Stream)
      → Kept same none xs (distinct same xs)
  -- The last value comes out in the end; the values are values that came in.
  pub throttle-last :
      (duration : ℕ) (xs : Stream) (x : Timed)
      → last xs ≡ some x
      → (y : Timed) × (last (throttle duration xs) ≡ some y) × (y.event ≡ x.event)
  pub throttle-nil : (duration : ℕ) → throttle duration [] ≡ []
  pub length-throttle-le : (duration : ℕ) (xs : Stream) → length (throttle duration xs) ≤ length xs
  pub throttle-IsSpaced : (duration : ℕ) (xs : Stream) → IsSpaced duration (throttle duration xs)
  pub throttle-All :
      (duration : ℕ) (p : OrderStatusChangedEvent → Bool) (xs : Stream)
      → All (λ x. p x.event ≡ true) xs
      → All (λ x. p x.event ≡ true) (throttle duration xs)
  -- What comes out about an order is what the inner pipe makes of what came in about it.
  pub group_merge-about :
      (inner : Stream → Stream) (id : String) (xs : Stream)
      → inner [] ≡ []
      → ((k : String) (ys : Stream)
          → All (λ y. about k y ≡ true) ys
          → All (λ y. about k y ≡ true) (inner ys))
      → filterb (about id) (group_merge inner xs) ≡ inner (filterb (about id) xs)

module _ (ops : Operators) where
  -- The pipe of one group.
  unfoldable pub group_pipe : Stream → Stream
  group_pipe xs = ops.throttle 300 (ops.distinct same_version xs)

  -- `events$`
  unfoldable pub events : Stream → Stream
  events xs = ops.group_merge group_pipe xs
