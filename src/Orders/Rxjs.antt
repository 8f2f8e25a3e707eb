-- ===== src/Orders/Rxjs.antt =====
-- Operators on finished streams that obey the laws of `Operators`.
use nest_js_ecomm_rd.Base.{
  ℕ, ◌+◌, ◌≤◌, length, ◌≡◌, refl, sym, ap, ◌∙◌, String, Bool, true, false, Option, none, some, [],
  ◌∷◌, ◌++◌, if◌then◌else◌, leb, str_eq, eq_iff, StringSet, add, filterb, filterb-All,
  filterb-append, filterb-keeps, filterb-drops, All, arith, Bool-cases, Option-cases, inl, inr,
}
use mathlib.Core.List.{append-nil}
use nest_js_ecomm_rd.Orders.Message.{OrderStatusChangedEvent}
use nest_js_ecomm_rd.Orders.Events.{
  Timed, Stream, Kept, ends, first, drops, emits, last, IsSpaced, about, Operators,
}

module _ (same : OrderStatusChangedEvent → OrderStatusChangedEvent → Bool) where
  abbrev distinct_after : OrderStatusChangedEvent → Stream → Stream
  distinct_after e [] = []
  distinct_after e (x ∷ xs) = elim (same e x.event) [
    | true ↦ distinct_after e xs
    | false ↦ x ∷ distinct_after x.event xs
  ]

  abbrev pub distinct : Stream → Stream
  distinct [] = []
  distinct (x ∷ xs) = x ∷ distinct_after x.event xs

  distinct_after-Kept :
      (e : OrderStatusChangedEvent) (xs : Stream) → Kept same (some e) xs (distinct_after e xs)
  distinct_after-Kept e [] = ends
  distinct_after-Kept e (x ∷ xs) =
      go (same e x.event) refl (distinct_after-Kept e xs) (distinct_after-Kept x.event xs)
    where
      go :
          (b : Bool)
          → same e x.event ≡ b
          → Kept same (some e) xs (distinct_after e xs)
          → Kept same (some x.event) xs (distinct_after x.event xs)
          → Kept same
              (some e)
              (x ∷ xs)
              (elim b [ true ↦ distinct_after e xs | false ↦ x ∷ distinct_after x.event xs ])
      go true h dropped kept = drops h dropped
      go false h dropped kept = emits h kept

  pub distinct-Kept : (xs : Stream) → Kept same none xs (distinct xs)
  distinct-Kept [] = ends
  distinct-Kept (x ∷ xs) = first (distinct_after-Kept x.event xs)

All-branch :
    (p : OrderStatusChangedEvent → Bool) (b : Bool) (xs ys : Stream)
    → All (λ x. p x.event ≡ true) xs
    → All (λ x. p x.event ≡ true) ys
    → All (λ x. p x.event ≡ true) (elim b [ true ↦ xs | false ↦ ys ])
All-branch p true xs ys kept other = kept
All-branch p false xs ys kept other = other

module _ (duration : ℕ) where
  -- The window is closed until `free`; `waiting` is the latest value within it.
  abbrev throttled : ℕ → Option OrderStatusChangedEvent → Stream → Stream
  throttled free none [] = []
  throttled free (some e) [] = record { at = free; event = e } ∷ []
  throttled free none (x ∷ xs) = elim (leb free x.at) [
    | true ↦ x ∷ throttled (x.at + duration) none xs
    | false ↦ throttled free (some x.event) xs
  ]
  throttled free (some e) (x ∷ xs) = elim (leb free x.at) [
    | false ↦ throttled free (some x.event) xs
    | true ↦ record { at = free; event = e } ∷ elim (leb (free + duration) x.at) [
      | true ↦ x ∷ throttled (x.at + duration) none xs
      | false ↦ throttled (free + duration) (some x.event) xs
    ]
  ]

  abbrev pub throttle : Stream → Stream
  throttle [] = []
  throttle (x ∷ xs) = x ∷ throttled (x.at + duration) none xs

  -- Nothing comes out before `free`, and what comes out is spaced.
  abbrev IsAfter : ℕ → Stream → Type 0
  IsAfter free [] = Unit
  IsAfter free (x ∷ xs) = free ≤ x.at

  abbrev Runs : ℕ → Stream → Type 0
  Runs free xs = IsAfter free xs × IsSpaced duration xs

  Runs-cons :
      (free : ℕ) (x : Timed) (xs : Stream)
      → free ≤ x.at
      → Runs (x.at + duration) xs
      → Runs free (x ∷ xs)
  Runs-cons free x [] h runs = (h, tt)
  Runs-cons free x (y ∷ ys) h (later, spaced) = (h, (later, spaced))

  throttled-Runs :
      (free : ℕ) (waiting : Option OrderStatusChangedEvent) (xs : Stream)
      → Runs free (throttled free waiting xs)
  throttled-Runs free none [] = (tt, tt)
  throttled-Runs free (some e) [] = (omega arith, tt)
  throttled-Runs free none (x ∷ xs) =
      go (leb free x.at) refl (throttled-Runs (x.at + duration) none xs)
        (throttled-Runs free (some x.event) xs)
    where
      go :
          (b : Bool)
          → leb free x.at ≡ b
          → Runs (x.at + duration) (throttled (x.at + duration) none xs)
          → Runs free (throttled free (some x.event) xs)
          → Runs free (elim b [
            | true ↦ x ∷ throttled (x.at + duration) none xs
            | false ↦ throttled free (some x.event) xs
          ])
      go true h open_window closed = Runs-cons free x _ (ground arith) open_window
      go false h open_window closed = closed
  throttled-Runs free (some e) (x ∷ xs) =
      go (leb free x.at) refl (leb (free + duration) x.at) refl
        (throttled-Runs (x.at + duration) none xs) (throttled-Runs free (some x.event) xs)
        (throttled-Runs (free + duration) (some x.event) xs)
    where
      go :
          (b : Bool)
          → leb free x.at ≡ b
          → (b' : Bool) → leb (free + duration) x.at ≡ b'
          → Runs (x.at + duration) (throttled (x.at + duration) none xs)
          → Runs free (throttled free (some x.event) xs)
          → Runs (free + duration) (throttled (free + duration) (some x.event) xs)
          → Runs free (elim b [
            | false ↦ throttled free (some x.event) xs
            | true ↦ record { at = free; event = e } ∷ elim b' [
              | true ↦ x ∷ throttled (x.at + duration) none xs
              | false ↦ throttled (free + duration) (some x.event) xs
            ]
          ])
      go false h b' h' opened closed next = closed
      go true h true h' opened closed next =
          Runs-cons free (record { at = free; event = e }) (x ∷ throttled (x.at + duration) none xs)
            (omega arith)
            (Runs-cons (free + duration) x (throttled (x.at + duration) none xs) (ground arith)
              opened)
      go true h false h' opened closed next =
          Runs-cons free (record { at = free; event = e })
            (throttled (free + duration) (some x.event) xs) (omega arith) next

  pub throttle-IsSpaced : (xs : Stream) → IsSpaced duration (throttle xs)
  throttle-IsSpaced [] = tt
  throttle-IsSpaced (x ∷ xs) =
      (Runs-cons 0 x _ (omega arith) (throttled-Runs (x.at + duration) none xs)).1

  abbrev last_event : Option OrderStatusChangedEvent → Stream → Option OrderStatusChangedEvent
  last_event e [] = e
  last_event e (x ∷ xs) = last_event (some x.event) xs

  abbrev newer :
      Option OrderStatusChangedEvent
      → Option OrderStatusChangedEvent
      → Option OrderStatusChangedEvent
  newer none e = e
  newer (some w) e = some w

  throttled-last_event :
      (free : ℕ) (waiting e : Option OrderStatusChangedEvent) (xs : Stream)
      → last_event e (throttled free waiting xs) ≡ last_event (newer waiting e) xs
  throttled-last_event free none e [] = refl
  throttled-last_event free (some w) e [] = refl
  throttled-last_event free none e (x ∷ xs) =
      let opened = throttled-last_event (x.at + duration) none (some x.event) xs in
      let closed = throttled-last_event free (some x.event) e xs in ground (arith, opened, closed)
  throttled-last_event free (some w) e (x ∷ xs) =
      let opened = throttled-last_event (x.at + duration) none (some x.event) xs in
      let closed = throttled-last_event free (some x.event) e xs in
      let next = throttled-last_event (free + duration) (some x.event) (some w) xs in
      ground (arith, opened, closed, next)

  throttled-All :
      (p : OrderStatusChangedEvent → Bool) (free : ℕ) (xs : Stream)
      → All (λ x. p x.event ≡ true) xs
      → All (λ x. p x.event ≡ true) (throttled free none xs)
        × ((w : OrderStatusChangedEvent)
            → p w ≡ true
            → All (λ x. p x.event ≡ true) (throttled free (some w) xs))
  throttled-All p free [] all = (tt, λ w h. (h, tt))
  throttled-All p free (x ∷ xs) (own, all) =
      let opened : All (λ y. p y.event ≡ true) (x ∷ throttled (x.at + duration) none xs) =
        (own, (throttled-All p (x.at + duration) xs all).0) in
      let closed = (throttled-All p free xs all).1 x.event own in
      let next = (throttled-All p (free + duration) xs all).1 x.event own in
      (
        All-branch p (leb free x.at) _ _ opened closed,
        λ w h.
            All-branch p (leb free x.at) _ _
              (h, All-branch p (leb (free + duration) x.at) _ _ opened next) closed,
      )

  pub throttle-All :
      (p : OrderStatusChangedEvent → Bool) (xs : Stream)
      → All (λ x. p x.event ≡ true) xs
      → All (λ x. p x.event ≡ true) (throttle xs)
  throttle-All p [] all = tt
  throttle-All p (x ∷ xs) (own, all) = (own, (throttled-All p (x.at + duration) xs all).0)

  last-last_event :
      (e : Option OrderStatusChangedEvent) (xs : Stream) (x : Timed)
      → last xs ≡ some x
      → last_event e xs ≡ some x.event
  last-last_event e [] x h = cc
  last-last_event e (y ∷ ys) x h = elim (Option-cases (last ys)) [
    | inl alone ↦ ended y ys alone ∙ ground (arith, alone)
    | inr (z, more) ↦ last-last_event (some y.event) ys x (ground (arith, more))
  ]
    where
      ended :
          (z : Timed) (zs : Stream) → last zs ≡ none → last_event (some z.event) zs ≡ some z.event
      ended z [] h = refl
      ended z (w ∷ ws) h = absurd (ground arith)

  last_event-last :
      (x : Timed) (xs : Stream) (e : OrderStatusChangedEvent)
      → last_event (some x.event) xs ≡ some e
      → (y : Timed) × (last (x ∷ xs) ≡ some y) × (y.event ≡ e)
  last_event-last x [] e h = (x, refl, cc)
  last_event-last x (y ∷ ys) e h =
      let (z, there, same) = last_event-last y ys e h in (z, ground (arith, there), same)

  pub throttle-last :
      (xs : Stream) (x : Timed)
      → last xs ≡ some x
      → (y : Timed) × (last (throttle xs) ≡ some y) × (y.event ≡ x.event)
  throttle-last [] x h = cc
  throttle-last (z ∷ zs) x h = last_event-last z (throttled (z.at + duration) none zs) x.event (
      throttled-last_event (z.at + duration) none (some z.event) zs
      ∙ last-last_event none (z ∷ zs) x h)

  -- What is waiting may come out too.
  length-throttled-le :
      (free : ℕ) (xs : Stream)
      → (length (throttled free none xs) ≤ length xs)
        × ((w : OrderStatusChangedEvent) → length (throttled free (some w) xs) ≤ 1 + length xs)
  length-throttled-le free [] = (omega arith, λ w. omega arith)
  length-throttled-le free (x ∷ xs) =
      let opened = (length-throttled-le (x.at + duration) xs).0 in
      let closed = (length-throttled-le free xs).1 x.event in
      let next = (length-throttled-le (free + duration) xs).1 x.event in
      (ground (arith, opened, closed), λ w. ground (arith, opened, closed, next))

  pub length-throttle-le : (xs : Stream) → length (throttle xs) ≤ length xs
  length-throttle-le [] = omega arith
  length-throttle-le (x ∷ xs) =
      let rest = (length-throttled-le (x.at + duration) xs).0 in omega (arith, rest)

module _ (inner : Stream → Stream) (all : Stream) where
  -- One pipe for each order, at the first event about it.
  abbrev pub merged : StringSet → Stream → Stream
  merged seen [] = []
  merged seen (x ∷ xs) =
      let rest = merged seen xs in
      let rest' = merged (add x.event.order_id seen) xs in
      if seen x.event.order_id then rest else inner (filterb (about x.event.order_id) all) ++ rest'

  module _ (id : String) (empty : inner [] ≡ [])
      (stays : (k : String) (ys : Stream)
        → All (λ y. about k y ≡ true) ys
        → All (λ y. about k y ≡ true) (inner ys)) where
    -- What the groups that have not been seen give, if there is an event about the order.
    abbrev group_of : StringSet → Stream → Stream
    group_of seen [] = []
    group_of seen (y ∷ ys) = if seen id then [] else inner (filterb (about id) all)

    group_of-seen : (seen : StringSet) (ys : Stream) → seen id ≡ true → group_of seen ys ≡ []
    group_of-seen seen [] h = refl
    group_of-seen seen (y ∷ ys) h = ground (arith, h)

    group_of-same :
        (seen seen' : StringSet) (ys : Stream)
        → seen id ≡ seen' id
        → group_of seen ys ≡ group_of seen' ys
    group_of-same seen seen' [] h = refl
    group_of-same seen seen' (y ∷ ys) h = ground (arith, h)

    about-other :
        (k : String) (ys : Stream)
        → str_eq k id ≡ false
        → All (λ y. about k y ≡ true) ys
        → All (λ y. about id y ≡ false) ys
    about-other k [] other all = tt
    about-other k (y ∷ ys) other (own, all) =
        (ground (arith, eq_iff y.event.order_id k, other), about-other k ys other all)

    own_group :
        (k : String)
        → str_eq k id ≡ true
        → filterb (about id) (inner (filterb (about k) all)) ≡ inner (filterb (about id) all)
    own_group k mine =
        let same : k ≡ id = ground (arith, eq_iff k id) in
        ap (λ j. filterb (about id) (inner (filterb (about j) all))) same
        ∙ filterb-keeps (about id) (inner (filterb (about id) all))
            (stays id (filterb (about id) all) (filterb-All (about id) all))

    other_group :
        (k : String) → str_eq k id ≡ false → filterb (about id) (inner (filterb (about k) all)) ≡ []
    other_group k other =
        filterb-drops (about id) (inner (filterb (about k) all))
          (about-other k _ other (stays k (filterb (about k) all) (filterb-All (about k) all)))

    merged-about :
        (seen : StringSet) (xs : Stream)
        → filterb (about id) (merged seen xs) ≡ group_of seen (filterb (about id) xs)
    merged-about seen [] = refl
    merged-about seen (x ∷ xs) =
        let k = x.event.order_id in
        let later = merged-about seen xs in
        let later' = merged-about (add k seen) xs in
        let joined =
          filterb-append (about id) (inner (filterb (about k) all)) (merged (add k seen) xs) in
        elim (Bool-cases (str_eq k id)) [
          | inl mine ↦
              let same : k ≡ id = ground (arith, eq_iff k id) in
              elim (Bool-cases (seen k)) [
                | inl old ↦
                    let known = ap seen (sym same) ∙ old in
                    let nothing = group_of-seen seen (filterb (about id) xs) known in
                    ground (arith, old, known, later, nothing, mine)
                | inr new ↦
                    let first_seen = ap seen (sym same) ∙ new in
                    let group = own_group k mine in
                    let nothing =
                      group_of-seen (add k seen) (filterb (about id) xs) (ground (arith, mine)) in
                    let alone = append-nil (inner (filterb (about id) all)) in
                    ground (arith, new, first_seen, joined, group, later', nothing, alone, mine)
              ]
          | inr other ↦
              let nothing = other_group k other in
              let same =
                group_of-same (add k seen) seen (filterb (about id) xs) (ground (arith, other)) in
              elim (Bool-cases (seen k)) [
                | inl old ↦ ground (arith, old, later, other)
                | inr new ↦ ground (arith, new, joined, nothing, later', same, other)
              ]
        ]

    whole : (ys : Stream) → ys ≡ filterb (about id) all → group_of (λ k. false) ys ≡ inner ys
    whole [] h = sym empty
    whole (y ∷ ys) h = ap inner (sym h)

    pub merged-group : filterb (about id) (merged (λ k. false) all) ≡ inner (filterb (about id) all)
    merged-group = merged-about (λ k. false) all ∙ whole (filterb (about id) all) refl

abbrev pub operators : Operators
operators = record {
  distinct = distinct;
  throttle = throttle;
  group_merge = λ inner xs. merged inner xs (λ k. false) xs;
  distinct-Kept = distinct-Kept;
  throttle-last = throttle-last;
  throttle-nil = λ duration. refl;
  length-throttle-le = length-throttle-le;
  throttle-IsSpaced = throttle-IsSpaced;
  throttle-All = throttle-All;
  group_merge-about = λ inner id xs empty stays. merged-group inner xs id empty stays;
}
