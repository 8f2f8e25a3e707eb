-- ===== src/Worker/Pipeline.antt =====
-- The worker on the real `processOrderMessage`: what the deliveries of a queue, handled one after the
-- other, with repeated, damaged and failing ones among them, do to the tables and to the events.
use nest_js_ecomm_rd.Base.{
  ℕ, ◌+◌, ◌≤◌, String, ◌≡◌, refl, sym, ap, ◌∙◌, Bool, Option, List, [], ◌∷◌, ◌++◌, arith,
}
use nest_js_ecomm_rd.Errors.{Exception, Result, ok, err}
use nest_js_ecomm_rd.Rabbitmq.{RabbitmqService, publish_to_queue, on_message}
use nest_js_ecomm_rd.Database.{Tables, Orm}
use nest_js_ecomm_rd.Orders.Message.{Text, OrderProcessMessage, OrderStatusChangedEvent, whole}
use nest_js_ecomm_rd.Orders.Process.{Outcome, process_order_message}
use nest_js_ecomm_rd.Orders.Deliveries.{about, about-++, deliver, deliver_once}
use nest_js_ecomm_rd.Worker.Defs.{
  Content, malformed, literal_null, object, ProcessResult, returned, failed, Settings, attempt_of,
  handle_message, on_failure,
}
use nest_js_ecomm_rd.Worker.Settlement.{receive}

-- The tables, and the events that were published.
pub record World : Type 0 where
  pub tables : Tables
  pub events : List OrderStatusChangedEvent

-- `text` is the message of an exception.
abbrev pub to_result : (Exception → Text) → Result (Outcome × Option String) → ProcessResult
to_result text (ok (outcome, id)) = returned outcome
to_result text (err error) = failed (text error)

++-none {ℓ} : {A : Type ℓ} (xs : List A) → xs ++ [] ≡ xs
++-none [] = refl
++-none (x ∷ xs) = ap (λ l. x ∷ l) (++-none xs)

++-regroup {ℓ} : {A : Type ℓ} (xs ys zs : List A) → (xs ++ ys) ++ zs ≡ xs ++ (ys ++ zs)
++-regroup [] ys zs = refl
++-regroup (x ∷ xs) ys zs = ap (λ l. x ∷ l) (++-regroup xs ys zs)

module _ {S : Type 0} (send : String → Bool) (service : RabbitmqService) (c : Settings) (now : ℕ)
    (process : OrderProcessMessage → S → ProcessResult × S) where
  -- The state after a message that can be read is that of its processing, on every way out.
  receive-processed :
      (payload : OrderProcessMessage) (s : S)
      → (receive send service c now process (object payload) s).state
        ≡ (process (record payload { attempt = whole (attempt_of payload.attempt) }) s).1
  unfolding receive on_message handle_message on_failure publish_to_queue
  receive-processed payload s = ground arith

module _ (orm : Orm) (text : Exception → Text) (send : String → Bool) (service : RabbitmqService)
    (c : Settings) where
  abbrev pub process_at : ℕ → OrderProcessMessage → World → ProcessResult × World
  process_at now message w =
      let done = process_order_message orm now message w.tables in
      (to_result text done.reply, record { tables = done.tables; events = w.events ++ done.events })

  -- Deliveries to the worker, each at its time.
  unfoldable pub receive_all : List (ℕ × Content) → World → World
  receive_all [] w = w
  receive_all ((now, content) ∷ contents) w =
      receive_all contents (receive send service c now (process_at now) content w).state

  -- The messages that can be read, as they are processed.
  abbrev pub readable : List (ℕ × Content) → List (ℕ × OrderProcessMessage)
  readable [] = []
  readable ((now, malformed raw) ∷ contents) = readable contents
  readable ((now, literal_null) ∷ contents) = readable contents
  readable ((now, object payload) ∷ contents) =
      (now, record payload { attempt = whole (attempt_of payload.attempt) }) ∷ readable contents

  receive-malformed :
      (now : ℕ) (raw : String) (w : World)
      → (receive send service c now (process_at now) (malformed raw) w).state ≡ w
  unfolding receive on_message handle_message publish_to_queue
  receive-malformed now raw w = ground arith

  receive-null :
      (now : ℕ) (w : World) → (receive send service c now (process_at now) literal_null w).state ≡ w
  unfolding receive on_message handle_message
  receive-null now w = ground arith

  receive-object :
      (now : ℕ) (payload : OrderProcessMessage) (w : World)
      → (receive send service c now (process_at now) (object payload) w).state
        ≡ (process_at now (record payload { attempt = whole (attempt_of payload.attempt) }) w).1
  receive-object now payload w = receive-processed send service c now (process_at now) payload w

  -- The worker leaves the tables, and publishes the events, that `processOrderMessage` does for the messages
  -- which can be read, in their order; acknowledging, retrying and rejecting changes neither.
  pub receive_all-deliver :
      (contents : List (ℕ × Content)) (w : World)
      → receive_all contents w ≡ record {
        tables = (deliver orm (readable contents) w.tables).0;
        events = w.events ++ (deliver orm (readable contents) w.tables).1;
      }
  unfolding receive_all deliver
  receive_all-deliver [] w = ap (λ es. record w { events = es }) (sym (++-none w.events))
  receive_all-deliver ((now, malformed raw) ∷ contents) w =
      ap (receive_all contents) (receive-malformed now raw w) ∙ receive_all-deliver contents w
  receive_all-deliver ((now, literal_null) ∷ contents) w =
      ap (receive_all contents) (receive-null now w) ∙ receive_all-deliver contents w
  receive_all-deliver ((now, object payload) ∷ contents) w =
      let p : OrderProcessMessage = record payload {
        attempt = whole (attempt_of payload.attempt);
      } in
      let done = process_order_message orm now p w.tables in
      ap (receive_all contents) (receive-object now payload w)
      ∙ receive_all-deliver contents (process_at now p w).1
      ∙ ap (λ es. record { tables = (deliver orm (readable contents) done.tables).0; events = es })
          (++-regroup w.events done.events (deliver orm (readable contents) done.tables).1)

  -- When the worker handles its deliveries one after the other, with messages repeated, damaged, failing and
  -- retried among them, at most one event about an order is added to those that were published before.
  pub receive_all_once :
      (id : String) (contents : List (ℕ × Content)) (w : World)
      → about id (receive_all contents w).events ≤ about id w.events + 1
  receive_all_once id contents w =
      let whole_run = ap (λ (v : World). about id v.events) (receive_all-deliver contents w) in
      let parts = about-++ id w.events (deliver orm (readable contents) w.tables).1 in
      let once = deliver_once orm id (readable contents) w.tables in
      omega (arith, whole_run, parts, once)
