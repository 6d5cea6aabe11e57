-- ===== src/EventBus.antt =====
-- src/core/events/event-bus.ts: the class `InMemoryEventBus`. Handlers are of a type of the reader's, on
-- which `same` is the identity of objects. An id is kept as its kind and number, of which its text is
-- made. A new key of `subscriptions` goes to the end, since the counter makes it new.
pub mod Wiring
pub mod Delivery
use autobeat.Prelude.{
  ℕ, suc, ◌+◌, String, Bool, true, false, Option, none, some, List, [], ◌∷◌, ◌++◌, ite, length, leb,
  ◌==◌, if◌then◌else◌,
}
use autobeat.Prelude.Dict
use autobeat.Prelude.Dict.{Dict}
use autobeat.Result.{
  Result, ok, err, ErrorCode, configuration_error, resource_limit_exceeded, system_error,
}

-- `sub-N` and `global-N`
pub data SubscriptionId : Type 0 where
  sub global : ℕ → SubscriptionId

abbrev pub same_id : SubscriptionId → SubscriptionId → Bool
same_id (sub m) (sub n) = m == n
same_id (global m) (global n) = m == n
same_id _ _ = false

-- One event type, or all of them (`isGlobal`).
pub data Target : Type 0 where
  on : String → Target
  everywhere : Target

pub record Subscription (H : Type 0) : Type 0 where
  pub target : Target
  pub handler : H

pub record EventBus (H : Type 0) : Type 0 where
  pub handlers : Dict (List H)
  pub global_handlers : List H
  pub subscriptions : List (SubscriptionId × Subscription H)
  pub subscription_counter : ℕ
  pub max_total_subscriptions : ℕ

module _ {H : Type 0} where
  abbrev pub new : ℕ → EventBus H
  new limit = record {
    handlers = [];
    global_handlers = [];
    subscriptions = [];
    subscription_counter = 0;
    max_total_subscriptions = limit;
  }

  abbrev pub dispose : EventBus H → EventBus H
  dispose bus = record bus {
    handlers = [];
    global_handlers = [];
    subscriptions = [];
    subscription_counter = 0;
  }

  abbrev pub unsubscribe_all : EventBus H → EventBus H
  unsubscribe_all bus = record bus { handlers = []; global_handlers = []; subscriptions = [] }

  abbrev pub or_empty : Option (List H) → List H
  or_empty none = []
  or_empty (some hs) = hs

  -- `this.handlers.get(type) || []`
  unfoldable pub handlers_of : Dict (List H) → String → List H
  handlers_of handlers event_type = or_empty (Dict.get handlers event_type)

  -- The handlers that an event reaches, in the order of the calls.
  unfoldable pub recipients : EventBus H → String → List H
  recipients bus event_type = handlers_of bus.handlers event_type ++ bus.global_handlers

  unfoldable pub any_throws : (H → Bool) → List H → Bool
  any_throws throws [] = false
  any_throws throws (h ∷ hs) = if throws h then true else any_throws throws hs

  -- All handlers are called, also when one of them throws: those called, and the answer.
  unfoldable pub emit : (H → Bool) → EventBus H → String → List H × Result (Unit {0}) ErrorCode
  emit throws bus event_type =
      let all = recipients bus event_type in
      (all, if any_throws throws all then err system_error else ok tt)

  -- A number of listeners beyond the limit of one event is only logged.
  unfoldable pub subscribe : EventBus H → String → H → EventBus H × Result SubscriptionId ErrorCode
  subscribe bus event_type h =
      let n = suc bus.subscription_counter in
      if leb bus.max_total_subscriptions (length bus.subscriptions)
      then (bus, err resource_limit_exceeded)
      else (
        record bus {
          handlers =
              Dict.set bus.handlers event_type (handlers_of bus.handlers event_type ++ h ∷ []);
          subscriptions =
              bus.subscriptions ++ (sub n, record { target = on event_type; handler = h }) ∷ [];
          subscription_counter = n;
        },
        ok (sub n),
      )

  unfoldable pub subscribe_all : EventBus H → H → EventBus H × Result SubscriptionId ErrorCode
  subscribe_all bus h =
      let n = suc bus.subscription_counter in
      (
        record bus {
          global_handlers = bus.global_handlers ++ h ∷ [];
          subscriptions =
              bus.subscriptions ++ (global n, record { target = everywhere; handler = h }) ∷ [];
          subscription_counter = n;
        },
        ok (global n),
      )

  -- `this.subscriptions.get(id)` and `.delete(id)`
  unfoldable pub get_subscription :
      List (SubscriptionId × Subscription H) → SubscriptionId → Option (Subscription H)
  get_subscription [] id = none
  get_subscription ((key, s) ∷ rest) id =
      if same_id key id then some s else get_subscription rest id

  unfoldable pub delete_subscription :
      List (SubscriptionId × Subscription H)
      → SubscriptionId
      → List (SubscriptionId × Subscription H)
  delete_subscription [] id = []
  delete_subscription ((key, s) ∷ rest) id =
      if same_id key id then rest else (key, s) ∷ delete_subscription rest id

  unfoldable pub get_subscriber_count : EventBus H → String → ℕ
  get_subscriber_count bus event_type = length (handlers_of bus.handlers event_type)

  -- `totalHandlers` of `getStats`
  unfoldable pub total_handlers : Dict (List H) → ℕ
  total_handlers [] = 0
  total_handlers ((_, hs) ∷ rest) = length hs + total_handlers rest

  module _ (same : Discrete H) where
    -- `indexOf` and `splice`: the first occurrence goes.
    unfoldable pub splice : List H → H → List H
    splice [] h = []
    splice (k ∷ hs) h = ite (same k h) hs (k ∷ splice hs h)

    -- Its handler is taken off the list that it was put on.
    unfoldable pub take_off : EventBus H → Subscription H → EventBus H
    take_off bus s = elim s.target [
      | everywhere ↦ record bus { global_handlers = splice bus.global_handlers s.handler }
      | on event_type ↦ elim (Dict.get bus.handlers event_type) [
        | none ↦ bus
        | some hs ↦ record bus { handlers = Dict.set bus.handlers event_type (splice hs s.handler) }
      ]
    ]

    unfoldable pub unsubscribe :
        EventBus H → SubscriptionId → EventBus H × Result (Unit {0}) ErrorCode
    unsubscribe bus id = elim (get_subscription bus.subscriptions id) [
      | none ↦ (bus, err configuration_error)
      | some s ↦ (
        take_off (record bus { subscriptions = delete_subscription bus.subscriptions id }) s,
        ok tt,
      )
    ]
