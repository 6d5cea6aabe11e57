-- ===== src/EventBus/Delivery.antt =====
-- An event reaches the handlers of the live subscriptions, each as often as it is subscribed.
use autobeat.Prelude.{ℕ, ◌+◌, String, List, [], ◌∷◌, ◌≡◌, arith}
use autobeat.EventBus.{
  SubscriptionId, on, everywhere, EventBus, new, dispose, unsubscribe_all, handlers_of, recipients,
  subscribe, subscribe_all, unsubscribe,
}
use autobeat.EventBus.Wiring.{
  count, live, at_target, IsWired, new-IsWired, subscribe-IsWired, subscribe_all-IsWired,
  unsubscribe-IsWired, count-append,
}

module _ {H : Type 0} (same : Discrete H) where
  -- What the users of the bus may do to it.
  pub data Call : Type 0 where
    subscribes : String → H → Call
    subscribes_all : H → Call
    unsubscribes : SubscriptionId → Call
    unsubscribes_all disposes : Call

  unfoldable pub call : EventBus H → Call → EventBus H
  call bus (subscribes e h) = (subscribe bus e h).0
  call bus (subscribes_all h) = (subscribe_all bus h).0
  call bus (unsubscribes id) = (unsubscribe same bus id).0
  call bus unsubscribes_all = unsubscribe_all bus
  call bus disposes = dispose bus

  unfoldable pub calls : EventBus H → List Call → EventBus H
  calls bus [] = bus
  calls bus (c ∷ cs) = calls (call bus c) cs

  call-IsWired : (bus : EventBus H) (c : Call) → IsWired same bus → IsWired same (call bus c)
  unfolding call at_target
  call-IsWired bus (subscribes e h) wired = subscribe-IsWired same bus e h wired
  call-IsWired bus (subscribes_all h) wired = subscribe_all-IsWired same bus h wired
  call-IsWired bus (unsubscribes id) wired = unsubscribe-IsWired same bus id wired
  call-IsWired bus unsubscribes_all wired = λ t h. new-IsWired same 0 t h
  call-IsWired bus disposes wired = λ t h. new-IsWired same 0 t h

  calls-IsWired :
      (bus : EventBus H) (cs : List Call) → IsWired same bus → IsWired same (calls bus cs)
  unfolding calls
  calls-IsWired bus [] wired = wired
  calls-IsWired bus (c ∷ cs) wired = calls-IsWired (call bus c) cs (call-IsWired bus c wired)

  -- After any use of a new bus, an event of any type reaches each handler exactly as often as it has
  -- live subscriptions to that type and to all events.
  pub recipients-live :
      (limit : ℕ) (cs : List Call) (e : String) (h : H)
      → let bus = calls (new limit) cs in
        count same (recipients bus e) h
        ≡ live same bus.subscriptions (on e) h + live same bus.subscriptions everywhere h
  unfolding recipients at_target
  recipients-live limit cs e h =
      let bus = calls (new limit) cs in
      let wired = calls-IsWired (new limit) cs (new-IsWired same limit) in
      omega (
        arith,
        count-append same (handlers_of bus.handlers e) bus.global_handlers h,
        at_on bus e h (wired (on e) h),
        at_everywhere bus h (wired everywhere h),
      )
    where
      at_on :
          (bus : EventBus H) (e : String) (h : H)
          → count same (at_target same bus (on e)) h ≡ live same bus.subscriptions (on e) h
          → count same (handlers_of bus.handlers e) h ≡ live same bus.subscriptions (on e) h
      at_on bus e h w = w

      at_everywhere :
          (bus : EventBus H) (h : H)
          → count same (at_target same bus everywhere) h ≡ live same bus.subscriptions everywhere h
          → count same bus.global_handlers h ≡ live same bus.subscriptions everywhere h
      at_everywhere bus h w = w
