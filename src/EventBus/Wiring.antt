-- ===== src/EventBus/Wiring.antt =====
-- The lists of handlers and the table of subscriptions agree.
use autobeat.Prelude.{
  ℕ, suc, ◌+◌, ◌<◌, String, none, some, List, [], ◌∷◌, ◌++◌, ite, ◌≡◌, refl, arith, Option-cases,
  String-discrete, Bool-cases, inl, inr,
}
use autobeat.Prelude.Dict
use autobeat.Prelude.Dict.{Dict, get-set}
use autobeat.EventBus.{
  SubscriptionId, same_id, Target, on, everywhere, Subscription, EventBus, new, handlers_of,
  subscribe, subscribe_all, get_subscription, delete_subscription, splice, take_off, unsubscribe,
}

module _ {H : Type 0} (same : Discrete H) where
  -- How often a handler stands on a list.
  unfoldable pub count : List H → H → ℕ
  count [] h = 0
  count (k ∷ hs) h = let rest = count hs h in ite (same k h) (suc rest) rest

  -- Whether a subscription puts a handler on the list of a target.
  abbrev pub puts : Subscription H → Target → H → ℕ
  puts s t h = elim (same s.handler h) [ no other ↦ 0 | yes it ↦ at_target s.target t ]
    where
      at_target : Target → Target → ℕ
      at_target everywhere everywhere = 1
      at_target (on e) (on f) = ite (String-discrete e f) 1 0
      at_target _ _ = 0

  -- How many live subscriptions of a target a handler has.
  unfoldable pub live : List (SubscriptionId × Subscription H) → Target → H → ℕ
  live [] t h = 0
  live ((_, s) ∷ rest) t h = puts s t h + live rest t h

  unfoldable pub at_target : EventBus H → Target → List H
  at_target bus (on event_type) = handlers_of bus.handlers event_type
  at_target bus everywhere = bus.global_handlers

  pub count-append : (hs ks : List H) (h : H) → count (hs ++ ks) h ≡ count hs h + count ks h
  unfolding count
  count-append [] ks h = omega arith
  count-append (k ∷ hs) ks h = ground (arith, count-append hs ks h)

  live-append :
      (ss : List (SubscriptionId × Subscription H)) (id : SubscriptionId) (s : Subscription H)
      (t : Target) (h : H)
      → live (ss ++ (id, s) ∷ []) t h ≡ live ss t h + puts s t h
  unfolding live
  live-append [] id s t h = omega arith
  live-append ((_, r) ∷ ss) id s t h = omega (arith, live-append ss id s t h)

  count-splice :
      (hs : List H) (h k : H)
      → 0 < count hs h
      → count hs k ≡ count (splice same hs h) k + ite (same h k) 1 0
  unfolding count splice
  count-splice [] h k some_there = absurd (omega (arith, some_there))
  count-splice (j ∷ hs) h k some_there = ground (arith, count-splice hs h k)

  live-delete :
      (ss : List (SubscriptionId × Subscription H)) (id : SubscriptionId) (s : Subscription H)
      (t : Target) (h : H)
      → get_subscription ss id ≡ some s
      → live ss t h ≡ live (delete_subscription ss id) t h + puts s t h
  unfolding live get_subscription delete_subscription
  live-delete [] id s t h e = absurd cc
  live-delete ((key, r) ∷ ss) id s t h e = elim (Bool-cases (same_id key id)) [
    | inl hit ↦ let it : r ≡ s = ground arith in rw (hit, it) (omega arith)
    | inr miss ↦ rw miss (omega (arith, live-delete ss id s t h (rw miss at e)))
  ]

  -- Each list has a handler as often as it is subscribed.
  abbrev pub IsWired : EventBus H → Type 0
  IsWired bus = (t : Target) (h : H) → count (at_target bus t) h ≡ live bus.subscriptions t h

  handlers_of-set :
      (m : Dict (List H)) (e : String) (hs : List H) (f : String)
      → handlers_of (Dict.set m e hs) f ≡ ite (String-discrete f e) hs (handlers_of m f)
  unfolding handlers_of
  handlers_of-set m e hs f = ground (arith, get-set m e hs f)

  pub new-IsWired : (limit : ℕ) → IsWired (new limit)
  unfolding at_target handlers_of count live Dict.get
  new-IsWired limit (on e) h = refl
  new-IsWired limit everywhere h = refl

  pub subscribe-IsWired :
      (bus : EventBus H) (e : String) (k : H) → IsWired bus → IsWired (subscribe bus e k).0
  unfolding subscribe at_target count
  subscribe-IsWired bus e k wired everywhere h = ground (
    arith,
    wired everywhere h,
    live-append bus.subscriptions (SubscriptionId.sub (suc bus.subscription_counter))
        (record { target = on e; handler = k }) everywhere h,
  )
  subscribe-IsWired bus e k wired (on f) h = ground (
    arith,
    wired (on f) h,
    live-append bus.subscriptions (SubscriptionId.sub (suc bus.subscription_counter))
        (record { target = on e; handler = k }) (on f) h,
    handlers_of-set bus.handlers e (handlers_of bus.handlers e ++ k ∷ []) f,
    count-append (handlers_of bus.handlers e) (k ∷ []) h,
  )

  pub subscribe_all-IsWired :
      (bus : EventBus H) (k : H) → IsWired bus → IsWired (subscribe_all bus k).0
  unfolding subscribe_all at_target count
  subscribe_all-IsWired bus k wired everywhere h = ground (
    arith,
    wired everywhere h,
    count-append bus.global_handlers (k ∷ []) h,
    live-append bus.subscriptions (SubscriptionId.global (suc bus.subscription_counter))
        (record { target = everywhere; handler = k }) everywhere h,
  )
  subscribe_all-IsWired bus k wired (on f) h = ground (
    arith,
    wired (on f) h,
    live-append bus.subscriptions (SubscriptionId.global (suc bus.subscription_counter))
        (record { target = everywhere; handler = k }) (on f) h,
  )

  abbrev made : Target → H → Subscription H
  made t h = record { target = t; handler = h }

  puts_own : (t : Target) (h : H) → puts (made t h) t h ≡ 1
  puts_own everywhere h = ground arith
  puts_own (on e) h = ground arith

  -- A live subscription's handler is on its list.
  live_subscribed :
      (bus : EventBus H) (id : SubscriptionId) (t : Target) (h : H)
      → IsWired bus
      → get_subscription bus.subscriptions id ≡ some (made t h)
      → 0 < count (at_target bus t) h
  live_subscribed bus id t h wired e =
      omega (arith, wired t h, live-delete bus.subscriptions id (made t h) t h e, puts_own t h)

  handlers_none :
      (m : Dict (List H)) (e : String) (h : H)
      → Dict.get m e ≡ none
      → ¬ (0 < count (handlers_of m e) h)
  unfolding handlers_of count
  handlers_none m e h missing some_there = ground arith

  handlers_some :
      (m : Dict (List H)) (e : String) (hs : List H) → Dict.get m e ≡ some hs → handlers_of m e ≡ hs
  unfolding handlers_of
  handlers_some m e hs there = ground arith

  -- The wiring after a handler has left the list of one event type.
  off-IsWired :
      (bus : EventBus H) (id : SubscriptionId) (g : String) (k : H) (hs : List H)
      → IsWired bus
      → get_subscription bus.subscriptions id ≡ some (made (on g) k)
      → Dict.get bus.handlers g ≡ some hs
      → IsWired (record bus {
        handlers = Dict.set bus.handlers g (splice same hs k);
        subscriptions = delete_subscription bus.subscriptions id;
      })
  unfolding at_target
  off-IsWired bus id g k hs wired e there everywhere h =
      ground
        (arith, wired everywhere h, live-delete bus.subscriptions id (made (on g) k) everywhere h e)
  off-IsWired bus id g k hs wired e there (on f) h = ground (
    arith,
    wired (on f) h,
    live-delete bus.subscriptions id (made (on g) k) (on f) h e,
    handlers_of-set bus.handlers g (splice same hs k) f,
    count-splice hs k h
        (rw (handlers_some bus.handlers g hs there) at (live_subscribed bus id (on g) k wired e)),
    handlers_some bus.handlers g hs there,
  )

  take_off-IsWired :
      (bus : EventBus H) (id : SubscriptionId) (t : Target) (k : H)
      → IsWired bus
      → get_subscription bus.subscriptions id ≡ some (made t k)
      → IsWired (
          take_off same
            (record bus { subscriptions = delete_subscription bus.subscriptions id })
            (made t k))
  unfolding take_off at_target
  take_off-IsWired bus id everywhere k wired e everywhere h = ground (
    arith,
    wired everywhere h,
    live-delete bus.subscriptions id (made everywhere k) everywhere h e,
    count-splice bus.global_handlers k h (live_subscribed bus id everywhere k wired e),
  )
  take_off-IsWired bus id everywhere k wired e (on f) h =
      ground
        (arith, wired (on f) h, live-delete bus.subscriptions id (made everywhere k) (on f) h e)
  take_off-IsWired bus id (on g) k wired e t h = elim (Option-cases (Dict.get bus.handlers g)) [
    | inl missing ↦
        absurd (handlers_none bus.handlers g k missing (live_subscribed bus id (on g) k wired e))
    | inr (hs, there) ↦ rw (there, take_off) (off-IsWired bus id g k hs wired e there t h)
  ]

  unsubscribe_unknown :
      (bus : EventBus H) (id : SubscriptionId)
      → get_subscription bus.subscriptions id ≡ none
      → (unsubscribe same bus id).0 ≡ bus
  unfolding unsubscribe
  unsubscribe_unknown bus id e = rw (e, unsubscribe) refl

  unsubscribe_known :
      (bus : EventBus H) (id : SubscriptionId) (s : Subscription H)
      → get_subscription bus.subscriptions id ≡ some s
      → (unsubscribe same bus id).0
        ≡ take_off same (record bus { subscriptions = delete_subscription bus.subscriptions id }) s
  unfolding unsubscribe
  unsubscribe_known bus id s e = rw (e, unsubscribe) refl

  pub unsubscribe-IsWired :
      (bus : EventBus H) (id : SubscriptionId) → IsWired bus → IsWired (unsubscribe same bus id).0
  unsubscribe-IsWired bus id wired = elim (Option-cases (get_subscription bus.subscriptions id)) [
    | inl e ↦ rw (unsubscribe_unknown bus id e) wired
    | inr (s, e) ↦
        rw (unsubscribe_known bus id s e) (take_off-IsWired bus id s.target s.handler wired e)
  ]
