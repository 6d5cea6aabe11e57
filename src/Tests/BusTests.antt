-- ===== src/Tests/BusTests.antt =====
-- The event bus with numbers as its handlers, and the router on a channel of three members.
use autobeat.Prelude.{
  ℕ, ◌+◌, String, List, [], ◌∷◌, false, none, some, ◌≡◌, ◌≢◌, ◌↔◌, refl, inl, inr, arith,
  String-discrete, sym, ap, ◌∙◌, ℕ_discrete, Has,
}
use text.Mathlib.TextEquality.{eq_iff}
use autobeat.Prelude.Dict
use autobeat.Result.{ok}
use autobeat.EventBus.{
  sub, on, everywhere, new, handlers_of, recipients, any_throws, emit, subscribe, subscribe_all,
  get_subscription, delete_subscription, splice, take_off, unsubscribe,
}
use autobeat.EventBus.Wiring.{count, live}
use autobeat.EventBus.Delivery.{
  Call, subscribes, subscribes_all, unsubscribes, call, calls, recipients-live,
}
use autobeat.ChannelRouter.{
  ChannelMember, ChannelMemberStatus, active, CommunicationMode, Channel, RoutingResult,
  some_member, find, filter, find_index, get_elem?, insert, sort, target_of, turn_after,
  next_round_robin_member, route_round_robin, route_broadcast, route_directed, route_mode, route,
}
use autobeat.ChannelRouter.Targets.{route-Behind, broadcast_complete}

program : Unit {0}
unfolding Dict.get Dict.set String-discrete ℕ_discrete handlers_of recipients any_throws emit
    subscribe subscribe_all get_subscription delete_subscription splice take_off unsubscribe call
    calls count live some_member find filter find_index get_elem? insert sort turn_after
    next_round_robin_member route_round_robin route_broadcast route_directed route_mode route
program = tt

-- Handler 7 listens twice to one type of event and once to all, and gives up its first subscription.
abbrev uses : List (Call ℕ_discrete)
uses =
    subscribes "TaskQueued" 7
    ∷ subscribes_all 7
    ∷ subscribes "TaskQueued" 7
    ∷ unsubscribes (sub 1)
    ∷ []

emit-uses : emit (λ h. false) (calls ℕ_discrete (new 9) uses) "TaskQueued" ≡ (7 ∷ 7 ∷ [], ok tt)
unfolding program
emit-uses = refl

recipients-live_example :
    count ℕ_discrete (recipients (calls ℕ_discrete (new 9) uses) "TaskQueued") 7
    ≡ live ℕ_discrete (calls ℕ_discrete (new 9) uses).subscriptions (on "TaskQueued") 7
      + live ℕ_discrete (calls ℕ_discrete (new 9) uses).subscriptions everywhere 7
recipients-live_example = recipients-live ℕ_discrete 9 uses "TaskQueued" 7

abbrev member : String → ChannelMemberStatus → ℕ → ChannelMember
member name status joined_at = record {
  name = name;
  tmux_session = name;
  status = status;
  joined_at = joined_at;
}

abbrev channel : CommunicationMode → Channel
channel mode = record {
  communication_mode = some mode;
  members = member "b" active 5 ∷ member "a" active 3 ∷ [];
}

a_not_b : ◌≢◌ {A = String} "a" "b"
a_not_b = ground (arith, eq_iff "a" "b")

channel_unique :
    (mode : CommunicationMode) (m n : ChannelMember)
    → Has m (channel mode).members
    → Has n (channel mode).members
    → m.name ≡ n.name
    → m ≡ n
channel_unique mode m n (inl e) (inl e') same = e ∙ sym e'
channel_unique mode m n (inr (inl e)) (inr (inl e')) same = e ∙ sym e'
channel_unique mode m n (inl e) (inr (inl e')) same =
    absurd (a_not_b (sym (ap (λ z. z.name) e') ∙ sym same ∙ ap (λ z. z.name) e))
channel_unique mode m n (inr (inl e)) (inl e') same =
    absurd (a_not_b (sym (ap (λ z. z.name) e) ∙ same ∙ ap (λ z. z.name) e'))
channel_unique mode m n (inr (inr k)) h same = absurd k
channel_unique mode m n (inl e) (inr (inr k)) same = absurd k
channel_unique mode m n (inr (inl e)) (inr (inr k)) same = absurd k

abbrev turn_b : RoutingResult
turn_b = record { targets = target_of (member "b" active 5) ∷ []; next_turn_member = some "b" }

route_turn : route (channel CommunicationMode.round_robin) "a" none ≡ ok turn_b
unfolding program
route_turn = refl

route-Behind_example :
    (m : ChannelMember) × Has m (channel CommunicationMode.round_robin).members
    × (m.status ≡ active)
    × (target_of (member "b" active 5) ≡ target_of m)
route-Behind_example =
    route-Behind (channel CommunicationMode.round_robin) "a"
      (channel_unique CommunicationMode.round_robin) none turn_b route_turn
      (target_of (member "b" active 5)) (inl refl)

abbrev to_a : RoutingResult
to_a = record { targets = target_of (member "a" active 3) ∷ []; next_turn_member = none }

broadcast_complete_example : Has (target_of (member "a" active 3)) to_a.targets ↔ (
    (m : ChannelMember) × Has m (channel CommunicationMode.broadcast).members
    × (m.status ≡ active)
    × (m.name ≢ "b")
    × (target_of (member "a" active 3) ≡ target_of m))
unfolding program
broadcast_complete_example =
    broadcast_complete (channel CommunicationMode.broadcast) "b" none to_a refl refl
      (target_of (member "a" active 3))
