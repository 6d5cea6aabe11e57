-- ===== src/ChannelRouter/Targets.antt =====
-- Whom a message reaches.
use autobeat.Prelude.{
  ℕ, suc, ◌%◌, String, Bool, true, Option, none, some, List, [], ◌∷◌, length, not, ◌&&◌, map, ◌≡◌,
  ◌≢◌, refl, ◌⊎◌, ◌↔◌, inl, inr, arith, Has, Bool-cases, Option-cases, List-cases, sym, ◌∙◌, ap,
}
use autobeat.Result.{ok}
use autobeat.ChannelRouter.{
  ChannelMember, active, CommunicationMode, broadcast, directed, round_robin, Channel, RouteTarget,
  RoutingResult, is_active, is_named, some_member, find, filter, find_index, get_elem?, insert,
  sort, target_of, name_of, turn_after, next_round_robin_member, route_round_robin, route_broadcast,
  route_directed, route_mode, route,
}

find-Has :
    (p : ChannelMember → Bool) (ms : List ChannelMember) (m : ChannelMember)
    → find p ms ≡ some m
    → Has m ms × (p m ≡ true)
unfolding find
find-Has p [] m e = absurd cc
find-Has p (n ∷ ms) m e = elim (Bool-cases (p n)) [
  | inl h ↦ let same : n ≡ m = ground arith in (inl (sym same), rw (← same) h)
  | inr h ↦ let (k, q) = find-Has p ms m (ground arith) in (inr k, q)
]

filter-Has :
    (p : ChannelMember → Bool) (ms : List ChannelMember) (m : ChannelMember)
    → Has m (filter p ms)
    → Has m ms × (p m ≡ true)
unfolding filter
filter-Has p [] m h = absurd h
filter-Has p (n ∷ ms) m h = elim (Bool-cases (p n)) [
  | inl yes_n ↦ elim (rw (yes_n, filter) at h) [
    | inl same ↦ (inl same, rw same yes_n)
    | inr k ↦ let (k', q) = filter-Has p ms m k in (inr k', q)
  ]
  | inr no_n ↦ let (k', q) = filter-Has p ms m (rw (no_n, filter) at h) in (inr k', q)
]

Has-filter :
    (p : ChannelMember → Bool) (ms : List ChannelMember) (m : ChannelMember)
    → Has m ms
    → p m ≡ true
    → Has m (filter p ms)
unfolding filter
Has-filter p [] m h q = absurd h
Has-filter p (n ∷ ms) m (inl same) q = rw (← same, q, filter) (inl refl)
Has-filter p (n ∷ ms) m (inr k) q = elim (Bool-cases (p n)) [
  | inl yes_n ↦ rw (yes_n, filter) (inr (Has-filter p ms m k q))
  | inr no_n ↦ rw (no_n, filter) (Has-filter p ms m k q)
]

Has-map :
    (ms : List ChannelMember) (m : ChannelMember) → Has m ms → Has (target_of m) (map target_of ms)
Has-map [] m k = absurd k
Has-map (n ∷ ms) m (inl same) = inl (ap target_of same)
Has-map (n ∷ ms) m (inr k) = inr (Has-map ms m k)

map-Has :
    (ms : List ChannelMember) (t : RouteTarget)
    → Has t (map target_of ms)
    → (m : ChannelMember) × Has m ms × (t ≡ target_of m)
map-Has [] t k = absurd k
map-Has (n ∷ ms) t (inl same) = (n, inl refl, same)
map-Has (n ∷ ms) t (inr k) = let (m, h, e) = map-Has ms t k in (m, inr h, e)

insert-Has :
    (m : ChannelMember) (ns : List ChannelMember) (x : ChannelMember)
    → Has x (insert m ns)
    → (x ≡ m) ⊎ Has x ns
unfolding insert
insert-Has m [] x h = h
insert-Has m (n ∷ ns) x h = ground (arith, insert-Has m ns x)

sort-Has : (ms : List ChannelMember) (x : ChannelMember) → Has x (sort ms) → Has x ms
unfolding sort
sort-Has [] x h = h
sort-Has (m ∷ ms) x h = elim (insert-Has m (sort ms) x h) [
  | inl e ↦ inl e
  | inr k ↦ inr (sort-Has ms x k)
]

get_elem?-Has :
    (ms : List ChannelMember) (i : ℕ) (x : String)
    → name_of (get_elem? ms i) ≡ some x
    → (m : ChannelMember) × Has m ms × (m.name ≡ x)
unfolding get_elem?
get_elem?-Has [] i x e = absurd cc
get_elem?-Has (m ∷ ms) Prim.Native.Nat.zero x e = (m, inl refl, ground arith)
get_elem?-Has (m ∷ ms) (suc i) x e = let (n, h, q) = get_elem?-Has ms i x e in (n, inr h, q)

is_active-active : (m : ChannelMember) → is_active m ≡ true → m.status ≡ active
is_active-active m e = ground arith

is_named-name : (name : String) (m : ChannelMember) → is_named name m ≡ true → m.name ≡ name
is_named-name name m e = ground arith

turn_after-Has :
    (ms : List ChannelMember) (speaker x : String)
    → turn_after ms speaker ≡ some x
    → (m : ChannelMember) × Has m ms × (m.name ≡ x)
unfolding turn_after
turn_after-Has [] speaker x e = absurd cc
turn_after-Has (first ∷ others) speaker x e =
    elim (Option-cases (find_index (is_named speaker) (first ∷ others))) [
      | inl missing ↦ (first, inl refl, ground arith)
      | inr (i, found) ↦
          get_elem?-Has (first ∷ others) (suc i % length (first ∷ others)) x (ground arith)
    ]

-- The member whose turn is next is an active one.
next-active :
    (ms : List ChannelMember) (speaker x : String)
    → next_round_robin_member ms speaker ≡ some x
    → (m : ChannelMember) × Has m ms × (m.status ≡ active) × (m.name ≡ x)
unfolding next_round_robin_member
next-active ms speaker x e =
    let (m, h, named) = turn_after-Has (filter is_active (sort ms)) speaker x e in
    let (k, q) = filter-Has is_active (sort ms) m h in
    (m, sort-Has ms m k, is_active-active m q, named)

module _ (channel : Channel) (sender : String) where
  -- The member behind a target.
  abbrev Behind : RouteTarget → Type 0
  Behind t = (m : ChannelMember) × Has m channel.members × (m.status ≡ active) × (t ≡ target_of m)

  abbrev others : ChannelMember → Bool
  others m = not (is_named sender m) && is_active m

  broadcast_targets :
      (r : RoutingResult)
      → route_broadcast channel sender ≡ ok r
      → r.targets ≡ map target_of (filter others channel.members)
  unfolding route_broadcast
  broadcast_targets r e = elim (List-cases (filter others channel.members)) [
    | inl none_there ↦ ground arith
    | inr (m, ms, some_there) ↦ ground arith
  ]

  broadcast-Behind :
      (r : RoutingResult)
      → route_broadcast channel sender ≡ ok r
      → (t : RouteTarget) → Has t r.targets
      → Behind t
  broadcast-Behind r e t h =
      let (m, k, same) =
        map-Has (filter others channel.members) t (rw (broadcast_targets r e) at h) in
      let (k', q) = filter-Has others channel.members m k in
      (m, k', is_active-active m (ground arith), same)

  routed_broadcast :
      (to : Option String) (r : RoutingResult)
      → channel.communication_mode ≡ some broadcast
      → route channel sender to ≡ ok r
      → route_broadcast channel sender ≡ ok r
  unfolding route route_mode
  routed_broadcast to r mode e = ground arith

  others-facts : (m : ChannelMember) → others m ≡ true → (m.status ≡ active) × (m.name ≢ sender)
  others-facts m e = (is_active-active m (ground arith), ground arith)

  -- In a channel whose mode is broadcast, the targets of a message that is routed are those of the
  -- active members whose name is not the sender's, all of them and no others.
  pub broadcast_complete :
      (to : Option String) (r : RoutingResult)
      → channel.communication_mode ≡ some broadcast
      → route channel sender to ≡ ok r
      → (t : RouteTarget)
      → Has t r.targets ↔ (
          (m : ChannelMember) × Has m channel.members
          × (m.status ≡ active)
          × (m.name ≢ sender)
          × (t ≡ target_of m))
  broadcast_complete to r mode routed t = (
    λ h.
        let (m, k, same) = map-Has (filter others channel.members) t (rw targets at h) in
        let (k', q) = filter-Has others channel.members m k in
        let (awake, other) = others-facts m q in (m, k', awake, other, same),
    λ (m, h, awake, other, same).
        rw (targets, same)
          (Has-map (filter others channel.members) m
            (Has-filter others channel.members m h (ground arith))),
  )
    where
      targets : r.targets ≡ map target_of (filter others channel.members)
      targets = broadcast_targets r (routed_broadcast to r mode routed)

  directed-Behind :
      (to : String) (r : RoutingResult)
      → route_directed channel sender to ≡ ok r
      → (t : RouteTarget) → Has t r.targets
      → Behind t
  unfolding route_directed
  directed-Behind to r e t h =
      elim (Option-cases (find (λ m. is_named to m && is_active m) channel.members)) [
        | inl missing ↦ broadcast-Behind r (ground arith) t h
        | inr (m, found) ↦
            let (k, q) = find-Has (λ m. is_named to m && is_active m) channel.members m found in
            (m, k, is_active-active m (ground arith), ground arith)
      ]

  module _
      (unique : (m n : ChannelMember)
        → Has m channel.members
        → Has n channel.members
        → m.name ≡ n.name
        → m ≡ n) where
    round_robin-Behind :
        (r : RoutingResult)
        → route_round_robin channel sender ≡ ok r
        → (t : RouteTarget) → Has t r.targets
        → Behind t
    unfolding route_round_robin
    round_robin-Behind r e t h =
        elim (Option-cases (next_round_robin_member channel.members sender)) [
          | inl nobody ↦ absurd (ground arith)
          | inr (x, next) ↦ elim (Option-cases (find (is_named x) channel.members)) [
            | inl missing ↦ absurd (ground arith)
            | inr (m, found) ↦
                let (k, q) = find-Has (is_named x) channel.members m found in
                let (n, k', awake, named) = next-active channel.members sender x next in
                let same = unique m n k k' (is_named-name x m q ∙ sym named) in
                (m, k, ap (λ z. z.status) same ∙ awake, ground arith)
          ]
        ]

    mode-Behind :
        (mode : CommunicationMode) (to : Option String) (r : RoutingResult)
        → route_mode channel sender to mode ≡ ok r
        → (t : RouteTarget) → Has t r.targets
        → Behind t
    unfolding route_mode
    mode-Behind round_robin to r e t h = round_robin-Behind r e t h
    mode-Behind broadcast to r e t h = broadcast-Behind r e t h
    mode-Behind directed (some to) r e t h = directed-Behind to r e t h
    mode-Behind directed none r e t h = broadcast-Behind r e t h

    -- When the names of a channel's members are distinct, every target of a message that is routed, in
    -- any mode, is an active member of the channel.
    pub route-Behind :
        (to : Option String) (r : RoutingResult)
        → route channel sender to ≡ ok r
        → (t : RouteTarget) → Has t r.targets
        → (m : ChannelMember) × Has m channel.members × (m.status ≡ active) × (t ≡ target_of m)
    unfolding route
    route-Behind to r e t h = elim (Option-cases channel.communication_mode) [
      | inl no_mode ↦ absurd (ground arith)
      | inr (mode, e') ↦ elim (Bool-cases (some_member (is_named sender) channel.members)) [
        | inr missing ↦ absurd (ground arith)
        | inl known ↦ mode-Behind mode to r (ground arith) t h
      ]
    ]
