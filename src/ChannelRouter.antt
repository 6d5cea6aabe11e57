-- ===== src/ChannelRouter.antt =====
-- src/services/channel-router.ts: the class `ChannelRouter`. `sort` is stable.
pub mod Targets
use autobeat.Prelude.{
  ℕ, suc, ◌+◌, ◌%◌, String, Bool, true, false, Option, none, some, List, [], ◌∷◌, ite, length,
  String-discrete, leb, ◌==◌, not, ◌&&◌, if◌then◌else◌, map,
}
use autobeat.Result.{Result, ok, err, ErrorCode, invalid_input, system_error}

pub data ChannelMemberStatus : Type 0 where
  active idle destroyed : ChannelMemberStatus

pub record ChannelMember : Type 0 where
  pub name : String
  pub tmux_session : String
  pub status : ChannelMemberStatus
  pub joined_at : ℕ

pub data CommunicationMode : Type 0 where
  broadcast directed round_robin : CommunicationMode

pub record Channel : Type 0 where
  pub communication_mode : Option CommunicationMode
  pub members : List ChannelMember

pub record RouteTarget : Type 0 where
  pub member_name : String
  pub tmux_session : String

pub record RoutingResult : Type 0 where
  pub targets : List RouteTarget
  pub next_turn_member : Option String

abbrev pub is_active : ChannelMember → Bool
is_active m = elim m.status [ active ↦ true | idle ↦ false | destroyed ↦ false ]

abbrev pub is_named : String → ChannelMember → Bool
is_named name m = ite (String-discrete m.name name) true false

unfoldable pub some_member : (ChannelMember → Bool) → List ChannelMember → Bool
some_member p [] = false
some_member p (m ∷ ms) = if p m then true else some_member p ms

unfoldable pub find : (ChannelMember → Bool) → List ChannelMember → Option ChannelMember
find p [] = none
find p (m ∷ ms) = if p m then some m else find p ms

unfoldable pub filter : (ChannelMember → Bool) → List ChannelMember → List ChannelMember
filter p [] = []
filter p (m ∷ ms) = if p m then m ∷ filter p ms else filter p ms

unfoldable pub find_index : (ChannelMember → Bool) → List ChannelMember → Option ℕ
find_index p [] = none
find_index p (m ∷ ms) =
    let rest = find_index p ms in
    if p m then some 0 else elim rest [ none ↦ none | some i ↦ some (suc i) ]

unfoldable pub get_elem? : List ChannelMember → ℕ → Option ChannelMember
get_elem? [] i = none
get_elem? (m ∷ ms) Prim.Native.Nat.zero = some m
get_elem? (m ∷ ms) (suc i) = get_elem? ms i

unfoldable pub insert : ChannelMember → List ChannelMember → List ChannelMember
insert m [] = m ∷ []
insert m (n ∷ ns) = if leb m.joined_at n.joined_at then m ∷ n ∷ ns else n ∷ insert m ns

-- `[...members].sort((a, b) => a.joinedAt - b.joinedAt)`
unfoldable pub sort : List ChannelMember → List ChannelMember
sort [] = []
sort (m ∷ ms) = insert m (sort ms)

abbrev pub target_of : ChannelMember → RouteTarget
target_of m = record { member_name = m.name; tmux_session = m.tmux_session }

abbrev pub name_of : Option ChannelMember → Option String
name_of none = none
name_of (some m) = some m.name

-- Who follows the speaker among the active members: nobody, when the turn comes back to the speaker.
unfoldable pub turn_after : List ChannelMember → String → Option String
turn_after [] speaker = none
turn_after (first ∷ others) speaker = elim (find_index (is_named speaker) (first ∷ others)) [
  | none ↦ some first.name
  | some i ↦
      let next = suc i % length (first ∷ others) in
      if next == i then none else name_of (get_elem? (first ∷ others) next)
]

unfoldable pub next_round_robin_member : List ChannelMember → String → Option String
next_round_robin_member members speaker = turn_after (filter is_active (sort members)) speaker

unfoldable pub route_round_robin : Channel → String → Result RoutingResult ErrorCode
route_round_robin channel sender = elim (next_round_robin_member channel.members sender) [
  | none ↦ err invalid_input
  | some next ↦ elim (find (is_named next) channel.members) [
    | none ↦ err system_error
    | some m ↦ ok (record { targets = target_of m ∷ []; next_turn_member = some next })
  ]
]

-- The base of the two modes that are no round-robin.
unfoldable pub route_broadcast : Channel → String → Result RoutingResult ErrorCode
route_broadcast channel sender =
    elim (filter (λ m. not (is_named sender m) && is_active m) channel.members) [
      | [] ↦ err invalid_input
      | m ∷ ms ↦ ok (record { targets = map target_of (m ∷ ms); next_turn_member = none })
    ]

-- The attempt to reach the member that a message is directed to.
unfoldable pub route_directed : Channel → String → String → Result RoutingResult ErrorCode
route_directed channel sender to = elim (find (λ m. is_named to m && is_active m) channel.members) [
  | some m ↦ ok (record { targets = target_of m ∷ []; next_turn_member = none })
  | none ↦ route_broadcast channel sender
]

-- The choice of the mode, for a sender that is a member.
unfoldable pub route_mode :
    Channel → String → Option String → CommunicationMode → Result RoutingResult ErrorCode
route_mode channel sender directed_to round_robin = route_round_robin channel sender
route_mode channel sender directed_to broadcast = route_broadcast channel sender
route_mode channel sender (some to) directed = route_directed channel sender to
route_mode channel sender none directed = route_broadcast channel sender

unfoldable pub route : Channel → String → Option String → Result RoutingResult ErrorCode
route channel sender directed_to = elim channel.communication_mode [
  | none ↦ ok (record { targets = []; next_turn_member = none })
  | some mode ↦
      if some_member (is_named sender) channel.members
      then route_mode channel sender directed_to mode
      else err invalid_input
]
