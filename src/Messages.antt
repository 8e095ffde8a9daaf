-- ===== src/Messages.antt =====
-- The messages and events that the parts exchange: the types of action.go, query.go, net_handlers.go
-- and event.go. Byte slices and strings are lists of bytes; an `net.IP` is its bytes.
use cserf.Prelude.{
  ℕ, zero, suc, Text, bytes, Option, List, Bool, true, nat_eq, nat_eq_iff, ◌≡◌, ◌↔◌, refl, ap, Key,
}

pub record MsgAction : Type 0 where
  pub ltime : ℕ
  pub name : Text
  pub payload : Option Text

pub record FilterTag : Type 0 where
  pub name : Text
  pub expr : Text

pub record MsgQuery : Type 0 where
  pub name : Text
  pub ltime : ℕ
  pub id : ℕ
  pub source_ip : Text
  pub source_port : ℕ
  pub node_id : Text
  pub for_nodes : List Text
  pub filter_tags : List FilterTag
  pub num_relays : ℕ
  pub payload : Option Text
  pub timeout : ℕ

pub record MsgQueryResponse : Type 0 where
  pub ltime : ℕ
  pub id : ℕ
  pub from : Text
  pub payload : Option Text

-- `QueryResponse`, what a handler's channel receives.
pub record QueryResponse : Type 0 where
  pub from : Text
  pub payload : Option Text

pub record MsgRelay : Type 0 where
  pub msg : Text
  pub dest_ip : Text
  pub dest_port : ℕ

-- The fields of `memberlist.Node` that the code reads by themselves.
pub record MemberNode : Type 0 where
  pub id : Text
  pub ip : Text
  pub port : ℕ
  pub tags : Text

-- `EventType`
pub data EventType : Type 0 where
  member_join member_leave member_failed member_update member_reap query action : EventType

-- `(EventType).String` on the seven constants.
unfoldable pub event_name : EventType → Text
event_name member_join = bytes "member-join"
event_name member_leave = bytes "member-leave"
event_name member_failed = bytes "member-failed"
event_name member_update = bytes "member-update"
event_name member_reap = bytes "member-reap"
event_name query = bytes "query"
event_name action = bytes "action"

pub record QueryEvent : Type 0 where
  pub name : Text
  pub ltime : ℕ
  pub id : ℕ
  pub source_ip : Text
  pub source_port : ℕ
  pub node_id : Text
  pub num_relays : ℕ
  pub payload : Option Text
  pub deadline : ℕ

pub record ActionEvent : Type 0 where
  pub ltime : ℕ
  pub name : Text
  pub payload : Option Text

-- `MemberEvent`. The member may be a nil pointer.
pub record MemberEvent : Type 0 where
  pub type : EventType
  pub member : Option MemberNode

pub record CoalescedMemberEvent : Type 0 where
  pub type : EventType
  pub members : List MemberNode

-- The implementations of the interface `Event`.
pub data Event : Type 0 where
  on_query : QueryEvent → Event
  on_action : ActionEvent → Event
  on_member : MemberEvent → Event
  on_members : CoalescedMemberEvent → Event

-- The method `EventType` of each.
unfoldable pub event_type : Event → EventType
event_type (on_query e) = EventType.query
event_type (on_action e) = EventType.action
event_type (on_member e) = e.type
event_type (on_members e) = e.type

-- The constants' values.
abbrev pub type_code : EventType → ℕ
type_code member_join = 0
type_code member_leave = 1
type_code member_failed = 2
type_code member_update = 3
type_code member_reap = 4
type_code query = 5
type_code action = 6

abbrev of_code : ℕ → EventType
of_code zero = member_join
of_code (suc zero) = member_leave
of_code (suc (suc zero)) = member_failed
of_code (suc (suc (suc zero))) = member_update
of_code (suc (suc (suc (suc zero)))) = member_reap
of_code (suc (suc (suc (suc (suc zero))))) = query
of_code (suc (suc (suc (suc (suc (suc n)))))) = action

of_code-type_code : (t : EventType) → of_code (type_code t) ≡ t
of_code-type_code member_join = refl
of_code-type_code member_leave = refl
of_code-type_code member_failed = refl
of_code-type_code member_update = refl
of_code-type_code member_reap = refl
of_code-type_code query = refl
of_code-type_code action = refl

abbrev pub type_eq : EventType → EventType → Bool
type_eq t u = nat_eq (type_code t) (type_code u)

pub type_eq_iff : (t u : EventType) → (type_eq t u ≡ true) ↔ (t ≡ u)
type_eq_iff t u = (
  λ e. cc (
    of_code-type_code t,
    of_code-type_code u,
    ap of_code ((nat_eq_iff (type_code t) (type_code u)).0 e),
  ),
  λ e. (nat_eq_iff (type_code t) (type_code u)).1 (ap type_code e),
)

instance abbrev pub type_key : Key EventType
type_key = record { means = type_eq_iff; same = type_eq }
