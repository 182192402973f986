-- ===== src/Rtc/Selection.antt =====
-- packages/rtc/src/transport/selection.ts: which transport a call uses.
use risk_p2p.Prelude.{
  ℕ, ◌≡◌, Bool, true, false, not, ◌&&◌, ◌||◌, Option, none, some, arith, if◌then◌else◌,
}
use risk_p2p.Prelude.Text.{Text, codes}
use risk_p2p.Prelude.Js.{Number, nat, neg, above, below}

abbrev pub mesh_preferred_max_participants : ℕ
mesh_preferred_max_participants = 4

abbrev pub mesh_hard_max_participants : ℕ
mesh_hard_max_participants = 6

pub data CallTransportKind : Type 0 where
  mesh sfu : CallTransportKind

pub data CallTransportPreference : Type 0 where
  auto prefer_mesh prefer_sfu : CallTransportPreference

pub record CallNetworkHealth : Type 0 where
  pub round_trip_time_ms : Option Number
  pub jitter_ms : Option Number
  pub packet_loss_percent : Option Number

pub data CallTransportDecisionReason : Type 0 where
  small_call participant_threshold degraded_network : CallTransportDecisionReason
  manual_mesh manual_sfu sfu_unavailable : CallTransportDecisionReason

pub record CallTransportDecision : Type 0 where
  pub selected : CallTransportKind
  pub recommended : CallTransportKind
  pub reason : CallTransportDecisionReason
  pub participant_count : Number
  pub sfu_available : Bool
  pub network_degraded : Bool
  pub mesh_capacity_exceeded : Bool
  pub label : Text

pub record SelectCallTransportOptions : Type 0 where
  pub participant_count : Number
  pub preference : Option CallTransportPreference
  pub sfu_available : Bool
  pub network : Option CallNetworkHealth

-- `(x ?? 0) > k`
unfoldable pub exceeds : Option Number → ℕ → Bool
unfolding above
exceeds none k = false
exceeds (some x) k = above x k

unfoldable pub is_call_network_degraded : Option CallNetworkHealth → Bool
is_call_network_degraded none = false
is_call_network_degraded (some network) =
    exceeds network.round_trip_time_ms 350
    || exceeds network.jitter_ms 60
    || exceeds network.packet_loss_percent 8

abbrev pub is_sfu : CallTransportKind → Bool
is_sfu sfu = true
is_sfu mesh = false

abbrev is_manual_mesh : CallTransportDecisionReason → Bool
is_manual_mesh manual_mesh = true
is_manual_mesh _ = false

unfoldable pub decision_label :
    CallTransportKind → CallTransportKind → CallTransportDecisionReason → Bool → Bool → Text
decision_label selected recommended reason exceeded sfu_available =
    if is_sfu selected
    then codes "SFU"
    else if is_manual_mesh reason
    then codes "Mesh P2P · seleção manual"
    else if exceeded
    then codes "Mesh P2P · limite excedido e SFU não configurado"
    else if is_sfu recommended && not sfu_available
    then codes "Mesh P2P · SFU recomendado, mas não configurado"
    else if is_sfu recommended
    then codes "Mesh P2P · migração para SFU recomendada"
    else codes "Mesh P2P"

unfoldable pub decision :
    CallTransportKind
    → CallTransportKind
    → CallTransportDecisionReason
    → SelectCallTransportOptions
    → Bool
    → CallTransportDecision
decision selected recommended reason options network_degraded =
    let exceeded = above options.participant_count mesh_hard_max_participants in
    record {
      selected = selected;
      recommended = recommended;
      reason = reason;
      participant_count = options.participant_count;
      sfu_available = options.sfu_available;
      network_degraded = network_degraded;
      mesh_capacity_exceeded = exceeded;
      label = decision_label selected recommended reason exceeded options.sfu_available;
    }

-- `Number.isInteger(x)`
unfoldable pub is_integer : Number → Bool
is_integer (nat n) = true
is_integer (neg n) = true
is_integer _ = false

-- What follows the check of the count.
unfoldable pub choose : CallTransportPreference → SelectCallTransportOptions → CallTransportDecision
unfolding decision
choose preference options =
    let network_degraded = is_call_network_degraded options.network in
    let scale_requires_sfu = above options.participant_count mesh_preferred_max_participants in
    let recommended = if scale_requires_sfu || network_degraded then sfu else mesh in
    elim preference [
      | prefer_mesh ↦ decision mesh recommended manual_mesh options network_degraded
      | prefer_sfu ↦
          if options.sfu_available
          then decision sfu sfu manual_sfu options network_degraded
          else decision mesh sfu sfu_unavailable options network_degraded
      | auto ↦
          if is_sfu recommended && not options.sfu_available
          then decision mesh sfu sfu_unavailable options network_degraded
          else decision recommended recommended
              (if scale_requires_sfu
                then participant_threshold
                else if network_degraded
                then degraded_network
                else small_call)
              options network_degraded
    ]

-- `none` is the error that the function throws.
unfoldable pub select_call_transport : SelectCallTransportOptions → Option CallTransportDecision
unfolding choose is_integer
select_call_transport options =
    if not (is_integer options.participant_count) || below options.participant_count 1
    then none
    else elim options.preference [
      | none ↦ some (choose auto options)
      | some p ↦ some (choose p options)
    ]

-- The call needs an SFU: it has more than four participants or its network is degraded.
abbrev pub needs_sfu : SelectCallTransportOptions → Bool
needs_sfu options =
    above options.participant_count mesh_preferred_max_participants
    || is_call_network_degraded options.network

-- The user asks for an SFU, or leaves the choice and the call needs one.
abbrev pub wants_sfu : SelectCallTransportOptions → Bool
wants_sfu options = elim options.preference [
  | none ↦ needs_sfu options
  | some p ↦ elim p [ auto ↦ needs_sfu options | prefer_mesh ↦ false | prefer_sfu ↦ true ]
]

abbrev pub is_sfu_unavailable : CallTransportDecisionReason → Bool
is_sfu_unavailable sfu_unavailable = true
is_sfu_unavailable _ = false

-- A decision selects SFU exactly where it is wanted and available, and gives its absence as the
-- reason exactly where it is wanted and not available. It recommends SFU where it is wanted or the
-- call needs it, and reports the capacity of the mesh as exceeded beyond six participants.
pub select_call_transport_lem :
    (options : SelectCallTransportOptions) (d : CallTransportDecision)
    → select_call_transport options ≡ some d
    → (is_sfu d.selected ≡ (wants_sfu options && options.sfu_available))
      × (is_sfu_unavailable d.reason ≡ (wants_sfu options && not options.sfu_available))
      × (is_sfu d.recommended ≡ (wants_sfu options || needs_sfu options))
      × (d.mesh_capacity_exceeded ≡ above options.participant_count mesh_hard_max_participants)
unfolding select_call_transport
select_call_transport_lem options d h = ground arith
