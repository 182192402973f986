-- ===== src/Tests/Calls.antt =====
-- Calls, invites and transport policies at concrete inputs.
use risk_p2p.Prelude.{
  ℕ, ◌≡◌, ◌≢◌, ◌≤◌, refl, Bool, not, ◌==◌, true, false, ◌&&◌, ◌||◌, none, some, [], ◌∷◌, arith,
  length, keep,
}
use risk_p2p.Prelude.Text.{codes, text_eq, ne_of_text_eq}
use risk_p2p.Prelude.Js.{nat, above, below}
use risk_p2p.Rtc.Selection
use risk_p2p.Rtc.Video
use risk_p2p.Rtc.Ice
use risk_p2p.Call.Session
use risk_p2p.Call.Recovery
use risk_p2p.Call.Layout
use risk_p2p.Invites.Limiter

abbrev five : Selection.SelectCallTransportOptions
five = record {
  participant_count = nat 5;
  preference = none;
  sfu_available = false;
  network = none;
}

abbrev five_decision : Selection.CallTransportDecision
five_decision = record {
  selected = Selection.mesh;
  recommended = Selection.sfu;
  reason = Selection.sfu_unavailable;
  participant_count = nat 5;
  sfu_available = false;
  network_degraded = false;
  mesh_capacity_exceeded = false;
  label = codes "Mesh P2P · SFU recomendado, mas não configurado";
}

five_decided : Selection.select_call_transport five ≡ some five_decision
unfolding Selection.select_call_transport Selection.is_call_network_degraded above below
    Selection.decision_label
five_decided = refl

select_call_transport_example :
    (Selection.is_sfu five_decision.selected ≡ (Selection.wants_sfu five && false))
    × (Selection.is_sfu_unavailable five_decision.reason ≡ (Selection.wants_sfu five && true))
    × (Selection.is_sfu five_decision.recommended
        ≡ (Selection.wants_sfu five || Selection.needs_sfu five))
    × (false ≡ above (nat 5) 6)
select_call_transport_example = Selection.select_call_transport_lem five five_decision five_decided

abbrev screen_options : Video.VideoPublicationOptions
screen_options = record {
  source = Video.screen;
  max_bitrate = some 9000000;
  max_framerate = some 60;
  target_width = none;
  target_height = none;
  degradation_preference = none;
}

abbrev waiting : Ice.PeerEntry ℕ
waiting = record { ignore_offer = false; has_remote_description = false; pending = []; added = [] }

-- The connection rejects the second of three candidates.
abbrev not_five : ℕ → Bool
not_five n = not (n == 5)

flush-add_all_example :
    let (flushed, done) =
      Ice.flush_pending_ice_candidates not_five (Ice.add_all not_five waiting (4 ∷ 5 ∷ 6 ∷ [])) in
    Ice.Flushed not_five [] (4 ∷ 5 ∷ 6 ∷ []) (flushed.added, done) × (flushed.pending ≡ [])
flush-add_all_example = Ice.flush-add_all not_five waiting (4 ∷ 5 ∷ 6 ∷ []) refl refl refl

abbrev idle : Session.CallSession
idle = record { lifecycle_id = 3; room_id = none; rendezvous_id = none; peer_id = none }

begin-is_active_example :
    let (s', own) = Session.begin idle (codes "room") (codes "peer") none in
    (Session.is_active s' own true ≡ true)
    × (Session.is_active s' 2 true ≡ false)
    × (Session.is_active (Session.run s' (Session.ends ∷ [])) own true ≡ false)
begin-is_active_example =
    Session.begin-is_active idle (codes "room") (codes "peer") none 2 Session.ends [] (λ e. cc)
      (omega arith)

responsive_call_grid_example :
    let grid = Layout.responsive_call_grid 5 in
    Layout.Holds grid.portrait 5
    × Layout.Holds grid.compact_landscape 5
    × (grid.portrait.columns ≤ 2)
    × (grid.compact_landscape.columns ≤ 4)
responsive_call_grid_example = Layout.responsive_call_grid_lem 5 (omega arith)

q_ne_p : codes "q" ≢ codes "p"
unfolding text_eq
q_ne_p = ne_of_text_eq (codes "q") (codes "p") refl

finish_other_example :
    (Recovery.finish
      (Recovery.run
        (Recovery.failed (Recovery.begin true []) (codes "p")).0
        (Recovery.fails (codes "q") ∷ []))
      (codes "q")
      none).1
    ≡ false
finish_other_example =
    Recovery.finish_other (Recovery.begin true []) (codes "p") (codes "q")
      (Recovery.fails (codes "q") ∷ []) none (tt, tt) q_ne_p

run-granted_example :
    length (keep (Limiter.recent 60 5) (Limiter.run (Limiter.init 2 60) [] (1 ∷ 2 ∷ 3 ∷ 5 ∷ [])).1)
    ≤ 2
run-granted_example = Limiter.run-granted 2 60 0 (1 ∷ 2 ∷ 3 ∷ 5 ∷ []) (omega arith)
