-- ===== src/Tests/Chat.antt =====
-- A handshake of a chat, from the first message of the peer to the end of the check.
use risk_p2p.Prelude.{◌≡◌, refl, true, false, none, some, List, [], ◌∷◌, arith}
use risk_p2p.Prelude.Text.{Text, codes, text_eq}
use risk_p2p.Prelude.TextSet.{has, add}
use risk_p2p.Prelude.Map.{lookup, insert, delete}
use risk_p2p.Chat.Handshake.{
  Env, Identity, IdentityProof, Verifying, Sync, empty_sync, begin, challenge, schedule, fail,
  clear, clear_timer, accept, accept_verified, same_session, still_pending, timer_fires, nothing,
}
use risk_p2p.Chat.Handshake.Steps.{
  Event, start, step, run, after, wait_to_verify, go_on_verified, made_ready, sent, proof_checked,
  peer_found, proved, verified, timer,
}
use risk_p2p.Chat.Handshake.Authentic.{ready_authentic, failed_stays_idle, verified_once}
use risk_p2p.Chat.Handshake.Progress.{IsReady, handshake_completes}

abbrev peer : Text
peer = codes "peer-2"

abbrev local_identity : Identity
local_identity = record { ref = 5; peer_id = codes "peer-1" }

abbrev calm : Env
calm = record {
  identity = some local_identity;
  channel_id = some (codes "channel");
  session_token = some 3;
  is_data_peer = λ p. true;
  is_open_peer = λ p. false;
  is_allowed = λ p. true;
  is_revoked = λ p. false;
  now = 100;
  later = 101;
  random_uuid = codes "nonce-1";
}

abbrev late : Env
late = record calm { now = 20000; later = 20000 }

abbrev answer : IdentityProof
answer = record {
  from_peer_id = peer;
  to_peer_id = codes "peer-1";
  nonce = codes "nonce-1";
  signature = codes "signed";
  capabilities = codes "all";
}

calm-IsReady : IsReady calm local_identity 3 peer
calm-IsReady = record {
  signed_in = refl;
  in_session = refl;
  in_channel = refl;
  fresh_nonce = refl;
  data_peer = refl;
  allowed = refl;
  not_open = refl;
  not_revoked = refl;
  clock = omega arith;
}

abbrev good_run : List (Env × Event)
good_run = (calm, peer_found peer) ∷ (calm, proved peer answer) ∷ (calm, verified 0 true) ∷ []

handshake_completes_example : made_ready peer (run good_run start).log ≡ true
handshake_completes_example =
    handshake_completes calm local_identity 3 peer answer calm-IsReady refl refl refl

good_run_ready : made_ready peer (run good_run start).log ≡ true
unfolding run step after wait_to_verify go_on_verified made_ready begin challenge schedule clear
    clear_timer accept accept_verified same_session still_pending lookup insert delete has text_eq
good_run_ready = refl

ready_authentic_example :
    (n : Text) × (sent peer n (run good_run start).log ≡ true)
    × (proof_checked peer n (run good_run start).log ≡ true)
ready_authentic_example = ready_authentic good_run peer good_run_ready

-- The peer does not answer in time.
abbrev bad_run : List (Env × Event)
bad_run = (calm, peer_found peer) ∷ (late, timer peer) ∷ []

bad_run_failed : has peer (run bad_run start).sync.failed_peers ≡ true
unfolding run step after begin challenge schedule clear clear_timer timer_fires fail lookup insert
    delete has add text_eq
bad_run_failed = refl

failed_stays_idle_example :
    (begin calm peer (run bad_run start).sync ≡ nothing (run bad_run start).sync)
    × (accept calm peer answer (run bad_run start).sync ≡ none)
    × (timer_fires calm peer (run bad_run start).sync ≡ nothing (run bad_run start).sync)
failed_stays_idle_example = failed_stays_idle bad_run calm peer answer bad_run_failed

abbrev checking : Verifying
checking = record {
  verifying_token = 3;
  verifying_identity = local_identity;
  verifying_peer = peer;
  expected_nonce = codes "nonce-1";
  proof = answer;
}

abbrev asked_once : Sync
asked_once = record empty_sync { pending_challenges = (peer, codes "nonce-1") ∷ [] }

asked_once_pending : still_pending peer (codes "nonce-1") asked_once ≡ true
unfolding still_pending lookup text_eq
asked_once_pending = refl

calm_session : same_session calm 3 local_identity ≡ true
unfolding same_session
calm_session = refl

verified_once_example :
    accept_verified calm checking false (accept_verified calm checking true asked_once).sync
    ≡ nothing (accept_verified calm checking true asked_once).sync
verified_once_example =
    verified_once calm calm checking checking false asked_once refl calm_session asked_once_pending
