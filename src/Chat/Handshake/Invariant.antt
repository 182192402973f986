-- ===== src/Chat/Handshake/Invariant.antt =====
-- What every handler of apps/web/src/chat/SyncService.ts keeps of the maps.
use risk_p2p.Prelude.{ℕ, ◌≡◌, refl, Bool, true, false, none, some, arith}
use risk_p2p.Prelude.Text.{Text, text_eq_iff}
use risk_p2p.Prelude.TextSet.{has, has-add_iff, has-delete_iff}
use risk_p2p.Prelude.Map.{lookup, insert, delete, lookup-insert, lookup-delete}
use risk_p2p.Chat.Handshake.{
  Env, Sync, Verifying, Signing, empty_sync, clear, clear_timer, fail, schedule, challenge, begin,
  timer_fires, forget_peer, respond_signed, accept_verified, or_else,
}

-- A peer that has failed waits for nothing: no challenge of it is pending and no timer of it is set.
-- A timer keeps the time at which the handshake of its peer started.
pub record IsSound (s : Sync) : Type 0 where
  pub failed_idle : (p : Text) → has p s.failed_peers ≡ true → lookup p s.pending_challenges ≡ none
  pub failed_silent : (p : Text) → has p s.failed_peers ≡ true → lookup p s.timers ≡ none
  pub timed : (p : Text) (t : ℕ) → lookup p s.timers ≡ some t → lookup p s.started_at ≡ some t

pub empty-IsSound : IsSound empty_sync
unfolding has lookup
empty-IsSound = record {
  failed_idle = λ p h. refl;
  failed_silent = λ p h. refl;
  timed = λ p t h. cc;
}

pub clear_timer-IsSound : (p : Text) (s : Sync) → IsSound s → IsSound (clear_timer p s)
unfolding clear_timer
clear_timer-IsSound p s i = record {
  failed_idle = i.failed_idle;
  failed_silent = λ q h. ground (arith, lookup-delete p q s.timers, i.failed_silent q);
  timed = λ q t h. ground (arith, lookup-delete p q s.timers, i.timed q t);
}

pub fail-IsSound : (p : Text) (s : Sync) → IsSound s → IsSound (fail p s).sync
unfolding fail clear clear_timer
fail-IsSound p s i = record {
  failed_idle = λ q h. ground (
    arith,
    lookup-delete p q s.pending_challenges,
    has-add_iff q p s.failed_peers,
    i.failed_idle q,
  );
  failed_silent = λ q h.
      ground (arith, lookup-delete p q s.timers, has-add_iff q p s.failed_peers, i.failed_silent q);
  timed = λ q t h.
      ground (arith, lookup-delete p q s.timers, lookup-delete p q s.started_at, i.timed q t);
}

-- `startedAt.set(p, startedAt.get(p) ?? time)`
abbrev restarted : Text → ℕ → Sync → Sync
restarted p time s = record s {
  started_at = insert p (or_else (lookup p s.started_at) time) s.started_at;
}

restarted-IsSound : (p : Text) (time : ℕ) (s : Sync) → IsSound s → IsSound (restarted p time s)
restarted-IsSound p time s i = record {
  failed_idle = i.failed_idle;
  failed_silent = i.failed_silent;
  timed = λ q t h. ground (
    arith,
    lookup-insert p q (or_else (lookup p s.started_at) time) s.started_at,
    text_eq_iff p q,
    i.timed q t,
  );
}

set_timer-IsSound :
    (p : Text) (time : ℕ) (s : Sync)
    → IsSound s
    → has p s.failed_peers ≡ false
    → IsSound (record (restarted p time s) {
      timers = insert p (or_else (lookup p s.started_at) time) (delete p s.timers);
    })
set_timer-IsSound p time s i idle =
    let started = or_else (lookup p s.started_at) time in
    record {
      failed_idle = i.failed_idle;
      failed_silent = λ q h. ground (
        arith,
        lookup-insert p q started (delete p s.timers),
        lookup-delete p q s.timers,
        text_eq_iff p q,
        i.failed_silent q,
      );
      timed = λ q t h. ground (
        arith,
        lookup-insert p q started (delete p s.timers),
        lookup-insert p q started s.started_at,
        lookup-delete p q s.timers,
        i.timed q t,
      );
    }

schedule-IsSound : (env : Env) (p : Text) (s : Sync) → IsSound s → IsSound (schedule env p s).sync
unfolding schedule clear_timer
schedule-IsSound env p s i = ground (
  arith,
  clear_timer-IsSound p s i,
  fail-IsSound p (restarted p env.later (clear_timer p s))
      (restarted-IsSound p env.later (clear_timer p s) (clear_timer-IsSound p s i)),
  set_timer-IsSound p env.later s i,
)

pending-IsSound :
    (p n : Text) (s : Sync)
    → IsSound s
    → has p s.failed_peers ≡ false
    → IsSound (record s { pending_challenges = insert p n s.pending_challenges })
pending-IsSound p n s i idle = record {
  failed_idle = λ q h.
      ground (arith, lookup-insert p q n s.pending_challenges, text_eq_iff p q, i.failed_idle q);
  failed_silent = i.failed_silent;
  timed = i.timed;
}

challenge-IsSound :
    (env : Env) (p : Text) (s : Sync)
    → IsSound s
    → has p s.failed_peers ≡ false
    → IsSound (challenge env p s).sync
unfolding challenge
challenge-IsSound env p s i idle =
    let timed = restarted p env.now s in
    let sound = restarted-IsSound p env.now s i in
    let nonce = or_else (lookup p s.pending_challenges) env.random_uuid in
    ground (
      arith,
      fail-IsSound p timed sound,
      schedule-IsSound env p
          (record timed { pending_challenges = insert p nonce s.pending_challenges })
          (pending-IsSound p nonce timed sound idle),
    )

pub begin-IsSound : (env : Env) (p : Text) (s : Sync) → IsSound s → IsSound (begin env p s).sync
unfolding begin
begin-IsSound env p s i = ground (arith, challenge-IsSound env p s i)

pub timer_fires-IsSound :
    (env : Env) (p : Text) (s : Sync) → IsSound s → IsSound (timer_fires env p s).sync
unfolding timer_fires clear_timer
timer_fires-IsSound env p s i =
    let fired = clear_timer p s in
    let sound = clear_timer-IsSound p s i in
    ground (arith, sound, fail-IsSound p fired sound, begin-IsSound env p fired sound)

pub respond_signed-IsSound :
    (env : Env) (w : Signing) (signature : Text) (s : Sync)
    → IsSound s
    → IsSound (respond_signed env w signature s).sync
unfolding respond_signed
respond_signed-IsSound env w signature s i = ground (arith, begin-IsSound env w.signing_peer s i)

pub forget_peer-IsSound : (p : Text) (s : Sync) → IsSound s → IsSound (forget_peer p s)
unfolding forget_peer clear clear_timer
forget_peer-IsSound p s i = record {
  failed_idle = λ q h. ground (
    arith,
    lookup-delete p q s.pending_challenges,
    has-delete_iff q p s.failed_peers,
    i.failed_idle q,
  );
  failed_silent = λ q h.
      ground
        (arith, lookup-delete p q s.timers, has-delete_iff q p s.failed_peers, i.failed_silent q);
  timed = λ q t h.
      ground (arith, lookup-delete p q s.timers, lookup-delete p q s.started_at, i.timed q t);
}

pub accept_verified-IsSound :
    (env : Env) (w : Verifying) (valid : Bool) (s : Sync)
    → IsSound s
    → IsSound (accept_verified env w valid s).sync
unfolding accept_verified forget_peer clear clear_timer
accept_verified-IsSound env w valid s i =
    let p = w.verifying_peer in
    let forgotten = forget_peer-IsSound p s i in
    let accepted : IsSound (record (forget_peer p s) {
      peer_capabilities = insert p w.proof.capabilities s.peer_capabilities;
    }) =
      record {
        failed_idle = forgotten.failed_idle;
        failed_silent = forgotten.failed_silent;
        timed = forgotten.timed;
      } in
    ground (arith, fail-IsSound p s i, accepted)
