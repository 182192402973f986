-- ===== src/Chat/Handshake/Log.antt =====
-- The log of apps/web/src/chat/SyncService.ts, and lists of waits.
use risk_p2p.Prelude.{◌≡◌, refl, Bool, true, false, ◌&&◌, ◌||◌, List, [], ◌∷◌, ◌++◌, arith}
use risk_p2p.Prelude.Text.{Text, text_eq}
use risk_p2p.Chat.Handshake.Steps.{Entry, checked, sent, proof_checked, made_ready}

pub sent-append : (p n : Text) (a b : List Entry) → sent p n (a ++ b) ≡ (sent p n a || sent p n b)
unfolding sent
sent-append p n [] b = refl
sent-append p n (e ∷ a) b = ground (arith, sent-append p n a b)

pub checked-append :
    (p n : Text) (a b : List Entry)
    → proof_checked p n (a ++ b) ≡ (proof_checked p n a || proof_checked p n b)
unfolding proof_checked
checked-append p n [] b = refl
checked-append p n (e ∷ a) b = ground (arith, checked-append p n a b)

pub ready-append :
    (p : Text) (a b : List Entry) → made_ready p (a ++ b) ≡ (made_ready p a || made_ready p b)
unfolding made_ready
ready-append p [] b = refl
ready-append p (e ∷ a) b = ground (arith, ready-append p a b)

pub sent_checked :
    (q m p n : Text) (valid : Bool) (log : List Entry)
    → sent q m (checked p n valid ∷ log) ≡ sent q m log
unfolding sent
sent_checked q m p n valid log = refl

pub checked_checked :
    (q p n : Text) (valid : Bool) (log : List Entry)
    → proof_checked q n (checked p n valid ∷ log)
      ≡ ((valid && text_eq p q && text_eq n n) || proof_checked q n log)
unfolding proof_checked
checked_checked q p n valid log = refl

pub ready_checked_tail :
    (q p n : Text) (valid : Bool) (log new : List Entry)
    → made_ready q log ≡ false
    → made_ready q (log ++ checked p n valid ∷ new) ≡ true
    → made_ready q new ≡ true
unfolding made_ready
ready_checked_tail q p n valid log new e h =
    ground (arith, ready-append q log (checked p n valid ∷ new))
