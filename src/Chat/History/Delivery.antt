-- ===== src/Chat/History/Delivery.antt =====
-- apps/web/src/chat/HistoryService.ts: what `respond` has sent and delivered when the session ends or
-- a send reaches nobody.
use mathlib.Core.List.{append-nil, append_assoc}
use mathlib.Core.Option.{some-injective}
use risk_p2p.Prelude.{
  ℕ, zero, suc, ◌+◌, ◌-◌, Option, ◌≡◌, refl, sym, ap, ◌∙◌, Bool, true, ◌&&◌, some, List, [], ◌∷◌,
  ◌++◌, arith, length, length-append, &&_iff, inl, inr, Bool-cases, Option-cases,
}
use risk_p2p.Prelude.Text.{Text}
use risk_p2p.Prelude.Js.{Number}
use risk_p2p.Chat.History.{
  SignedEvent, LocalMessage, HistoryRequest, HistoryWire, complete, Channel, send_each, chunks_of,
  complete_of, new_messages, new_events, message_page_of, event_page_of, finish_answer, respond,
}
use risk_p2p.Chat.History.Answers.{open_channel, send_each-open}

-- What a loop has sent is the first part of what it had to send, and all of it if it goes on.
send_each-rest :
    (channel : Channel) (k : ℕ) (ws : List HistoryWire)
    → (rest : List HistoryWire) × ((send_each channel k ws).0 ++ rest ≡ ws)
      × ((n : ℕ) → (send_each channel k ws).1 ≡ some n → rest ≡ [])
unfolding send_each
send_each-rest channel k [] = ([], refl, λ n e. refl)
send_each-rest channel k (w ∷ ws) = elim (Bool-cases (channel.is_active k)) [
  | inr e ↦ rw e (w ∷ ws, refl, λ n h. absurd cc)
  | inl e ↦ rw e (elim (Bool-cases (channel.sent k)) [
    | inr f ↦ rw f (ws, refl, λ n h. absurd cc)
    | inl f ↦
        let later = send_each-rest channel (k + 1) ws in rw f (later.0, ap (◌∷◌ w) later.1, later.2)
  ])
]

finish_answer-rest :
    (channel : Channel) (ws : List HistoryWire) (last : HistoryWire)
    → (rest : List HistoryWire) × (finish_answer channel (send_each channel 0 ws) last ++ rest
        ≡ ws ++ last ∷ [])
unfolding finish_answer
finish_answer-rest channel ws last =
    let sends = send_each channel 0 ws in
    let part = send_each-rest channel 0 ws in
    elim (Option-cases sends.1) [
      | inl e ↦ rw e (
        part.0 ++ last ∷ [],
        sym (append_assoc sends.0 part.0 (last ∷ [])) ∙ ap (λ t. t ++ last ∷ []) part.1,
      )
      | inr (n, e) ↦
          let whole : sends.0 ≡ ws =
            sym (append-nil sends.0) ∙ ap (λ t. sends.0 ++ t) (sym (part.2 n e)) ∙ part.1 in
          elim (Bool-cases (channel.is_active n)) [
            | inl f ↦
                rw (e, f) ([], append-nil (sends.0 ++ last ∷ []) ∙ ap (λ t. t ++ last ∷ []) whole)
            | inr f ↦ rw (e, f) (last ∷ [], ap (λ t. t ++ last ∷ []) whole)
          ]
    ]

-- Whether `f` holds at each number below `n`.
unfoldable pub all_below : ℕ → (ℕ → Bool) → Bool
all_below zero f = true
all_below (suc n) f = all_below n f && f n

all_below-from_zero : (f : ℕ → Bool) (n : ℕ) → all_below n (λ j. f (0 + j)) ≡ all_below n f
unfolding all_below
all_below-from_zero f zero = refl
all_below-from_zero f (suc n) =
    rw (all_below-from_zero f n) (ap (λ j. all_below n f && f j) (omega arith))

all_below-cons :
    (f : ℕ → Bool) (k n : ℕ)
    → f k ≡ true
    → all_below n (λ j. f (k + 1 + j)) ≡ true
    → all_below (suc n) (λ j. f (k + j)) ≡ true
unfolding all_below
all_below-cons f k zero e h = ap f {x = k + 0} (omega arith) ∙ e
all_below-cons f k (suc n) e h =
    let both = (&&_iff (all_below n (λ j. f (k + 1 + j))) (f (k + 1 + n))).0 h in
    rw (all_below-cons f k n e both.0) (ap f {x = k + suc n} {y = k + 1 + n} (omega arith) ∙ both.1)

all_below-suc_pred : (f : ℕ → Bool) (n : ℕ) → all_below (suc n - 1) f ≡ all_below n f
all_below-suc_pred f n = ap (λ m. all_below m f) {x = suc n - 1} {y = n} (omega arith)

all_below-pred :
    (f : ℕ → Bool) (k n : ℕ)
    → f k ≡ true
    → all_below (n - 1) (λ j. f (k + 1 + j)) ≡ true
    → all_below n (λ j. f (k + j)) ≡ true
unfolding all_below
all_below-pred f k zero e h = refl
all_below-pred f k (suc n) e h =
    all_below-cons f k n e (sym (all_below-suc_pred (λ j. f (k + 1 + j)) n) ∙ h)

-- What a loop has asked and heard by its end.
record Looped (channel : Channel) (k : ℕ) (sends : List HistoryWire) (ended : Option ℕ)
    : Type 0 where
  active : all_below (length sends) (λ j. channel.is_active (k + j)) ≡ true
  reached : all_below (length sends - 1) (λ j. channel.sent (k + j)) ≡ true
  goes_on :
      (n : ℕ)
      → ended ≡ some n
      → (n ≡ k + length sends) × (all_below (length sends) (λ j. channel.sent (k + j)) ≡ true)

send_each-Looped :
    (channel : Channel) (k : ℕ) (ws : List HistoryWire)
    → Looped channel k (send_each channel k ws).0 (send_each channel k ws).1
unfolding send_each all_below
send_each-Looped channel k [] = record {
  active = refl;
  reached = refl;
  goes_on = λ n e. (omega (arith, some-injective k n e), refl);
}
send_each-Looped channel k (w ∷ ws) = elim (Bool-cases (channel.is_active k)) [
  | inr e ↦ rw e (record { active = refl; reached = refl; goes_on = λ n h. absurd cc })
  | inl e ↦ elim (Bool-cases (channel.sent k)) [
    | inr f ↦
        rw (e, f)
          (record {
            active = all_below-cons channel.is_active k 0 e refl;
            reached = refl;
            goes_on = λ n h. absurd cc;
          })
    | inl f ↦
        let later = send_each-Looped channel (k + 1) ws in
        let n = length (send_each channel (k + 1) ws).0 in
        rw (e, f)
          (record {
            active = all_below-cons channel.is_active k n e later.active;
            reached =
                all_below-suc_pred (λ j. channel.sent (k + j)) n
                ∙ all_below-pred channel.sent k n f later.reached;
            goes_on = λ m h. (
              omega (arith, (later.goes_on m h).0),
              all_below-cons channel.sent k n f (later.goes_on m h).1,
            );
          })
  ]
]

-- Every send is made in the session, and every send but the last one has reached the peer.
abbrev pub delivered_in_turn : Channel → List HistoryWire → Bool
delivered_in_turn channel sends =
    all_below (length sends) channel.is_active && all_below (length sends - 1) channel.sent

all_below-snoc :
    (f : ℕ → Bool) (n : ℕ) → all_below n f ≡ true → f n ≡ true → all_below (n + 1) f ≡ true
unfolding all_below
all_below-snoc f n h e =
    ap (λ k. all_below k f) {x = n + 1} {y = suc n} (omega arith)
    ∙ (&&_iff (all_below n f) (f n)).1 (h, e)

finish_answer-delivered_in_turn :
    (channel : Channel) (ws : List HistoryWire) (last : HistoryWire)
    → delivered_in_turn channel (finish_answer channel (send_each channel 0 ws) last) ≡ true
unfolding finish_answer
finish_answer-delivered_in_turn channel ws last =
    let sends = send_each channel 0 ws in
    let looped = send_each-Looped channel 0 ws in
    let n = length sends.0 in
    let active = sym (all_below-from_zero channel.is_active n) ∙ looped.active in
    let stopped =
      (&&_iff (all_below n channel.is_active) (all_below (n - 1) channel.sent)).1
        (active, sym (all_below-from_zero channel.sent (n - 1)) ∙ looped.reached) in
    elim (Option-cases sends.1) [
      | inl e ↦ rw e stopped
      | inr (m, e) ↦ elim (Bool-cases (channel.is_active m)) [
        | inr f ↦ rw (e, f) stopped
        | inl f ↦
            let (here, reached) = looped.goes_on m e in
            let more = length-append sends.0 (last ∷ []) in
            let at : m ≡ n = omega arith in
            rw (e, f)
              ((&&_iff (all_below (length (sends.0 ++ last ∷ [])) channel.is_active)
                  (all_below (length (sends.0 ++ last ∷ []) - 1) channel.sent)).1
                (
                  ap (λ k. all_below k channel.is_active) {y = n + 1} (omega arith)
                      ∙ all_below-snoc channel.is_active n active
                          (ap channel.is_active (sym at) ∙ f),
                  ap (λ k. all_below k channel.sent) {y = n} (omega arith)
                      ∙ sym (all_below-from_zero channel.sent n)
                      ∙ reached,
                ))
      ]
    ]

-- Whenever the session ends and whichever send reaches nobody, what is sent is the first part of the
-- answer that an open channel gets. Every send is made while the session is active, and every send but
-- the last one has reached the peer: a `complete` is sent only behind all chunks, each of which has
-- reached the peer.
pub respond-rest :
    (parse_date : Text → Number) (channel : Channel) (channel_id : Text) (r : HistoryRequest)
    (stored : List LocalMessage) (events : List SignedEvent)
    → (delivered_in_turn channel (respond parse_date channel channel_id r stored events) ≡ true)
      × (rest : List HistoryWire) × (respond parse_date channel channel_id r stored events ++ rest
          ≡ respond parse_date open_channel channel_id r stored events)
unfolding respond all_below
respond-rest parse_date channel channel_id r stored events =
    let chunks =
      chunks_of channel_id r (new_messages parse_date r (message_page_of r stored))
        (new_events r (event_page_of r events)) in
    let last =
      complete channel_id (complete_of r (message_page_of r stored) (event_page_of r events)) in
    let part = finish_answer-rest channel chunks last in
    elim (Bool-cases (channel.is_active 0)) [
      | inl e ↦
          rw (e, send_each-open 0 chunks)
            (finish_answer-delivered_in_turn channel chunks last, part.0, part.1)
      | inr e ↦ rw (e, send_each-open 0 chunks) (refl, chunks ++ last ∷ [], refl)
    ]
