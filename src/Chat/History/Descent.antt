-- ===== src/Chat/History/Descent.antt =====
-- apps/web/src/chat/HistoryService.ts: what a `complete` does to the cursors of an open request.
use risk_p2p.Prelude.{
  ℕ, ◌≡◌, refl, Bool, true, false, not, ◌&&◌, ◌||◌, Option, none, some, [], arith, if◌then◌else◌,
  Bool-cases, ◌⊎◌, inl, inr,
}
use risk_p2p.Prelude.Text.{Text, text_eq, text_eq_iff, text_eq_self, text_lt_trans}
use risk_p2p.Prelude.Map.{Map, lookup, insert, delete, lookup-insert, lookup-delete}
use risk_p2p.Chat.History.{
  HistoryComplete, RequestState, Channel, cursor_advances, event_cursor_advances, message_cursor,
  event_cursor, message_advances, event_advances, after_messages, after_events, next_state,
  issue_request, accept_complete, accept_for,
}

unfoldable pub lower : Option Text → Option Text → Option Text → Option Text → Bool
lower p i (some t) (some id) = cursor_advances p i t id
lower p i _ _ = false

unfoldable pub lower_event : Option ℕ → Option Text → Option ℕ → Option Text → Bool
lower_event p i (some t) (some id) = event_cursor_advances p i t id
lower_event p i _ _ = false

-- The messages of `next` are all told, or its cursor is before the one of `st`.
unfoldable pub messages_descend : RequestState → RequestState → Bool
messages_descend st next =
    next.messages_done
    || not st.messages_done
      && lower st.message_before st.message_before_id next.message_before next.message_before_id

unfoldable pub events_descend : RequestState → RequestState → Bool
events_descend st next =
    next.events_done
    || not st.events_done
      && lower_event st.event_before_timestamp st.event_before_id next.event_before_timestamp
          next.event_before_id

-- A later request of the same session.
abbrev pub descends : RequestState → RequestState → Bool
descends st next =
    messages_descend st next
    && events_descend st next
    && not (next.messages_done && next.events_done)

cursors_descend :
    (a : Option (Text × Text)) (b : Option (ℕ × Text)) (st : RequestState)
    → message_advances st a ≡ true
    → event_advances st b ≡ true
    → (messages_descend st (after_events b (after_messages a st))
        && events_descend st (after_events b (after_messages a st)))
      ≡ true
unfolding message_advances event_advances after_messages after_events messages_descend
    events_descend lower lower_event
cursors_descend none none st m e = refl
cursors_descend none (some (t, i)) st m e = ground arith
cursors_descend (some (t, i)) none st m e = ground arith
cursors_descend (some (t, i)) (some (u, j)) st m e = ground arith

next_state-descends :
    (id : Text) (c : HistoryComplete) (st : RequestState)
    → message_advances st (message_cursor c) ≡ true
    → event_advances st (event_cursor c) ≡ true
    → ((next_state id c st).messages_done && (next_state id c st).events_done) ≡ false
    → descends st (next_state id c st) ≡ true
unfolding next_state messages_descend events_descend
next_state-descends id c st m e more =
    let both = cursors_descend (message_cursor c) (event_cursor c) st m e in ground arith

pub deleted : (peer : Text) (m : Map RequestState) → lookup peer (delete peer m) ≡ none
deleted peer m = rw (lookup-delete peer peer m, text_eq_self peer) refl

pub inserted :
    (peer : Text) (st : RequestState) (m : Map RequestState)
    → lookup peer (insert peer st m) ≡ some st
inserted peer st m = rw (lookup-insert peer peer st m, text_eq_self peer) refl

-- What becomes of an open request: it stays, it ends, or a page behind it is asked for.
module _ (channel : Channel) (peer id : Text) (c : HistoryComplete)
    (requests : Map RequestState) where
  pub accept_for-cases :
      (st : RequestState)
      → (accept_for channel peer id c st requests ≡ (requests, []))
        ⊎ ((accept_for channel peer id c st requests ≡ (delete peer requests, []))
            ⊎ ((accept_for channel peer id c st requests
                  ≡ issue_request channel peer
                      (next_state id c st)
                      []
                      (if (next_state id c st).events_done then none else some [])
                      requests)
                × (descends st (next_state id c st) ≡ true)))
  unfolding accept_for
  accept_for-cases st =
      let bad =
        not (message_advances st (message_cursor c)) || not (event_advances st (event_cursor c)) in
      let over = (next_state id c st).messages_done && (next_state id c st).events_done in
      elim (Bool-cases (text_eq st.request_id c.request_id)) [
        | inr other ↦ inl (rw other refl)
        | inl same ↦ elim (Bool-cases bad) [
          | inl e ↦ inr (inl (rw (same, e) refl))
          | inr e ↦ elim (Bool-cases over) [
            | inl d ↦ inr (inl (rw (same, e, d) refl))
            | inr d ↦ inr (
                inr (
                  rw (same, e, d) refl,
                  next_state-descends id c st (ground arith) (ground arith) d,
                ))
          ]
        ]
      ]

  pub accept_complete-known :
      (st : RequestState)
      → lookup peer requests ≡ some st
      → accept_complete channel peer id c requests ≡ accept_for channel peer id c st requests
  unfolding accept_complete
  accept_complete-known st h = rw (h, accept_complete) refl

lower_trans :
    (p i q j r k : Option Text) → lower p i q j ≡ true → lower q j r k ≡ true → lower p i r k ≡ true
unfolding lower cursor_advances
lower_trans none i (some t) (some a) (some u) (some b) g h = refl
lower_trans (some s) none (some t) (some a) (some u) (some b) g h =
    ground (arith, text_lt_trans u t s, text_eq_iff u t)
lower_trans (some s) (some c) (some t) (some a) (some u) (some b) g h = ground (
  arith,
  text_lt_trans u t s,
  text_lt_trans b a c,
  text_eq_iff u t,
  text_eq_iff t s,
  text_eq_iff u s,
)
lower_trans p i none j r k g h = cc
lower_trans p i (some t) none r k g h = cc
lower_trans p i (some t) (some a) none k g h = cc
lower_trans p i (some t) (some a) (some u) none g h = cc

lower_event_trans :
    (p q r : Option ℕ) (i j k : Option Text)
    → lower_event p i q j ≡ true
    → lower_event q j r k ≡ true
    → lower_event p i r k ≡ true
unfolding lower_event event_cursor_advances
lower_event_trans none (some t) (some u) i (some a) (some b) g h = refl
lower_event_trans (some s) (some t) (some u) none (some a) (some b) g h = ground arith
lower_event_trans (some s) (some t) (some u) (some c) (some a) (some b) g h =
    ground (arith, text_lt_trans b a c)
lower_event_trans p none r i j k g h = cc
lower_event_trans p (some t) r i none k g h = cc
lower_event_trans p (some t) none i (some a) k g h = cc
lower_event_trans p (some t) (some u) i (some a) none g h = cc

pub descends_trans :
    (a b c : RequestState) → descends a b ≡ true → descends b c ≡ true → descends a c ≡ true
unfolding messages_descend events_descend
descends_trans a b c g h = ground (
  arith,
  lower_trans a.message_before a.message_before_id b.message_before b.message_before_id
      c.message_before c.message_before_id,
  lower_event_trans a.event_before_timestamp b.event_before_timestamp c.event_before_timestamp
      a.event_before_id b.event_before_id c.event_before_id,
)
