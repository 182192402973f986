-- ===== src/Tests/Signals.antt =====
-- The state of a peer as a signal.
use risk_p2p.Prelude.{◌≡◌, refl, true, false, some}
use risk_p2p.Prelude.Text.{Text, codes, text_eq}
use risk_p2p.Prelude.Js.{
  nat, below, above, is_finite, equals, Value, num, str, bool, obj, field, end, get,
}
use risk_p2p.Signaling.{
  Clock, valid_base, valid_state, parse_peer_state, is_uuid, is_room, is_timely, matches, hex,
  lower_hex, dash, uuid_version, uuid_variant, small_enough,
}
use risk_p2p.Signaling.Accepted.{IsSignal, parse, parse-IsSignal, peer_state, type_name}

abbrev sample_clock : Clock
sample_clock = record { now = 1000000; byte_size = λ v. some 500 }

abbrev sample_uuid : Text
sample_uuid = codes "00000000-0000-4000-8000-000000000000"

abbrev sample_room : Text
sample_room = codes "0000000000000000000000000000000000000000000000000000000000000000"

abbrev sample_signal : Value
sample_signal = obj (
    field (codes "version") (num (nat 1)) (
      field (codes "type") (str (codes "peer.state")) (
        field (codes "roomId") (str sample_room) (
          field (codes "fromPeerId") (str sample_uuid) (
            field (codes "messageId") (str sample_uuid) (
              field (codes "timestamp") (num (nat 999000)) (
                field (codes "payload")
                  (obj (
                    field (codes "state")
                      (obj (
                        field (codes "microphone") (bool true) (
                          field (codes "camera") (bool false)
                            (field (codes "screenShare") (bool false) end))))
                      end))
                  end)))))))

sample_accepted : parse sample_clock peer_state sample_signal ≡ true
unfolding parse_peer_state valid_base valid_state small_enough is_room is_uuid matches hex lower_hex
    dash uuid_version uuid_variant is_timely text_eq get is_finite below above equals
sample_accepted = refl

parse-IsSignal_example : IsSignal sample_clock (type_name peer_state) sample_signal
parse-IsSignal_example = parse-IsSignal sample_clock peer_state sample_signal sample_accepted
