-- ===== src/Tests/Network.antt =====
-- Addresses in their normal form, and a description without the candidates of a private network.
use risk_p2p.Prelude.{◌≡◌, refl, not, ◌&&◌, some, List, [], ◌∷◌, keep}
use risk_p2p.Prelude.Text.{Text, codes, text_eq}
use risk_p2p.Rtc.Address.{
  normalize_ip_address, normalize_text, trim, trim_start, without_brackets, mapped_ipv4,
  is_ipv4_text, split_from, split_pair, join_with, without_zeros, normalize_ipv6, normalize_pieces,
  groups_of, finish_groups, zero_groups, is_same_address,
}
use risk_p2p.Rtc.Policy.{
  NetworkInterface, zerotier, internet_direct, prepare_lines, prepare_local_ice_candidate,
  prepare_parsed, parse_candidate, parse_fields, split_spaces, type_of, add_prefix, add_line,
  is_vpn_address, is_candidate_line, candidate_uses_vpn, prepare_lines-internet_direct,
}

abbrev same_text : Text → Text
same_text s = s

mapped_address :
    normalize_ip_address same_text (some (codes " [::FFFF:010.1.2.3] ")) ≡ some (codes "10.1.2.3")
unfolding normalize_ip_address normalize_text trim trim_start without_brackets mapped_ipv4
    is_ipv4_text split_from join_with without_zeros text_eq
mapped_address = refl

short_address :
    normalize_ip_address same_text (some (codes "2001:db8::00f%eth0"))
    ≡ some (codes "2001:db8:0:0:0:0:0:f")
unfolding normalize_ip_address normalize_text trim trim_start without_brackets mapped_ipv4
    is_ipv4_text split_from split_pair join_with without_zeros normalize_ipv6 normalize_pieces
    groups_of finish_groups zero_groups text_eq
short_address = refl

abbrev overlay : List NetworkInterface
overlay = record { name = codes "zt0"; address = codes "10.1.2.3"; provider = zerotier } ∷ []

abbrev overlay_line : Text
overlay_line = codes "a=candidate:1 1 udp 2122260223 10.1.2.3 5000 typ host"

abbrev sample_lines : List Text
sample_lines = codes "m=audio" ∷ overlay_line ∷ []

overlay_dropped :
    prepare_lines same_text overlay internet_direct sample_lines ≡ codes "m=audio" ∷ []
unfolding prepare_lines prepare_local_ice_candidate prepare_parsed parse_candidate parse_fields
    split_spaces type_of add_prefix add_line is_vpn_address is_same_address normalize_ip_address
    normalize_text trim trim_start without_brackets mapped_ipv4 is_ipv4_text split_from join_with
    without_zeros text_eq
overlay_dropped = refl

prepare_lines-internet_direct_example :
    prepare_lines same_text overlay internet_direct sample_lines
    ≡ keep
        (λ line. not (is_candidate_line line && candidate_uses_vpn same_text overlay line))
        sample_lines
prepare_lines-internet_direct_example = prepare_lines-internet_direct same_text overlay sample_lines
