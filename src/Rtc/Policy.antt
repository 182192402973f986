-- ===== src/Rtc/Policy.antt =====
-- packages/rtc/src/transport/network-policy.ts: which of the local ICE candidates are told to the peer.
-- A candidate is its text; the other fields are passed on as they are.
use risk_p2p.Prelude.{
  ◌≡◌, refl, ap, Bool, true, false, not, ◌&&◌, ◌||◌, Option, none, some, List, [], ◌∷◌, ◌++◌, ltb,
  ◌==◌, length, take, drop, any, keep, get_elem?, if◌then◌else◌, Bool-cases, Option-cases, inl, inr,
}
use risk_p2p.Prelude.Text.{Text, text_eq, codes}
use risk_p2p.Rtc.Address.{
  is_space, trim, split_from, split_pair, join_with, is_empty, is_same_address,
}

pub data RtcNetworkPreference : Type 0 where
  auto internet_direct private_vpn : RtcNetworkPreference

pub data PrivateNetworkProvider : Type 0 where
  zerotier tailscale wireguard vpn unknown : PrivateNetworkProvider

pub record NetworkInterface : Type 0 where
  pub name : Text
  pub address : Text
  pub provider : PrivateNetworkProvider

abbrev pub is_private : PrivateNetworkProvider → Bool
is_private unknown = false
is_private _ = true

abbrev pub max_host_candidate_priority : Text
max_host_candidate_priority = codes "2130706431"

abbrev pub starts_with : Text → Text → Bool
starts_with p s = text_eq (take (length p) s) p

-- `s.split(/\s+/)` of a trimmed text: no piece is empty, unless the text is.
unfoldable pub split_spaces : Text → List Text
unfolding split_from
split_spaces s =
    if is_empty s then [] ∷ [] else keep (λ p. not (is_empty p)) (split_from is_space [] s)

-- What stands behind the first `typ`.
unfoldable pub type_of : List Text → Option Text
type_of [] = none
type_of (f ∷ fs) =
    let later = type_of fs in if text_eq f (codes "typ") then get_elem? fs 0 else later

pub record Parsed : Type 0 where
  pub fields : List Text
  pub address : Option Text
  pub kind : Text

unfoldable pub add_prefix : Bool → List Text → List Text
add_prefix prefixed [] = []
add_prefix prefixed (f ∷ fs) = (if prefixed then codes "a=" ++ f else f) ∷ fs

unfoldable pub parse_fields : Bool → List Text → Option Parsed
unfolding add_prefix type_of
parse_fields prefixed [] = none
parse_fields prefixed (f ∷ fs) =
    if not (starts_with (codes "candidate:") f) || ltb (length (f ∷ fs)) 8
    then none
    else elim (type_of (f ∷ fs)) [
      | none ↦ none
      | some [] ↦ none
      | some (c ∷ t) ↦ some (record {
        fields = add_prefix prefixed (f ∷ fs);
        address = get_elem? (f ∷ fs) 4;
        kind = c ∷ t;
      })
    ]

unfoldable pub parse_candidate : Text → Option Parsed
unfolding parse_fields split_spaces trim
parse_candidate value =
    let prefixed = starts_with (codes "a=") value in
    parse_fields prefixed (split_spaces (trim (if prefixed then drop 2 value else value)))

-- `fields[3] = String(MAX_HOST_CANDIDATE_PRIORITY)`
unfoldable pub set_priority : List Text → List Text
set_priority fields = take 3 fields ++ max_host_candidate_priority ∷ drop 4 fields

abbrev pub is_candidate_line : Text → Bool
is_candidate_line line = starts_with (codes "a=candidate:") line

-- A text that holds the separator has more than one piece.
unfoldable pub lines_of : Text → List Text
unfolding split_pair split_from
lines_of sdp =
    let by_pairs = split_pair 13 10 [] sdp in
    if ltb 1 (length by_pairs) then by_pairs else split_from (λ c. c == 10) [] sdp

unfoldable pub separator_of : Text → Text
unfolding split_pair
separator_of sdp = if ltb 1 (length (split_pair 13 10 [] sdp)) then 13 ∷ 10 ∷ [] else 10 ∷ []

module _ (lower : Text → Text) (interfaces : List NetworkInterface) where
  unfoldable pub is_vpn_address : Option Text → Bool
  is_vpn_address address =
      any (λ i. is_private i.provider && is_same_address lower (some i.address) address) interfaces

  unfoldable pub prepare_parsed : RtcNetworkPreference → Text → Option Parsed → Option Text
  unfolding is_vpn_address set_priority join_with
  prepare_parsed preference candidate none = some candidate
  prepare_parsed auto candidate (some p) = some candidate
  prepare_parsed internet_direct candidate (some p) =
      if text_eq p.kind (codes "host") && is_vpn_address p.address then none else some candidate
  prepare_parsed private_vpn candidate (some p) =
      if text_eq p.kind (codes "host") && is_vpn_address p.address
      then some (join_with (codes " ") (set_priority p.fields))
      else some candidate

  -- `prepareLocalIceCandidate`
  unfoldable pub prepare_local_ice_candidate : RtcNetworkPreference → Text → Option Text
  unfolding prepare_parsed
  prepare_local_ice_candidate preference candidate =
      if is_empty candidate
      then some candidate
      else prepare_parsed preference candidate (parse_candidate candidate)

  unfoldable pub uses_vpn : Option Parsed → Bool
  uses_vpn none = false
  uses_vpn (some p) = text_eq p.kind (codes "host") && is_vpn_address p.address

  unfoldable pub candidate_uses_vpn : Text → Bool
  unfolding uses_vpn
  candidate_uses_vpn candidate =
      if is_empty candidate then false else uses_vpn (parse_candidate candidate)

  -- `prepared?.candidate ? [prepared.candidate] : []`
  unfoldable pub add_line : Option Text → List Text → List Text
  add_line none rest = rest
  add_line (some []) rest = rest
  add_line (some (c ∷ s)) rest = (c ∷ s) ∷ rest

  -- The lines of `prepareLocalSessionDescription` for a description with a text.
  unfoldable pub prepare_lines : RtcNetworkPreference → List Text → List Text
  unfolding add_line
  prepare_lines preference [] = []
  prepare_lines preference (line ∷ lines) =
      let rest = prepare_lines preference lines in
      if not (is_candidate_line line)
      then line ∷ rest
      else add_line (prepare_local_ice_candidate preference line) rest

  -- The text of the description; an empty one counts as missing.
  unfoldable pub prepare_local_session_description : RtcNetworkPreference → Text → Text
  unfolding prepare_lines lines_of separator_of join_with
  prepare_local_session_description auto sdp = sdp
  prepare_local_session_description preference [] = []
  prepare_local_session_description preference (c ∷ s) =
      join_with (separator_of (c ∷ s)) (prepare_lines preference (lines_of (c ∷ s)))

  prepare-internet :
      (line : Text)
      → prepare_local_ice_candidate internet_direct line
        ≡ (if candidate_uses_vpn line then none else some line)
  unfolding prepare_local_ice_candidate candidate_uses_vpn prepare_parsed uses_vpn
  prepare-internet [] = refl
  prepare-internet (c ∷ s) = elim (Option-cases (parse_candidate (c ∷ s))) [
    | inl e ↦ rw e refl
    | inr (p, e) ↦ rw e refl
  ]

  -- With the preference `internet-direct`, what is told to the peer is just what was there without the
  -- host candidates on an address of a known private network, in the same order: no address of such a
  -- network is told in a candidate of type `host`, and nothing else is lost.
  pub prepare_lines-internet_direct :
      (lines : List Text)
      → prepare_lines internet_direct lines
        ≡ keep (λ line. not (is_candidate_line line && candidate_uses_vpn line)) lines
  unfolding prepare_lines add_line text_eq
  prepare_lines-internet_direct [] = refl
  prepare_lines-internet_direct ([] ∷ lines) = ap (◌∷◌ []) (prepare_lines-internet_direct lines)
  prepare_lines-internet_direct ((c ∷ s) ∷ lines) =
      let later = prepare_lines-internet_direct lines in
      elim (Bool-cases (is_candidate_line (c ∷ s))) [
        | inr e ↦ rw e (ap (◌∷◌ (c ∷ s)) later)
        | inl e ↦ elim (Bool-cases (candidate_uses_vpn (c ∷ s))) [
          | inl u ↦ rw (e, u, prepare-internet (c ∷ s)) (rw u later)
          | inr u ↦ rw (e, u, prepare-internet (c ∷ s)) (rw u (ap (◌∷◌ (c ∷ s)) later))
        ]
      ]
