-- ===== src/Rtc/Address.antt =====
-- packages/rtc/src/connection-path.ts: `normalizeIpAddress` and `isSameAddress`. `lower` is
-- `toLocaleLowerCase`, and `none` stands for `undefined`.
use risk_p2p.Prelude.{
  ℕ, zero, suc, ◌+◌, ◌-◌, ◌*◌, Bool, true, false, not, ◌&&◌, ◌||◌, Option, none, some, List, [],
  ◌∷◌, ◌++◌, map, leb, ◌==◌, length, take, drop, all, if◌then◌else◌,
}
use risk_p2p.Prelude.Text.{Text, text_eq, codes, is_digit}

-- White space, as `trim` and `\s` know it.
abbrev pub is_space : ℕ → Bool
is_space c =
    (leb 9 c && leb c 13)
    || c == 32
    || c == 160
    || c == 5760
    || (leb 8192 c && leb c 8202)
    || c == 8232
    || c == 8233
    || c == 8239
    || c == 8287
    || c == 12288
    || c == 65279

unfoldable pub trim_start : Text → Text
trim_start [] = []
trim_start (c ∷ s) = let rest = trim_start s in if is_space c then rest else c ∷ s

abbrev pub reverse_onto : Text → Text → Text
reverse_onto done [] = done
reverse_onto done (c ∷ s) = reverse_onto (c ∷ done) s

unfoldable pub trim : Text → Text
unfolding trim_start
trim s = reverse_onto [] (trim_start (reverse_onto [] (trim_start s)))

-- `s.split(c)` for one character; `piece` holds the current piece, the last character first.
unfoldable pub split_from : (ℕ → Bool) → Text → Text → List Text
split_from is_sep piece [] = reverse_onto [] piece ∷ []
split_from is_sep piece (c ∷ s) =
    let cut = split_from is_sep [] s in
    let more = split_from is_sep (c ∷ piece) s in
    if is_sep c then reverse_onto [] piece ∷ cut else more

abbrev pub split_at : ℕ → Text → List Text
split_at c s = split_from (λ d. d == c) [] s

-- `s.split(ab)` for two characters
unfoldable pub split_pair : ℕ → ℕ → Text → Text → List Text
split_pair a b piece [] = reverse_onto [] piece ∷ []
split_pair a b piece (c ∷ []) = reverse_onto [] (c ∷ piece) ∷ []
split_pair a b piece (c ∷ d ∷ s) =
    let cut = split_pair a b [] s in
    let more = split_pair a b (c ∷ piece) (d ∷ s) in
    if c == a && d == b then reverse_onto [] piece ∷ cut else more

-- `parts.join(separator)`
unfoldable pub join_with : Text → List Text → Text
join_with separator [] = []
join_with separator (p ∷ []) = p
join_with separator (p ∷ q ∷ ps) = p ++ (separator ++ join_with separator (q ∷ ps))

-- `String(Number(digits))` in the digits' base
unfoldable pub without_zeros : Text → Text
without_zeros [] = []
without_zeros (c ∷ []) = c ∷ []
without_zeros (c ∷ d ∷ s) = let rest = without_zeros (d ∷ s) in if c == 48 then rest else c ∷ d ∷ s

abbrev pub decimal : ℕ → Text → ℕ
decimal n [] = n
decimal n (c ∷ s) = decimal (n * 10 + (c - 48)) s

-- `/^\d{1,3}$/` and `/^[0-9a-f]{1,4}$/`
abbrev pub is_octet_text : Text → Bool
is_octet_text s = leb 1 (length s) && leb (length s) 3 && all is_digit s

abbrev pub is_group : Text → Bool
is_group s =
    leb 1 (length s) && leb (length s) 4 && all (λ c. is_digit c || leb 97 c && leb c 102) s

-- `/^\d{1,3}(?:\.\d{1,3}){3}$/`
unfoldable pub is_ipv4_text : Text → Bool
unfolding split_from
is_ipv4_text s = length (split_at 46 s) == 4 && all is_octet_text (split_at 46 s)

abbrev pub is_empty : Text → Bool
is_empty [] = true
is_empty (c ∷ s) = false

unfoldable pub zero_groups : ℕ → List Text
zero_groups zero = []
zero_groups (suc n) = codes "0" ∷ zero_groups n

-- The groups of a part of an address.
unfoldable pub groups_of : Text → List Text
unfolding split_from
groups_of s = if is_empty s then [] else split_at 58 s

unfoldable pub finish_groups : List Text → Option Text
unfolding join_with without_zeros
finish_groups groups =
    if not (length groups == 8) || not (all is_group groups)
    then none
    else some (join_with (codes ":") (map without_zeros groups))

unfoldable pub normalize_pieces : List Text → Option Text
unfolding groups_of finish_groups zero_groups
normalize_pieces [] = none
normalize_pieces (l ∷ []) =
    if not (length (groups_of l) == 8) then none else finish_groups (groups_of l)
normalize_pieces (l ∷ r ∷ []) =
    let used = length (groups_of l) + length (groups_of r) in
    if leb 8 used
    then none
    else finish_groups (groups_of l ++ (zero_groups (8 - used) ++ groups_of r))
normalize_pieces (l ∷ r ∷ s ∷ ps) = none

abbrev pub until : ℕ → Text → Text
until c [] = []
until c (d ∷ s) = let rest = until c s in if d == c then [] else d ∷ rest

unfoldable pub normalize_ipv6 : (Text → Text) → Text → Option Text
unfolding normalize_pieces split_pair
normalize_ipv6 lower value = normalize_pieces (split_pair 58 58 [] (lower (until 37 value)))

-- `/^::ffff:(…)$/i`
unfoldable pub mapped_ipv4 : Text → Option Text
unfolding is_ipv4_text
mapped_ipv4 s =
    let marked = take 4 (drop 2 s) in
    let v = drop 7 s in
    if text_eq (take 2 s) (codes "::")
      && (length marked == 4 && all (λ x. x == 102 || x == 70) marked)
      && text_eq (take 1 (drop 6 s)) (codes ":")
      && is_ipv4_text v
    then some v
    else none

-- Without its brackets, if it has both.
unfoldable pub without_brackets : Text → Text
without_brackets [] = []
without_brackets (c ∷ s) = elim (reverse_onto [] s) [
  | [] ↦ c ∷ s
  | d ∷ t ↦ if c == 91 && d == 93 then reverse_onto [] t else c ∷ s
]

unfoldable pub normalize_text : (Text → Text) → Text → Option Text
unfolding is_ipv4_text normalize_ipv6 split_from join_with without_zeros
normalize_text lower s =
    if is_ipv4_text s
    then if all (λ o. leb (decimal 0 o) 255) (split_at 46 s)
      then some (join_with (codes ".") (map without_zeros (split_at 46 s)))
      else none
    else normalize_ipv6 lower s

unfoldable pub normalize_ip_address : (Text → Text) → Option Text → Option Text
unfolding trim without_brackets mapped_ipv4 normalize_text
normalize_ip_address lower none = none
normalize_ip_address lower (some []) = none
normalize_ip_address lower (some (c ∷ s)) =
    let normalized = without_brackets (trim (c ∷ s)) in
    elim (mapped_ipv4 normalized) [
      | none ↦ normalize_text lower normalized
      | some v ↦ normalize_text lower v
    ]

unfoldable pub is_same_address : (Text → Text) → Option Text → Option Text → Bool
is_same_address lower left right = elim (normalize_ip_address lower left) [
  | none ↦ false
  | some l ↦ elim (normalize_ip_address lower right) [ none ↦ false | some r ↦ text_eq l r ]
]
