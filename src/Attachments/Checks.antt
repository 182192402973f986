-- ===== src/Attachments/Checks.antt =====
-- packages/protocol/src/attachments.ts: the limits and the tests on single values.
use risk_p2p.Prelude.{ℕ, ◌+◌, ◌-◌, ◌/◌, Bool, true, false, not, ◌&&◌, ◌||◌, leb, ◌==◌, length, all}
use risk_p2p.Prelude.Text.{Text, text_eq, codes, is_word_dash, is_sha256}
use risk_p2p.Prelude.Js.{
  nat, Value, undefined, bool, num, str, arr, obj, is_safe, is_finite, below, above, equals, get,
  count_items, all_items,
}

-- `lower` is `toLowerCase`; `is_date` is `Number.isFinite(Date.parse(s))`.
pub record Host : Type 0 where
  pub lower : Text → Text
  pub is_date : Text → Bool

abbrev pub protocol_version : ℕ
protocol_version = 1

abbrev pub max_attachment_chunk_size : ℕ
max_attachment_chunk_size = 262144

abbrev pub max_attachment_filename_length : ℕ
max_attachment_filename_length = 255

abbrev pub max_attachment_mime_length : ℕ
max_attachment_mime_length = 127

abbrev pub max_attachment_chunks : ℕ
max_attachment_chunks = 1000000

-- `Math.ceil(size / chunk_size)`. The double quotient has the same ceiling wherever it is at most
-- 2 ^ 34 and the divisor at most 2 ^ 18, so at every count that passes `max_attachment_chunks`.
unfoldable pub ceil_div : ℕ → ℕ → ℕ
ceil_div size chunk_size = (size + chunk_size - 1) / chunk_size

-- `typeof v === "string" && p(v)`
unfoldable pub string_that : (Text → Bool) → Value → Bool
string_that p (str s) = p s
string_that p _ = false

-- `v === undefined || p(v)`
unfoldable pub absent_or : (Value → Bool) → Value → Bool
absent_or p undefined = true
absent_or p v = p v

-- `Number.isSafeInteger(v)`
unfoldable pub safe_integer : Value → Bool
unfolding is_safe
safe_integer (num x) = is_safe x
safe_integer _ = false

-- `Number(v) < k`, `Number(v) > k` and `v === k`, read where `v` is a number
unfoldable pub value_below : Value → ℕ → Bool
unfolding below
value_below (num x) k = below x k
value_below _ k = false

unfoldable pub value_above : Value → ℕ → Bool
unfolding above
value_above (num x) k = above x k
value_above _ k = false

unfoldable pub value_equals : Value → ℕ → Bool
unfolding equals
value_equals (num x) k = equals x k
value_equals _ k = false

-- The natural number that a value is; 0 where it is none.
unfoldable pub natural : Value → ℕ
natural (num (nat n)) = n
natural _ = 0

unfoldable pub valid_wire_identifier : Text → Bool
valid_wire_identifier s = leb 8 (length s) && leb (length s) 128 && all is_word_dash s

-- [A-Za-z0-9:_-]
unfoldable pub valid_transfer_identifier : Text → Bool
valid_transfer_identifier s =
    leb 8 (length s) && leb (length s) 200 && all (λ c. is_word_dash c || c == 58) s

-- `Number.isSafeInteger(index) && index >= 0 && index < MAX_ATTACHMENT_CHUNKS`
unfoldable pub valid_chunk_index : Value → Bool
unfolding safe_integer value_below
valid_chunk_index v = safe_integer v && not (value_below v 0) && value_below v max_attachment_chunks

unfoldable pub valid_chunk_list : Value → Bool
unfolding count_items all_items valid_chunk_index
valid_chunk_list (arr vs) = leb (count_items vs) 2048 && all_items valid_chunk_index vs
valid_chunk_list _ = false

-- `typeof v === "number" && Number.isFinite(v) && v >= 0`
unfoldable pub finite_natural : Value → Bool
unfolding is_finite below
finite_natural (num x) = is_finite x && not (below x 0)
finite_natural _ = false

unfoldable pub is_bool : Value → Bool
is_bool (bool b) = true
is_bool _ = false

unfoldable pub valid_attachment_metadata : Value → Bool
unfolding get absent_or finite_natural string_that is_sha256 is_bool
valid_attachment_metadata (obj fs) =
    absent_or finite_natural (get (codes "width") fs)
    && absent_or finite_natural (get (codes "height") fs)
    && absent_or finite_natural (get (codes "durationMs") fs)
    && absent_or (string_that is_sha256) (get (codes "thumbnailHash") fs)
    && absent_or is_bool (get (codes "voiceMessage") fs)
valid_attachment_metadata _ = false

-- `ATTACHMENT_KINDS.has(kind)`
unfoldable pub is_attachment_kind : Text → Bool
unfolding text_eq
is_attachment_kind s =
    text_eq s (codes "image")
    || text_eq s (codes "video")
    || text_eq s (codes "audio")
    || text_eq s (codes "document")
    || text_eq s (codes "archive")
    || text_eq s (codes "executable")
    || text_eq s (codes "other")

-- `RISK_CAPABILITIES.has(capability)`
unfoldable pub is_risk_capability : Text → Bool
unfolding text_eq
is_risk_capability s =
    text_eq s (codes "file-transfer-v1")
    || text_eq s (codes "attachment-sync-v1")
    || text_eq s (codes "transfer-resume-v1")
    || text_eq s (codes "multi-source-v1")
