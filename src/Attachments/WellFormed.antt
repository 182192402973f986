-- ===== src/Attachments/WellFormed.antt =====
-- What a manifest that `validateAttachmentManifest` accepts looks like
-- (packages/protocol/src/attachments.ts).
use risk_p2p.Prelude.{
  ℕ, ◌+◌, ◌*◌, ◌≤◌, ◌<◌, ◌≡◌, refl, Bool, true, false, not, ◌||◌, List, [], ◌∷◌, arith, ◌⊎◌, inl,
  inr, subst,
}
use risk_p2p.Prelude.Text.{Text, text_eq_iff, codes, is_sha256}
use risk_p2p.Prelude.Js.{
  nat, Value, undefined, num, str, arr, obj, Items, Fields, get, count_items, all_items,
}
use risk_p2p.Attachments.Checks.{
  Host, max_attachment_chunk_size, max_attachment_chunks, ceil_div, string_that, safe_integer,
  value_below, value_above, value_equals, natural,
}
use risk_p2p.Attachments.Manifest.{
  ManifestError, report, differ, bad_layout, bad_chunk_hashes, manifest_checks,
  validate_attachment_manifest,
}

abbrev NoneFails : List (Bool × ManifestError) → Type 0
NoneFails [] = Unit {0}
NoneFails ((failed, e) ∷ checks) = (failed ≡ false) × NoneFails checks

report_nil : (checks : List (Bool × ManifestError)) → report checks ≡ [] → NoneFails checks
unfolding report
report_nil [] h = tt
report_nil ((true, e) ∷ checks) h = cc
report_nil ((false, e) ∷ checks) h = (refl, report_nil checks h)

-- A value that passes the two tests of a natural number is one.
natural_lem :
    (v : Value) → (not (safe_integer v) || value_below v 0) ≡ false → v ≡ num (nat (natural v))
unfolding safe_integer value_below natural
natural_lem (num (nat n)) h = refl
natural_lem v h = ground arith

positive_lem :
    (v : Value) (k : ℕ)
    → (not (safe_integer v) || not (value_above v 0) || value_above v k) ≡ false
    → (v ≡ num (nat (natural v))) × (0 < natural v) × (natural v ≤ k)
unfolding safe_integer value_above natural
positive_lem (num (nat n)) k h = (refl, ground arith, ground arith)
positive_lem v k h = ground arith

-- The number of chunks is the least that holds the file.
pub ceil_div_bounds : (s c : ℕ) → 0 < c → (s ≤ ceil_div s c * c) × (ceil_div s c * c < s + c)
unfolding ceil_div
ceil_div_bounds s c h = (grind arith, grind arith)

count_lem :
    (v : Value) (k : ℕ)
    → (not (safe_integer v) || value_below v 0 || value_above v k) ≡ false
    → (v ≡ num (nat (natural v))) × (natural v ≤ k)
unfolding safe_integer value_below value_above natural
count_lem (num (nat n)) k h = (refl, ground arith)
count_lem v k h = ground arith

equals_lem : (v : Value) (k : ℕ) → value_equals v k ≡ true → natural v ≡ k
unfolding value_equals natural
equals_lem (num (nat n)) k h = ground arith
equals_lem v k h = ground arith

layout_lem :
    (size chunk_size chunk_count : Value)
    → (not (safe_integer size) || value_below size 0) ≡ false
    → (not (safe_integer chunk_size)
        || not (value_above chunk_size 0)
        || value_above chunk_size max_attachment_chunk_size)
      ≡ false
    → (not (safe_integer chunk_count)
        || value_below chunk_count 0
        || value_above chunk_count max_attachment_chunks)
      ≡ false
    → bad_layout size chunk_size chunk_count ≡ false
    → natural chunk_count ≡ ceil_div (natural size) (natural chunk_size)
unfolding bad_layout
layout_lem size chunk_size chunk_count hs hc hn h =
    equals_lem chunk_count (ceil_div (natural size) (natural chunk_size)) (ground arith)

sha_lem :
    (v : Value)
    → not (string_that is_sha256 v) ≡ false
    → (s : Text) × (v ≡ str s) × (is_sha256 s ≡ true)
unfolding string_that
sha_lem (str s) h = (s, refl, ground arith)
sha_lem v h = ground arith

-- The hashes of the chunks are absent, or there are `n` of them and each is a SHA-256 in hex.
abbrev pub HashesFit : ℕ → Value → Type 0
HashesFit n hashes =
    (hashes ≡ undefined)
    ⊎ ((vs : Items) × (hashes ≡ arr vs)
        × (count_items vs ≡ n)
        × (all_items (string_that is_sha256) vs ≡ true))

hashes_lem : (v : Value) (n : ℕ) → bad_chunk_hashes v (num (nat n)) ≡ false → HashesFit n v
unfolding bad_chunk_hashes value_equals
hashes_lem undefined n h = inl refl
hashes_lem (arr vs) n h = inr (vs, refl, ground arith, ground arith)
hashes_lem v n h = ground arith

differ_lem :
    (lower : Text → Text) (v w : Value) (s t : Text)
    → v ≡ str s
    → w ≡ str t
    → differ lower v w ≡ false
    → lower s ≡ lower t
unfolding differ
differ_lem lower v w s t p q h = ground (arith, text_eq_iff (lower s) (lower t))

module _ (host : Host) (fs : Fields) where
  accepted : validate_attachment_manifest host (obj fs) ≡ [] → NoneFails (manifest_checks host fs)
  unfolding validate_attachment_manifest
  accepted h = report_nil (manifest_checks host fs) h

  -- An accepted manifest announces natural numbers: a chunk size of 1 to 256 KiB and at most a
  -- million chunks, whose number is the least at which the chunks hold the whole file.
  pub validate-layout :
      validate_attachment_manifest host (obj fs) ≡ []
      → (size chunk_size chunk_count : ℕ) × (get (codes "size") fs ≡ num (nat size))
        × (get (codes "chunkSize") fs ≡ num (nat chunk_size))
        × (get (codes "chunkCount") fs ≡ num (nat chunk_count))
        × (0 < chunk_size)
        × (chunk_size ≤ max_attachment_chunk_size)
        × (chunk_count ≤ max_attachment_chunks)
        × (size ≤ chunk_count * chunk_size)
        × (chunk_count * chunk_size < size + chunk_size)
  unfolding manifest_checks
  validate-layout h =
      let checks = (accepted h).1.1.1.1.1.1 in
      let size = get (codes "size") fs in
      let chunk_size = get (codes "chunkSize") fs in
      let chunk_count = get (codes "chunkCount") fs in
      let width = positive_lem chunk_size max_attachment_chunk_size checks.1.0 in
      let number = count_lem chunk_count max_attachment_chunks checks.1.1.0 in
      let ceil =
        layout_lem size chunk_size chunk_count checks.0 checks.1.0 checks.1.1.0
          checks.1.1.1.1.1.0 in
      let bounds = ceil_div_bounds (natural size) (natural chunk_size) width.1 in
      (
        natural size,
        natural chunk_size,
        natural chunk_count,
        natural_lem size checks.0,
        width.0,
        number.0,
        width.1,
        width.2,
        number.1,
        rw ceil bounds.0,
        rw ceil bounds.1,
      )

  -- The id and the content hash of an accepted manifest are SHA-256 digests in hex that agree up to
  -- case, and chunk hashes, where it has any, are digests as many as the chunks.
  pub validate-hashes :
      validate_attachment_manifest host (obj fs) ≡ []
      → (id content_hash : Text) × (get (codes "id") fs ≡ str id)
        × (get (codes "contentHash") fs ≡ str content_hash)
        × (is_sha256 id ≡ true)
        × (is_sha256 content_hash ≡ true)
        × (host.lower id ≡ host.lower content_hash)
        × HashesFit (natural (get (codes "chunkCount") fs)) (get (codes "chunkHashes") fs)
  unfolding manifest_checks
  validate-hashes h =
      let checks = accepted h in
      let id = sha_lem (get (codes "id") fs) checks.1.0 in
      let rest = checks.1.1.1.1.1.1.1.1 in
      let content_hash = sha_lem (get (codes "contentHash") fs) rest.1.0 in
      let number = count_lem (get (codes "chunkCount") fs) max_attachment_chunks rest.0 in
      (
        id.0,
        content_hash.0,
        id.1,
        content_hash.1,
        id.2,
        content_hash.2,
        differ_lem host.lower _ _ id.0 content_hash.0 id.1 content_hash.1 rest.1.1.0,
        hashes_lem (get (codes "chunkHashes") fs) (natural (get (codes "chunkCount") fs)) (
            subst (λ v. bad_chunk_hashes (get (codes "chunkHashes") fs) v ≡ false) number.0
              rest.1.1.1.1.0),
      )
