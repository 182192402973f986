-- ===== src/Chunks/Selection.antt =====
-- A transfer of some chunks only, and the check that each frame passes at the receiver.
use native.Mathlib.Nat.{add-zero}
use risk_p2p.Prelude.{
  ℕ, zero, suc, ◌+◌, ◌-◌, ◌*◌, ◌≤◌, ◌<◌, ◌≡◌, refl, sym, ap, ◌∙◌, ◌⊎◌, Bool, true, false, Option,
  none, some, List, [], ◌∷◌, arith, length, drop, get_elem?, keep, length-take, length-drop,
  Bool-cases, inl, inr, min,
}
use risk_p2p.Prelude.Text.{Text, text_eq_self}
use risk_p2p.Prelude.Js.{nat, equals, is_safe, below, max_safe_integer}
use risk_p2p.Attachments.WellFormed.{ceil_div_bounds}
use risk_p2p.Attachments.Checks.{ceil_div}
use risk_p2p.Frames.{Frame}
use risk_p2p.Chunks.{
  or_else, AttachmentManifest, chunk_at, skipped, announced_hash, frame_at, iterate_from,
  iterate_attachment_chunks, hash_chunks, verify_attachment_chunk,
}
use risk_p2p.Chunks.Cover.{chunk_at_lem}
use risk_p2p.Sha256.{sha256_blob_hex, hex_text}
use risk_p2p.Sha256.Digest.{concat, reference_digest, sha256_blob_hex-reference_digest}

zero_add : (k : ℕ) → 0 + k ≡ k
zero_add k = omega arith

below_last : (k n c s : ℕ) → k < n → n * c < s + c → k * c < s
below_last k n c s h lt = grind arith

le_mul : (k c : ℕ) → 0 < c → k ≤ k * c
le_mul k c h = grind arith

add_one_suc : (n k : ℕ) → n + 1 + k ≡ n + suc k
add_one_suc n k = omega arith

-- The frames whose index passes.
abbrev pub index_passes : (ℕ → Bool) → Frame → Bool
index_passes p f = elim f.index [ nat i ↦ p i | _ ↦ false ]

abbrev pub AllFrames : (Frame → Type 0) → List Frame → Type 0
AllFrames P [] = Unit {0}
AllFrames P (f ∷ fs) = P f × AllFrames P fs

get_elem?-hash_chunks :
    (parts : List ℕ → List (List ℕ)) (source : List ℕ) (chunk_size index rounds k : ℕ)
    → k < rounds
    → get_elem? (hash_chunks parts source chunk_size index rounds) k
      ≡ some (sha256_blob_hex (parts (chunk_at source chunk_size (index + k))))
unfolding hash_chunks
get_elem?-hash_chunks parts source chunk_size index zero k h = absurd (omega arith)
get_elem?-hash_chunks parts source chunk_size index (suc rounds) zero h =
    ap (λ k. some (sha256_blob_hex (parts (chunk_at source chunk_size k)))) (sym (add-zero index))
get_elem?-hash_chunks parts source chunk_size index (suc rounds) (suc k) h =
    get_elem?-hash_chunks parts source chunk_size (index + 1) rounds k (omega arith)
    ∙ ap (λ j. some (sha256_blob_hex (parts (chunk_at source chunk_size j)))) (add_one_suc index k)

-- The digest of a blob, in whatever parts it comes.
blob-reference_digest :
    (parts : List ℕ → List (List ℕ)) (m : List ℕ)
    → concat (parts m) ≡ m
    → sha256_blob_hex (parts m) ≡ hex_text (reference_digest m)
blob-reference_digest parts m whole =
    sha256_blob_hex-reference_digest (parts m) ∙ ap (λ t. hex_text (reference_digest t)) whole

module _ (sha256 : List ℕ → Text) (source : List ℕ) (manifest : AttachmentManifest) where
  keep-iterate_from :
      (has : ℕ → Bool) (index rounds : ℕ)
      → iterate_from sha256 source manifest (some has) index rounds
        ≡ keep (index_passes has) (iterate_from sha256 source manifest none index rounds)
  unfolding iterate_from skipped frame_at
  keep-iterate_from has index zero = refl
  keep-iterate_from has index (suc rounds) =
      ground (arith, keep-iterate_from has (index + 1) rounds)

  -- With a set of missing chunks exactly the frames of these chunks are sent, the same and in the
  -- same order as in a full transfer.
  pub iterate-keep :
      (has : ℕ → Bool)
      → iterate_attachment_chunks sha256 source manifest (some has)
        ≡ keep (index_passes has) (iterate_attachment_chunks sha256 source manifest none)
  unfolding iterate_attachment_chunks
  iterate-keep has = keep-iterate_from has 0 manifest.chunk_count

  -- The hashes that `createAttachmentManifest` leaves out or computes.
  abbrev pub HashesAreOwn : (List ℕ → List (List ℕ)) → Type 0
  HashesAreOwn parts =
      (manifest.chunk_hashes ≡ none)
      ⊎ (manifest.chunk_hashes
          ≡ some (hash_chunks parts source manifest.chunk_size 0 manifest.chunk_count))

  announced_hash_own :
      (parts : List ℕ → List (List ℕ)) (k : ℕ)
      → ((m : List ℕ) → sha256 m ≡ hex_text (reference_digest m))
      → ((m : List ℕ) → concat (parts m) ≡ m)
      → HashesAreOwn parts
      → k < manifest.chunk_count
      → or_else
          (announced_hash manifest.chunk_hashes k)
          (sha256 (chunk_at source manifest.chunk_size k))
        ≡ sha256 (chunk_at source manifest.chunk_size k)
  unfolding announced_hash
  announced_hash_own parts k computes whole (inl e) h = rw e refl
  announced_hash_own parts k computes whole (inr e) h =
      let c = chunk_at source manifest.chunk_size k in
      ground (
        arith,
        get_elem?-hash_chunks parts source manifest.chunk_size 0 manifest.chunk_count k h,
        zero_add k,
        computes c,
        blob-reference_digest parts c (whole c),
      )

  -- The conditions under which a manifest describes the source.
  pub record Describes (parts : List ℕ → List (List ℕ)) : Type 0 where
    pub positive : 0 < manifest.chunk_size
    pub counted : manifest.chunk_count ≡ ceil_div (length source) manifest.chunk_size
    pub safe : length source ≤ max_safe_integer
    pub hashes : HashesAreOwn parts

  -- What the receiver's check and the limits ask of a frame.
  abbrev pub FramePasses : (Text → Text) → Frame → Type 0
  FramePasses lower f =
      (verify_attachment_chunk sha256 lower f ≡ true)
      × (0 < length f.payload)
      × (length f.payload ≤ manifest.chunk_size)

  length-chunk :
      (k : ℕ)
      → length (chunk_at source manifest.chunk_size k)
        ≡ min manifest.chunk_size (length source - k * manifest.chunk_size)
  length-chunk k =
      ap length (chunk_at_lem source manifest.chunk_size k)
      ∙ omega (
        arith,
        length-take {0} manifest.chunk_size (drop (k * manifest.chunk_size) source),
        length-drop {0} (k * manifest.chunk_size) source,
      )

  offset_inside :
      (parts : List ℕ → List (List ℕ)) (k : ℕ)
      → Describes parts
      → k < manifest.chunk_count
      → k * manifest.chunk_size < length source
  offset_inside parts k d h =
      let bounds = ceil_div_bounds (length source) manifest.chunk_size d.positive in
      below_last k manifest.chunk_count manifest.chunk_size (length source) h
        (rw d.counted bounds.1)

  frame_at-FramePasses :
      (parts : List ℕ → List (List ℕ)) (lower : Text → Text) (k : ℕ)
      → ((m : List ℕ) → sha256 m ≡ hex_text (reference_digest m))
      → ((m : List ℕ) → concat (parts m) ≡ m)
      → Describes parts
      → k < manifest.chunk_count
      → FramePasses lower (frame_at sha256 source manifest k)
  unfolding frame_at verify_attachment_chunk is_safe below equals
  frame_at-FramePasses parts lower k computes whole d h = (
    ground (
      arith,
      offset_inside parts k d h,
      le_mul k manifest.chunk_size d.positive,
      d.safe,
      announced_hash_own parts k computes whole d.hashes h,
      text_eq_self (lower (sha256 (chunk_at source manifest.chunk_size k))),
    ),
    omega (arith, length-chunk k, offset_inside parts k d h),
    omega (arith, length-chunk k),
  )

  iterate_from-FramePasses :
      (parts : List ℕ → List (List ℕ)) (lower : Text → Text) (only : Option (ℕ → Bool))
      (index rounds : ℕ)
      → ((m : List ℕ) → sha256 m ≡ hex_text (reference_digest m))
      → ((m : List ℕ) → concat (parts m) ≡ m)
      → Describes parts
      → index + rounds ≤ manifest.chunk_count
      → AllFrames (FramePasses lower) (iterate_from sha256 source manifest only index rounds)
  unfolding iterate_from frame_at
  iterate_from-FramePasses parts lower only index zero computes whole d h = tt
  iterate_from-FramePasses parts lower only index (suc rounds) computes whole d h =
      let rest =
        iterate_from-FramePasses parts lower only (index + 1) rounds computes whole d
          (omega arith) in
      elim (Bool-cases (skipped only index)) [
        | inl skip ↦ rw skip rest
        | inr sent ↦
            rw sent (frame_at-FramePasses parts lower index computes whole d (omega arith), rest)
      ]

  -- If `crypto.subtle` computes SHA-256 and the parts that the stream of a blob gives are its bytes in
  -- their order, every frame that is sent of a file that the manifest describes passes the check of
  -- the receiver, whether the hashes of the manifest are those that `hashChunks` has computed or are
  -- left out, and carries at least one byte and at most the chunk size.
  pub iterate-FramePasses :
      (parts : List ℕ → List (List ℕ)) (lower : Text → Text) (only : Option (ℕ → Bool))
      → ((m : List ℕ) → sha256 m ≡ hex_text (reference_digest m))
      → ((m : List ℕ) → concat (parts m) ≡ m)
      → Describes parts
      → AllFrames (FramePasses lower) (iterate_attachment_chunks sha256 source manifest only)
  unfolding iterate_attachment_chunks
  iterate-FramePasses parts lower only computes whole d =
      iterate_from-FramePasses parts lower only 0 manifest.chunk_count computes whole d
        (omega arith)
