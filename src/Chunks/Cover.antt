-- ===== src/Chunks/Cover.antt =====
-- The chunks of a file are the whole file, in order, each of at most one chunk size.
use risk_p2p.Prelude.{
  ℕ, zero, suc, ◌+◌, ◌*◌, ◌<◌, ◌≡◌, sym, ap, ◌∙◌, none, List, [], ◌∷◌, ◌++◌, arith, length, take,
  drop, drop-drop, take_all, length-drop, take-add, take-min,
}
use risk_p2p.Prelude.Text.{Text}
use risk_p2p.Attachments.Checks.{ceil_div}
use risk_p2p.Attachments.WellFormed.{ceil_div_bounds}
use risk_p2p.Frames.{Frame}
use risk_p2p.Chunks.{
  AttachmentManifest, chunk_at, skipped, frame_at, iterate_from, iterate_attachment_chunks,
}

-- What a receiver that writes the payloads one after the other holds.
abbrev pub joined : List Frame → List ℕ
joined [] = []
joined (f ∷ fs) = f.payload ++ joined fs

zero_mul : (c : ℕ) → 0 * c ≡ 0
zero_mul c = omega arith

suc_mul : (n c : ℕ) → (n + 1) * c ≡ n * c + c
suc_mul n c = omega arith

mul_suc : (n c : ℕ) → c + n * c ≡ suc n * c
mul_suc n c = omega arith

-- A chunk is what `chunk_size` takes at its offset.
pub chunk_at_lem :
    (source : List ℕ) (chunk_size index : ℕ)
    → chunk_at source chunk_size index ≡ take chunk_size (drop (index * chunk_size) source)
unfolding chunk_at
chunk_at_lem source chunk_size index =
    let offset = index * chunk_size in
    ap (λ k. take k (drop offset source)) (omega (arith, length-drop {0} offset source))
    ∙ take-min chunk_size (drop offset source)

module _ (sha256 : List ℕ → Text) (source : List ℕ) (manifest : AttachmentManifest) where
  joined-iterate_from :
      (index rounds : ℕ)
      → joined (iterate_from sha256 source manifest none index rounds)
        ≡ take (rounds * manifest.chunk_size) (drop (index * manifest.chunk_size) source)
  unfolding iterate_from skipped frame_at
  joined-iterate_from index zero =
      sym (
        ap (λ k. take k (drop (index * manifest.chunk_size) source)) (zero_mul manifest.chunk_size))
  joined-iterate_from index (suc rounds) =
      let c = manifest.chunk_size in
      let rest = drop (index * c) source in
      ap (λ chunk. chunk ++ joined (iterate_from sha256 source manifest none (index + 1) rounds))
        (chunk_at_lem source c index)
      ∙ ap (◌++◌ (take c rest)) (joined-iterate_from (index + 1) rounds)
      ∙ ap (λ k. take c rest ++ take (rounds * c) (drop k source)) (suc_mul index c)
      ∙ ap (λ xs. take c rest ++ take (rounds * c) xs) (sym (drop-drop c (index * c) source))
      ∙ sym (take-add c (rounds * c) rest)
      ∙ ap (λ k. take k rest) (mul_suc rounds c)

  -- Where the manifest has the chunk count of `createAttachmentManifest`, the payloads of all frames,
  -- one after the other, are the file.
  pub joined-iterate :
      0 < manifest.chunk_size
      → manifest.chunk_count ≡ ceil_div (length source) manifest.chunk_size
      → joined (iterate_attachment_chunks sha256 source manifest none) ≡ source
  unfolding iterate_attachment_chunks
  joined-iterate pos count =
      joined-iterate_from 0 manifest.chunk_count
      ∙ ap (λ k. take (manifest.chunk_count * manifest.chunk_size) (drop k source))
          (zero_mul manifest.chunk_size)
      ∙ take_all (manifest.chunk_count * manifest.chunk_size) source
          (rw count (ceil_div_bounds (length source) manifest.chunk_size pos).0)
