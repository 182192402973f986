-- ===== src/Tests/Hashes.antt =====
-- SHA-256 of known inputs.
use risk_p2p.Prelude.{◌≡◌, refl, List, ℕ, [], ◌∷◌, arith}
use risk_p2p.Prelude.Text.{codes}
use risk_p2p.Sha256.{new_hasher, sha256_blob_hex, update, update_all, feed, hex_text, length_bytes}
use risk_p2p.Sha256.Compress.{compress}
use risk_p2p.Sha256.Digest.{
  concat, reference_digest, update_all-concat, sha256_blob_hex-reference_digest,
}

abbrev pieces : List (List ℕ)
pieces = codes "a" ∷ [] ∷ codes "bc" ∷ []

abc_hash :
    sha256_blob_hex (codes "a" ∷ codes "bc" ∷ [])
    ≡ codes "ba7816bf8f01cfea414140de5dae2223b00361a396177a9cb410ff61f20015ad"
unfolding sha256_blob_hex update feed compress length_bytes
abc_hash = refl

sha256_blob_hex-reference_digest_example :
    sha256_blob_hex pieces ≡ hex_text (reference_digest (concat pieces))
sha256_blob_hex-reference_digest_example = sha256_blob_hex-reference_digest pieces

update_all-concat_example : update_all new_hasher pieces ≡ update new_hasher (concat pieces)
update_all-concat_example = update_all-concat new_hasher pieces (omega arith)
