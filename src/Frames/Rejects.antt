-- ===== src/Frames/Rejects.antt =====
-- What the decoder refuses, and what an accepted buffer must look like.
use risk_p2p.Prelude.{
  ℕ, ◌+◌, ◌-◌, ◌≤◌, ◌<◌, ◌≡◌, ap, true, Option, none, some, List, ◌++◌, arith, ltb, length, take,
  drop, length-append, take_all, if◌then◌else◌, inl, inr, Bool-cases, ◌∙◌, length-take, length-drop,
  drop-drop, ltb→lt, take-append_past,
}
use risk_p2p.Frames.Bytes.{get_u32}
use risk_p2p.Prelude.Js.{equals}
use risk_p2p.Frames.RoundTrip.{Encoded, encode-Encoded, length-header, decode-header}
use risk_p2p.Frames.{
  Frame, Metadata, MetadataCodec, ok, err, header, validate_frame, encode_attachment_chunk_frame,
  decode_attachment_chunk_frame, finish_frame, max_payload_bytes, bad_length, truncated,
}

module _ (json : MetadataCodec) where
  decode_short :
      (buffer : List ℕ)
      → length buffer < 16
      → decode_attachment_chunk_frame json buffer ≡ err truncated
  unfolding decode_attachment_chunk_frame
  decode_short buffer h = ground arith

  -- A frame cut behind its header still announces the lengths of the whole frame.
  decode_cut :
      (f : Frame) (bytes : List ℕ) (n : ℕ)
      → Encoded json f bytes
      → n < length bytes
      → 16 ≤ n
      → decode_attachment_chunk_frame json (take n bytes) ≡ err bad_length
  decode_cut f bytes n e lt long =
      let m = length (json.serialize f.metadata) in
      let p = length f.payload in
      let body = json.serialize f.metadata ++ f.payload in
      let size : length bytes ≡ 16 + (m + p) =
        ap length e.layout
        ∙ omega (
          arith,
          length-append {0} (header m p) body,
          length-header m p,
          length-append {0} (json.serialize f.metadata) f.payload,
        ) in
      ap (λ b. decode_attachment_chunk_frame json (take n b)) e.layout
      ∙ ap (decode_attachment_chunk_frame json)
          (take-append_past n (header m p) body (omega (arith, length-header m p)))
      ∙ decode-header json m p (take (n - length (header m p)) body) e.metadata_fits e.payload_fits
      ∙ ground (
        arith,
        length-take (n - length (header m p)) body,
        length-append (json.serialize f.metadata) f.payload,
        length-header m p,
      )

  -- Every proper prefix of an encoded frame is refused: as truncated, if it is shorter than the fixed
  -- header, and for its length otherwise.
  pub decode-take :
      (f : Frame) (bytes : List ℕ) (n : ℕ)
      → encode_attachment_chunk_frame json f ≡ ok bytes
      → n < length bytes
      → decode_attachment_chunk_frame json (take n bytes)
        ≡ err (if ltb n 16 then truncated else bad_length)
  decode-take f bytes n h lt = elim (Bool-cases (ltb n 16)) [
    | inl short ↦
        rw short
          (decode_short (take n bytes) (omega (arith, length-take {0} n bytes, ltb→lt n 16 short)))
    | inr long ↦ rw long (decode_cut f bytes n (encode-Encoded json f bytes h) lt (ground arith))
  ]

  finish_inv :
      (p : ℕ) (payload : List ℕ) (o : Option Metadata) (f : Frame)
      → finish_frame json p payload o ≡ ok f
      → (validate_frame f ≡ none) × (equals f.size p ≡ true) × (f.payload ≡ payload)
  unfolding finish_frame
  finish_inv p payload none f h = cc
  finish_inv p payload (some m) f h = ground arith

  decode_inv :
      (buffer : List ℕ) (f : Frame)
      → decode_attachment_chunk_frame json buffer ≡ ok f
      → let m = get_u32 8 buffer in
        let p = get_u32 12 buffer in
        (length buffer ≡ 16 + m + p)
        × (p ≤ max_payload_bytes)
        × (finish_frame json p
              (take p (drop m (drop 16 buffer)))
              (json.parse (take m (drop 16 buffer)))
            ≡ ok f)
  unfolding decode_attachment_chunk_frame
  decode_inv buffer f h = ground arith

  -- A buffer that the decoder accepts is as long as the fixed header and the two lengths that it
  -- announces at 8 and at 12, and gives a frame that passes validation, whose payload has the length
  -- announced at 12, is all that follows the metadata, and fits the limit.
  pub decode-IsFrame :
      (buffer : List ℕ) (f : Frame)
      → decode_attachment_chunk_frame json buffer ≡ ok f
      → (validate_frame f ≡ none)
        × (length f.payload ≤ max_payload_bytes)
        × (equals f.size (length f.payload) ≡ true)
        × (length f.payload ≡ get_u32 12 buffer)
        × (length buffer ≡ 16 + get_u32 8 buffer + length f.payload)
        × (f.payload ≡ drop (16 + get_u32 8 buffer) buffer)
  decode-IsFrame buffer f h =
      let m = get_u32 8 buffer in
      let p = get_u32 12 buffer in
      let inv = decode_inv buffer f h in
      let fin =
        finish_inv p (take p (drop m (drop 16 buffer))) (json.parse (take m (drop 16 buffer))) f
          inv.2 in
      let rest : length (drop m (drop 16 buffer)) ≡ p =
        omega (arith, length-drop {0} m (drop 16 buffer), length-drop {0} 16 buffer, inv.0) in
      let all : f.payload ≡ drop m (drop 16 buffer) =
        fin.2 ∙ take_all p (drop m (drop 16 buffer)) (omega arith) in
      let size : length f.payload ≡ p = ap length all ∙ rest in
      (fin.0, rw size (inv.1), rw size (fin.1), size, rw size (inv.0), all ∙ drop-drop m 16 buffer)
