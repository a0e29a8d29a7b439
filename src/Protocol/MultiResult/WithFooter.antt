-- ===== src/Protocol/MultiResult/WithFooter.antt =====
-- Batch results with the footers of encoder.rs.
use dart_odbc_fast.Prelude.{
  ◌^◌, ◌≤◌, ◌<◌, List, [], ◌∷◌, ◌++◌, length, ok, some, ◌≡◌, refl, All, inl, inr, append_assoc,
}
use dart_odbc_fast.Wire.{Bytes, starts_with}
use dart_odbc_fast.Protocol.ParamValue.{ParamValue}
use dart_odbc_fast.Protocol.ParamValue.RoundTrip.{ValueFits}
use dart_odbc_fast.Protocol.Encoder.{try_append_output_footer, try_append_ref_cursor_footer}
use dart_odbc_fast.Protocol.Encoder.Footers.{
  output_footer, try_append_output_footer_lem, ref_cursor_footer, try_append_ref_cursor_footer_lem,
  SmallBlob,
}
use dart_odbc_fast.Protocol.MultiResult.{
  MultiResultItem, max_multi_result_items, encode_multi, is_known_footer, decode_multi,
}
use dart_odbc_fast.Protocol.MultiResult.RoundTrip.{ItemFits, IsTail, decode_multi-encode_multi}

output_footer-IsTail :
    (ps : List ParamValue) (rest : Bytes) → IsTail rest → IsTail (output_footer ps ++ rest)
unfolding output_footer is_known_footer starts_with
output_footer-IsTail [] rest h = h
output_footer-IsTail (p ∷ ps) rest h = inr refl

ref_cursor_footer-IsTail : (blobs : List Bytes) → IsTail (ref_cursor_footer blobs)
unfolding ref_cursor_footer is_known_footer starts_with
ref_cursor_footer-IsTail [] = inl refl
ref_cursor_footer-IsTail (b ∷ blobs) = inr refl

-- A batch message to which the encoder appended the output parameters and then the cursors still
-- decodes to its items, and both appends succeed, for values and cursor messages within the limits.
pub decode_multi-footers :
    (items : List MultiResultItem) (ps : List ParamValue) (blobs : List Bytes)
    → length items ≤ max_multi_result_items
    → All ItemFits items
    → length ps < 2 ^ 32
    → All ValueFits ps
    → length blobs < 2 ^ 32
    → All SmallBlob blobs
    → (outputs : Bytes) × (cursors : Bytes) × (try_append_output_footer (encode_multi items) ps
        ≡ ok (some outputs))
      × (try_append_ref_cursor_footer outputs blobs ≡ ok cursors)
      × (decode_multi cursors ≡ ok items)
decode_multi-footers items ps blobs few fit few_ps fit_ps few_blobs fit_blobs =
    let base = encode_multi items in
    let outs = output_footer ps in
    let refs = ref_cursor_footer blobs in
    (
      base ++ outs,
      (base ++ outs) ++ refs,
      try_append_output_footer_lem base ps few_ps fit_ps,
      try_append_ref_cursor_footer_lem (base ++ outs) blobs few_blobs fit_blobs,
      rw (append_assoc base outs refs) (
          decode_multi-encode_multi items (outs ++ refs) few fit
            (output_footer-IsTail ps refs (ref_cursor_footer-IsTail blobs))),
    )
