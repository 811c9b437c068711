-- ===== src/Protocol/Tests.antt =====
-- protocol/src/lib.rs: the theorems at concrete inputs, and runs of the code's own tests.
use servatory.Prelude.{ℕ, ◌≤◌, ◌≡◌, refl, some, List, [], ◌∷◌, map, arith, ok, err, length}
use servatory.Protocol.Message.{shutdown_requested, frame_too_long}
use servatory.Protocol.Frame.{IsCobs, encode, decode}
use servatory.Protocol.Frame.RoundTrip.{decode-encode, decode-ok}
use servatory.Protocol.Decoder.{FrameDecoder, Event, new_decoder, run}
use servatory.Protocol.Decoder.Spec.{events}
use servatory.Protocol.Decoder.Refine.{run-new}
use servatory.Protocol.Decoder.Delivery.{send, receive, stream_recovers}
use servatory.Protocol.Examples.{device_codec, device_laws}

-- `decoder_recovers_after_oversized_frame`
abbrev oversized : List ℕ
oversized = 1 ∷ 1 ∷ 1 ∷ 1 ∷ 0 ∷ 1 ∷ 1 ∷ 0 ∷ []

oversized-events : events 4 [] oversized ≡ err frame_too_long ∷ ok (1 ∷ 1 ∷ 0 ∷ []) ∷ []
unfolding events
oversized-events = refl

abbrev request : List ℕ
request = 0xa5 ∷ 0x5a ∷ 10 ∷ 1 ∷ 0 ∷ []

run-new_example :
    (d : FrameDecoder) × (run 4 (new_decoder 4) oversized
      ≡ some (d, err frame_too_long ∷ ok (1 ∷ 1 ∷ 0 ∷ []) ∷ []))
unfolding events
run-new_example = run-new 4 oversized

decode-encode_example :
    IsCobs request × (length request ≤ 128) × (decode device_codec request ≡ ok shutdown_requested)
unfolding encode
decode-encode_example = decode-encode device_codec shutdown_requested 128 device_laws refl

decode-ok_example :
    (payload : List ℕ) × (request ≡ 0xa5 ∷ 0x5a ∷ 10 ∷ payload)
    × (device_codec.from_bytes_cobs payload ≡ some shutdown_requested)
unfolding decode
decode-ok_example = decode-ok device_codec request refl

stream_recovers_example :
    (d : FrameDecoder) × (es : List Event) × (run 128 (new_decoder 128) (7 ∷ 9 ∷ 0 ∷ request)
      ≡ some (d, ok (7 ∷ 9 ∷ 0 ∷ []) ∷ es))
    × (map (receive device_codec) es ≡ ok shutdown_requested ∷ [])
unfolding send encode events
stream_recovers_example =
    stream_recovers device_codec device_laws 128 128 (7 ∷ 9 ∷ []) (shutdown_requested ∷ [])
      (omega arith) refl
