-- ===== src/Encode/Base59/Examples.antt =====
-- Runs of the Base59 codec.
use oursay.Base.{◌≡◌, refl, String, none, some}
use oursay.Encode.Base59.{encode_base59, decode_base59}
use oursay.Encode.Base59.RoundTrip.{decode_base59-encode_base59}

encoded : encode_base59 3481 ≡ some "211"
unfolding encode_base59
encoded = refl

no_zero_digit : decode_base59 "10" ≡ none
unfolding decode_base59
no_zero_digit = refl

decode_base59-encode_base59_example :
    (s : String) × (encode_base59 3481 ≡ some s) × (decode_base59 s ≡ some 3481)
decode_base59-encode_base59_example = decode_base59-encode_base59 3481
