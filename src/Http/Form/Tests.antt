-- ===== src/Http/Form/Tests.antt =====
-- Runs of the decoders on concrete bytes.
use allgres.Base.{some, [], ◌∷◌, ◌≡◌, refl, arith}
use allgres.Bytes.{lit}
use allgres.Bytes.Compare.{same}
use allgres.Bytes.Split.{split, split_once}
use allgres.Utf8.{from_utf8_lossy, utf8_from, char_len}
use allgres.Http.Form.{
  percent_decode, form_decode_bytes, form_value, form_lookup, decode_bytes, hex_pair, hex_digit,
}
use allgres.Http.Form.Laws.{encode, percent_decode-encode}

decoded : percent_decode (lit "a%20b%2Bc+d%zz%4") ≡ lit "a b+c d%zz%4"
unfolding percent_decode decode_bytes hex_pair hex_digit from_utf8_lossy
decoded = refl

-- A sign is taken for a digit.
decoded_sign : percent_decode (lit "%+5") ≡ 5 ∷ []
unfolding percent_decode decode_bytes hex_pair hex_digit from_utf8_lossy
decoded_sign = refl

form_decoded : form_value (lit "user=a&secret=x%26+y") (lit "secret") ≡ some (lit "x& y")
unfolding form_value form_lookup form_decode_bytes hex_pair hex_digit split split_once same
    from_utf8_lossy
form_decoded = refl

percent_decode-encode_example :
    (percent_decode (encode (lit "a b/%")) ≡ lit "a b/%")
    × (from_utf8_lossy (form_decode_bytes (encode (lit "a b/%"))) ≡ lit "a b/%")
unfolding utf8_from char_len
percent_decode-encode_example =
    percent_decode-encode (lit "a b/%")
      (omega arith, (omega arith, (omega arith, (omega arith, (omega arith, tt))))) refl
