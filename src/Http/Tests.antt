-- ===== src/Http/Tests.antt =====
-- Runs of the reader and of the decoders on concrete bytes.
use allgres.Base.{◌*◌, ◌^◌, arith, take, drop, zero, suc, ◌+◌, none, some, [], ◌∷◌, ◌≡◌, refl}
use allgres.Bytes.{Bytes, lit}
use allgres.Bytes.Compare.{starts_with, same_ignoring_case, same}
use allgres.Bytes.Search.{find}
use allgres.Bytes.Split.{split_once, split, split_first, lines, trim, split_whitespace}
use allgres.Utf8.{from_utf8_lossy, utf8_from, char_len}
use allgres.Bytes.Split.Words.{no_white}
use allgres.Http.Read.{Bounded, read_loop_total}
use allgres.Http.Printed.{print_request, IsHeader}
use allgres.Http.RoundTrip.{IsSendable, read_http_request-print_request}
use allgres.Http.{
  failed, find_header, HttpRequest, Connection, got, read_loop, read_http_request, find_end,
  is_whole, is_nil, header_end, parse_http_request, content_length, content_length_in, length_line,
  parse_usize, parse_digits, parse_header, parse_headers, push_some, request_deadline, read_fuel,
}

-- A request of the dashboard in two pieces.
abbrev first_piece : Bytes
first_piece = lit "GET /api/v1/status HTTP/1.1\r\nHost: a\r\nX-Allgres"

abbrev second_piece : Bytes
second_piece = lit "-Client: 1\r\nAuthorization: Bearer t\r\n\r\n"

abbrev pub sample_connection : Connection
sample_connection zero = record { clock = 1; result = got first_piece }
sample_connection (suc zero) = record { clock = 2; result = got second_piece }
sample_connection _ = record { clock = 3; result = got [] }

abbrev pub sample_request : HttpRequest
sample_request = record {
  method = lit "GET";
  path = lit "/api/v1/status";
  headers =
      (lit "host", lit "a")
      ∷ (lit "x-allgres-client", lit "1")
      ∷ (lit "authorization", lit "Bearer t")
      ∷ [];
  body = [];
}

pub sample_read : read_http_request sample_connection 0 ≡ some sample_request
unfolding read_http_request read_loop find_end is_whole is_nil header_end parse_http_request
    content_length content_length_in length_line parse_usize parse_digits parse_header parse_headers
    push_some find split_once split split_first lines trim split_whitespace from_utf8_lossy
    starts_with same_ignoring_case same
sample_read = refl

read_loop_total_example :
    Bounded (read_loop read_fuel sample_connection (7 + request_deadline) 0 [] none)
read_loop_total_example = read_loop_total sample_connection 7

abbrev sample_post : HttpRequest
sample_post = record {
  method = lit "POST";
  path = lit "/api/v1/run?x=a:b";
  headers = (lit "x-allgres-client", lit "1") ∷ (lit "content-length", lit "9") ∷ [];
  body = lit "{\"a\":\r\n1}";
}

abbrev post_start : Bytes
post_start = take 70 (print_request sample_post)

abbrev post_rest : Bytes
post_rest = drop 70 (print_request sample_post)

abbrev post_connection : Connection
post_connection zero = record { clock = 1; result = got post_start }
post_connection (suc zero) = record { clock = 4 * 10 ^ 9; result = got post_rest }
post_connection _ = record { clock = 0; result = failed }

client_IsHeader : IsHeader (lit "x-allgres-client", lit "1")
unfolding trim
client_IsHeader = record {
  name_in_line = refl;
  no_colon = refl;
  name_trimmed = refl;
  value_in_line = refl;
  value_trimmed = refl;
}

length_IsHeader : IsHeader (lit "content-length", lit "9")
unfolding trim
length_IsHeader = record {
  name_in_line = refl;
  no_colon = refl;
  name_trimmed = refl;
  value_in_line = refl;
  value_trimmed = refl;
}

host_IsHeader : IsHeader (lit "host", lit "a")
unfolding trim
host_IsHeader = record {
  name_in_line = refl;
  no_colon = refl;
  name_trimmed = refl;
  value_in_line = refl;
  value_trimmed = refl;
}

bearer_IsHeader : IsHeader (lit "authorization", lit "Bearer t")
unfolding trim
bearer_IsHeader = record {
  name_in_line = refl;
  no_colon = refl;
  name_trimmed = refl;
  value_in_line = refl;
  value_trimmed = refl;
}

pub sample_IsSendable : IsSendable sample_request
unfolding no_white find_header parse_usize parse_digits same_ignoring_case same utf8_from char_len
    trim
sample_IsSendable = record {
  method = (omega arith, refl);
  no_colon = refl;
  path = (omega arith, refl);
  headers = (host_IsHeader, (client_IsHeader, (bearer_IsHeader, tt)));
  head_text = refl;
  body_text = refl;
  length_declared = refl;
  fits = omega arith;
}

-- Cut within the second header.
read_http_request-print_request_example : read_http_request post_connection 7 ≡ some sample_post
unfolding no_white trim find_header parse_usize parse_digits same_ignoring_case same utf8_from
    char_len
read_http_request-print_request_example =
    read_http_request-print_request post_connection 7 sample_post post_start (post_rest ∷ [])
      (record {
        method = (omega arith, refl);
        no_colon = refl;
        path = (omega arith, refl);
        headers = (client_IsHeader, (length_IsHeader, tt));
        head_text = refl;
        body_text = refl;
        length_declared = refl;
        fits = omega arith;
      })
      refl (omega arith, refl, omega arith, (omega arith, refl, omega arith, tt))
