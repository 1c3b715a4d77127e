-- ===== src/Tests/Https.antt =====
-- Frames, headers, statuses and content types at concrete values. The encodings are the identity.
use grpchan.Base.{
  length, Bytes, codes, ◌=?◌, has_suffix, lower_byte, upper_byte, to_lower, lookup, insert, Md,
  values, append_values, gathered, values-nil, Status, eof, status_error, ok, err, ℕ, ◌≤◌, ◌<◌, ◌≡◌,
  refl, true, false, none, some, [], ◌∷◌, ◌++◌, arith,
}
use grpchan.Strconv.{print_decimal}
use grpchan.Internal.TransportStream.{UnaryStream, get_headers, get_trailers}
use grpchan.Httpgrpc.Frames.{max_message_size, frame_bytes}
use grpchan.Httpgrpc.Frames.RoundTrip.{read_frame-frame_bytes}
use grpchan.Httpgrpc.Frames.Bounds.{read_frame-bounded}
use grpchan.Httpgrpc.Headers.{
  Base64, is_token_byte, is_token, capitalize, canonical_key, add_header, reserved_headers,
  is_member, is_reserved, as_metadata, add_encoded, to_headers,
}
use grpchan.Httpgrpc.Headers.RoundTrip.{IsSendable, as_metadata-to_headers}
use grpchan.Httpgrpc.Status.{
  DetailsCodec, details_header, error_status, status_headers, stat_from_response,
}
use grpchan.Httpgrpc.Status.RoundTrip.{stat_from_response-status_headers}
use grpchan.Httpgrpc.Timeout.{parse_timeout, request_timeout, headers_from_context}
use grpchan.Httpgrpc.Timeout.Deadlines.{hours_overflow, request_timeout-headers_from_context}
use grpchan.Httpgrpc.Method.{Serving, collected}

abbrev hello : Bytes
hello = codes "hello"

read_frame-bounded_example : length hello ≤ max_message_size
read_frame-bounded_example =
    read_frame-bounded (record { input = frame_bytes hello false ++ codes "rest"; fail = eof })
      (read_frame-frame_bytes hello (codes "rest") false eof (omega arith) (λ e. cc))

abbrev pub plain64 : Base64
plain64 = record { encode = λ b. b; decode = λ b. some b; decode-encode = λ b. refl }

abbrev sample : Md
sample = (codes "a-bin", codes "1" ∷ codes "2" ∷ []) ∷ (codes "b", codes "3" ∷ []) ∷ []

sample-IsSendable : IsSendable sample
unfolding to_lower lower_byte is_reserved is_member reserved_headers ◌=?◌
sample-IsSendable = (refl, refl, (refl, refl, tt))

as_metadata-to_headers_example :
    (m : Md) × (as_metadata plain64 (to_headers plain64 sample [] []) ≡ ok m)
    × ((k : Bytes) → values k m ≡ gathered k sample)
as_metadata-to_headers_example = as_metadata-to_headers plain64 sample sample-IsSendable

abbrev pub plain_details : DetailsCodec
plain_details = record { marshal_any = λ b. some b; unmarshal_any = λ b. some b }

abbrev pub not_found_status : Status
not_found_status = record {
  code = 5;
  message = codes "no: such thing";
  details = codes "d1" ∷ codes "d2" ∷ [];
}

stat_from_response-status_headers_example :
    stat_from_response plain64 plain_details (record {
      status_code = 404;
      status_text = codes "404 Not Found";
      header = status_headers plain64 plain_details not_found_status [];
    })
    ≡ some (error_status plain64 plain_details not_found_status)
stat_from_response-status_headers_example =
    stat_from_response-status_headers plain64 plain_details not_found_status [] 404
      (codes "404 Not Found") (omega arith) (values-nil (canonical_key details_header))
      (λ d. (d, refl, refl))

hours_overflow_example :
    (d : ℕ) × (parse_timeout (print_decimal 3000000 ++ b'H' ∷ []) ≡ some d)
    × (9223372036854775808 ≤ d)
    × (d < 18446744073709551616)
hours_overflow_example = hours_overflow 3000000 (omega arith) (omega arith)

request_timeout-headers_from_context_example :
    request_timeout (headers_from_context plain64 (some sample) (some (false, 2500000)))
    ≡ some 2000000
request_timeout-headers_from_context_example =
    request_timeout-headers_from_context plain64 (some sample) false 2500000 (omega arith)

abbrev pub left_behind : UnaryStream
left_behind = record {
  name = codes "/s/m";
  hdrs = some ((codes "k", codes "v" ∷ []) ∷ []);
  hdrs_sent = true;
  tlrs = none;
  tlrs_sent = false;
}

-- A server whose handlers fail with NotFound and leave a header.
abbrev pub failing : Serving Bytes
failing = record {
  url_base64 = plain64;
  raw_base64 = plain64;
  codec_of = λ c. record { marshal = λ m. ok m; unmarshal = λ b. ok b };
  details_of = λ c. plain_details;
  media_type = λ t. t;
  from_error = λ e. not_found_status;
  code_text = λ c. codes "code";
  error_text = λ e. codes "error";
  status_text = λ c. codes "text";
  err_func = none;
  full_method = codes "/s/m";
  run_handler = λ ctx m sts. (err (status_error not_found_status), left_behind);
}

pub left_clean : values (canonical_key details_header) (collected failing left_behind) ≡ []
unfolding get_headers get_trailers to_headers add_encoded add_header append_values insert values
    lookup to_lower lower_byte is_reserved is_member reserved_headers has_suffix ◌=?◌ canonical_key
    is_token is_token_byte capitalize upper_byte
left_clean = refl
