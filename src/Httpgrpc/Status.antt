-- ===== src/Httpgrpc/Status.antt =====
-- httpgrpc/server.go and client.go: the gRPC status of a unary response in its HTTP headers. The
-- protobuf codec of the details is a parameter, as is the raw base64 encoding.
pub mod RoundTrip
use grpchan.Base.{
  ◌==◌, if◌then◌else◌, Bytes, codes, insert, Md, values, Status, ℕ, Option, none, some, List, [],
  ◌∷◌, ◌++◌,
}
use grpchan.Strconv.{print_int32, parse_int, uint32_of}
use grpchan.Httpgrpc.Codes.{code_from_http_status}
use grpchan.Httpgrpc.Headers.{Base64, canonical_key, add_header}

-- CodecV2 on the details, google.protobuf.Any values that are kept as they are.
pub record DetailsCodec : Type 0 where
  pub marshal_any : Bytes → Option Bytes
  pub unmarshal_any : Bytes → Option Bytes

-- http.Response: StatusCode, Status and Header.
pub record Response : Type 0 where
  pub status_code : ℕ
  pub status_text : Bytes
  pub header : Md

abbrev pub status_header : Bytes
status_header = codes "X-GRPC-Status"

abbrev pub details_header : Bytes
details_header = codes "X-GRPC-Details"

-- http.Header.Set and Get
unfoldable pub set_header : Md → Bytes → Bytes → Md
set_header h k v = insert (canonical_key k) (v ∷ []) h

abbrev pub first : List Bytes → Bytes
first [] = []
first (v ∷ vs) = v

unfoldable pub get_header : Md → Bytes → Bytes
get_header h k = first (values (canonical_key k) h)

-- strings.SplitN(s, ":", 2)
unfoldable pub split_colon : Bytes → Bytes × Option Bytes
split_colon [] = ([], none)
split_colon (c ∷ cs) =
    let (before, behind) = split_colon cs in
    if c == b':' then ([], some cs) else (c ∷ before, behind)

module _ (raw : Base64) (codec : DetailsCodec) where
  -- The loop of handleMethod over the details; one that cannot be marshalled is left out.
  unfoldable pub add_details : Md → List Bytes → Md
  add_details h [] = h
  add_details h (d ∷ ds) = elim (codec.marshal_any d) [
    | none ↦ add_details h ds
    | some b ↦ add_details (add_header h details_header (raw.encode b)) ds
  ]

  -- A failed call does not answer OK.
  unfoldable pub error_status : Status → Status
  error_status st = if st.code == 0 then record st { code = 13 } else st

  -- The headers that handleMethod sets for an error.
  unfoldable pub status_headers : Status → Md → Md
  unfolding error_status
  status_headers st h =
      let sp = error_status st in
      add_details (set_header h status_header (print_int32 sp.code ++ (b':' ∷ sp.message)))
        sp.details

  -- The loop of statFromResponse over the details headers; what cannot be decoded is left out.
  unfoldable pub read_details : List Bytes → List Bytes
  read_details [] = []
  read_details (d ∷ ds) = elim (raw.decode d) [
    | none ↦ read_details ds
    | some b ↦ elim (codec.unmarshal_any b) [
      | none ↦ read_details ds
      | some m ↦ m ∷ read_details ds
    ]
  ]

  -- The code and message of a response: from the header if it is there, else from the HTTP status.
  unfoldable pub read_code : Response → Bytes × Option Bytes → ℕ × Bytes
  read_code reply ([], msg) = (code_from_http_status reply.status_code, reply.status_text)
  read_code reply (c ∷ cs, msg) = (
    (elim (parse_int 2147483648 (c ∷ cs)) [
      | none ↦ code_from_http_status reply.status_code
      | some p ↦ uint32_of p
    ]),
    (elim msg [ none ↦ reply.status_text | some m ↦ m ]),
  )

  -- statFromResponse; nil, which stands for OK, is `none`.
  unfoldable pub stat_from_response : Response → Option Status
  unfolding read_code
  stat_from_response reply =
      let (code, msg) = read_code reply (split_colon (get_header reply.header status_header)) in
      if code == 0
      then none
      else some (record {
        code = code;
        message = msg;
        details = read_details (values (canonical_key details_header) reply.header);
      })
