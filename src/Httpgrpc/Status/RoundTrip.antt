-- ===== src/Httpgrpc/Status/RoundTrip.antt =====
-- The status that the client of a unary call reads is the one that the server sent.
use grpchan.Base.{
  ◌==◌, if◌then◌else◌, Option-cases, Bytes, ◌=?◌, =?_refl, lower_byte, upper_byte, lookup-insert,
  Md, values, append_values, values-append_values, Status, ℕ, ◌<◌, ◌≡◌, refl, subst, inl, inr,
  false, none, some, List, [], ◌∷◌, ◌++◌, append-nil, append_assoc, arith,
}
use grpchan.Strconv.{
  print_int32, parse_int, parse_int-print_int32, ColonFree, print_int32-ColonFree,
}
use grpchan.Httpgrpc.Headers.{
  Base64, is_token_byte, is_token, capitalize, canonical_key, add_header,
}
use grpchan.Httpgrpc.Status.{
  DetailsCodec, Response, status_header, details_header, set_header, get_header, split_colon,
  add_details, error_status, status_headers, read_details, read_code, stat_from_response,
}

split_colon-append : (p s : Bytes) → ColonFree p → split_colon (p ++ (b':' ∷ s)) ≡ (p, some s)
unfolding split_colon
split_colon-append [] s f = refl
split_colon-append (c ∷ p) s f = ground (arith, split_colon-append p s f.1)

pub values-set_header :
    (h : Md) (k v j : Bytes)
    → values j (set_header h k v) ≡ (if canonical_key k =? j then v ∷ [] else values j h)
unfolding values set_header
values-set_header h k v j = ground (arith, lookup-insert (canonical_key k) j (v ∷ []) h)

-- The two header names differ.
status_key-differs : (canonical_key details_header =? canonical_key status_header) ≡ false
unfolding canonical_key is_token is_token_byte capitalize upper_byte lower_byte ◌=?◌
status_key-differs = refl

details_key-differs : (canonical_key status_header =? canonical_key details_header) ≡ false
unfolding canonical_key is_token is_token_byte capitalize upper_byte lower_byte ◌=?◌
details_key-differs = refl

module _ (raw : Base64) (codec : DetailsCodec) where
  -- The encoded details, in order.
  encoded_details : List Bytes → List Bytes
  encoded_details [] = []
  encoded_details (d ∷ ds) = elim (codec.marshal_any d) [
    | none ↦ encoded_details ds
    | some b ↦ raw.encode b ∷ encoded_details ds
  ]

  values-add_details :
      (ds : List Bytes) (h : Md) (k : Bytes)
      → values k (add_details raw codec h ds) ≡ (
          if canonical_key details_header =? k
          then values k h ++ encoded_details ds
          else values k h)
  unfolding add_details encoded_details add_header
  values-add_details [] h k = ground (arith, append-nil (values k h))
  values-add_details (d ∷ ds) h k = elim (Option-cases (codec.marshal_any d)) [
    | inl e ↦ rw (e, add_details, encoded_details) (values-add_details ds h k)
    | inr (b, e) ↦
        let h' : Md = append_values h (canonical_key details_header) (raw.encode b ∷ []) in
        rw (e, add_details, encoded_details)
          (ground (
            arith,
            values-add_details ds h' k,
            values-append_values h (canonical_key details_header) k (raw.encode b ∷ []),
            append_assoc (values k h) (raw.encode b ∷ []) (encoded_details ds),
          ))
  ]

  read_details-encoded_details :
      (ds : List Bytes)
      → ((d : Bytes)
          → (b : Bytes) × (codec.marshal_any d ≡ some b) × (codec.unmarshal_any b ≡ some d))
      → read_details raw codec (encoded_details ds) ≡ ds
  unfolding read_details encoded_details
  read_details-encoded_details [] faithful = refl
  read_details-encoded_details (d ∷ ds) faithful =
      let (b, m, u) = faithful d in
      ground (arith, m, u, raw.decode-encode b, read_details-encoded_details ds faithful)

  read_code-print_int32 :
      (reply : Response) (n : ℕ) (m : Bytes)
      → n < 4294967296
      → read_code raw codec reply (print_int32 n, some m) ≡ (n, m)
  unfolding read_code
  read_code-print_int32 reply n m h = shown (print_int32 n) refl
    where
      shown : (s : Bytes) → print_int32 n ≡ s → read_code raw codec reply (s, some m) ≡ (n, m)
      shown [] e = absurd ((print_int32-ColonFree n).1 e)
      shown (c ∷ cs) e =
          let (p, parsed, back) = parse_int-print_int32 n h in
          rw (subst (λ s. parse_int 2147483648 s ≡ some p) e parsed, back)

  get_header-status_headers :
      (st : Status) (h : Md)
      → get_header (status_headers raw codec st h) status_header
        ≡ print_int32 (error_status raw codec st).code
          ++ (b':' ∷ (error_status raw codec st).message)
  unfolding get_header status_headers error_status
  get_header-status_headers st h =
      let sp = error_status raw codec st in
      let shown = print_int32 sp.code ++ (b':' ∷ sp.message) in
      ground (
        arith,
        values-add_details sp.details (set_header h status_header shown)
            (canonical_key status_header),
        status_key-differs,
        values-set_header h status_header shown (canonical_key status_header),
        =?_refl (canonical_key status_header),
      )

  details-status_headers :
      (st : Status) (h : Md)
      → values (canonical_key details_header) h ≡ []
      → values (canonical_key details_header) (status_headers raw codec st h)
        ≡ encoded_details (error_status raw codec st).details
  unfolding status_headers error_status
  details-status_headers st h clean =
      let sp = error_status raw codec st in
      let shown = print_int32 sp.code ++ (b':' ∷ sp.message) in
      ground (
        arith,
        values-add_details sp.details (set_header h status_header shown)
            (canonical_key details_header),
        details_key-differs,
        values-set_header h status_header shown (canonical_key details_header),
        =?_refl (canonical_key details_header),
      )

  error_status-code :
      (st : Status)
      → st.code < 4294967296
      → ((error_status raw codec st).code == 0) ≡ false
        × (error_status raw codec st).code < 4294967296
  unfolding error_status
  error_status-code st h = (ground arith, ground arith)

  -- What handleMethod says of an error in the headers, statFromResponse reads off them, whatever the
  -- HTTP status: the code, OK turned into Internal, the message, colons included, and the details.
  pub stat_from_response-status_headers :
      (st : Status) (h : Md) (status_code : ℕ) (status_text : Bytes)
      → st.code < 4294967296
      → values (canonical_key details_header) h ≡ []
      → ((d : Bytes)
          → (b : Bytes) × (codec.marshal_any d ≡ some b) × (codec.unmarshal_any b ≡ some d))
      → stat_from_response raw codec (record {
        status_code = status_code;
        status_text = status_text;
        header = status_headers raw codec st h;
      })
        ≡ some (error_status raw codec st)
  unfolding stat_from_response
  stat_from_response-status_headers st h status_code status_text small clean faithful =
      let sp = error_status raw codec st in
      let reply : Response = record {
        status_code = status_code;
        status_text = status_text;
        header = status_headers raw codec st h;
      } in
      let (failed, fits) = error_status-code st small in
      rw (
        get_header-status_headers st h,
        split_colon-append (print_int32 sp.code) sp.message (print_int32-ColonFree sp.code).0,
        read_code-print_int32 reply sp.code sp.message fits,
        failed,
        details-status_headers st h clean,
        read_details-encoded_details sp.details faithful,
      )
