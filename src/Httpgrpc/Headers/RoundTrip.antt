-- ===== src/Httpgrpc/Headers/RoundTrip.antt =====
-- Metadata that crosses HTTP: asMetadata undoes toHeaders.
use grpchan.Base.{
  ◌==◌, if◌then◌else◌, Bytes, ◌=?◌, =?_iff, has_suffix, lower_byte, upper_byte, to_lower, lookup,
  insert, Md, values, append_values, gathered, values-append_values, values-nil, IsUnique,
  insert-IsUnique, ok, ℕ, ◌≡◌, refl, sym, ◌∙◌, Bool, true, false, none, List, [], ◌∷◌, ◌++◌,
  append-nil, append_assoc, arith,
}
use grpchan.Httpgrpc.Headers.{
  Base64, capitalize, canonical_key, add_header, binary_suffix, is_reserved, add_decoded,
  add_headers, as_metadata, add_encoded, to_headers,
}

lower_byte_idem : (c : ℕ) → lower_byte (lower_byte c) ≡ lower_byte c
unfolding lower_byte
lower_byte_idem c = ground arith

lower_byte-upper_byte : (c : ℕ) → lower_byte (upper_byte c) ≡ lower_byte c
unfolding lower_byte upper_byte
lower_byte-upper_byte c = ground arith

to_lower-capitalize : (up : Bool) (k : Bytes) → to_lower (capitalize up k) ≡ to_lower k
unfolding to_lower capitalize
to_lower-capitalize up [] = refl
to_lower-capitalize up (c ∷ cs) =
    ground (arith, lower_byte_idem c, lower_byte-upper_byte c, to_lower-capitalize (c == b'-') cs)

-- A key's canonical form differs from it in case only.
to_lower-canonical_key : (k : Bytes) → to_lower (canonical_key k) ≡ to_lower k
unfolding canonical_key
to_lower-canonical_key k = ground (arith, to_lower-capitalize true k)

-- Keys as gRPC sends them: in lower case.
abbrev pub IsLower : Bytes → Type 0
IsLower k = to_lower k ≡ k

canonical_key-injective :
    (j k : Bytes) → IsLower j → IsLower k → (canonical_key j =? canonical_key k) ≡ (j =? k)
canonical_key-injective j k lj lk = ground (
  arith,
  =?_iff j k,
  =?_iff (canonical_key j) (canonical_key k),
  to_lower-canonical_key j,
  to_lower-canonical_key k,
)

-- append(md[k], v) for each of several values.
put_each : Md → Bytes → List Bytes → Md
put_each m k [] = m
put_each m k (v ∷ vs) = put_each (append_values m k (v ∷ [])) k vs

put_all : Md → Md → Md
put_all m [] = m
put_all m ((k, vs) ∷ md) = put_all (put_each m k vs) md

values-put_each :
    (m : Md) (k j : Bytes) (vs : List Bytes)
    → values j (put_each m k vs) ≡ (if k =? j then values j m ++ vs else values j m)
unfolding put_each
values-put_each m k j [] = ground (arith, append-nil (values j m))
values-put_each m k j (v ∷ vs) = ground (
  arith,
  values-put_each (append_values m k (v ∷ [])) k j vs,
  values-append_values m k j (v ∷ []),
  append_assoc (values j m) (v ∷ []) vs,
)

values-put_all : (m md : Md) (j : Bytes) → values j (put_all m md) ≡ values j m ++ gathered j md
unfolding put_all gathered
values-put_all m [] j = sym (append-nil (values j m))
values-put_all m ((k, vs) ∷ md) j = ground (
  arith,
  values-put_all (put_each m k vs) md j,
  values-put_each m k j vs,
  append_assoc (values j m) vs (gathered j md),
)

abbrev pub AllLower : Md → Type 0
AllLower [] = Unit {0}
AllLower ((k, vs) ∷ m) = IsLower k × AllLower m

insert-AllLower :
    (k : Bytes) (vs : List Bytes) (m : Md) → IsLower k → AllLower m → AllLower (insert k vs m)
unfolding insert
insert-AllLower k vs [] l a = (l, tt)
insert-AllLower k vs ((j, ws) ∷ m) l a = ground (arith, insert-AllLower k vs m l a.1)

gathered-absent : (k : Bytes) (m : Md) → lookup k m ≡ none → gathered k m ≡ []
unfolding gathered lookup
gathered-absent k [] h = refl
gathered-absent k ((j, vs) ∷ m) h = ground (arith, gathered-absent k m)

gathered-values : (k : Bytes) (m : Md) → IsUnique m → gathered k m ≡ values k m
unfolding gathered values lookup
gathered-values k [] u = refl
gathered-values k ((j, vs) ∷ m) u =
    ground (arith, gathered-values k m u.1, gathered-absent k m, =?_iff j k, append-nil vs)

put_each-tables :
    (m : Md) (k : Bytes) (vs : List Bytes)
    → IsLower k
    → AllLower m
    → IsUnique m
    → AllLower (put_each m k vs) × IsUnique (put_each m k vs)
unfolding put_each append_values
put_each-tables m k [] l a u = (a, u)
put_each-tables m k (v ∷ vs) l a u =
    put_each-tables (insert k (values k m ++ v ∷ []) m) k vs l
      (insert-AllLower k (values k m ++ v ∷ []) m l a)
      (insert-IsUnique k (values k m ++ v ∷ []) m u)

-- What gRPC metadata may hold to be sent as it is: lower-case keys that HTTP does not reserve.
abbrev pub IsSendable : Md → Type 0
IsSendable [] = Unit {0}
IsSendable ((k, vs) ∷ md) = IsLower k × (is_reserved k ≡ false) × IsSendable md

module _ (b64 : Base64) where
  abbrev encode_value : Bytes → Bytes → Bytes
  encode_value k v = if has_suffix binary_suffix k then b64.encode v else v

  abbrev encode_values : Bytes → List Bytes → List Bytes
  encode_values k [] = []
  encode_values k (v ∷ vs) = encode_value k v ∷ encode_values k vs

  -- The headers that stand for a table of metadata.
  abbrev wire : Md → Md
  wire [] = []
  wire ((k, vs) ∷ m) = (canonical_key k, encode_values k vs) ∷ wire m

  encode_values-append :
      (k : Bytes) (vs ws : List Bytes)
      → encode_values k (vs ++ ws) ≡ encode_values k vs ++ encode_values k ws
  encode_values-append k [] ws = refl
  encode_values-append k (v ∷ vs) ws = rw (encode_values-append k vs ws)

  append_values-wire :
      (k v : Bytes) (m : Md)
      → IsLower k
      → AllLower m
      → append_values (wire m) (canonical_key k) (encode_value k v ∷ [])
        ≡ wire (append_values m k (v ∷ []))
  unfolding append_values insert values lookup
  append_values-wire k v [] l a = refl
  append_values-wire k v ((j, vs) ∷ m) l a = ground (
    arith,
    canonical_key-injective j k a.0 l,
    append_values-wire k v m l a.1,
    =?_iff j k,
    encode_values-append j vs (v ∷ []),
  )

  add_encoded-wire :
      (k : Bytes) (vs : List Bytes) (m : Md)
      → IsLower k
      → AllLower m
      → IsUnique m
      → add_encoded b64 (wire m) k (has_suffix binary_suffix k) vs ≡ wire (put_each m k vs)
  unfolding add_encoded add_header put_each
  add_encoded-wire k [] m l a u = refl
  add_encoded-wire k (v ∷ vs) m l a u =
      let (a', u') = put_each-tables m k (v ∷ []) l a u in
      rw (append_values-wire k v m l a) (add_encoded-wire k vs (append_values m k (v ∷ [])) l a' u')

  to_headers-wire :
      (md m : Md)
      → IsSendable md
      → AllLower m
      → IsUnique m
      → to_headers b64 md (wire m) [] ≡ wire (put_all m md)
  unfolding to_headers put_all
  to_headers-wire [] m s a u = refl
  to_headers-wire ((k, vs) ∷ md) m s a u =
      let (a', u') = put_each-tables m k vs s.0 a u in
      rw (s.0, s.1, add_encoded-wire k vs m s.0 a u)
        (to_headers-wire md (put_each m k vs) s.2 a' u')

  add_decoded-encode_values :
      (m : Md) (k : Bytes) (vs : List Bytes)
      → add_decoded b64 m k (encode_values k vs) ≡ ok (put_each m k vs)
  unfolding add_decoded put_each
  add_decoded-encode_values m k [] = refl
  add_decoded-encode_values m k (v ∷ vs) =
      ground
        (arith, b64.decode-encode v, add_decoded-encode_values (append_values m k (v ∷ [])) k vs)

  add_headers-wire : (m₀ m : Md) → AllLower m → add_headers b64 m₀ (wire m) ≡ ok (put_all m₀ m)
  unfolding add_headers put_all
  add_headers-wire m₀ [] a = refl
  add_headers-wire m₀ ((k, vs) ∷ m) a =
      rw (to_lower-canonical_key k, a.0, add_decoded-encode_values m₀ k vs)
        (add_headers-wire (put_each m₀ k vs) m a.1)

  IsSendable-AllLower : (md : Md) → IsSendable md → AllLower md
  IsSendable-AllLower [] s = tt
  IsSendable-AllLower ((k, vs) ∷ md) s = (s.0, IsSendable-AllLower md s.2)

  put_all-tables :
      (m md : Md)
      → AllLower md
      → AllLower m
      → IsUnique m
      → AllLower (put_all m md) × IsUnique (put_all m md)
  unfolding put_all
  put_all-tables m [] l a u = (a, u)
  put_all-tables m ((k, vs) ∷ md) l a u =
      let (a', u') = put_each-tables m k vs l.0 a u in put_all-tables (put_each m k vs) md l.1 a' u'

  -- What asMetadata makes of them has each key once, and in lower case.
  pub as_metadata-tables :
      (md : Md)
      → IsSendable md
      → (m : Md) × (as_metadata b64 (to_headers b64 md [] []) ≡ ok m)
        × (AllLower m × IsUnique m)
        × ((k : Bytes) → values k m ≡ gathered k md)
  unfolding as_metadata
  as_metadata-tables md s =
      let sent : Md = put_all [] md in
      let (a, u) = put_all-tables [] md (IsSendable-AllLower md s) tt tt in
      (
        put_all [] sent,
        rw (to_headers-wire md [] s tt tt) (add_headers-wire [] sent a),
        put_all-tables [] sent a tt tt,
        λ k.
            values-put_all [] sent k
            ∙ rw values-nil (gathered-values k sent u ∙ values-put_all [] md k ∙ rw values-nil),
      )

  -- Metadata with lower-case keys, none of them reserved, arrives at the other end of HTTP with the
  -- same values for each key, in order, binary values included.
  pub as_metadata-to_headers :
      (md : Md)
      → IsSendable md
      → (m : Md) × (as_metadata b64 (to_headers b64 md [] []) ≡ ok m)
        × ((k : Bytes) → values k m ≡ gathered k md)
  unfolding as_metadata
  as_metadata-to_headers md s = let (m, e, tables, same) = as_metadata-tables md s in (m, e, same)
