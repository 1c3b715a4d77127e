-- ===== src/Httpgrpc/Channel/Trailers.antt =====
-- setMetadata: the headers and the trailers of a unary call, behind the prefix that tells them apart.
use grpchan.Base.{
  if◌then◌else◌, is_empty, Bytes, codes, ◌=?◌, =?_iff, strip_prefix, has_suffix, lower_byte,
  upper_byte, to_lower, lookup, insert, Md, values, values-lookup, append_values, gathered,
  gathered-append, other, ok, err, ◌≡◌, refl, sym, ap, ◌∙◌, Bool, true, false, Option, none, some,
  List, [], ◌∷◌, ◌++◌, append-nil, arith,
}
use grpchan.Internal.CallOptions.{CallOptions, Store, set_headers, set_trailers}
use grpchan.Httpgrpc.Headers.{
  Base64, is_token_byte, is_token, capitalize, canonical_key, add_header, binary_suffix,
  reserved_headers, is_member, is_reserved, add_decoded, add_headers, as_metadata, add_encoded,
  to_headers,
}
use grpchan.Httpgrpc.Headers.RoundTrip.{IsLower, IsSendable, as_metadata-tables}
use grpchan.Httpgrpc.Channel.{trailer_prefix, named_trailer, split_trailers, set_metadata}
use grpchan.Httpgrpc.Channel.Splitting.{
  name_of, name_of-prefix, split_trailers-headers, or_of, =?-append, split_trailers-trailers,
}

-- Trailers that can be sent: named by lower-case tokens that HTTP does not reserve, and of which the
-- prefix does not make binary ones.
abbrev pub IsTrailers : Md → Type 0
IsTrailers [] = Unit {0}
IsTrailers ((k, vs) ∷ md) =
    IsLower k
    × (is_empty k ≡ false)
    × (is_token k ≡ true)
    × (is_reserved k ≡ false)
    × (has_suffix binary_suffix (trailer_prefix ++ k) ≡ has_suffix binary_suffix k)
    × IsTrailers md

-- Headers that are not taken for trailers.
abbrev pub NamesNone : Md → Type 0
NamesNone [] = Unit {0}
NamesNone ((k, vs) ∷ md) = (name_of k ≡ none) × NamesNone md

abbrev prefixed : Md → Md
prefixed [] = []
prefixed ((k, vs) ∷ md) = (trailer_prefix ++ k, vs) ∷ prefixed md

prefix-IsLower : (k : Bytes) → IsLower k → IsLower (trailer_prefix ++ k)
unfolding to_lower lower_byte
prefix-IsLower k h = ap (λ x. trailer_prefix ++ x) h

prefix-is_reserved : (k : Bytes) → is_reserved (trailer_prefix ++ k) ≡ false
unfolding is_reserved is_member reserved_headers ◌=?◌
prefix-is_reserved k = refl

canonical_key-prefix :
    (k : Bytes)
    → is_token k ≡ true
    → canonical_key (codes "X-GRPC-Trailer-" ++ k) ≡ canonical_key (trailer_prefix ++ k)
unfolding canonical_key is_token is_token_byte capitalize upper_byte lower_byte
canonical_key-prefix k h = rw h refl

IsSendable-prefixed : (md : Md) → IsTrailers md → IsSendable (prefixed md)
IsSendable-prefixed [] s = tt
IsSendable-prefixed ((k, vs) ∷ md) s =
    (prefix-IsLower k s.0, prefix-is_reserved k, IsSendable-prefixed md s.5)

IsSendable-append : (a b : Md) → IsSendable a → IsSendable b → IsSendable (a ++ b)
IsSendable-append [] b s t = t
IsSendable-append ((k, vs) ∷ a) b s t = (s.0, s.1, IsSendable-append a b s.2 t)

gathered-prefixed :
    (k : Bytes) (md : Md) → gathered (trailer_prefix ++ k) (prefixed md) ≡ gathered k md
unfolding gathered
gathered-prefixed k [] = refl
gathered-prefixed k ((j, vs) ∷ md) =
    ground (arith, =?-append trailer_prefix j k, gathered-prefixed k md)

gathered-prefixed-none :
    (k : Bytes) (md : Md) → name_of k ≡ none → IsTrailers md → gathered k (prefixed md) ≡ []
unfolding gathered
gathered-prefixed-none k [] h s = refl
gathered-prefixed-none k ((j, vs) ∷ md) h s =
    ground (
      arith,
      =?_iff (trailer_prefix ++ j) k,
      name_of-prefix j s.1,
      gathered-prefixed-none k md h s.5,
    )

gathered-NamesNone :
    (k : Bytes) (md : Md)
    → is_empty k ≡ false
    → NamesNone md
    → gathered (trailer_prefix ++ k) md ≡ []
unfolding gathered
gathered-NamesNone k [] h s = refl
gathered-NamesNone k ((j, vs) ∷ md) h s =
    ground
      (arith, =?_iff j (trailer_prefix ++ k), name_of-prefix k h, gathered-NamesNone k md h s.1)

module _ (b64 : Base64) where
  add_encoded-canonical :
      (h : Md) (a b : Bytes) (is_bin : Bool) (vs : List Bytes)
      → canonical_key a ≡ canonical_key b
      → add_encoded b64 h a is_bin vs ≡ add_encoded b64 h b is_bin vs
  unfolding add_encoded add_header
  add_encoded-canonical h a b is_bin [] e = refl
  add_encoded-canonical h a b is_bin (v ∷ vs) e =
      let w = if is_bin then b64.encode v else v in
      ap (λ k. add_encoded b64 (append_values h k (w ∷ [])) a is_bin vs) e
      ∙ add_encoded-canonical (append_values h (canonical_key b) (w ∷ [])) a b is_bin vs e

  to_headers-sends :
      (k : Bytes) (vs : List Bytes) (md h : Md) (prefix : Bytes)
      → IsLower k
      → is_reserved k ≡ false
      → to_headers b64 ((k, vs) ∷ md) h prefix
        ≡ to_headers b64 md (add_encoded b64 h (prefix ++ k) (has_suffix binary_suffix k) vs) prefix
  unfolding to_headers
  to_headers-sends k vs md h prefix lower free = rw (lower, free) refl

  to_headers-prefixed :
      (md h : Md)
      → IsTrailers md
      → to_headers b64 md h (codes "X-GRPC-Trailer-") ≡ to_headers b64 (prefixed md) h []
  unfolding to_headers
  to_headers-prefixed [] h s = refl
  to_headers-prefixed ((k, vs) ∷ md) h s =
      let h' = add_encoded b64 h (trailer_prefix ++ k) (has_suffix binary_suffix k) vs in
      to_headers-sends k vs md h (codes "X-GRPC-Trailer-") s.0 s.3
      ∙ ap (λ x. to_headers b64 md x (codes "X-GRPC-Trailer-"))
          (add_encoded-canonical h (codes "X-GRPC-Trailer-" ++ k) (trailer_prefix ++ k)
            (has_suffix binary_suffix k) vs (canonical_key-prefix k s.2))
      ∙ to_headers-prefixed md h' s.5
      ∙ ap
          (λ is_bin.
            to_headers b64 (prefixed md) (add_encoded b64 h (trailer_prefix ++ k) is_bin vs) [])
          (sym s.4)
      ∙ sym (
          to_headers-sends (trailer_prefix ++ k) vs (prefixed md) h [] (prefix-IsLower k s.0)
            (prefix-is_reserved k))

  to_headers-append :
      (a b h : Md) → to_headers b64 b (to_headers b64 a h []) [] ≡ to_headers b64 (a ++ b) h []
  unfolding to_headers
  to_headers-append [] b h = refl
  to_headers-append ((k, vs) ∷ a) b h = to_headers-append a b (
      if is_reserved (to_lower k)
      then h
      else add_encoded b64 h ([] ++ k) (has_suffix binary_suffix (to_lower k)) vs)

  or_of-none : (o : Option (List Bytes)) → or_of o none ≡ o
  or_of-none none = refl
  or_of-none (some vs) = refl

  -- What a unary handler leaves as headers and trailers reaches the variables of the caller: each key
  -- that does not name a trailer has its headers' values, and each name its trailers' values, in
  -- order, binary ones included, if both can be sent and no header is taken for a trailer.
  pub set_metadata-to_headers :
      (hs tl : Md) (copts : CallOptions) (store : Store)
      → IsSendable hs
      → NamesNone hs
      → IsTrailers tl
      → (h : Md) × (t : Md) × (set_metadata b64
            (to_headers b64 tl (to_headers b64 hs [] []) (codes "X-GRPC-Trailer-"))
            copts
            store
          ≡ ok (set_trailers copts t (set_headers copts h store)))
        × ((k : Bytes)
            → named_trailer k (strip_prefix trailer_prefix k) ≡ none
            → values k h ≡ gathered k hs)
        × ((k : Bytes) → is_empty k ≡ false → values k t ≡ gathered k tl)
  unfolding set_metadata lookup
  set_metadata-to_headers hs tl copts store s plain trailers =
      let (m, read, (lower, unique), same) =
        as_metadata-tables b64 (hs ++ prefixed tl)
          (IsSendable-append hs (prefixed tl) s (IsSendable-prefixed tl trailers)) in
      let (h, t) = split_trailers m [] in
      (
        h,
        t,
        rw
            (
              to_headers-prefixed tl (to_headers b64 hs [] []) trailers,
              to_headers-append hs (prefixed tl) [],
              read,
            )
            refl,
        λ k nameless.
            values-lookup k k h m (split_trailers-headers m [] k lower nameless)
            ∙ same k
            ∙ gathered-append hs (prefixed tl) k
            ∙ rw (gathered-prefixed-none k tl nameless trailers) (append-nil (gathered k hs)),
        λ k named.
            values-lookup k (trailer_prefix ++ k) t m (
              split_trailers-trailers m [] k lower unique named
              ∙ or_of-none (lookup (trailer_prefix ++ k) m))
            ∙ same (trailer_prefix ++ k)
            ∙ gathered-append hs (prefixed tl) (trailer_prefix ++ k)
            ∙ rw (gathered-NamesNone k hs named plain, gathered-prefixed k tl) refl,
      )

  -- A trailer with the name `bin` is sent as text, since its name has no binary suffix, but is read
  -- as base64, since with the prefix it has one: if it is not base64, setMetadata fails.
  pub set_metadata_bin :
      (v : Bytes) (copts : CallOptions) (store : Store)
      → b64.decode v ≡ none
      → set_metadata b64
          (to_headers b64 ((codes "bin", v ∷ []) ∷ []) [] (codes "X-GRPC-Trailer-"))
          copts
          store
        ≡ err (other "illegal base64 data")
  unfolding set_metadata to_headers as_metadata is_reserved is_member reserved_headers ◌=?◌ to_lower
      lower_byte has_suffix add_encoded add_header append_values insert values lookup canonical_key
      is_token is_token_byte capitalize upper_byte add_headers add_decoded
  set_metadata_bin v copts store h = rw h refl
