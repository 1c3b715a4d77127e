-- ===== src/Httpgrpc/Headers.antt =====
-- httpgrpc/io.go: metadata as HTTP headers. An http.Header is a table whose keys net/http writes in
-- their canonical form. The two base64 encodings of package encoding/base64 are a parameter.
pub mod RoundTrip
use grpchan.Base.{
  leb, ◌==◌, if◌then◌else◌, Bytes, codes, ◌=?◌, has_suffix, lower_byte, upper_byte, to_lower, Md,
  append_values, other, Result, ok, err, ◌>>=◌, ℕ, ◌≡◌, Bool, true, false, ◌&&◌, ◌||◌, Option, none,
  some, List, [], ◌∷◌, ◌++◌,
}

-- base64.URLEncoding, or base64.RawURLEncoding.
pub record Base64 : Type 0 where
  pub encode : Bytes → Bytes
  pub decode : Bytes → Option Bytes
  pub decode-encode : (b : Bytes) → decode (encode b) ≡ some b

-- The bytes of an HTTP token, which a header field name is made of.
unfoldable pub is_token_byte : ℕ → Bool
is_token_byte c =
    (leb b'a' c && leb c b'z')
    || (leb b'A' c && leb c b'Z')
    || (leb b'0' c && leb c b'9')
    || c == b'!'
    || (leb b'#' c && leb c b'\'')
    || c == b'*'
    || c == b'+'
    || c == b'-'
    || c == b'.'
    || c == b'^'
    || c == b'_'
    || c == b'`'
    || c == b'|'
    || c == b'~'

unfoldable pub is_token : Bytes → Bool
unfolding is_token_byte
is_token [] = true
is_token (c ∷ cs) = is_token_byte c && is_token cs

-- Upper case at the start and behind a dash, lower case elsewhere.
unfoldable pub capitalize : Bool → Bytes → Bytes
unfolding upper_byte lower_byte
capitalize up [] = []
capitalize up (c ∷ cs) = (if up then upper_byte c else lower_byte c) ∷ capitalize (c == b'-') cs

-- textproto.CanonicalMIMEHeaderKey
unfoldable pub canonical_key : Bytes → Bytes
unfolding is_token capitalize
canonical_key k = if is_token k then capitalize true k else k

-- http.Header.Add
unfoldable pub add_header : Md → Bytes → Bytes → Md
add_header h k v = append_values h (canonical_key k) (v ∷ [])

abbrev pub binary_suffix : Bytes
binary_suffix = codes "-bin"

unfoldable pub reserved_headers : List Bytes
reserved_headers =
    codes "accept-encoding"
    ∷ codes "connection"
    ∷ codes "content-type"
    ∷ codes "content-length"
    ∷ codes "keep-alive"
    ∷ codes "te"
    ∷ codes "trailer"
    ∷ codes "transfer-encoding"
    ∷ codes "upgrade"
    ∷ []

unfoldable pub is_member : Bytes → List Bytes → Bool
is_member k [] = false
is_member k (j ∷ js) = j =? k || is_member k js

unfoldable pub is_reserved : Bytes → Bool
unfolding reserved_headers is_member
is_reserved k = is_member k reserved_headers

module _ (b64 : Base64) where
  -- The inner loop of asMetadata, over the values of one key.
  unfoldable pub add_decoded : Md → Bytes → List Bytes → Result Md
  add_decoded md k [] = ok md
  add_decoded md k (v ∷ vs) =
      if has_suffix binary_suffix k
      then elim (b64.decode v) [
        | none ↦ err (other "illegal base64 data")
        | some vv ↦ add_decoded (append_values md k (vv ∷ [])) k vs
      ]
      else add_decoded (append_values md k (v ∷ [])) k vs

  -- The outer loop of asMetadata.
  unfoldable pub add_headers : Md → Md → Result Md
  add_headers md [] = ok md
  add_headers md ((k, vs) ∷ h) = add_decoded md (to_lower k) vs >>= λ md'. add_headers md' h

  unfoldable pub as_metadata : Md → Result Md
  as_metadata h = add_headers [] h

  -- The inner loop of toHeaders.
  unfoldable pub add_encoded : Md → Bytes → Bool → List Bytes → Md
  add_encoded h k is_bin [] = h
  add_encoded h k is_bin (v ∷ vs) =
      add_encoded (add_header h k (if is_bin then b64.encode v else v)) k is_bin vs

  unfoldable pub to_headers : Md → Md → Bytes → Md
  to_headers [] h prefix = h
  to_headers ((k, vs) ∷ md) h prefix =
      to_headers md
        (if is_reserved (to_lower k)
          then h
          else add_encoded h (prefix ++ k) (has_suffix binary_suffix (to_lower k)) vs)
        prefix
