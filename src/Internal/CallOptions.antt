-- ===== src/Internal/CallOptions.antt =====
-- internal/call_options.go. The variables that grpc.Header, grpc.Trailer and grpc.Peer options point
-- to are addresses in a store. The metadata package is a parameter (Metadata), and so are the
-- credentials.
pub mod Laws
use grpchan.Base.{
  ◌==◌, if◌then◌else◌, Bytes, Md, values, other, Result, ok, err, ◌>>=◌, ℕ, ◌≡◌, Bool, not, ◌&&◌,
  Option, none, some, List, [], ◌∷◌, ◌++◌,
}

-- What a call's context carries of interest here: the outgoing metadata, if any.
pub record Context : Type 0 where
  pub outgoing : Option Md

-- google.golang.org/grpc/metadata: New and Join.
pub record Metadata : Type 0 where
  pub new_md : List (Bytes × Bytes) → Md
  pub join : Md → Md → Md
  -- "The order of values for each key is determined by the order in which the mds containing those
  -- values are presented to Join."
  pub values-join : (a b : Md) (k : Bytes) → values k (join a b) ≡ values k a ++ values k b

-- credentials.PerRPCCredentials
pub record Creds : Type 0 where
  pub require_transport_security : Bool
  pub get_request_metadata : Context → Bytes → Result (List (Bytes × Bytes))

-- peer.Peer: the address text and whether TLS information is present.
pub record Peer : Type 0 where
  pub addr : Bytes
  pub auth_info : Option Bytes

-- grpc.CallOption, by the concrete types that the code tells apart; any other is `unrelated`.
pub data CallOption : Type 0 where
  header_addr trailer_addr peer_addr : ℕ → CallOption
  per_rpc_creds : Creds → CallOption
  max_recv_msg_size max_send_msg_size : ℕ → CallOption
  unrelated : CallOption

pub record CallOptions : Type 0 where
  pub headers : List ℕ
  pub trailers : List ℕ
  pub peers : List ℕ
  pub creds : Option Creds
  pub max_recv : ℕ
  pub max_send : ℕ

-- The caller's variables, by address.
pub record Store : Type 0 where
  pub md_at : ℕ → Md
  pub peer_at : ℕ → Option Peer

abbrev pub assign : {V : Type 0} → (ℕ → V) → ℕ → V → ℕ → V
assign f p v q = if p == q then v else f q

-- for _, hdr := range addrs { *hdr = v }
unfoldable pub assign_all : {V : Type 0} → List ℕ → V → (ℕ → V) → ℕ → V
assign_all [] v f = f
assign_all (p ∷ ps) v f = assign_all ps v (assign f p v)

unfoldable pub set_headers : CallOptions → Md → Store → Store
set_headers co md st = record st { md_at = assign_all co.headers md st.md_at }

unfoldable pub set_trailers : CallOptions → Md → Store → Store
set_trailers co md st = record st { md_at = assign_all co.trailers md st.md_at }

unfoldable pub set_peer : CallOptions → Peer → Store → Store
set_peer co p st = record st { peer_at = assign_all co.peers (some p) st.peer_at }

-- One round of the loop of GetCallOptions.
unfoldable pub add_option : CallOptions → CallOption → CallOptions
add_option co (header_addr p) = record co { headers = co.headers ++ p ∷ [] }
add_option co (trailer_addr p) = record co { trailers = co.trailers ++ p ∷ [] }
add_option co (peer_addr p) = record co { peers = co.peers ++ p ∷ [] }
add_option co (per_rpc_creds c) = record co { creds = some c }
add_option co (max_recv_msg_size n) = record co { max_recv = n }
add_option co (max_send_msg_size n) = record co { max_send = n }
add_option co unrelated = co

abbrev pub no_options : CallOptions
no_options = record {
  headers = [];
  trailers = [];
  peers = [];
  creds = none;
  max_recv = 0;
  max_send = 0;
}

unfoldable pub add_options : CallOptions → List CallOption → CallOptions
unfolding add_option
add_options co [] = co
add_options co (o ∷ os) = add_options (add_option co o) os

unfoldable pub get_call_options : List CallOption → CallOptions
unfolding add_options
get_call_options os = add_options no_options os

module _ (api : Metadata) where
  abbrev with_metadata : Context → List (Bytes × Bytes) → Context
  with_metadata ctx [] = ctx
  with_metadata ctx (kv ∷ kvs) = elim ctx.outgoing [
    | some req ↦ record ctx { outgoing = some (api.join req (api.new_md (kv ∷ kvs))) }
    | none ↦ record ctx { outgoing = some (api.new_md (kv ∷ kvs)) }
  ]

  unfoldable pub apply_per_rpc_creds : Context → CallOptions → Bytes → Bool → Result Context
  apply_per_rpc_creds ctx co uri is_channel_secure = elim co.creds [
    | none ↦ ok ctx
    | some c ↦
        if c.require_transport_security && not is_channel_secure
        then err (other "transport security is required")
        else c.get_request_metadata ctx uri >>= λ md. ok (with_metadata ctx md)
  ]
