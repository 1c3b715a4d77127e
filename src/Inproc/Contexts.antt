-- ===== src/Inproc/Contexts.antt =====
-- inprocgrpc/in_process.go: makeServerContext, ClientContext and noValuesContext, over package context:
-- a context is its chain of wrappers, and contexts are values of contexts. A deadline is a wrapper that
-- ends by itself.
use grpchan.Base.{
  ◌==◌, if◌then◌else◌, codes, Md, ℕ, ◌≡◌, Bool, true, false, ◌||◌, Option, none, some, arith,
}
use grpchan.Internal.CallOptions.{Peer}

-- The keys of a context's values: those of packages metadata and peer, clientContextKey, and any other.
pub data Key : Type 0 where
  outgoing_key incoming_key peer_key client_context_key : Key
  other_key : ℕ → Key

mutual
  pub data Ctx : Type 0 where
    background : Ctx
    with_value : Key → Value → Ctx → Ctx
    -- context.WithCancel and context.WithDeadline, each with its own number
    with_cancel : ℕ → Ctx → Ctx
    no_values : Ctx → Ctx

  pub data Value : Type 0 where
    metadata_value : Md → Value
    peer_value : Peer → Value
    context_value : Ctx → Value
    other_value : ℕ → Value

unfoldable pub same_key : Key → Key → Bool
same_key outgoing_key outgoing_key = true
same_key incoming_key incoming_key = true
same_key peer_key peer_key = true
same_key client_context_key client_context_key = true
same_key (other_key n) (other_key k) = n == k
same_key _ _ = false

-- Value
unfoldable pub value_of : Ctx → Key → Option Value
value_of background k = none
value_of (with_value j v ctx) k = if same_key j k then some v else value_of ctx k
value_of (with_cancel n ctx) k = value_of ctx k
value_of (no_values ctx) k = none

-- Whether Done is closed, when those of the given numbers have been cancelled or are overdue.
unfoldable pub is_done : (ℕ → Bool) → Ctx → Bool
is_done ended background = false
is_done ended (with_value k v ctx) = is_done ended ctx
is_done ended (with_cancel n ctx) = ended n || is_done ended ctx
is_done ended (no_values ctx) = is_done ended ctx

abbrev as_metadata : Option Value → Option Md
as_metadata (some (metadata_value md)) = some md
as_metadata _ = none

abbrev as_context : Option Value → Option Ctx
as_context (some (context_value ctx)) = some ctx
as_context _ = none

-- metadata.FromOutgoingContext and metadata.FromIncomingContext
unfoldable pub from_outgoing : Ctx → Option Md
unfolding value_of
from_outgoing ctx = as_metadata (value_of ctx outgoing_key)

unfoldable pub from_incoming : Ctx → Option Md
unfolding value_of
from_incoming ctx = as_metadata (value_of ctx incoming_key)

abbrev pub inprocess_peer : Peer
inprocess_peer = record { addr = codes "0"; auth_info = some (codes "inproc") }

abbrev with_incoming : Option Md → Ctx → Ctx
with_incoming none ctx = ctx
with_incoming (some md) ctx = with_value incoming_key (metadata_value md) ctx

unfoldable pub make_server_context : Ctx → Ctx
unfolding from_outgoing
make_server_context ctx = with_value client_context_key (context_value ctx) (
    with_value peer_key (peer_value inprocess_peer)
      (with_incoming (from_outgoing ctx) (no_values ctx)))

unfoldable pub client_context : Ctx → Option Ctx
unfolding value_of
client_context ctx = as_context (value_of ctx client_context_key)

-- The values of a server context.
abbrev pub server_value : Ctx → Key → Option Value
server_value ctx outgoing_key = none
server_value ctx incoming_key = elim (from_outgoing ctx) [
  | none ↦ none
  | some md ↦ some (metadata_value md)
]
server_value ctx peer_key = some (peer_value inprocess_peer)
server_value ctx client_context_key = some (context_value ctx)
server_value ctx (other_key n) = none

-- All that a server context shows is the client's outgoing metadata as incoming metadata, the peer and
-- the client's context, which ClientContext gives back, and no other value of that; it has ended when
-- the client's context has, and only then.
pub make_server_context-server_value :
    (ctx : Ctx) (ended : ℕ → Bool) (k : Key)
    → (value_of (make_server_context ctx) k ≡ server_value ctx k)
      × (is_done ended (make_server_context ctx) ≡ is_done ended ctx)
      × (client_context (make_server_context ctx) ≡ some ctx)
unfolding make_server_context value_of is_done client_context same_key
make_server_context-server_value ctx ended outgoing_key = ground arith
make_server_context-server_value ctx ended incoming_key = ground arith
make_server_context-server_value ctx ended peer_key = ground arith
make_server_context-server_value ctx ended client_context_key = ground arith
make_server_context-server_value ctx ended (other_key n) = ground arith
