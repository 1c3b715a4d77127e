-- ===== src/Tests/Invocations.antt =====
-- Unary in-process calls of one registered method.
use grpchan.Base.{
  if◌then◌else◌, Bytes, codes, ◌=?◌, =?_iff, lookup, delete, Md, values, merge, gathered,
  values-merge, ok, err, ℕ, ◌+◌, ◌≡◌, refl, ◌∙◌, Option, none, some, List, [], ◌∷◌, append-nil,
  arith,
}
use grpchan.Grpc.{MethodDesc, ServiceDesc}
use grpchan.Registry.{value, query_service}
use grpchan.Internal.Misc.{find_unary_method}
use grpchan.Internal.CallOptions.{
  Metadata, CallOption, header_addr, peer_addr, Store, set_peer, get_call_options,
}
use grpchan.Internal.TransportStream.{new, set_header}
use grpchan.Inproc.{Cloner, IsFaithful}
use grpchan.Inproc.Contexts.{background, inprocess_peer}
use grpchan.Inproc.Unary.{all_written}
use grpchan.Inproc.Unary.Routing.{SlashFree}
use grpchan.Inproc.Unary.Laws.{never}
use grpchan.Inproc.Channel.{StreamHandler, Channel, handlers_of}
use grpchan.Inproc.Channel.Invoking.{UnaryHandler, returned, invoke, invoke-returned_by_handler}

-- A table in which each key stands once, with its first values.
abbrev pub once : Md → Md
once [] = []
once ((k, vs) ∷ m) = (k, vs) ∷ delete k (once m)

gathered-delete :
    (j k : Bytes) (m : Md) → gathered k (delete j m) ≡ (if j =? k then [] else gathered k m)
unfolding gathered delete
gathered-delete j k [] = ground arith
gathered-delete j k ((i, vs) ∷ m) =
    ground (arith, =?_iff i j, =?_iff i k, =?_iff j k, gathered-delete j k m)

pub gathered-once : (k : Bytes) (m : Md) → gathered k (once m) ≡ values k m
unfolding gathered values lookup
gathered-once k [] = refl
gathered-once k ((j, vs) ∷ m) =
    ground (arith, gathered-delete j k (once m), gathered-once k m, append-nil vs)

abbrev pub single_values : List (Bytes × Bytes) → Md
single_values [] = []
single_values ((k, v) ∷ kvs) = (k, v ∷ []) ∷ single_values kvs

abbrev pub tables : Metadata
tables = record {
  new_md = single_values;
  join = λ a b. merge a (once b);
  values-join = λ a b k. values-merge a (once b) k ∙ rw (gathered-once k b);
}

abbrev plus : Option ℕ → ℕ → ℕ
plus none n = n
plus (some i) n = i + n

abbrev same_number : Cloner ℕ
same_number = record { copy = λ m. ok m; clone = λ m. ok m }

same_number-IsFaithful : IsFaithful same_number
same_number-IsFaithful = record { copies = λ m. refl; clones = λ m. refl }

-- A handler that adds to the request what the interceptor of the channel is, and sets a header.
abbrev adding : UnaryHandler ℕ Bytes ℕ
adding svr ctx decoded interceptor sts = (
  elim decoded [ ok req ↦ (some (plus interceptor req), none) | err e ↦ (none, some e) ],
  (set_header ((codes "k", codes "v" ∷ []) ∷ []) sts).1,
)

abbrev add_method : MethodDesc (UnaryHandler ℕ Bytes ℕ)
add_method = record { method_name = codes "Add"; handler = adding }

abbrev adder : ServiceDesc (UnaryHandler ℕ Bytes ℕ) (StreamHandler Bytes ℕ)
adder = record {
  service_name = codes "s";
  handler_type = codes "Adder";
  methods = add_method ∷ [];
  streams = [];
  metadata = [];
}

abbrev adding_channel : Channel (UnaryHandler ℕ Bytes ℕ) ℕ Bytes ℕ
adding_channel = record {
  handlers = some ((codes "s", record { desc = adder; impl = codes "impl" }) ∷ []);
  unary_interceptor = some 5;
  stream_interceptor = none;
  cloner = none;
}

abbrev caller_options : List CallOption
caller_options = header_addr 0 ∷ peer_addr 1 ∷ []

abbrev variables : Store
variables = record { md_at = λ a. []; peer_at = λ a. none }

no_credentials : (get_call_options caller_options).creds ≡ none
unfolding get_call_options
no_credentials = refl

found : query_service (handlers_of adding_channel) (codes "s") ≡ some (adder, codes "impl")
unfolding query_service lookup ◌=?◌
found = refl

has : find_unary_method (codes "Add") adder.methods ≡ some add_method
unfolding find_unary_method ◌=?◌
has = refl

s_free : SlashFree (codes "s")
s_free = (refl, tt)

invoke-returned_by_handler_example :
    invoke tables same_number adding_channel 0 variables background caller_options all_written never
      (codes "/s/Add")
      (some 2)
    ≡ value (
        returned
          (get_call_options caller_options)
          (set_peer (get_call_options caller_options) inprocess_peer variables)
          (set_header ((codes "k", codes "v" ∷ []) ∷ []) (new (codes "/s/Add"))).1
          (some 7, none))
invoke-returned_by_handler_example =
    invoke-returned_by_handler tables same_number adding_channel 0 variables background
      caller_options (codes "s") (codes "Add") 2 adder (codes "impl") add_method s_free found has
      no_credentials same_number-IsFaithful
