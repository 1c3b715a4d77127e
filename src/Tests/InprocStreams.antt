-- ===== src/Tests/InprocStreams.antt =====
-- A stream of an in-process channel, from the registration of its service.
-- Sends what a service holds, and fails.
use grpchan.Base.{
  ◌==◌, Bytes, codes, ◌=?◌, lookup, eof, other, ok, ℕ, suc, ◌≡◌, refl, Bool, true, none, some, [],
  ◌∷◌,
}
use grpchan.Registry.{value, query_service}
use grpchan.Grpc.{StreamDesc, ServiceDesc}
use grpchan.Internal.Misc.{translate_context_error, find_streaming_method}
use grpchan.Internal.CallOptions.{
  Store, set_peer, no_options, add_options, get_call_options, apply_per_rpc_creds,
}
use grpchan.Inproc.{Cloner, IsFaithful}
use grpchan.Inproc.Contexts.{
  outgoing_key, other_key, Ctx, background, with_value, metadata_value, other_value, value_of,
  is_done, from_outgoing, inprocess_peer, make_server_context, client_context,
  make_server_context-server_value,
}
use grpchan.Inproc.Unary.{split_slash, with_slash}
use grpchan.Inproc.Server.Protocol.{sends_msg}
use grpchan.Inproc.Server.Delivery.{all_live}
use grpchan.Inproc.Client.{ClientStream, close_send}
use grpchan.Inproc.Client.Laws.{awaiting, receive_all}
use grpchan.Inproc.Requests.EndToEnd.{send_all, receive_requests}
use grpchan.Inproc.Channel.{
  StreamHandler, StreamInterceptor, Channel, Opened, find_stream, open_stream, credited, new_stream,
  responses_of,
}
use grpchan.Inproc.Channel.Streams.{new_stream_end_to_end}
use grpchan.Tests.Invocations.{tables}

abbrev greeting : StreamHandler ℕ ℕ
greeting h ctx fs =
    (all_live (sends_msg (some h) ∷ sends_msg (some 8) ∷ []), some (other "failure"))

abbrev chat : StreamDesc (StreamHandler ℕ ℕ)
chat = record {
  stream_name = codes "Chat";
  client_streams = true;
  server_streams = true;
  handler = greeting;
}

abbrev chatter : ServiceDesc ℕ (StreamHandler ℕ ℕ)
chatter = record {
  service_name = codes "s";
  handler_type = codes "Chatter";
  methods = [];
  streams = chat ∷ [];
  metadata = [];
}

abbrev numbers : Cloner ℕ
numbers = record { copy = λ m. ok m; clone = λ m. ok m }

numbers-IsFaithful : IsFaithful numbers
numbers-IsFaithful = record { copies = λ m. refl; clones = λ m. refl }

abbrev counting : StreamInterceptor ℕ ℕ
counting info handler h = handler (suc h)

abbrev empty_channel : Channel ℕ ℕ ℕ ℕ
empty_channel = record {
  handlers = none;
  unary_interceptor = none;
  stream_interceptor = some counting;
  cloner = none;
}

abbrev accepts_all : ℕ → Bytes → Bool
accepts_all h type_name = true

abbrev chatting : Channel ℕ ℕ ℕ ℕ
chatting = record empty_channel {
  handlers = some ((codes "s", record { desc = chatter; impl = 5 }) ∷ []);
}

abbrev client_side : Ctx
client_side =
    with_value (other_key 3) (other_value 7)
      (with_value outgoing_key (metadata_value ((codes "k", codes "v" ∷ []) ∷ [])) background)

abbrev no_variables : Store
no_variables = record { md_at = λ a. []; peer_at = λ a. none }

abbrev opened_chat : Opened ℕ
opened_chat =
    open_stream tables numbers empty_channel 0 (set_peer no_options inprocess_peer no_variables)
      no_options true (codes "/s/Chat")
      (credited tables numbers empty_channel client_side
        (record { outgoing = from_outgoing client_side }))
      (5, chat)

opens_chat :
    new_stream tables numbers chatting 0 no_variables client_side true (codes "/s/Chat") []
    ≡ value (ok opened_chat)
unfolding new_stream get_call_options add_options find_streaming_method find_stream query_service
    split_slash with_slash apply_per_rpc_creds lookup ◌=?◌
opens_chat = refl

abbrev after_sending : ClientStream ℕ
after_sending = close_send (send_all (1 ∷ 2 ∷ []) opened_chat.client_end)

new_stream_end_to_end_example :
    (receive_requests numbers eof 3 after_sending.requests.sent ≡ some (1 ∷ 2 ∷ [], eof))
    × (receive_all 3
          (awaiting (responses_of numbers opened_chat after_sending.requests.sent) after_sending)
        ≡ (6 ∷ 8 ∷ [], other "failure"))
unfolding open_stream translate_context_error
new_stream_end_to_end_example =
    new_stream_end_to_end tables numbers chatting 0 no_variables client_side [] (codes "/s/Chat")
      eof (1 ∷ 2 ∷ []) (sends_msg (some 6) ∷ sends_msg (some 8) ∷ []) (some (other "failure"))
      numbers-IsFaithful opens_chat refl

make_server_context-server_value_example :
    (value_of (make_server_context client_side) (other_key 3) ≡ none)
    × (is_done (λ n. n == 2) (make_server_context client_side) ≡ is_done (λ n. n == 2) client_side)
    × (client_context (make_server_context client_side) ≡ some client_side)
make_server_context-server_value_example =
    make_server_context-server_value client_side (λ n. n == 2) (other_key 3)
