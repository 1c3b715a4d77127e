-- ===== src/Tests/Streams.antt =====
-- A short in-process stream: headers, two messages, a trailer and an error.
use grpchan.Base.{
  length, codes, eof, canceled, ok, err, ℕ, suc, ◌≡◌, refl, Bool, true, false, none, some, List, [],
  ◌∷◌,
}
use grpchan.Internal.Misc.{translate_context_error}
use grpchan.Internal.CallOptions.{header_addr, add_option, no_options}
use grpchan.Inproc.{Cloner, IsFaithful, remote_closed, delivered_late, dropped}
use grpchan.Inproc.Server.{in_headers, Env, live, new_stream, finish}
use grpchan.Inproc.Server.Protocol.{
  Call, sets_header, sets_trailer, sends_msg, run, serve, serve_safe,
}
use grpchan.Inproc.Server.Delivery.{all_live, messages, expected_frames, serve-expected_frames}
use grpchan.Inproc.Client.Headers.{header-recv_msg}
use grpchan.Inproc.Client.{ClientStream, too_many, recv_msg, header}
use grpchan.Inproc.Client.Laws.{awaiting, receive_all, stream_end_to_end, single_end_to_end}

abbrev same_value : Cloner ℕ
same_value = record { copy = λ m. ok m; clone = λ m. ok m }

same_value-IsFaithful : IsFaithful same_value
same_value-IsFaithful = record { copies = λ m. refl; clones = λ m. refl }

abbrev script : List (Call ℕ)
script =
    sets_header ((codes "a", codes "1" ∷ []) ∷ [])
    ∷ sends_msg (some 7)
    ∷ sets_trailer ((codes "t", codes "2" ∷ []) ∷ [])
    ∷ sends_msg (some 8)
    ∷ []

abbrev caller : Bool → ClientStream ℕ
caller many = record {
  cloner = same_value;
  copts = add_option no_options (header_addr 0);
  store = record { md_at = λ p. []; peer_at = λ p. none };
  response_stream = many;
  responses = [];
  turns = [];
  state = in_headers;
  last = none;
  headers = none;
  trailers = none;
  send_closed = false;
  requests = record { sent = []; closed = false; panicked = false };
}

stream_end_to_end_example :
    receive_all (suc (length (messages script))) (
      awaiting
        (serve same_value (all_live script) live (some canceled) []).responses.sent
        (caller true))
    ≡ (7 ∷ 8 ∷ [], translate_context_error canceled)
stream_end_to_end_example =
    stream_end_to_end script (some canceled) (caller true) refl same_value-IsFaithful

single_end_to_end_example :
    (recv_msg
      (awaiting (serve same_value (all_live script) live none []).responses.sent (caller false))).0
    ≡ err too_many
single_end_to_end_example = single_end_to_end script none (caller false) refl same_value-IsFaithful

serve-expected_frames_example :
    (serve same_value (all_live script) live (some eof) []).responses.sent
    ≡ expected_frames script (some eof)
serve-expected_frames_example =
    serve-expected_frames same_value same_value-IsFaithful script (some eof)

header-recv_msg_example :
    let fs = expected_frames script (some canceled) in
    (recv_msg (header (awaiting fs (caller true))).1).0 ≡ (recv_msg (awaiting fs (caller true))).0
header-recv_msg_example =
    header-recv_msg (expected_frames script (some canceled)) (caller true) refl refl

abbrev ending : Env
ending = record {
  ctx_err = some canceled;
  first = dropped canceled;
  second = delivered_late canceled;
  third = remote_closed;
}

serve_safe_example :
    (serve same_value
        ((live, sends_msg (some 7)) ∷ [])
        ending
        (some eof)
        ((live, sends_msg (some 8)) ∷ [])
      ≡ finish ending (some eof) (run same_value ((live, sends_msg (some 7)) ∷ []) new_stream))
    × ((serve same_value
          ((live, sends_msg (some 7)) ∷ [])
          ending
          (some eof)
          ((live, sends_msg (some 8)) ∷ [])).responses.closed
        ≡ true)
    × ((serve same_value
          ((live, sends_msg (some 7)) ∷ [])
          ending
          (some eof)
          ((live, sends_msg (some 8)) ∷ [])).responses.panicked
        ≡ false)
serve_safe_example =
    serve_safe same_value ((live, sends_msg (some 7)) ∷ []) ending (some eof)
      ((live, sends_msg (some 8)) ∷ [])
