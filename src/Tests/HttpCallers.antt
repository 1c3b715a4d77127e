-- ===== src/Tests/HttpCallers.antt =====
-- A caller of a stream over HTTP, at concrete values.
use grpchan.Base.{
  is_some, length, Bytes, codes, ◌=?◌, has_suffix, lower_byte, upper_byte, to_lower, lookup, insert,
  values, append_values, IsUnique, GoError, eof, canceled, ok, err, ◌<◌, ◌≡◌, refl, Bool, true,
  false, none, some, List, [], ◌∷◌, arith,
}
use grpchan.Registry.{value}
use grpchan.Internal.CallOptions.{Peer, Store, assign_all, set_peer, no_options}
use grpchan.Httpgrpc.Protocol.{stream_rpc_content_type_v1, get_client_stream_reader}
use grpchan.Httpgrpc.Headers.{
  Base64, is_token_byte, is_token, capitalize, canonical_key, add_decoded, add_headers, as_metadata,
}
use grpchan.Httpgrpc.Status.{DetailsCodec, get_header, split_colon, read_code, stat_from_response}
use grpchan.Httpgrpc.Wire.{HttpTrailer, size_prefixed_wire}
use grpchan.Httpgrpc.ClientStream.{
  close_send, Select, reading, finished, ClientStream, new_client_stream, produce, abandon, trailer,
  from_channel, too_many_responses, recv_msg, send_msg, HttpResponse, on_ready, start,
}
use grpchan.Httpgrpc.ServerStream.{finish_stream}
use grpchan.Httpgrpc.ServerStream.Delivery.{sent_by}
use grpchan.Httpgrpc.ClientStream.Safety.{Returns}
use grpchan.Httpgrpc.ClientStream.Receiving.{drain, response_bytes}
use grpchan.Tests.HttpStreams.{
  trailer_with, IsPlain, frames, frames_faithful, failure, handler, serving, requests, at_start,
  after_run, sent_by-handler, after_run-tr, handler_messages, handler_trailer,
}
use grpchan.Httpgrpc.ClientStream.EndToEnd.{answered, drain-handler}
use grpchan.Httpgrpc.ClientStream.Single.{recv_msg-single_result, too_many-forgotten}
use grpchan.Httpgrpc.ClientStream.Runs.{
  Runs, closes, sends, reads, here, next, recv_msg-Returns, Over-Runs,
}
use grpchan.Httpgrpc.ClientStream.Schedules.{recv_msg-produce}
use grpchan.Httpgrpc.ClientStream.Termination.{drain-terminates}
use grpchan.Httpgrpc.Wire.Progress.{read_frame-IsProgressing}
use grpchan.Httpgrpc.Codes.{code_from_http_status}
use grpchan.Httpgrpc.ClientStream.Ending.{abandon_ends}

abbrev text : GoError → Bytes
text e = codes "bad"

abbrev nothing : Store
nothing = record { md_at = λ a. []; peer_at = λ a. none }

abbrev new_caller : Bool → ClientStream
new_caller many = new_client_stream no_options nothing many (record { written = []; room = none })

-- A caller whose response has come, with this input.
abbrev caller : Bool → Bytes → ClientStream
caller many b = record (new_caller many) { producer = reading (record { input = b; fail = eof }) }

-- A caller of a method with many responses, on what the handler wrote.
abbrev reader_of_handler : ClientStream
reader_of_handler = caller true (finish_stream serving frames after_run).output.written

enough_calls : length (sent_by serving frames handler at_start) < 4
enough_calls = rw sent_by-handler (omega arith)

join_all-IsUnique : IsUnique (serving.join_all after_run.1.tr)
unfolding lookup
join_all-IsUnique = rw after_run-tr (refl, tt)

drain-handler_example :
    let d = drain frames text 4 reader_of_handler in
    (d.messages ≡ sent_by serving frames handler at_start)
    × (d.ended ≡ some (answered serving frames text frames_faithful after_run.0))
    × (trailer d.stream ≡ some (serving.join_all after_run.1.tr))
unfolding new_client_stream
drain-handler_example =
    drain-handler serving frames text frames_faithful handler (codes "type") requests
      reader_of_handler 4 enough_calls handler_messages handler_trailer join_all-IsUnique refl
      (refl, refl)

abbrev two : List Bytes
two = codes "ab" ∷ codes "c" ∷ []

abbrev fine : HttpTrailer
fine = trailer_with 0 []

abbrev bytes_of : List Bytes → Bytes
bytes_of ms = response_bytes frames text frames_faithful ms fine (codes "rest")

fine-IsPlain : IsPlain fine
fine-IsPlain = (refl, omega arith)

recv_msg-single_result_example :
    (recv_msg frames text from_channel from_channel (caller false (bytes_of (codes "ab" ∷ [])))).0
    ≡ value (ok (codes "ab"))
unfolding new_client_stream
recv_msg-single_result_example =
    recv_msg-single_result frames text frames_faithful (codes "ab" ∷ []) fine (codes "rest") eof
      (caller false (bytes_of (codes "ab" ∷ []))) (omega arith, tt) fine-IsPlain refl refl
      (refl, refl)

too_many-forgotten_example :
    let (r, s) = recv_msg frames text from_channel from_channel (caller false (bytes_of two)) in
    (r ≡ value (err too_many_responses))
    × ((recv_msg frames text from_channel from_channel s).0 ≡ value (err too_many_responses))
    × ((recv_msg frames text from_channel from_channel (produce frames s)).0 ≡ value (err eof))
unfolding new_client_stream
too_many-forgotten_example =
    too_many-forgotten frames text frames_faithful (codes "ab") (codes "c") fine (codes "rest") eof
      (caller false (bytes_of two)) from_channel from_channel (omega arith) (omega arith)
      fine-IsPlain refl refl (refl, refl)

drain-terminates_example : is_some (drain frames text 7 (caller true (codes "bytes"))).ended ≡ true
unfolding new_client_stream size_prefixed_wire
drain-terminates_example =
    drain-terminates frames text read_frame-IsProgressing
      (record { input = codes "bytes"; fail = eof }) (caller true (codes "bytes")) refl

recv_msg-produce_example :
    recv_msg frames text from_channel from_channel (produce frames (caller true (bytes_of two)))
    ≡ recv_msg frames text from_channel from_channel (caller true (bytes_of two))
unfolding new_client_stream
recv_msg-produce_example =
    recv_msg-produce frames text from_channel (caller true (bytes_of two)) tt refl

abbrev failed : ClientStream
failed = record (new_caller true) { producer = finished; done = true; r_err = some failure }

Over-Runs_example :
    let s = close_send (send_msg frames (codes "ab") failed).1 in
    (recv_msg frames text from_channel from_channel s ≡ (value (err failure), s))
    × (send_msg frames (codes "c") s ≡ (value (err eof), s))
    × (trailer s ≡ trailer failed)
unfolding new_client_stream
Over-Runs_example =
    Over-Runs frames text failure failed (close_send (send_msg frames (codes "ab") failed).1)
      from_channel from_channel (codes "c") (refl, refl, refl)
      (next (next here (sends (codes "ab") failed))
        (closes (send_msg frames (codes "ab") failed).1))

abbrev plain64 : Base64
plain64 = record { encode = λ b. b; decode = λ b. some b; decode-encode = λ b. refl }

abbrev no_details : DetailsCodec
no_details = record { marshal_any = λ b. none; unmarshal_any = λ b. none }

abbrev good_reply : HttpResponse
good_reply = record {
  response = record {
    status_code = 200;
    status_text = codes "OK";
    header = (codes "Content-Type", stream_rpc_content_type_v1 ∷ []) ∷ [];
  };
  body = record { input = bytes_of two; fail = eof };
}

abbrev somewhere : Peer
somewhere = record { addr = codes "host:80"; auth_info = none }

abbrev started : ClientStream
started = record (new_caller true) {
  hd = some ((codes "content-type", stream_rpc_content_type_v1 ∷ []) ∷ []);
  producer = reading (record { input = bytes_of two; fail = eof });
}

starts :
    start plain64 plain64 no_details (λ b. b) (ok good_reply) somewhere (new_caller true)
    ≡ value started
unfolding start as_metadata add_headers add_decoded has_suffix to_lower stat_from_response
    split_colon get_header values lookup canonical_key code_from_http_status
    get_client_stream_reader new_client_stream append_values insert set_peer assign_all lower_byte
    upper_byte ◌=?◌ on_ready capitalize is_token is_token_byte read_code
starts = refl

recv_msg-Returns_example :
    Returns (recv_msg frames text from_channel from_channel (produce frames started)).0
recv_msg-Returns_example =
    recv_msg-Returns plain64 plain64 no_details (λ b. b) frames text (ok good_reply) somewhere
      (new_caller true) started (produce frames started) from_channel from_channel starts
      (next here (reads started))

-- The caller has received nothing yet when the context ends.
abandon_ends_example :
    ((abandon canceled (produce frames started)).producer ≡ finished)
    × ((last : GoError) × ((u : ClientStream)
          → Runs frames text (abandon canceled (produce frames started)) u
          → (a b : Select) (m : Bytes)
          → (recv_msg frames text a b u ≡ (value (err last), u))
            × (send_msg frames m u ≡ (value (err eof), u))))
abandon_ends_example =
    abandon_ends plain64 plain64 no_details (λ b. b) frames text (ok good_reply) somewhere
      (new_caller true) started started canceled starts here
