-- ===== src/Tests/HttpRequests.antt =====
-- Requests of a stream over HTTP, sent by a caller and received by a handler.
use grpchan.Base.{All, Bytes, codes, eof, ◌≡◌, refl, true, none, some, List, [], ◌∷◌, arith}
use grpchan.Internal.CallOptions.{no_options}
use grpchan.Httpgrpc.Wire.Requests.{Carries, size_prefixed_wire-Carries}
use grpchan.Httpgrpc.ClientStream.{ClientStream, new_client_stream, close_send, request_body}
use grpchan.Httpgrpc.ClientStream.Requests.{send_all, receive_requests-send_all}
use grpchan.Httpgrpc.ServerStream.{ServerStream}
use grpchan.Httpgrpc.ServerStream.Receiving.{receive_requests}
use grpchan.Tests.HttpStreams.{bytes_codecs, IsSmall, message_codec-IsLossless, frames, at_start}

frames-Carries : Carries frames IsSmall
frames-Carries =
    size_prefixed_wire-Carries bytes_codecs (λ m. m) IsSmall (message_codec-IsLossless IsSmall)
      (λ m fits. fits)

abbrev caller : ClientStream
caller =
    new_client_stream no_options (record { md_at = λ a. []; peer_at = λ a. none }) true
      (record { written = []; room = none })

abbrev three : List Bytes
three = codes "one" ∷ [] ∷ codes "three" ∷ []

three-IsSmall : All IsSmall three
three-IsSmall = (omega arith, (omega arith, (omega arith, tt)))

-- The server's stream over what the caller has written.
abbrev receiving : ServerStream
receiving = record at_start { input = request_body (close_send (send_all frames three caller)) }

receive_requests-send_all_example :
    receive_requests frames 4 receiving ≡ record { requests = three; failed = some eof }
unfolding new_client_stream
receive_requests-send_all_example =
    receive_requests-send_all frames frames-Carries three caller receiving 4 (omega arith)
      three-IsSmall (refl, refl, refl) refl
