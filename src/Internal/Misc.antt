-- ===== src/Internal/Misc.antt =====
-- internal/misc.go: context errors as gRPC errors, and the method tables.
use grpchan.Base.{
  if◌then◌else◌, Bytes, codes, ◌=?◌, GoError, deadline_exceeded, canceled, status_error, ℕ, Option,
  none, some, List, [], ◌∷◌,
}
use grpchan.Grpc.{MethodDesc, StreamDesc}

abbrev pub code_canceled : ℕ
code_canceled = 1

abbrev pub code_deadline_exceeded : ℕ
code_deadline_exceeded = 4

-- TranslateContextError, and the same function statusFromContextError of httpgrpc/client.go.
unfoldable pub translate_context_error : GoError → GoError
translate_context_error deadline_exceeded = status_error (record {
  code = code_deadline_exceeded;
  message = codes "context deadline exceeded";
  details = [];
})
translate_context_error canceled =
    status_error (record { code = code_canceled; message = codes "context canceled"; details = [] })
translate_context_error e = e

module _ {H : Type 0} where
  unfoldable pub find_unary_method : Bytes → List (MethodDesc H) → Option (MethodDesc H)
  find_unary_method name [] = none
  find_unary_method name (m ∷ ms) =
      if m.method_name =? name then some m else find_unary_method name ms

  unfoldable pub find_streaming_method : Bytes → List (StreamDesc H) → Option (StreamDesc H)
  find_streaming_method name [] = none
  find_streaming_method name (m ∷ ms) =
      if m.stream_name =? name then some m else find_streaming_method name ms
