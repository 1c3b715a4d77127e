-- ===== src/Httpgrpc/Json.antt =====
-- httpgrpc/json.go: jsonCodec and asProtoMessage. Package protojson, and the view of an old message as a
-- new one, are parameters.
use grpchan.Base.{Bytes, other, Result, ok, err, ◌>>=◌, ◌≡◌}
use grpchan.Httpgrpc.Frames.{Codec}
use grpchan.Httpgrpc.Wire.Laws.{IsLossless}

-- An interface{} value: a proto.Message, one of the old package, or neither.
pub data AnyMessage (M Old : Type 0) : Type 0 where
  new_message : M → AnyMessage M Old
  old_message : Old → AnyMessage M Old
  no_message : AnyMessage M Old

-- protojson's Marshal and Unmarshal, which is given what its target holds, and protov1.MessageV2
pub record Protojson (M Old : Type 0) : Type 0 where
  pub marshal_json : M → Result Bytes
  pub unmarshal_json : Bytes → M → Result M
  pub message_v2 : Old → M

module _ {M Old : Type 0} (pj : Protojson M Old) where
  unfoldable pub as_proto_message : AnyMessage M Old → Result M
  as_proto_message (new_message m) = ok m
  as_proto_message (old_message m) = ok (pj.message_v2 m)
  as_proto_message no_message = err (other "value does not implement proto.Message")

  -- Marshal
  unfoldable pub json_marshal : AnyMessage M Old → Result Bytes
  unfolding as_proto_message
  json_marshal v = as_proto_message v >>= pj.marshal_json

  -- Unmarshal, with what the target holds behind it.
  unfoldable pub json_unmarshal : Bytes → AnyMessage M Old → Result M
  unfolding as_proto_message
  json_unmarshal b v = as_proto_message v >>= pj.unmarshal_json b

  -- The codec that the transports use for messages of a type, with a blank one as the target.
  unfoldable pub json_codec : M → Codec M
  unfolding json_marshal json_unmarshal
  json_codec blank = record {
    marshal = λ m. json_marshal (new_message m);
    unmarshal = λ b. json_unmarshal b (new_message blank);
  }

  -- The codec is lossless for messages that protojson reads back into a blank one.
  pub json_codec-IsLossless :
      (blank : M) (text : M → Bytes) (Fits : M → Type 0)
      → ((m : M) → Fits m → pj.marshal_json m ≡ ok (text m))
      → ((m : M) → Fits m → pj.unmarshal_json (text m) blank ≡ ok m)
      → IsLossless (json_codec blank) text Fits
  unfolding json_codec
  json_codec-IsLossless blank text Fits marshals reads = record {
    marshals = λ m fits. marshals m fits;
    unmarshals = λ m fits. reads m fits;
  }
