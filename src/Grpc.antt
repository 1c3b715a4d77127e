-- ===== src/Grpc.antt =====
-- The descriptors of google.golang.org/grpc that the code reads: grpc.MethodDesc, grpc.StreamDesc and
-- grpc.ServiceDesc, over the types of the handlers.
use grpchan.Base.{Bytes, Bool, List}

pub record MethodDesc (H : Type 0) : Type 0 where
  pub method_name : Bytes
  pub handler : H

pub record StreamDesc (H : Type 0) : Type 0 where
  pub stream_name : Bytes
  pub client_streams : Bool
  pub server_streams : Bool
  pub handler : H

-- `HandlerType` is the interface that an implementation has to satisfy.
pub record ServiceDesc (U S : Type 0) : Type 0 where
  pub service_name : Bytes
  pub handler_type : Bytes
  pub methods : List (MethodDesc U)
  pub streams : List (StreamDesc S)
  pub metadata : Bytes
