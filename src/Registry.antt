-- ===== src/Registry.antt =====
-- server.go: HandlerMap, the map from service names to registered handlers. Whether a handler's type
-- implements a service's interface is Go's reflection, a parameter.
pub mod Laws
use grpchan.Base.{
  if◌then◌else◌, is_some, Bytes, lookup, insert, Bool, false, not, Option, none, some, List, [],
  ◌∷◌, ◌++◌, map, String,
}
use grpchan.Grpc.{ServiceDesc}

-- A Go call that may panic.
pub data Outcome (A : Type 0) : Type 0 where
  value : A → Outcome A
  panic : String → Outcome A

-- grpc.MethodInfo and grpc.ServiceInfo
pub record MethodInfo : Type 0 where
  pub name : Bytes
  pub is_client_stream : Bool
  pub is_server_stream : Bool

pub record ServiceInfo : Type 0 where
  pub methods_info : List MethodInfo
  pub info_metadata : Bytes

-- U and S are the types of the unary and streaming handlers, H that of service implementations.
pub record Service (U S H : Type 0) : Type 0 where
  pub desc : ServiceDesc U S
  pub impl : H

abbrev pub HandlerMap : Type 0 → Type 0 → Type 0 → Type 0
HandlerMap U S H = List (Bytes × Service U S H)

unfoldable pub method_infos : {U S : Type 0} → ServiceDesc U S → List MethodInfo
method_infos d =
    map (λ m. record { name = m.method_name; is_client_stream = false; is_server_stream = false })
      d.methods
    ++ map
        (λ s. record {
          name = s.stream_name;
          is_client_stream = s.client_streams;
          is_server_stream = s.server_streams;
        })
        d.streams

module _ {U S H : Type 0} where
  unfoldable pub register_service :
      (H → Bytes → Bool) → HandlerMap U S H → ServiceDesc U S → H → Outcome (HandlerMap U S H)
  register_service implements m desc h =
      if not (implements h desc.handler_type)
      then panic "handler does not satisfy the service's interface"
      else if is_some (lookup desc.service_name m)
      then panic "handler already registered"
      else value (insert desc.service_name (record { desc = desc; impl = h }) m)

  -- A missing key reads as the zero service, whose fields are nil.
  unfoldable pub query_service : HandlerMap U S H → Bytes → Option (ServiceDesc U S × H)
  query_service m name = elim (lookup name m) [ some svc ↦ some (svc.desc, svc.impl) | none ↦ none ]

  -- The loop of GetServiceInfo over the map.
  unfoldable pub collect_info :
      List (Bytes × ServiceInfo) → HandlerMap U S H → List (Bytes × ServiceInfo)
  unfolding method_infos
  collect_info ret [] = ret
  collect_info ret ((k, svc) ∷ m) =
      collect_info
        (insert svc.desc.service_name
          (record { methods_info = method_infos svc.desc; info_metadata = svc.desc.metadata }) ret)
        m

  unfoldable pub get_service_info : HandlerMap U S H → List (Bytes × ServiceInfo)
  unfolding collect_info
  get_service_info m = collect_info [] m

  -- ForEach, with the effect of the function on a state.
  unfoldable pub for_each :
      {St : Type 0} → HandlerMap U S H → (ServiceDesc U S → H → St → St) → St → St
  for_each [] fn st = st
  for_each ((k, svc) ∷ m) fn st = for_each m fn (fn svc.desc svc.impl st)
