-- ===== src/Registry/Laws.antt =====
-- Registration is insert-only: a name keeps its first handler.
use grpchan.Base.{
  if◌then◌else◌, Bool-cases, Option-cases, Bytes, ◌=?◌, =?_iff, =?_refl, lookup, insert,
  lookup-insert, ◌≡◌, refl, ap, ◌∙◌, inl, inr, Bool, true, false, none, some, List, [], ◌∷◌, ◌++◌,
  map, String, arith,
}
use grpchan.Grpc.{ServiceDesc, MethodDesc, StreamDesc}
use grpchan.Registry.{
  value, panic, MethodInfo, ServiceInfo, Service, HandlerMap, method_infos, register_service,
  query_service, collect_info, get_service_info,
}

module _ {U S H : Type 0} (implements : H → Bytes → Bool) where
  -- What RegisterService does, on each branch: it panics, or the name is new and then it alone reads
  -- as the new service.
  pub register_service-query_service :
      (m : HandlerMap U S H) (d : ServiceDesc U S) (h : H) {m' : HandlerMap U S H} (name : Bytes)
      → register_service implements m d h ≡ value m'
      → (implements h d.handler_type ≡ true)
        × (query_service m d.service_name ≡ none)
        × (query_service m' name
            ≡ (if d.service_name =? name then some (d, h) else query_service m name))
  unfolding register_service query_service
  register_service-query_service m d h name e = (
    ground arith,
    ground arith,
    ground (arith, lookup-insert d.service_name name (record { desc = d; impl = h }) m),
  )

  -- A second registration of a name panics, whatever the handler.
  pub register_service_twice :
      (m : HandlerMap U S H) (d : ServiceDesc U S) (h : H) {m' : HandlerMap U S H}
      (d' : ServiceDesc U S) (h' : H)
      → register_service implements m d h ≡ value m'
      → d'.service_name ≡ d.service_name
      → (why : String) × (register_service implements m' d' h' ≡ panic why)
  unfolding register_service
  register_service_twice m d h {m'} d' h' e same =
      elim (Bool-cases (implements h' d'.handler_type)) [
        | inl good ↦ (
          "handler already registered",
          ground (
            arith,
            lookup-insert d.service_name d'.service_name (record { desc = d; impl = h }) m,
            =?_refl d.service_name,
          ),
        )
        | inr bad ↦ ("handler does not satisfy the service's interface", ground arith)
      ]

-- Each service stands under its own name, once.
abbrev pub IsKeyed : {U S H : Type 0} → HandlerMap U S H → Type 0
IsKeyed [] = Unit {0}
IsKeyed ((k, svc) ∷ m) = (svc.desc.service_name ≡ k) × (lookup k m ≡ none) × IsKeyed m

-- What a service tells of its streams, and of its methods before them.
abbrev pub described_streams : {S : Type 0} → List (StreamDesc S) → List MethodInfo
described_streams [] = []
described_streams (sd ∷ sds) =
    record {
      name = sd.stream_name;
      is_client_stream = sd.client_streams;
      is_server_stream = sd.server_streams;
    }
    ∷ described_streams sds

abbrev pub described_methods :
    {U : Type 0} → List (MethodDesc U) → List MethodInfo → List MethodInfo
described_methods [] rest = rest
described_methods (md ∷ mds) rest =
    record { name = md.method_name; is_client_stream = false; is_server_stream = false }
    ∷ described_methods mds rest

-- The description of a service: its unary methods, then its streams with their two flags.
abbrev pub info_of : {U S : Type 0} → ServiceDesc U S → ServiceInfo
info_of d = record {
  methods_info = described_methods d.methods (described_streams d.streams);
  info_metadata = d.metadata;
}

module _ {S : Type 0} where
  map-described_streams :
      (sds : List (StreamDesc S))
      → map
          (λ s. record {
            name = s.stream_name;
            is_client_stream = s.client_streams;
            is_server_stream = s.server_streams;
          })
          sds
        ≡ described_streams sds
  map-described_streams [] = refl
  map-described_streams (sd ∷ sds) =
      ap
        (λ l.
          record {
            name = sd.stream_name;
            is_client_stream = sd.client_streams;
            is_server_stream = sd.server_streams;
          }
          ∷ l)
        (map-described_streams sds)

module _ {U : Type 0} where
  map-described_methods :
      (mds : List (MethodDesc U)) (rest : List MethodInfo)
      → map
            (λ m. record {
              name = m.method_name;
              is_client_stream = false;
              is_server_stream = false;
            })
            mds
          ++ rest
        ≡ described_methods mds rest
  map-described_methods [] rest = refl
  map-described_methods (md ∷ mds) rest =
      ap
        (λ l.
          record { name = md.method_name; is_client_stream = false; is_server_stream = false } ∷ l)
        (map-described_methods mds rest)

module _ {U S : Type 0} where
  method_infos-info_of :
      (d : ServiceDesc U S)
      → record { methods_info = method_infos d; info_metadata = d.metadata } ≡ info_of d
  unfolding method_infos
  method_infos-info_of d =
      ap (λ l. record { methods_info = l; info_metadata = d.metadata })
        (map-described_methods d.methods _
          ∙ ap (described_methods d.methods) (map-described_streams d.streams))

module _ {U S H : Type 0} where
  insert-IsKeyed :
      (k : Bytes) (svc : Service U S H) (m : HandlerMap U S H)
      → svc.desc.service_name ≡ k
      → lookup k m ≡ none
      → IsKeyed m
      → IsKeyed (insert k svc m)
  unfolding insert lookup
  insert-IsKeyed k svc [] own new v = (own, refl, tt)
  insert-IsKeyed k svc ((j, w) ∷ m) own new v =
      ground (arith, insert-IsKeyed k svc m own, lookup-insert k j svc m, =?_iff k j, =?_iff j k)

  -- RegisterService keeps every service under its own name, once.
  pub register_service-IsKeyed :
      (implements : H → Bytes → Bool) (m : HandlerMap U S H) (d : ServiceDesc U S) (h : H)
      {m' : HandlerMap U S H}
      → IsKeyed m
      → register_service implements m d h ≡ value m'
      → IsKeyed m'
  unfolding register_service
  register_service-IsKeyed implements m d h v e = ground (
    arith,
    insert-IsKeyed d.service_name (record { desc = d; impl = h }) m refl,
    Option-cases (lookup d.service_name m),
  )

  collect_info-lookup :
      (m : HandlerMap U S H) (ret : List (Bytes × ServiceInfo)) (name : Bytes)
      → IsKeyed m
      → lookup name (collect_info ret m) ≡ (elim (query_service m name) [
        | some found ↦ some (info_of found.0)
        | none ↦ lookup name ret
      ])
  unfolding collect_info query_service lookup
  collect_info-lookup [] ret name v = refl
  collect_info-lookup ((k, svc) ∷ m) ret name v =
      let ret' = insert svc.desc.service_name (info_of svc.desc) ret in
      ground (
        arith,
        collect_info-lookup m ret' name v.2,
        lookup-insert svc.desc.service_name name (info_of svc.desc) ret,
        method_infos-info_of svc.desc,
        =?_iff k name,
      )

  -- On a registry that keeps each service under its own name, once, GetServiceInfo describes exactly
  -- the services that QueryService finds: with their metadata, their unary methods, which stream in
  -- neither direction, and then their streams, with the two flags of each.
  pub get_service_info-query_service :
      (m : HandlerMap U S H) (name : Bytes)
      → IsKeyed m
      → lookup name (get_service_info m)
        ≡ (elim (query_service m name) [ some found ↦ some (info_of found.0) | none ↦ none ])
  unfolding get_service_info lookup
  get_service_info-query_service m name v = collect_info-lookup m [] name v
