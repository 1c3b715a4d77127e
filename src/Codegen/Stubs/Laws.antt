-- ===== src/Codegen/Stubs/Laws.antt =====
-- The elements of a service and its stubs, against its descriptor.
use grpchan.Base.{
  if◌then◌else◌, Bool-cases, length, length-append, ℕ, zero, suc, ◌≡◌, refl, sym, ap, ◌∙◌, inl, inr,
  Bool, true, false, not, ◌||◌, Option, none, some, List, [], ◌∷◌, ◌++◌, map, Bytes, codes,
  append_assoc, arith,
}
use grpchan.Codegen.Args.{CodeGenArgs}
use grpchan.Codegen.Stubs.{
  Method, Service, Names, Body, opens_stream, invokes, Stub, Element, register_handler, client_type,
  new_client, client_method, service_desc_var_name, body_by_flags, stub_body, generate_stubs,
  generate_service,
}

-- The entries of Streams of a service's grpc.ServiceDesc: the streaming methods, in order.
abbrev pub streams_of : List Method → List Method
streams_of [] = []
streams_of (md ∷ mds) =
    if md.is_client_streaming || md.is_server_streaming then md ∷ streams_of mds else streams_of mds

abbrev pub entry_at : List Method → ℕ → Option Method
entry_at [] i = none
entry_at (md ∷ mds) zero = some md
entry_at (md ∷ mds) (suc i) = entry_at mds i

module _ (names : Names) (args : CodeGenArgs) (sd : Service) where
  -- "/", the service's qualified name, "/" and the method's name.
  abbrev pub path_to : Method → Bytes
  path_to md = codes "/" ++ sd.qualified_name ++ codes "/" ++ md.method_name

  -- The variable of the service's descriptor: unexported only where the legacy names are asked for.
  abbrev pub desc_name : Bytes
  desc_name = elim args.legacy_desc_names [
    | true ↦ names.service_desc sd
    | false ↦ names.exported_service_desc sd
  ]

  abbrev pub client_name : Bytes
  client_name = names.unexport (names.camel_case sd.service_name) ++ codes "ChannelClient"

  -- The code that a method should have: a stream is opened with the method's own descriptor, and the
  -- request is sent if there is one.
  abbrev pub Serves : Method → Body → Type 0
  Serves md (opens_stream desc_var index path client sends) =
      (desc_var ≡ desc_name)
      × (entry_at (streams_of sd.methods) index ≡ some md)
      × (path ≡ path_to md)
      × (client ≡ names.stream_client_impl sd md)
      × (sends ≡ not md.is_client_streaming)
  Serves md (invokes path response) =
      (md.is_client_streaming ≡ false)
      × (md.is_server_streaming ≡ false)
      × (path ≡ path_to md)
      × (response ≡ names.message_type md.output_type)

  -- One stub for each method, in order.
  abbrev pub AllServe : List Method → List Stub → Type 0
  AllServe [] [] = Unit {0}
  AllServe (md ∷ mds) (s ∷ ss) =
      (s.stub_name ≡ names.camel_case md.method_name) × Serves md s.body × AllServe mds ss
  AllServe [] (s ∷ ss) = ⊥
  AllServe (md ∷ mds) [] = ⊥

  entry_at-append :
      (before : List Method) (md : Method) (after : List Method)
      → entry_at (before ++ md ∷ after) (length before) ≡ some md
  entry_at-append [] md after = refl
  entry_at-append (x ∷ before) md after = entry_at-append before md after

  service_desc_var_name-desc_name : service_desc_var_name names args sd ≡ desc_name
  unfolding service_desc_var_name
  service_desc_var_name-desc_name = elim (Bool-cases args.legacy_desc_names) [
    | inl legacy ↦ rw legacy refl
    | inr exported ↦ rw exported refl
  ]

  body_by_flags-Serves :
      (n : ℕ) (md : Method) (client server : Bool)
      → md.is_client_streaming ≡ client
      → md.is_server_streaming ≡ server
      → ((client || server) ≡ true → entry_at (streams_of sd.methods) n ≡ some md)
      → Serves md (body_by_flags names args sd n md client server).0
  body_by_flags-Serves n md true server c s at =
      (service_desc_var_name-desc_name, at refl, refl, refl, ap not (sym c))
  body_by_flags-Serves n md false true c s at =
      (service_desc_var_name-desc_name, at refl, refl, refl, ap not (sym c))
  body_by_flags-Serves n md false false c s at = (c, s, refl, refl)

  body_by_flags-count :
      (n : ℕ) (md : Method) (client server : Bool)
      → (body_by_flags names args sd n md client server).1 ≡ (if client || server then suc n else n)
  body_by_flags-count n md true server = refl
  body_by_flags-count n md false true = refl
  body_by_flags-count n md false false = refl

  streams_of-streaming :
      (before mds : List Method) (md : Method)
      → streams_of sd.methods ≡ before ++ streams_of (md ∷ mds)
      → (md.is_client_streaming || md.is_server_streaming) ≡ true
      → streams_of sd.methods ≡ before ++ md ∷ streams_of mds
  streams_of-streaming before mds md at streaming =
      rw⁻¹ (ap (λ b. before ++ (if b then md ∷ streams_of mds else streams_of mds)) streaming) at

  generate_stubs-AllServe :
      (before mds : List Method) (n : ℕ)
      → n ≡ length before
      → streams_of sd.methods ≡ before ++ streams_of mds
      → AllServe mds (generate_stubs names args sd n mds)
  unfolding generate_stubs stub_body
  generate_stubs-AllServe before [] n count at = tt
  generate_stubs-AllServe before (md ∷ mds) n count at =
      let streaming : Bool = md.is_client_streaming || md.is_server_streaming in
      let next : ℕ =
        (body_by_flags names args sd n md md.is_client_streaming md.is_server_streaming).1 in
      let counted : next ≡ (if streaming then suc n else n) =
        body_by_flags-count n md md.is_client_streaming md.is_server_streaming in
      (
        refl,
        body_by_flags-Serves n md md.is_client_streaming md.is_server_streaming refl refl (λ is.
            rw (streams_of-streaming before mds md at is, count)
              (entry_at-append before md (streams_of mds))),
        elim (Bool-cases streaming) [
          | inl is ↦
              generate_stubs-AllServe (before ++ md ∷ []) mds next
                (counted
                  ∙ ap (λ b. if b then suc n else n) is
                  ∙ omega (arith, count, length-append before (md ∷ [])))
                (streams_of-streaming before mds md at is
                  ∙ sym (append_assoc before (md ∷ []) (streams_of mds)))
          | inr is_unary ↦
              generate_stubs-AllServe before mds next
                (counted ∙ ap (λ b. if b then suc n else n) is_unary ∙ count)
                (at
                  ∙ ap (λ b. before ++ (if b then md ∷ streams_of mds else streams_of mds))
                      is_unary)
        ],
      )

  -- The elements that a service should have: the function that registers a handler with the service's
  -- descriptor and, only where legacy stubs are asked for, a client type with its constructor and with
  -- a method for each of the service's methods.
  abbrev pub Generated : Bool → List Element → Type 0
  Generated false es =
      es
      ≡ register_handler (codes "RegisterHandler" ++ names.camel_case sd.service_name) desc_name
        ∷ []
  Generated true es =
      (stubs : List Stub) × (es
        ≡ register_handler (codes "RegisterHandler" ++ names.camel_case sd.service_name) desc_name
          ∷ client_type client_name
          ∷ new_client (codes "New" ++ names.camel_case sd.service_name ++ codes "ChannelClient")
              client_name
          ∷ map client_method stubs)
      × AllServe sd.methods stubs

  by_gate-Generated :
      (gate : Bool) {var : Bytes}
      → var ≡ desc_name
      → Generated gate (
          register_handler (codes "RegisterHandler" ++ names.camel_case sd.service_name) var
          ∷ (if not gate
              then []
              else client_type client_name
                ∷ new_client
                    (codes "New" ++ names.camel_case sd.service_name ++ codes "ChannelClient")
                    client_name
                ∷ map client_method (generate_stubs names args sd 0 sd.methods)))
  by_gate-Generated false same =
      ap
        (λ v. register_handler (codes "RegisterHandler" ++ names.camel_case sd.service_name) v ∷ [])
        same
  by_gate-Generated true same = (
    generate_stubs names args sd 0 sd.methods,
    ap
        (λ v.
          register_handler (codes "RegisterHandler" ++ names.camel_case sd.service_name) v
          ∷ client_type client_name
          ∷ new_client (codes "New" ++ names.camel_case sd.service_name ++ codes "ChannelClient")
              client_name
          ∷ map client_method (generate_stubs names args sd 0 sd.methods))
        same,
    generate_stubs-AllServe [] sd.methods 0 refl refl,
  )

  -- A service gets the function that registers a handler with its descriptor, whose variable is
  -- unexported only where legacy names are asked for, and nothing else unless legacy stubs are asked
  -- for. Then it gets a client with one stub for each method, in order: a streaming method's opens a
  -- stream with the method's own entry of the service's streams and with the path of the service's
  -- qualified name and the method's name, and sends the request at once if the client does not stream;
  -- any other method's invokes its path.
  pub generate_service-Generated : Generated args.legacy_stubs (generate_service names args sd)
  unfolding generate_service
  generate_service-Generated = by_gate-Generated args.legacy_stubs service_desc_var_name-desc_name
