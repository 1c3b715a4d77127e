-- ===== src/Codegen/Stubs.antt =====
-- cmd/protoc-gen-grpchan/protoc-gen-grpchan.go: generateChanStubs, from the descriptors to the functions
-- of the generated file, each with what its template is given. How descriptors' names are turned into Go
-- names is a parameter; printing the file, and the argument types of the functions, are left out.
pub mod Laws
use grpchan.Base.{
  if◌then◌else◌, Bytes, codes, ℕ, suc, Bool, true, false, not, Option, none, some, List, [], ◌∷◌,
  ◌++◌, map,
}
use grpchan.Codegen.Args.{CodeGenArgs}

-- desc.MethodDescriptor and desc.ServiceDescriptor
pub record Method : Type 0 where
  pub method_name : Bytes
  pub is_client_streaming : Bool
  pub is_server_streaming : Bool
  pub output_type : Bytes

pub record Service : Type 0 where
  pub service_name : Bytes
  pub qualified_name : Bytes
  pub methods : List Method

-- plugins.GoNames and gopoet.Unexport
pub record Names : Type 0 where
  pub camel_case : Bytes → Bytes
  pub unexport : Bytes → Bytes
  pub service_desc : Service → Bytes
  pub exported_service_desc : Service → Bytes
  pub stream_client_impl : Service → Method → Bytes
  pub message_type : Bytes → Bytes

-- What the code of a stub does: it opens a stream with a descriptor by its index and a path, and sends
-- and closes if the request is an argument; or it invokes a path.
pub data Body : Type 0 where
  opens_stream : (desc_var : Bytes) (index : ℕ) (path client : Bytes) (sends : Bool) → Body
  invokes : (path response : Bytes) → Body

pub record Stub : Type 0 where
  pub stub_name : Bytes
  pub body : Body

pub data Element : Type 0 where
  -- func RegisterHandlerX(reg, srv) { reg.RegisterService(&desc, srv) }
  register_handler : (name desc_var : Bytes) → Element
  -- type xChannelClient struct
  client_type : Bytes → Element
  -- func NewXChannelClient(ch)
  new_client : (name type_name : Bytes) → Element
  -- a method of the client type
  client_method : Stub → Element

module _ (names : Names) (args : CodeGenArgs) where
  unfoldable pub service_desc_var_name : Service → Bytes
  service_desc_var_name sd =
      if args.legacy_desc_names then names.service_desc sd else names.exported_service_desc sd

  -- "/{{.ServiceName}}/{{.MethodName}}"
  abbrev pub stub_path : Service → Method → Bytes
  stub_path sd md = codes "/" ++ sd.qualified_name ++ codes "/" ++ md.method_name

  -- The code of a stub by the two flags of its method, given streamCount, and that count behind it.
  abbrev pub body_by_flags : Service → ℕ → Method → Bool → Bool → Body × ℕ
  body_by_flags sd stream_count md true server = (
    opens_stream (service_desc_var_name sd) stream_count (stub_path sd md)
        (names.stream_client_impl sd md) false,
    suc stream_count,
  )
  body_by_flags sd stream_count md false true = (
    opens_stream (service_desc_var_name sd) stream_count (stub_path sd md)
        (names.stream_client_impl sd md) true,
    suc stream_count,
  )
  body_by_flags sd stream_count md false false =
      (invokes (stub_path sd md) (names.message_type md.output_type), stream_count)

  unfoldable pub stub_body : Service → ℕ → Method → Body × ℕ
  unfolding service_desc_var_name
  stub_body sd stream_count md =
      body_by_flags sd stream_count md md.is_client_streaming md.is_server_streaming

  -- The loop over the methods of a service.
  unfoldable pub generate_stubs : Service → ℕ → List Method → List Stub
  unfolding stub_body
  generate_stubs sd stream_count [] = []
  generate_stubs sd stream_count (md ∷ mds) =
      let (body, stream_count') = stub_body sd stream_count md in
      record { stub_name = names.camel_case md.method_name; body = body }
      ∷ generate_stubs sd stream_count' mds

  abbrev channel_client : Service → Bytes
  channel_client sd = names.unexport (names.camel_case sd.service_name) ++ codes "ChannelClient"

  unfoldable pub generate_service : Service → List Element
  unfolding generate_stubs service_desc_var_name
  generate_service sd =
      register_handler (codes "RegisterHandler" ++ names.camel_case sd.service_name)
        (service_desc_var_name sd)
      ∷ (if not args.legacy_stubs
          then []
          else client_type (channel_client sd)
            ∷ new_client (codes "New" ++ names.camel_case sd.service_name ++ codes "ChannelClient")
                (channel_client sd)
            ∷ map client_method (generate_stubs sd 0 sd.methods))

  unfoldable pub generate_services : List Service → List Element
  unfolding generate_service
  generate_services [] = []
  generate_services (sd ∷ sds) = generate_service sd ++ generate_services sds

  -- The elements of the file, if there is one.
  unfoldable pub generate_chan_stubs : List Service → Option (List Element)
  unfolding generate_services
  generate_chan_stubs [] = none
  generate_chan_stubs (sd ∷ sds) = some (generate_services (sd ∷ sds))
