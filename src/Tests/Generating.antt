-- ===== src/Tests/Generating.antt =====
-- The arguments of the code generator, and the stubs of a service with four methods.
use grpchan.Base.{Bytes, codes, ◌=?◌, lookup, IsUnique, ◌≡◌, refl, Bool, true, false, [], ◌∷◌, ◌++◌}
use grpchan.Codegen.Args.{CodeGenArgs, parsed, parse_args}
use grpchan.Codegen.Args.RoundTrip.{print_args, EqualsFree, IsNamed, parse_args-print_args}
use grpchan.Codegen.Stubs.{Method, Service, Names, generate_service}
use grpchan.Codegen.Stubs.Laws.{Generated, generate_service-Generated}

abbrev all_args : CodeGenArgs
all_args = record {
  debug = true;
  legacy_stubs = true;
  legacy_desc_names = false;
  import_path = codes "x.org/a=b";
  import_map = (codes "a.proto", codes "x.org/a") ∷ (codes "b.proto", codes "x.org/b;b") ∷ [];
  module_root = [];
  source_relative = true;
}

-- Both file names are seven bytes without an equals sign.
abbrev of_seven : EqualsFree (codes "a.proto")
of_seven = (refl, (refl, (refl, (refl, (refl, (refl, (refl, tt)))))))

all_args-IsNamed : IsNamed all_args.import_map
all_args-IsNamed = (refl, of_seven, (refl, of_seven, tt))

all_args-IsUnique : IsUnique all_args.import_map
unfolding lookup ◌=?◌
all_args-IsUnique = (refl, (refl, tt))

parse_args-print_args_example : parse_args (print_args all_args) ≡ parsed all_args
parse_args-print_args_example =
    parse_args-print_args all_args all_args-IsNamed all_args-IsUnique refl

abbrev method_of : Bytes → Bool → Bool → Method
method_of name client server = record {
  method_name = name;
  is_client_streaming = client;
  is_server_streaming = server;
  output_type = codes "Out";
}

abbrev chatty : Service
chatty = record {
  service_name = codes "chat";
  qualified_name = codes "pkg.chat";
  methods =
      method_of (codes "Ask") false false
      ∷ method_of (codes "Watch") false true
      ∷ method_of (codes "Tell") true false
      ∷ method_of (codes "Talk") true true
      ∷ [];
}

abbrev plain_names : Names
plain_names = record {
  camel_case = λ b. b;
  unexport = λ b. b;
  service_desc = λ sd. codes "_" ++ sd.service_name;
  exported_service_desc = λ sd. sd.service_name ++ codes "_ServiceDesc";
  stream_client_impl = λ sd md. md.method_name ++ codes "Client";
  message_type = λ b. b;
}

generate_service-Generated_example :
    Generated plain_names all_args chatty true (generate_service plain_names all_args chatty)
generate_service-Generated_example = generate_service-Generated plain_names all_args chatty
