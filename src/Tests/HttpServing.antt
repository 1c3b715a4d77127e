-- ===== src/Tests/HttpServing.antt =====
-- A service that is registered with an HTTP server, over a mux that is an association list.
use grpchan.Base.{
  All, if◌then◌else◌, Option-cases, is_some, Bytes, codes, ◌=?◌, =?_iff, =?_refl, lookup, insert,
  lookup-insert, Md, other, Result, ok, err, ℕ, ◌≡◌, refl, Bool, true, none, some, List, [], ◌∷◌,
  ◌++◌, arith,
}
use grpchan.Registry.{Outcome, value, panic}
use grpchan.Grpc.{MethodDesc, StreamDesc, ServiceDesc}
use grpchan.Httpgrpc.Protocol.{proto_codec}
use grpchan.Httpgrpc.ServerStream.{returns}
use grpchan.Httpgrpc.Channel.{ChannelOptions, UnaryResponse, invoke}
use grpchan.Httpgrpc.Server.{
  UnaryHandler, StreamHandler, Packages, HttpHandler, no_handler_opts, serving_of, method_handler,
  stream_handler,
}
use grpchan.Httpgrpc.Server.Routes.{
  ServeMux, is_plain_byte, IsServeMux, HttpServer, with_base_path, with_server_unary_interceptor,
  new_server, serve_service,
}
use grpchan.Httpgrpc.Server.Routes.Laws.{
  PlainPaths, Routed, serve_service-Routed, IsMounted, new_server-IsMounted,
  serve_service-IsMounted,
}
use grpchan.Httpgrpc.Server.Calls.{directly, channel_over, through, invoke-registered}
use grpchan.Tests.Https.{plain64, plain_details}
use grpchan.Tests.HttpStreams.{bytes_codecs, internal}
use grpchan.Tests.HttpCalls.{calling, base, status_line, quiet, nothing}

abbrev Mux : Type 0
Mux = List (Bytes × HttpHandler Bytes)

abbrev add_pattern : Bytes → HttpHandler Bytes → Mux → Outcome Mux
add_pattern p h m =
    if is_some (lookup p m) then panic "multiple registrations" else value (insert p h m)

abbrev table_mux : ServeMux Bytes Mux
table_mux = record {
  empty_mux = [];
  handle_func = add_pattern;
  registered = λ m p. lookup p m;
  handler_for = λ m p. lookup p m;
}

abbrev packages : Packages Bytes
packages = record {
  url64 = plain64;
  raw64 = plain64;
  unary_codecs = λ name. record { marshal = λ m. ok m; unmarshal = λ b. ok b };
  details_codecs = λ name. plain_details;
  stream_codecs = λ name. bytes_codecs;
  parse_media_type = λ b. b;
  status_of_error = λ e. internal;
  name_of_code = λ n. [];
  text_of_error = λ e. [];
  text_of_status = λ n. [];
  join_metadata = λ mds. [];
  join_path = λ a b. a ++ b;
}

table_mux-IsServeMux : IsServeMux packages.join_path table_mux
table_mux-IsServeMux = record {
  handle_func-registered = λ {p} {h} {m} {m'} e. ground (arith, lookup-insert p p h m, =?_refl p);
  handle_func-fresh = λ {p} {h} {m} {m'} e. ground (arith, Option-cases (lookup p m));
  handle_func-other =
      λ {p} {q} {h} {m} {m'} e differ. ground (arith, lookup-insert p q h m, =?_iff p q);
  registered-handler_for = λ {base} {x} {h} {m} plain e. e;
}

abbrev echo_method : MethodDesc (UnaryHandler Bytes Bytes ℕ)
echo_method = record { method_name = codes "Echo"; handler = λ svr i ctx m sts. (m, sts) }

abbrev chat_stream : StreamDesc (StreamHandler Bytes Bytes)
chat_stream = record {
  stream_name = codes "Chat";
  client_streams = true;
  server_streams = true;
  handler = λ svr ctx. returns none;
}

abbrev echo_service : ServiceDesc (UnaryHandler Bytes Bytes ℕ) (StreamHandler Bytes Bytes)
echo_service = record {
  service_name = codes "s";
  handler_type = codes "Echoer";
  methods = echo_method ∷ [];
  streams = chat_stream ∷ [];
  metadata = [];
}

abbrev accepts : Bytes → Bytes → Bool
accepts svr type_name = true

abbrev server : HttpServer Bytes Bytes ℕ Mux
server =
    new_server table_mux (with_base_path (codes "/base/") ∷ with_server_unary_interceptor 3 ∷ [])

abbrev serving_both : HttpServer Bytes Bytes ℕ Mux
serving_both = record server {
  mux =
      (
        codes "/base/s/Echo",
        method_handler packages (codes "impl") (codes "s") echo_method (some 3) no_handler_opts,
      )
      ∷ (
        codes "/base/s/Chat",
        stream_handler packages (codes "impl") (codes "s") chat_stream none no_handler_opts,
      )
      ∷ [];
  handlers = (codes "s", record { desc = echo_service; impl = codes "impl" }) ∷ [];
}

serves :
    serve_service packages table_mux accepts server echo_service (codes "impl") ≡ value serving_both
unfolding serve_service lookup new_server insert ◌=?◌
serves = refl

-- "/base/s/Echo" and "/base/s/Chat"
plain_paths : PlainPaths packages table_mux accepts server echo_service
unfolding new_server
plain_paths =
    let all : All (λ c. is_plain_byte c ≡ true) (codes "base/s/Echo") =
      (refl, (refl, (refl, (refl, (refl, (refl, (refl, (refl, (refl, (refl, (refl, tt))))))))))) in
    let all' : All (λ c. is_plain_byte c ≡ true) (codes "base/s/Chat") =
      (refl, (refl, (refl, (refl, (refl, (refl, (refl, (refl, (refl, (refl, (refl, tt))))))))))) in
    (((refl, all), tt), ((refl, all'), tt))

serve_service-Routed_example :
    Routed packages table_mux accepts server echo_service (codes "impl") serving_both
serve_service-Routed_example =
    serve_service-Routed packages table_mux accepts server echo_service (codes "impl")
      table_mux-IsServeMux plain_paths serves

serve_service-IsMounted_example : IsMounted packages table_mux accepts serving_both
serve_service-IsMounted_example =
    serve_service-IsMounted packages table_mux accepts server echo_service (codes "impl") serves (
      new_server-IsMounted packages table_mux accepts
        (with_base_path (codes "/base/") ∷ with_server_unary_interceptor 3 ∷ []))

abbrev chosen : ChannelOptions Bytes
chosen = record {
  codec_name = proto_codec;
  codec = record { marshal = λ m. ok m; unmarshal = λ b. ok b };
}

abbrev unknown_path : Md → Bytes → Result UnaryResponse
unknown_path h b = err (other "not found")

invoke-registered_example :
    invoke calling
      (channel_over calling status_line base
        (through calling status_line packages table_mux accepts (λ b. b) unknown_path serving_both)
        chosen)
      quiet
      none
      (codes "/s/Echo")
      (codes "hello")
      []
      none
      nothing
    ≡ invoke calling
        (channel_over calling status_line base
          (directly calling status_line
            (serving_of packages (codes "impl") (codes "s") echo_method (some 3) no_handler_opts))
          chosen)
        quiet
        none
        (codes "/s/Echo")
        (codes "hello")
        []
        none
        nothing
unfolding new_server
invoke-registered_example =
    invoke-registered calling status_line packages table_mux accepts (λ b. b) unknown_path server
      echo_service (codes "impl") [] [] echo_method base chosen quiet none (codes "/s/Echo")
      (codes "hello") [] none nothing table_mux-IsServeMux plain_paths serves refl refl
