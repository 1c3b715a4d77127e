-- ===== src/Tests/Registering.antt =====
-- A registry of one service.
use grpchan.Base.{Bytes, codes, lookup, insert, ℕ, ◌≡◌, refl, Bool, true, none, some, [], ◌∷◌}
use grpchan.Grpc.{ServiceDesc}
use grpchan.Registry.{value, HandlerMap, register_service, query_service, get_service_info}
use grpchan.Registry.Laws.{
  IsKeyed, info_of, register_service-IsKeyed, get_service_info-query_service,
}

abbrev echo : ServiceDesc ℕ ℕ
echo = record {
  service_name = codes "echo";
  handler_type = codes "Echo";
  methods = record { method_name = codes "Say"; handler = 1 } ∷ [];
  streams = [];
  metadata = codes "echo.proto";
}

abbrev anything : Bytes → Bytes → Bool
anything h t = true

abbrev one_service : HandlerMap ℕ ℕ Bytes
one_service = (codes "echo", record { desc = echo; impl = codes "h" }) ∷ []

registered : register_service anything [] echo (codes "h") ≡ value one_service
unfolding register_service lookup insert
registered = refl

empty-IsKeyed : IsKeyed {U = ℕ} {S = ℕ} {H = Bytes} []
empty-IsKeyed = tt

get_service_info-query_service_example :
    lookup (codes "echo") (get_service_info one_service)
    ≡ (elim (query_service one_service (codes "echo")) [
      | some found ↦ some (info_of found.0)
      | none ↦ none
    ])
get_service_info-query_service_example =
    get_service_info-query_service one_service (codes "echo")
      (register_service-IsKeyed anything [] echo (codes "h") empty-IsKeyed registered)
