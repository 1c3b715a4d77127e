-- ===== src/Httpgrpc/Codes/RoundTrip.antt =====
-- Codes that cross HTTP by the status alone.
use grpchan.Base.{
  ltb, leb, ◌==◌, if◌then◌else◌, ltb→lt, ==_iff, Bool-cases, passes_below, passes_below_lem, ℕ, ◌≤◌,
  ◌<◌, ◌≡◌, refl, ◌≢◌, inl, inr, true, ◌||◌, arith,
}
use grpchan.Httpgrpc.Codes.{http_status_from_code, code_from_http_status}

-- The code that a client reads off the HTTP status, where the server set no X-GRPC-Status header.
abbrev pub over_http : ℕ → ℕ
over_http code = code_from_http_status (http_status_from_code code)

-- The code that arrives: Canceled as Unknown, AlreadyExists as Aborted, OutOfRange as
-- InvalidArgument, and Unknown, DataLoss and every code that gRPC does not define as Internal.
pub arrives_as : ℕ → ℕ
arrives_as code =
    if code == 1
    then 2
    else if code == 6
    then 10
    else if code == 11
    then 3
    else if code == 2 || leb 17 code || code == 15
    then 13
    else code

over_http_table : passes_below 17 (λ c. over_http c == arrives_as c) ≡ true
unfolding passes_below code_from_http_status http_status_from_code arrives_as
over_http_table = refl

-- A code arrives as itself but for the codes named above; so an error never arrives as OK.
pub over_http-arrives_as : (code : ℕ) → over_http code ≡ arrives_as code
unfolding http_status_from_code code_from_http_status arrives_as
over_http-arrives_as code = elim (Bool-cases (ltb code 17)) [
  | inl known ↦ (==_iff _ _).0 (
      passes_below_lem 17 (λ c. over_http c == arrives_as c) code over_http_table
        (ltb→lt code 17 known))
  | inr unknown ↦ ground arith
]

-- Only OK is sent with a status that is not an HTTP error.
pub http_status_from_code-error :
    (code : ℕ) → code ≢ 0 → (400 ≤ http_status_from_code code) × (http_status_from_code code < 600)
unfolding http_status_from_code
http_status_from_code-error code h = ground arith
