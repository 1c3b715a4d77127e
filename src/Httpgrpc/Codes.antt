-- ===== src/Httpgrpc/Codes.antt =====
-- httpgrpc/codes.go: gRPC codes as HTTP statuses, and back. A codes.Code is its number: 0 OK,
-- 1 Canceled, 2 Unknown, 3 InvalidArgument, 4 DeadlineExceeded, 5 NotFound, 6 AlreadyExists,
-- 7 PermissionDenied, 8 ResourceExhausted, 9 FailedPrecondition, 10 Aborted, 11 OutOfRange,
-- 12 Unimplemented, 13 Internal, 14 Unavailable, 15 DataLoss, 16 Unauthenticated.
pub mod RoundTrip
use grpchan.Base.{ltb, leb, ◌==◌, if◌then◌else◌, ℕ, ◌&&◌, ◌||◌}

-- httpStatusFromCode, its cases in order.
unfoldable pub http_status_from_code : ℕ → ℕ
http_status_from_code code =
    if code == 0
    then 200
    else if code == 1
    then 502
    else if code == 2
    then 500
    else if code == 3
    then 400
    else if code == 4
    then 504
    else if code == 5
    then 404
    else if code == 6
    then 409
    else if code == 7
    then 403
    else if code == 16
    then 401
    else if code == 8
    then 429
    else if code == 9
    then 412
    else if code == 10
    then 409
    else if code == 11
    then 422
    else if code == 12
    then 501
    else if code == 13
    then 500
    else if code == 14
    then 503
    else 500

-- The inner switch on 4xx statuses.
unfoldable pub code_from_client_error : ℕ → ℕ
code_from_client_error stat =
    if stat == 400
    then 3
    else if stat == 401
    then 16
    else if stat == 403
    then 7
    else if stat == 404
    then 5
    else if stat == 405
    then 3
    else if stat == 408
    then 4
    else if stat == 409
    then 10
    else if stat == 416
    then 11
    else if stat == 423
    then 10
    else if stat == 412 || stat == 417
    then 9
    else if stat == 429
    then 8
    else if stat == 499
    then 1
    else 3

-- The inner switch on 5xx statuses.
unfoldable pub code_from_server_error : ℕ → ℕ
code_from_server_error stat =
    if stat == 500
    then 13
    else if stat == 501
    then 12
    else if stat == 502
    then 2
    else if stat == 504
    then 4
    else if stat == 503
    then 14
    else 13

unfoldable pub code_from_http_status : ℕ → ℕ
unfolding code_from_client_error code_from_server_error
code_from_http_status stat =
    if leb 200 stat && ltb stat 300
    then 0
    else if leb 400 stat && ltb stat 500
    then code_from_client_error stat
    else if leb 500 stat && ltb stat 600
    then code_from_server_error stat
    else 2
