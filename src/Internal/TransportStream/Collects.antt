-- ===== src/Internal/TransportStream/Collects.antt =====
-- What the stream holds after any history of calls.
use grpchan.Base.{
  Bytes, Md, values, merge, gathered, values-merge, gathered-append, values-nil, GoError, other,
  err, ◌≡◌, refl, ◌∙◌, ◌≢◌, true, false, some, List, [], ◌∷◌, ◌++◌, append-nil, append_assoc, arith,
}
use grpchan.Internal.TransportStream.{
  UnaryStream, new, entries, finish, get_headers, get_trailers, Call, sets_header, sends_header,
  sets_trailer, finishes, step, run,
}

-- The entries of the header calls that come before the headers are sent, in order.
pub header_entries : List Call → Md
header_entries [] = []
header_entries (sets_header md ∷ cs) = md ++ header_entries cs
header_entries (sends_header md ∷ cs) = md
header_entries (sets_trailer md ∷ cs) = header_entries cs
header_entries (finishes ∷ cs) = []

-- The entries of the trailer calls that come before Finish, in order.
pub trailer_entries : List Call → Md
trailer_entries [] = []
trailer_entries (sets_trailer md ∷ cs) = md ++ trailer_entries cs
trailer_entries (finishes ∷ cs) = []
trailer_entries (sets_header md ∷ cs) = trailer_entries cs
trailer_entries (sends_header md ∷ cs) = trailer_entries cs

run-sent :
    (sts : UnaryStream) (cs : List Call) → sts.hdrs_sent ≡ true → (run sts cs).hdrs ≡ sts.hdrs
unfolding run step
run-sent sts [] h = refl
run-sent sts (sets_header md ∷ cs) h = ground (arith, run-sent sts cs h)
run-sent sts (sends_header md ∷ cs) h = ground (arith, run-sent sts cs h)
run-sent sts (sets_trailer md ∷ cs) h = ground (
  arith,
  run-sent sts cs h,
  run-sent (record sts { tlrs = some (merge (entries sts.tlrs) md) }) cs h,
)
run-sent sts (finishes ∷ cs) h =
    run-sent (record sts { hdrs_sent = true; tlrs_sent = true }) cs refl

run-hdrs :
    (sts : UnaryStream) (cs : List Call) (k : Bytes)
    → sts.hdrs_sent ≡ false
    → values k (entries (run sts cs).hdrs)
      ≡ values k (entries sts.hdrs) ++ gathered k (header_entries cs)
unfolding run step header_entries gathered
run-hdrs sts [] k h = ground (arith, append-nil (values k (entries sts.hdrs)))
run-hdrs sts (sets_header md ∷ cs) k h =
    let old = values k (entries sts.hdrs) in
    ground (
      arith,
      run-hdrs (record sts { hdrs = some (merge (entries sts.hdrs) md) }) cs k h,
      values-merge (entries sts.hdrs) md k,
      gathered-append md (header_entries cs) k,
      append_assoc old (gathered k md) (gathered k (header_entries cs)),
    )
run-hdrs sts (sends_header md ∷ cs) k h =
    let sent : UnaryStream = record sts {
      hdrs = some (merge (entries sts.hdrs) md);
      hdrs_sent = true;
    } in
    ground (arith, run-sent sent cs refl, values-merge (entries sts.hdrs) md k)
run-hdrs sts (sets_trailer md ∷ cs) k h = ground (
  arith,
  run-hdrs sts cs k h,
  run-hdrs (record sts { tlrs = some (merge (entries sts.tlrs) md) }) cs k h,
)
run-hdrs sts (finishes ∷ cs) k h = ground (
  arith,
  run-sent (record sts { hdrs_sent = true; tlrs_sent = true }) cs refl,
  append-nil (values k (entries sts.hdrs)),
)

run-finished :
    (sts : UnaryStream) (cs : List Call) → sts.tlrs_sent ≡ true → (run sts cs).tlrs ≡ sts.tlrs
unfolding run step
run-finished sts [] h = refl
run-finished sts (sets_header md ∷ cs) h = ground (
  arith,
  run-finished sts cs h,
  run-finished (record sts { hdrs = some (merge (entries sts.hdrs) md) }) cs h,
)
run-finished sts (sends_header md ∷ cs) h = ground (
  arith,
  run-finished sts cs h,
  run-finished (record sts { hdrs = some (merge (entries sts.hdrs) md); hdrs_sent = true }) cs h,
)
run-finished sts (sets_trailer md ∷ cs) h = ground (arith, run-finished sts cs h)
run-finished sts (finishes ∷ cs) h =
    run-finished (record sts { hdrs_sent = true; tlrs_sent = true }) cs refl

run-tlrs :
    (sts : UnaryStream) (cs : List Call) (k : Bytes)
    → sts.tlrs_sent ≡ false
    → values k (entries (run sts cs).tlrs)
      ≡ values k (entries sts.tlrs) ++ gathered k (trailer_entries cs)
unfolding run step trailer_entries gathered
run-tlrs sts [] k h = ground (arith, append-nil (values k (entries sts.tlrs)))
run-tlrs sts (sets_trailer md ∷ cs) k h =
    let old = values k (entries sts.tlrs) in
    ground (
      arith,
      run-tlrs (record sts { tlrs = some (merge (entries sts.tlrs) md) }) cs k h,
      values-merge (entries sts.tlrs) md k,
      gathered-append md (trailer_entries cs) k,
      append_assoc old (gathered k md) (gathered k (trailer_entries cs)),
    )
run-tlrs sts (sets_header md ∷ cs) k h = ground (
  arith,
  run-tlrs sts cs k h,
  run-tlrs (record sts { hdrs = some (merge (entries sts.hdrs) md) }) cs k h,
)
run-tlrs sts (sends_header md ∷ cs) k h = ground (
  arith,
  run-tlrs sts cs k h,
  run-tlrs (record sts { hdrs = some (merge (entries sts.hdrs) md); hdrs_sent = true }) cs k h,
)
run-tlrs sts (finishes ∷ cs) k h = ground (
  arith,
  run-finished (record sts { hdrs_sent = true; tlrs_sent = true }) cs refl,
  append-nil (values k (entries sts.tlrs)),
)

-- After any history on a new stream, each key's headers are the values of the header calls up to the
-- first SendHeader or Finish, in order, and its trailers those of the trailer calls before Finish.
pub run-collects :
    (name : Bytes) (cs : List Call) (k : Bytes)
    → (values k (entries (get_headers (run (new name) cs))) ≡ gathered k (header_entries cs))
      × (values k (entries (get_trailers (run (new name) cs))) ≡ gathered k (trailer_entries cs))
unfolding new get_headers get_trailers
run-collects name cs k =
    (run-hdrs (new name) cs k refl ∙ rw values-nil, run-tlrs (new name) cs k refl ∙ rw values-nil)

-- Finish makes every later call to set or send headers or trailers fail and change nothing.
pub step-finish :
    (sts : UnaryStream) (c : Call)
    → c ≢ finishes
    → (step (finish sts) c).1 ≡ finish sts × ((e : GoError) × ((step (finish sts) c).0 ≡ err e))
unfolding step
step-finish sts (sets_header md) h = (refl, (other "headers already sent", refl))
step-finish sts (sends_header md) h = (refl, (other "headers already sent", refl))
step-finish sts (sets_trailer md) h = (refl, (other "trailers already sent", refl))
step-finish sts finishes h = absurd (h refl)
