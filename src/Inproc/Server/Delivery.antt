-- ===== src/Inproc/Server/Delivery.antt =====
-- What a stream delivers while its context is live and the cloner makes faithful copies.
use grpchan.Base.{
  Md, merge, merge-nil, merge-append, GoError, ok, ◌≡◌, refl, ◌∙◌, true, false, Option, none, some,
  List, [], ◌∷◌, ◌++◌, map, append-nil, append_assoc, map-append, arith,
}
use grpchan.Inproc.{Cloner, IsFaithful, Frame, empty_frame, delivered, send, close, write_message}
use grpchan.Inproc.Server.{
  in_headers, in_messages, ServerStream, Env, live, entries, is_in_headers, new_stream,
  send_headers_locked, set_header_with, set_header, send_header, try_set_trailer, send_payload,
  send_msg, finish,
}
use grpchan.Inproc.Server.Protocol.{
  Call, sets_header, sends_header, sets_trailer, sends_msg, step, run, serve,
}

module _ {M : Type 0} where
  abbrev pub all_live : List (Call M) → List (Env × Call M)
  all_live [] = []
  all_live (c ∷ cs) = (live, c) ∷ all_live cs

  -- The entries of the header calls before the headers go out, with SendHeader or the first message.
  abbrev pub header_entries : List (Call M) → Md
  header_entries [] = []
  header_entries (sets_header md ∷ cs) = md ++ header_entries cs
  header_entries (sends_header md ∷ cs) = md
  header_entries (sets_trailer md ∷ cs) = header_entries cs
  header_entries (sends_msg m ∷ cs) = []

  abbrev pub trailer_entries : List (Call M) → Md
  trailer_entries [] = []
  trailer_entries (sets_trailer md ∷ cs) = md ++ trailer_entries cs
  trailer_entries (sets_header md ∷ cs) = trailer_entries cs
  trailer_entries (sends_header md ∷ cs) = trailer_entries cs
  trailer_entries (sends_msg m ∷ cs) = trailer_entries cs

  abbrev pub messages : List (Call M) → List M
  messages [] = []
  messages (sends_msg (some m) ∷ cs) = m ∷ messages cs
  messages (sends_msg none ∷ cs) = messages cs
  messages (sets_trailer md ∷ cs) = messages cs
  messages (sets_header md ∷ cs) = messages cs
  messages (sends_header md ∷ cs) = messages cs

  abbrev pub data_frame : M → Frame M
  data_frame m = record (empty_frame {M = M}) { payload = some m }

  abbrev pub header_frames : Md → List (Frame M)
  header_frames [] = []
  header_frames (e ∷ es) = record (empty_frame {M = M}) { headers = some (e ∷ es) } ∷ []

  abbrev pub trailer_frames : Md → List (Frame M)
  trailer_frames [] = []
  trailer_frames (e ∷ es) = record (empty_frame {M = M}) { trailers = some (e ∷ es) } ∷ []

  abbrev pub error_frames : Option GoError → List (Frame M)
  error_frames none = []
  error_frames (some e) = record (empty_frame {M = M}) { fault = some e } ∷ []

  -- The protocol of a server stream: headers if there are any, the messages in order, trailers if
  -- there are any, and the error if there is one.
  abbrev pub expected_tail : Md → List M → Option GoError → List (Frame M)
  expected_tail tlr ms e = map data_frame ms ++ (trailer_frames tlr ++ error_frames e)

  abbrev pub expected_frames : List (Call M) → Option GoError → List (Frame M)
  expected_frames cs e =
      header_frames (merge [] (header_entries cs))
      ++ expected_tail (merge [] (trailer_entries cs)) (messages cs) e

module _ {M : Type 0} (cloner : Cloner M) (faithful : IsFaithful cloner) where
  finish-tail :
      (e : Option GoError) (s : ServerStream M)
      → s.responses.closed ≡ false
      → is_in_headers s.state ≡ false
      → (finish live e s).responses.sent
        ≡ s.responses.sent ++ expected_tail (entries s.trailers) [] e
  unfolding finish write_message close
  finish-tail e s h k = ground (
    arith,
    append-nil s.responses.sent,
    append_assoc s.responses.sent (trailer_frames (entries s.trailers)) (error_frames e),
  )

  finish-headers :
      (e : Option GoError) (s : ServerStream M)
      → s.responses.closed ≡ false
      → is_in_headers s.state ≡ true
      → (finish live e s).responses.sent
        ≡ s.responses.sent
          ++ (header_frames (entries s.headers) ++ expected_tail (entries s.trailers) [] e)
  unfolding finish write_message close send
  finish-headers e s h k = ground (
    arith,
    append-nil s.responses.sent,
    append_assoc s.responses.sent (header_frames (entries s.headers))
        (expected_tail (entries s.trailers) [] e),
    append_assoc (s.responses.sent ++ header_frames (entries s.headers))
        (trailer_frames (entries s.trailers)) (error_frames e),
  )

  -- One call once the headers are out.
  step_begun :
      (c : Call M) (s : ServerStream M)
      → s.responses.closed ≡ false
      → s.state ≡ in_messages
      → ((step cloner live c s).1.responses.closed ≡ false)
        × ((step cloner live c s).1.state ≡ in_messages)
        × ((step cloner live c s).1.responses.sent
            ≡ s.responses.sent ++ map data_frame (messages (c ∷ [])))
        × (entries (step cloner live c s).1.trailers
            ≡ merge (entries s.trailers) (trailer_entries (c ∷ [])))
  unfolding step set_header send_header try_set_trailer send_msg send_payload write_message
  step_begun (sets_header md) s h k =
      ground (arith, append-nil s.responses.sent, merge-nil (entries s.trailers))
  step_begun (sends_header md) s h k =
      ground (arith, append-nil s.responses.sent, merge-nil (entries s.trailers))
  step_begun (sets_trailer md) s h k = ground (arith, append-nil s.responses.sent, append-nil md)
  step_begun (sends_msg none) s h k =
      ground (arith, append-nil s.responses.sent, merge-nil (entries s.trailers))
  step_begun (sends_msg (some m)) s h k =
      ground (arith, faithful.clones m, append-nil s.responses.sent, merge-nil (entries s.trailers))

  messages-cons :
      (c : Call M) (cs : List (Call M)) → messages (c ∷ cs) ≡ messages (c ∷ []) ++ messages cs
  messages-cons (sends_msg (some m)) cs = refl
  messages-cons (sends_msg none) cs = refl
  messages-cons (sets_trailer md) cs = refl
  messages-cons (sets_header md) cs = refl
  messages-cons (sends_header md) cs = refl

  trailer_entries-cons :
      (c : Call M) (cs : List (Call M))
      → trailer_entries (c ∷ cs) ≡ trailer_entries (c ∷ []) ++ trailer_entries cs
  trailer_entries-cons (sends_msg m) cs = refl
  trailer_entries-cons (sets_trailer md) cs = rw append-nil
  trailer_entries-cons (sets_header md) cs = refl
  trailer_entries-cons (sends_header md) cs = refl

  run_begun :
      (cs : List (Call M)) (e : Option GoError) (s : ServerStream M)
      → s.responses.closed ≡ false
      → s.state ≡ in_messages
      → (finish live e (run cloner (all_live cs) s)).responses.sent
        ≡ s.responses.sent
          ++ expected_tail (merge (entries s.trailers) (trailer_entries cs)) (messages cs) e
  unfolding run
  run_begun [] e s h k = finish-tail e s h (rw k refl) ∙ rw (merge-nil (entries s.trailers))
  run_begun (c ∷ cs) e s h k =
      let (h', k', sent, tlr) = step_begun c s h k in
      run_begun cs e (step cloner live c s).1 h' k'
      ∙ rw
          (
            sent,
            tlr,
            ← merge-append (entries s.trailers) (trailer_entries (c ∷ [])) (trailer_entries cs),
            ← trailer_entries-cons c cs,
            messages-cons c cs,
          )
          (rw (map-append data_frame (messages (c ∷ [])) (messages cs)) (simp append_assoc))

  -- Sending the headers, in a stream that has not sent them.
  send_headers_locked_live :
      (s : ServerStream M)
      → s.responses.closed ≡ false
      → send_headers_locked delivered s ≡ (
        ok tt,
        record s {
          headers = none;
          state = in_messages;
          responses = record s.responses {
            sent = s.responses.sent ++ header_frames (entries s.headers);
          };
        },
      )
  unfolding send_headers_locked write_message send
  send_headers_locked_live s h = ground (arith, append-nil s.responses.sent)

  send_msg_early :
      (m : Option M) (s : ServerStream M)
      → s.responses.closed ≡ false
      → s.state ≡ in_headers
      → send_msg cloner live m s
        ≡ send_msg cloner live m (record s {
          headers = none;
          state = in_messages;
          responses = record s.responses {
            sent = s.responses.sent ++ header_frames (entries s.headers);
          };
        })
  unfolding send_msg
  send_msg_early m s h k = ground (arith, send_headers_locked_live s h)

  run_early :
      (cs : List (Call M)) (e : Option GoError) (s : ServerStream M)
      → s.responses.closed ≡ false
      → s.state ≡ in_headers
      → (finish live e (run cloner (all_live cs) s)).responses.sent
        ≡ s.responses.sent
          ++ (header_frames (merge (entries s.headers) (header_entries cs))
              ++ expected_tail (merge (entries s.trailers) (trailer_entries cs)) (messages cs) e)
  unfolding run step set_header send_header set_header_with try_set_trailer
  run_early [] e s h k =
      finish-headers e s h (rw k refl)
      ∙ rw (merge-nil (entries s.trailers), merge-nil (entries s.headers))
  run_early (sets_header md ∷ cs) e s h k =
      let s' : ServerStream M = record s { headers = some (merge (entries s.headers) md) } in
      ground (arith, run_early cs e s' h k, merge-append (entries s.headers) md (header_entries cs))
  run_early (sets_trailer md ∷ cs) e s h k =
      let s' : ServerStream M = record s { trailers = some (merge (entries s.trailers) md) } in
      ground
        (arith, run_early cs e s' h k, merge-append (entries s.trailers) md (trailer_entries cs))
  run_early (sends_header md ∷ cs) e s h k =
      let s' : ServerStream M = record s { headers = some (merge (entries s.headers) md) } in
      let q : ServerStream M = record s' {
        headers = none;
        state = in_messages;
        responses = record s.responses {
          sent = s.responses.sent ++ header_frames (entries s'.headers);
        };
      } in
      ground (
        arith,
        send_headers_locked_live s' h,
        run_begun cs e q h refl,
        append_assoc s.responses.sent (header_frames (entries s'.headers))
            (expected_tail (merge (entries s.trailers) (trailer_entries cs)) (messages cs) e),
      )
  run_early (sends_msg m ∷ cs) e s h k =
      let q : ServerStream M = record s {
        headers = none;
        state = in_messages;
        responses = record s.responses {
          sent = s.responses.sent ++ header_frames (entries s.headers);
        };
      } in
      ground (
        arith,
        send_msg_early m s h k,
        merge-nil (entries s.headers),
        run_begun (sends_msg m ∷ cs) e q h refl,
        append_assoc s.responses.sent (header_frames (entries s.headers)) (
            expected_tail (merge (entries s.trailers) (trailer_entries cs))
              (messages (sends_msg m ∷ cs)) e),
      )

  -- With a live context and faithful copies, the frames that the client is sent are those of the
  -- protocol: the headers collected before the first SendHeader or SendMsg, the messages in order,
  -- the trailers collected, and the error that the handler returned.
  pub serve-expected_frames :
      (cs : List (Call M)) (e : Option GoError)
      → (serve cloner (all_live cs) live e []).responses.sent ≡ expected_frames cs e
  unfolding serve run
  serve-expected_frames cs e = run_early cs e new_stream refl refl
