-- ===== src/Inproc/Client/Headers.antt =====
-- Header and then RecvMsg, on the caller's end of an in-process stream.
use grpchan.Base.{
  if◌then◌else◌, ◌≡◌, refl, sym, ap, ◌∙◌, true, Option, none, some, List, [], ◌∷◌, arith,
}
use grpchan.Inproc.{
  Frame, FrameKind, kind_headers, kind_data, kind_trailers, kind_error, kind_unknown, kind,
  read_message,
}
use grpchan.Inproc.Server.{in_headers, in_messages}
use grpchan.Inproc.Client.{
  ClientStream, take_headers, take_trailers, take_data, on_frame, on_read_error, recv_loop,
  recv_last, recv_msg_locked, no_check, ensure_no_more_locked, recv_msg, on_first_frame, header,
}
use grpchan.Inproc.Client.Laws.{awaiting}

module _ {M : Type 0} where
  -- Streams whose reads give the same, with a live context.
  abbrev Alike : ClientStream M → ClientStream M → Type 0
  Alike s t = (s.cloner ≡ t.cloner) × (s.turns ≡ []) × (t.turns ≡ [])

  take_data-Alike :
      (d : Option M) (s t : ClientStream M)
      → Alike s t
      → (take_data no_check d s).0 ≡ (take_data no_check d t).0
  unfolding take_data
  take_data-Alike none s t h = refl
  take_data-Alike (some d) s t h = ground (arith, h.0)

  take_data-peeked :
      (d : Option M) (s t : ClientStream M)
      → Alike s t
      → (take_data (λ u. no_check (record u { last = none })) d s).0 ≡ (take_data no_check d t).0
  unfolding take_data
  take_data-peeked none s t h = refl
  take_data-peeked (some d) s t h = ground (arith, h.0)

  on_frame-Alike :
      (k : FrameKind) (f : Frame M) (fs : List (Frame M)) (s t : ClientStream M)
      → ((u v : ClientStream M)
          → Alike u v
          → (recv_loop no_check fs u).0 ≡ (recv_loop no_check fs v).0)
      → Alike s t
      → (on_frame no_check (recv_loop no_check fs) k f s).0
        ≡ (on_frame no_check (recv_loop no_check fs) k f t).0
  unfolding on_frame take_headers take_trailers
  on_frame-Alike kind_headers f fs s t rest h =
      rest (take_headers f.headers (record s { state = in_messages }))
        (take_headers f.headers (record t { state = in_messages })) h
  on_frame-Alike kind_data f fs s t rest h = take_data-Alike f.payload s t h
  on_frame-Alike kind_trailers f fs s t rest h =
      rest (take_trailers f.trailers s) (take_trailers f.trailers t) h
  on_frame-Alike kind_error f fs s t rest h = refl
  on_frame-Alike kind_unknown f fs s t rest h = rest s t h

  recv_loop-Alike :
      (fs : List (Frame M)) (s t : ClientStream M)
      → Alike s t
      → (recv_loop no_check fs s).0 ≡ (recv_loop no_check fs t).0
  unfolding recv_loop on_read_error read_message
  recv_loop-Alike [] s t h = rw (h.1, h.2) refl
  recv_loop-Alike (f ∷ fs) s t h =
      rw (h.1, h.2)
        (on_frame-Alike (kind f) f fs (record s { responses = fs; turns = [] })
          (record t { responses = fs; turns = [] }) (λ u v g. recv_loop-Alike fs u v g)
          (h.0, refl, refl))

  abbrev first_read : List (Frame M) → ClientStream M → ClientStream M
  first_read fs s = record s { responses = fs; last = none }

  -- What Header has read is what RecvMsg would have read.
  peeked :
      (k : FrameKind) (f : Frame M) (fs : List (Frame M)) (s t : ClientStream M)
      → kind f ≡ k
      → Alike s t
      → (recv_msg_locked no_check (on_first_frame k f (first_read fs s))).0
        ≡ (on_frame no_check (recv_loop no_check fs) k f t).0
  unfolding recv_msg_locked recv_last on_frame on_first_frame take_data take_headers take_trailers
  peeked kind_headers f fs s t is h =
      recv_loop-Alike fs (take_headers f.headers (first_read fs s))
        (take_headers f.headers (record t { state = in_messages })) h
  peeked kind_data f fs s t is h =
      rw is (take_data-peeked f.payload (record s { responses = fs; last = some f }) t h)
  peeked kind_trailers f fs s t is h =
      recv_loop-Alike fs (take_trailers f.trailers (first_read fs s)) (take_trailers f.trailers t) h
  peeked kind_error f fs s t is h = rw is refl
  peeked kind_unknown f fs s t is h =
      rw is (recv_loop-Alike fs (record s { responses = fs; last = some f }) t h)

  header-recv_msg_locked :
      (fs : List (Frame M)) (s : ClientStream M)
      → s.state ≡ in_headers
      → (recv_msg_locked no_check (header (awaiting fs s)).1).0
        ≡ (recv_msg_locked no_check (awaiting fs s)).0
  unfolding header recv_msg_locked recv_loop read_message on_read_error
  header-recv_msg_locked [] s first = rw first refl
  header-recv_msg_locked (f ∷ fs) s first = rw first (
      peeked (kind f) f fs (record s { turns = []; state = in_messages })
        (record s { responses = fs; turns = []; last = none; state = in_headers }) refl
        (refl, refl, refl))

  on_first_frame-response_stream :
      (k : FrameKind) (f : Frame M) (s : ClientStream M)
      → (on_first_frame k f s).response_stream ≡ s.response_stream
  unfolding on_first_frame take_headers take_trailers
  on_first_frame-response_stream kind_headers f s = refl
  on_first_frame-response_stream kind_data f s = refl
  on_first_frame-response_stream kind_trailers f s = refl
  on_first_frame-response_stream kind_error f s = refl
  on_first_frame-response_stream kind_unknown f s = refl

  header-response_stream :
      (fs : List (Frame M)) (s : ClientStream M)
      → s.state ≡ in_headers
      → (header (awaiting fs s)).1.response_stream ≡ s.response_stream
  unfolding header read_message
  header-response_stream [] s first = rw first refl
  header-response_stream (f ∷ fs) s first = rw first (
      on_first_frame-response_stream (kind f) f
        (record s { responses = fs; turns = []; last = none; state = in_messages }))

  recv_msg_many :
      (s : ClientStream M) → s.response_stream ≡ true → recv_msg s ≡ recv_msg_locked no_check s
  unfolding recv_msg
  recv_msg_many s many =
      ap (λ b. if b then recv_msg_locked no_check s else recv_msg_locked ensure_no_more_locked s)
        many

  -- On a stream of responses with a live context, Header, called first, leaves the next RecvMsg what it
  -- would have given without that call, whatever the server has sent.
  pub header-recv_msg :
      (fs : List (Frame M)) (s : ClientStream M)
      → s.state ≡ in_headers
      → s.response_stream ≡ true
      → (recv_msg (header (awaiting fs s)).1).0 ≡ (recv_msg (awaiting fs s)).0
  header-recv_msg fs s first many =
      ap (λ r. r.0)
        (recv_msg_many (header (awaiting fs s)).1 (header-response_stream fs s first ∙ many))
      ∙ header-recv_msg_locked fs s first
      ∙ ap (λ r. r.0) (sym (recv_msg_many (awaiting fs s) many))
