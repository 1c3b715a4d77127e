-- ===== src/Inproc/Server/Protocol.antt =====
-- The order of the frames that a server stream sends.
use grpchan.Base.{
  Bool-cases, is_some, Md, merge, GoError, Result, ok, err, ◌≡◌, refl, ◌∙◌, inl, inr, Bool, true,
  false, ◌&&◌, Option, none, some, List, [], ◌∷◌, arith,
}
use grpchan.Inproc.{Cloner, Frame, empty_frame, Outbox, Choice, close, write_message}
use grpchan.Inproc.Server.{
  in_closed, ServerStream, Env, entries, is_in_headers, is_closed, non_empty, new_stream,
  send_headers_locked, set_header, send_header, try_set_trailer, send_payload, then_payload,
  send_msg, write_some, finish,
}

-- The calls that a handler makes on its stream.
pub data Call (M : Type 0) : Type 0 where
  sets_header sends_header sets_trailer : Md → Call M
  sends_msg : Option M → Call M

module _ {M : Type 0} (cloner : Cloner M) where
  unfoldable pub step : Env → Call M → ServerStream M → Result (Unit {0}) × ServerStream M
  step env (sets_header md) s = set_header env md s
  step env (sends_header md) s = send_header env md s
  step env (sets_trailer md) s = try_set_trailer md s
  step env (sends_msg m) s = send_msg cloner env m s

  unfoldable pub run : List (Env × Call M) → ServerStream M → ServerStream M
  run [] s = s
  run ((env, c) ∷ cs) s = run cs (step env c s).1

  -- The whole life of a stream on the server: the calls of the handler, the end of the RPC, and the
  -- calls of goroutines that the handler left behind.
  unfoldable pub serve :
      List (Env × Call M) → Env → Option GoError → List (Env × Call M) → ServerStream M
  serve cs env e late = run late (finish env e (run cs new_stream))

  -- What the stream keeps true until it is finished: the channel is open, and nothing has panicked.
  pub record IsOpen (s : ServerStream M) : Type 0 where
    pub not_closed : s.responses.closed ≡ false
    pub not_panicked : s.responses.panicked ≡ false
    pub state_open : is_closed s.state ≡ false

  write_message-open :
      (c : Choice) (m : Frame M) (ch : Outbox M)
      → ch.closed ≡ false
      → ((write_message c m ch).1.closed ≡ false)
        × ((write_message c m ch).1.panicked ≡ ch.panicked)
  unfolding write_message
  write_message-open c m ch h = ground arith

  send_headers_locked-IsOpen :
      (c : Choice) (s : ServerStream M) → IsOpen s → IsOpen (send_headers_locked c s).1
  unfolding send_headers_locked write_message
  send_headers_locked-IsOpen c s v = ground arith

  send_payload-IsOpen :
      (env : Env) (m : Option M) (s : ServerStream M)
      → IsOpen s
      → IsOpen (send_payload cloner env m s).1
  unfolding send_payload write_message
  send_payload-IsOpen env none s v = v
  send_payload-IsOpen env (some m) s v = ground arith

  send_msg-IsOpen :
      (env : Env) (m : Option M) (s : ServerStream M)
      → IsOpen s
      → IsOpen (send_msg cloner env m s).1
  unfolding send_msg
  send_msg-IsOpen env m s v = elim (Bool-cases (is_some env.ctx_err)) [
    | inl dead ↦ rw dead v
    | inr alive ↦ elim (Bool-cases (is_in_headers s.state)) [
      | inl early ↦
          rw (alive, v.state_open, early)
            (after (send_headers_locked env.first s) (send_headers_locked-IsOpen env.first s v))
      | inr begun ↦ rw (alive, v.state_open, begun) (send_payload-IsOpen env m s v)
    ]
  ]
    where
      after :
          (r : Result (Unit {0}) × ServerStream M)
          → IsOpen r.1
          → IsOpen (then_payload cloner env m r).1
      after (ok _, q) w = send_payload-IsOpen env m q w
      after (err e, q) w = w

  step-IsOpen : (env : Env) (c : Call M) (s : ServerStream M) → IsOpen s → IsOpen (step env c s).1
  unfolding step set_header send_header try_set_trailer
  step-IsOpen env (sets_header md) s v = ground arith
  step-IsOpen env (sends_header md) s v = ground (
    arith,
    send_headers_locked-IsOpen env.first
        (record s { headers = some (merge (entries s.headers) md) }),
  )
  step-IsOpen env (sets_trailer md) s v = ground arith
  step-IsOpen env (sends_msg m) s v = send_msg-IsOpen env m s v

  run-IsOpen : (cs : List (Env × Call M)) (s : ServerStream M) → IsOpen s → IsOpen (run cs s)
  unfolding run
  run-IsOpen [] s v = v
  run-IsOpen ((env, c) ∷ cs) s v = run-IsOpen cs (step env c s).1 (step-IsOpen env c s v)

  write_some-open :
      (b : Bool) (c : Choice) (m : Frame M) (ch : Outbox M)
      → ch.closed ≡ false
      → ((write_some b c m ch).closed ≡ false) × ((write_some b c m ch).panicked ≡ ch.panicked)
  write_some-open true c m ch h = write_message-open c m ch h
  write_some-open false c m ch h = (h, refl)

  close-open :
      (ch : Outbox M)
      → ch.closed ≡ false
      → ((close ch).closed ≡ true) × ((close ch).panicked ≡ ch.panicked)
  unfolding close
  close-open ch h = ground arith

  finish-safe :
      (env : Env) (e : Option GoError) (s : ServerStream M)
      → IsOpen s
      → ((finish env e s).state ≡ in_closed)
        × ((finish env e s).responses.closed ≡ true)
        × ((finish env e s).responses.panicked ≡ false)
  unfolding finish
  finish-safe env e s v =
      let (h0, h1) =
        write_some-open (is_in_headers s.state && non_empty s.headers) env.first
          (record (empty_frame {M = M}) { headers = s.headers }) s.responses v.not_closed in
      let (t0, t1) =
        write_some-open (non_empty s.trailers) env.second
          (record (empty_frame {M = M}) { trailers = s.trailers }) _ h0 in
      let (e0, e1) =
        write_some-open (is_some e) env.third (record (empty_frame {M = M}) { fault = e }) _ t0 in
      let (c0, c1) = close-open _ e0 in (refl, c0, c1 ∙ e1 ∙ t1 ∙ h1 ∙ v.not_panicked)

  step_closed :
      (env : Env) (c : Call M) (s : ServerStream M) → s.state ≡ in_closed → (step env c s).1 ≡ s
  unfolding step set_header send_header try_set_trailer send_msg
  step_closed env (sets_header md) s h = ground arith
  step_closed env (sends_header md) s h = ground arith
  step_closed env (sets_trailer md) s h = ground arith
  step_closed env (sends_msg m) s h = ground arith

  run_closed : (cs : List (Env × Call M)) (s : ServerStream M) → s.state ≡ in_closed → run cs s ≡ s
  unfolding run
  run_closed [] s h = refl
  run_closed ((env, c) ∷ cs) s h = rw (step_closed env c s h) (run_closed cs s h)

  -- Whatever the handler calls and whatever the environment does, the channel of responses is closed
  -- once and never written behind its end, and calls that come after the end of the RPC change nothing.
  pub serve_safe :
      (cs : List (Env × Call M)) (env : Env) (e : Option GoError) (late : List (Env × Call M))
      → (serve cs env e late ≡ finish env e (run cs new_stream))
        × ((serve cs env e late).responses.closed ≡ true)
        × ((serve cs env e late).responses.panicked ≡ false)
  unfolding serve
  serve_safe cs env e late =
      let v =
        run-IsOpen cs new_stream
          (record { not_closed = refl; not_panicked = refl; state_open = refl }) in
      let (closed, shut, calm) = finish-safe env e (run cs new_stream) v in
      rw (run_closed late (finish env e (run cs new_stream)) closed) (refl, shut, calm)
