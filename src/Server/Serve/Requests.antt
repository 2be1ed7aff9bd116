-- ===== src/Server/Serve/Requests.antt =====
-- One request of `serve_connection`, from its header on: its payload in, one reply out.
use open_jls_demos.Prelude.{
  ℕ, inl, inr, ◌^◌, ◌<◌, ◌≡◌, refl, Bool, true, false, List, [], append-nil, length, Bool-cases,
  ltb, ◌!=◌, if◌then◌else◌, IsU32, arith,
}
use open_jls_demos.World.{Env}
use open_jls_demos.World.Laws.{Lawful, Enough}
use open_jls_demos.World.Silent.{Silent, Silent-if, Silent-bind, Silent-pure, Silent-emit}
use open_jls_demos.Proto.{OjlsHdr, ojls_hdr_pack, proto_magic, st_ok}
use open_jls_demos.Server.{Hw}
use open_jls_demos.Server.Replies.{Replies}
use open_jls_demos.Server.Request.{is_stream, image_count, request_status}
use open_jls_demos.Server.Request.Accept.{loopback_accepted_iff}
use open_jls_demos.Server.Encode.{error_hdr, encode_and_reply}
use open_jls_demos.Server.Encode.Answer.{IsEncodeReply, encode_and_reply-Replies, send_error-Sends}
use open_jls_demos.Server.Stream.{stream_and_reply}
use open_jls_demos.Server.Stream.Send.{sys_alloc-Silent}
use open_jls_demos.Server.Stream.Answer.{IsStreamReply, TransferBound}
use open_jls_demos.Server.Stream.Outcome.{stream_and_reply-Replies}
use open_jls_demos.Server.Serve.{grow, serve_loopback, serve_hardware, serve_request, serve_header}
use open_jls_demos.Server.Serve.Echo.{echo_msg, loopback_reply-Sends}
use open_jls_demos.Server.Serve.Answers.{
  Answers, Answers-stop, Answers-map, Answers-if, Answers-later, Answers-reply, Answers-last,
  Answers-drain, Answers-receive, Answers-finish,
}
use open_jls_demos.Server.Serve.Exchange.{IsServed, IsAnswer}

module _ {env : Env} {k : ℕ} (law : Lawful env k) (cap : ℕ) (bound : TransferBound env cap)
    (short : cap < 2 ^ 32) (hw : Hw) (timeout_ms fuel : ℕ) (enough : Enough k timeout_ms fuel) where
  module _ (req : OjlsHdr) (fits : IsU32 req.payload_len) (loop_cap : ℕ) where
    -- The whole payload is taken, and answered.
    abbrev pub Whole : Bool → List ℕ → List ℕ → Type 0
    Whole loopback payload reply =
        (length payload ≡ req.payload_len) × IsAnswer loopback hw cap req payload reply

    grow-Silent : Silent env (grow env loop_cap req.payload_len)
    unfolding grow
    grow-Silent =
        Silent-if (ltb loop_cap req.payload_len)
          (Silent-bind (sys_alloc-Silent law req.payload_len) (λ b. Silent-pure _))
          (Silent-pure loop_cap)

    serve_loopback-Answers :
        request_status true hw req ≡ st_ok
        → Answers env (Whole true) (serve_loopback fuel env req loop_cap)
    unfolding serve_loopback
    serve_loopback-Answers ok = Answers-later (Whole true) grow-Silent (λ c.
        Answers-if (Whole true) (ltb c req.payload_len) (λ _. Answers-stop)
          (λ _.
            Answers-receive law fuel (λ bs a b. (a ≡ []) × (b ≡ echo_msg req bs)) (Whole true)
              req.payload_len _ (omega arith)
              (λ bs l.
                Answers-reply (λ b. b ≡ echo_msg req bs) (λ a b. (a ≡ []) × (b ≡ echo_msg req bs)) c
                  (loopback_reply-Sends law fuel bs (omega arith) (omega arith) req
                    ((loopback_accepted_iff hw req).0 ok) l)
                  (λ b e. (refl, e)))
              (λ rc bs t bad. rw bad refl)
              (λ bs a b l (x, y). rw (x, append-nil) (l, inr (ok, y)))))

    hardware_reply :
        request_status false hw req ≡ st_ok
        → Replies env
            (λ b.
              if is_stream req
              then IsStreamReply req (image_count req) cap b
              else IsEncodeReply req b)
            (if is_stream req
              then stream_and_reply fuel env hw req (image_count req) timeout_ms
              else encode_and_reply fuel env hw req timeout_ms)
    hardware_reply ok = elim (Bool-cases (is_stream req)) [
      | inl stream ↦ rw stream (
          stream_and_reply-Replies law cap bound hw req (image_count req) timeout_ms fuel enough
            short)
      | inr single ↦ rw single (encode_and_reply-Replies law hw req timeout_ms fuel enough)
    ]

    serve_hardware-Answers :
        request_status false hw req ≡ st_ok
        → Answers env (Whole false) (serve_hardware fuel env hw timeout_ms req loop_cap)
    unfolding serve_hardware
    serve_hardware-Answers ok =
        let G : List ℕ → List ℕ → Type 0 = λ a b. (a ≡ []) × IsServed false cap req a b in
        Answers-receive law fuel (λ _. G) (Whole false) req.payload_len _ (omega arith)
          (λ bs l. Answers-later G (Silent-emit law.clock _ (λ t. (refl, refl))) (λ _.
            Answers-finish law fuel _ G req loop_cap (omega arith) (hardware_reply ok)
              (λ b h. (refl, inr h)) (λ n. (refl, inl (n, refl)))))
          (λ rc bs t bad. rw bad refl) (λ bs a b l (x, y). rw (x, append-nil) (l, inr (ok, y)))

    serve_accepted-Answers :
        (loopback : Bool)
        → request_status loopback hw req ≡ st_ok
        → Answers env (Whole loopback) (
            if loopback
            then serve_loopback fuel env req loop_cap
            else serve_hardware fuel env hw timeout_ms req loop_cap)
    serve_accepted-Answers true ok = serve_loopback-Answers ok
    serve_accepted-Answers false ok = serve_hardware-Answers ok

    serve_request-Answers :
        (loopback : Bool)
        → Answers env (Whole loopback) (serve_request fuel env loopback hw timeout_ms req loop_cap)
    unfolding serve_request
    serve_request-Answers loopback =
        let st = request_status loopback hw req in
        let G : List ℕ → List ℕ → Type 0 =
          λ a b. (a ≡ []) × (b ≡ ojls_hdr_pack (error_hdr req st)) in
        Answers-if (Whole loopback) (st != st_ok)
          (λ refused.
            Answers-drain law fuel G (Whole loopback) req.payload_len (omega arith)
              (Answers-reply (λ b. b ≡ ojls_hdr_pack (error_hdr req st)) G loop_cap
                (send_error-Sends law fuel req st (omega arith)) (λ b e. (refl, e)))
              (λ gone a b l (x, y). rw (x, append-nil) (l, inl (ground arith, y))))
          (λ fine. serve_accepted-Answers loopback (ground arith))

    pub serve_header-Answers :
        (loopback : Bool)
        → Answers env
            (λ a b. (req.magic ≡ proto_magic) × Whole loopback a b)
            (serve_header fuel env loopback hw timeout_ms req loop_cap)
    unfolding serve_header
    serve_header-Answers loopback =
        Answers-if _ (req.magic != proto_magic)
          (λ bad. Answers-last _ _ (send_error-Sends law fuel req 1 (omega arith)))
          (λ good.
            Answers-map (Whole loopback) _ (λ a b w. (ground arith, w))
              (serve_request-Answers loopback))
