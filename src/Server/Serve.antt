-- ===== src/Server/Serve.antt =====
-- Software/src/ojls_server.c: `loopback_reply` and `serve_connection`.
pub mod Echo
pub mod Service
pub mod Session
pub mod Exchange
pub mod Answers
pub mod Requests
pub mod Rounds
use open_jls_demos.Prelude.{
  ℕ, zero, suc, ◌*◌, ◌/◌, Bool, not, List, replicate, none, take, drop, u32, ltb, ◌!=◌,
  if◌then◌else◌, ℤ, pos, negsuc, is_zero,
}
use open_jls_demos.World.{mem_stored, Env, M, pure, emit, ◌>>=◌, ◌>>◌}
use open_jls_demos.Proto.{
  OjlsHdr, proto_magic, proto_hdr_len, msg_encode_resp, st_ok, st_bad_magic, ojls_hdr_pack,
  ojls_hdr_unpack,
}
use open_jls_demos.Server.{Hw, or_return}
use open_jls_demos.Server.Io.{recv_full, send_full, drain}
use open_jls_demos.Server.Request.{is_stream, expected_bytes, image_count, request_status}
use open_jls_demos.Server.Encode.{send_error, encode_and_reply}
use open_jls_demos.World.System.{sys_alloc}
use open_jls_demos.Server.Stream.{stream_send, stream_and_reply}

-- `base + off`, read for `len` bytes, in a payload that the program holds.
abbrev pub payload_bytes : List ℕ → ℕ → ℕ → M (List ℕ)
payload_bytes payload off len = pure (take len (drop off payload))

-- The header of an echoed image.
abbrev pub loopback_hdr : OjlsHdr → OjlsHdr
loopback_hdr req = record req { type = msg_encode_resp; status = st_ok }

-- The argument of `malloc` is a 32-bit `size_t`.
unfoldable pub loopback_reply : ℕ → Env → OjlsHdr → List ℕ → M ℤ
loopback_reply fuel env req payload =
    if is_stream req
    then (do
      let size = expected_bytes req
      let count = req.payload_len / size
      memory ← sys_alloc env (u32 (count * 4))
      if not memory
          then pure (negsuc 0)
          else stream_send fuel env req st_ok (payload_bytes payload) size (replicate count size)
              count)
    else or_return (send_full fuel env (ojls_hdr_pack (loopback_hdr req))) (negsuc 0)
        (or_return (send_full fuel env (take req.payload_len payload)) (negsuc 0) (pure (pos 0)))

-- How a round of the loop of `serve_connection` ends: it breaks with `rc`, or goes on with the
-- capacity of the loopback buffer.
pub data Round : Type 0 where
  stop : ℤ → Round
  again : ℕ → Round

-- `if (m != 0) { rc = -1; break; }`
abbrev pub or_stop : M ℤ → M Round → M Round
or_stop m rest = m >>= λ rc. if is_zero rc then rest else pure (stop (negsuc 0))

-- Growth of the loopback buffer: the capacity afterwards, 0 where `malloc` failed.
unfoldable pub grow : Env → ℕ → ℕ → M ℕ
grow env loop_cap len =
    if ltb loop_cap len
    then (do memory ← sys_alloc env len; pure (if memory then len else 0))
    else pure loop_cap

unfoldable pub serve_loopback : ℕ → Env → OjlsHdr → ℕ → M Round
serve_loopback fuel env req loop_cap = do
  cap ← grow env loop_cap req.payload_len
  if ltb cap req.payload_len then pure (stop (negsuc 0)) else (do
    (rc, payload) ← recv_full fuel env req.payload_len
    if is_zero rc
        then or_stop (loopback_reply fuel env req payload) (pure (again cap))
        else pure (stop (negsuc 0)))

-- `st` after the reply: negative on a socket error, a status to send, or 0.
unfoldable pub finish_request : ℕ → Env → OjlsHdr → ℕ → ℤ → M Round
finish_request fuel env req loop_cap (negsuc n) = pure (stop (negsuc 0))
finish_request fuel env req loop_cap (pos zero) = pure (again loop_cap)
finish_request fuel env req loop_cap (pos (suc n)) =
    or_stop (send_error fuel env req (suc n)) (pure (again loop_cap))

-- The payload is received straight into the tx buffer.
unfoldable pub serve_hardware : ℕ → Env → Hw → ℕ → OjlsHdr → ℕ → M Round
serve_hardware fuel env hw timeout_ms req loop_cap = do
  (rc, payload) ← recv_full fuel env req.payload_len
  emit (mem_stored hw.tx.b.buf hw.tx.off payload)
  if is_zero rc
      then (do
        st ←
            (if is_stream req
              then stream_and_reply fuel env hw req (image_count req) timeout_ms
              else encode_and_reply fuel env hw req timeout_ms)
        finish_request fuel env req loop_cap st)
      else pure (stop (negsuc 0))

-- A request with a good magic.
unfoldable pub serve_request : ℕ → Env → Bool → Hw → ℕ → OjlsHdr → ℕ → M Round
serve_request fuel env loopback hw timeout_ms req loop_cap =
    if request_status loopback hw req != st_ok
    then or_stop (drain fuel env req.payload_len)
        (or_stop (send_error fuel env req (request_status loopback hw req)) (pure (again loop_cap)))
    else if loopback
    then serve_loopback fuel env req loop_cap
    else serve_hardware fuel env hw timeout_ms req loop_cap

unfoldable pub serve_header : ℕ → Env → Bool → Hw → ℕ → OjlsHdr → ℕ → M Round
serve_header fuel env loopback hw timeout_ms req loop_cap =
    if req.magic != proto_magic
    then (do _ ← send_error fuel env req st_bad_magic; pure (stop (negsuc 0)))
    else serve_request fuel env loopback hw timeout_ms req loop_cap

-- What `recv_full` of a header leads to: 1 is EOF between requests.
unfoldable pub on_header : ℕ → Env → Bool → Hw → ℕ → ℕ → ℤ × List ℕ → M Round
on_header fuel env loopback hw timeout_ms loop_cap (pos zero, raw) =
    serve_header fuel env loopback hw timeout_ms (ojls_hdr_unpack raw) loop_cap
on_header fuel env loopback hw timeout_ms loop_cap (pos (suc zero), raw) = pure (stop (pos 0))
on_header fuel env loopback hw timeout_ms loop_cap (rc, raw) = pure (stop rc)

unfoldable pub serve_round : ℕ → Env → Bool → Hw → ℕ → ℕ → M Round
serve_round fuel env loopback hw timeout_ms loop_cap =
    recv_full fuel env proto_hdr_len >>= on_header fuel env loopback hw timeout_ms loop_cap

unfoldable pub serve_next : (ℕ → M ℤ) → Round → M ℤ
serve_next next (stop rc) = pure rc
serve_next next (again loop_cap) = next loop_cap

-- `rounds` bounds the requests served, `fuel` the loops of one.
unfoldable pub serve_loop : ℕ → ℕ → Env → Bool → Hw → ℕ → ℕ → M ℤ
serve_loop zero fuel env loopback hw timeout_ms loop_cap = λ t. none
serve_loop (suc rounds) fuel env loopback hw timeout_ms loop_cap =
    serve_round fuel env loopback hw timeout_ms loop_cap
    >>= serve_next (serve_loop rounds fuel env loopback hw timeout_ms)

unfoldable pub serve_connection : ℕ → ℕ → Env → Bool → Hw → ℕ → M ℤ
serve_connection rounds fuel env loopback hw timeout_ms =
    serve_loop rounds fuel env loopback hw timeout_ms 0
