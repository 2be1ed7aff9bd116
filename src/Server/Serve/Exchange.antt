-- ===== src/Server/Serve/Exchange.antt =====
-- What one round of the loop of `serve_connection` does on the socket: a request in, one reply out.
use open_jls_demos.Prelude.{
  ℕ, suc, ◌+◌, ◌≡◌, ◌≢◌, ◌⊎◌, Bool, true, false, List, ◌++◌, length, if◌then◌else◌, pos, negsuc,
}
use open_jls_demos.World.{got, Env, Trace, received, sent}
use open_jls_demos.Proto.{OjlsHdr, ojls_hdr_pack, ojls_hdr_unpack, proto_magic, st_ok}
use open_jls_demos.Server.{Hw}
use open_jls_demos.Server.Request.{is_stream, image_count, request_status}
use open_jls_demos.Server.Encode.{error_hdr}
use open_jls_demos.Server.Encode.Answer.{IsEncodeReply}
use open_jls_demos.Server.Stream.Answer.{IsStreamReply}
use open_jls_demos.Server.Serve.{Round, stop, again}
use open_jls_demos.Server.Serve.Echo.{echo_msg}

-- The reply to an accepted request: an echo in loopback mode; otherwise an error header, or the
-- reply that belongs to the type of the request.
abbrev pub IsServed : Bool → ℕ → OjlsHdr → List ℕ → List ℕ → Type 0
IsServed true cap req payload reply = reply ≡ echo_msg req payload
IsServed false cap req payload reply =
    ((n : ℕ) × (reply ≡ ojls_hdr_pack (error_hdr req (suc n))))
    ⊎ (if is_stream req
        then IsStreamReply req (image_count req) cap reply
        else IsEncodeReply req reply)

-- The reply to any request: an error header with the status of the check that failed, or the above.
abbrev pub IsAnswer : Bool → Hw → ℕ → OjlsHdr → List ℕ → List ℕ → Type 0
IsAnswer loopback hw cap req payload reply =
    ((request_status loopback hw req ≢ st_ok)
      × (reply ≡ ojls_hdr_pack (error_hdr req (request_status loopback hw req))))
    ⊎ ((request_status loopback hw req ≡ st_ok) × IsServed loopback cap req payload reply)

-- One exchange: the bytes of a request with a good magic, and those of its reply.
pub record Exchange (loopback : Bool) (hw : Hw) (cap : ℕ) (request reply : List ℕ) : Type 0 where
  pub raw : List ℕ
  pub payload : List ℕ
  pub request_parts : request ≡ raw ++ payload
  pub raw_length : length raw ≡ 20
  pub magic : (ojls_hdr_unpack raw).magic ≡ proto_magic
  pub payload_length : length payload ≡ (ojls_hdr_unpack raw).payload_len
  pub answered : IsAnswer loopback hw cap (ojls_hdr_unpack raw) payload reply

-- A read brought the last of the 20 bytes that follow what had come before.
abbrev pub HeaderRead : Env → List ℕ → Type 0
HeaderRead env before =
    (u : Trace) × (n : ℕ) × (bs : List ℕ) × (env.read u n ≡ got bs)
    × (length (received u) + length bs ≡ length before + 20)

-- How a round ends. Going on means one whole exchange; breaking off with 0 that nothing more came,
-- and otherwise -1.
abbrev pub RoundEnd : Env → Bool → Hw → ℕ → List ℕ → List ℕ → Round → Trace → Type 0
RoundEnd env loopback hw cap before out (again c) t =
    (request : List ℕ) × (reply : List ℕ) × (received t ≡ before ++ request)
    × (sent t ≡ out ++ reply)
    × Exchange loopback hw cap request reply
    × HeaderRead env before
RoundEnd env loopback hw cap before out (stop rc) t =
    ((rc ≡ pos 0) × (received t ≡ before) × (sent t ≡ out)) ⊎ (rc ≡ negsuc 0)
