-- ===== src/Server/Keeps/Requests.antt =====
-- Whole connections, given what the requests for the hardware do.
use open_jls_demos.Prelude.{
  ℕ, zero, suc, ◌+◌, ◌*◌, ◌/◌, Bool, not, List, [], ◌∷◌, take, u32, ltb, ◌!=◌, ℤ, pos, negsuc,
  is_zero,
}
use open_jls_demos.World.{Env, M, Trace, mem_stored, emit}
use open_jls_demos.World.Keeps.{Keeps, IsCalm, Keeps-pure, Keeps-stuck, Keeps-bind, Keeps-if}
use open_jls_demos.Proto.{
  OjlsHdr, proto_magic, proto_hdr_len, st_ok, st_bad_magic, ojls_hdr_pack, ojls_put_u32,
}
use open_jls_demos.Server.{Hw}
use open_jls_demos.Server.Io.Keeps.{sys_alloc-Keeps, recv_full-Keeps, send_full-Keeps, drain-Keeps}
use open_jls_demos.Server.Keeps.Core.{or_return-Keeps}
use open_jls_demos.Server.Request.{is_stream, expected_bytes, image_count, request_status}
use open_jls_demos.Server.Encode.{send_error, encode_and_reply}
use open_jls_demos.Server.Stream.{send_lens, send_images, stream_send, stream_hdr, stream_and_reply}
use open_jls_demos.Server.Serve.{
  payload_bytes, loopback_hdr, loopback_reply, Round, stop, again, or_stop, grow, serve_loopback,
  finish_request, serve_hardware, serve_request, serve_header, on_header, serve_round, serve_next,
  serve_loop, serve_connection,
}

module _ {R : Trace → Trace → Type 0} (calm : IsCalm R) (env : Env) (fuel : ℕ) where
  pub send_error-Keeps : (req : OjlsHdr) (status : ℕ) → Keeps R (send_error fuel env req status)
  unfolding send_error
  send_error-Keeps req status = send_full-Keeps calm env fuel _

  send_lens-Keeps : (lens : List ℕ) → Keeps R (send_lens fuel env lens)
  unfolding send_lens
  send_lens-Keeps [] = Keeps-pure calm.pre _
  send_lens-Keeps (l ∷ ls) =
      or_return-Keeps calm env _ _ _ (send_full-Keeps calm env fuel (ojls_put_u32 l))
        (send_lens-Keeps ls)

  send_images-Keeps :
      (read : ℕ → ℕ → M (List ℕ)) (slot i : ℕ) (lens : List ℕ)
      → ((off len : ℕ) → Keeps R (read off len))
      → Keeps R (send_images fuel env read slot i lens)
  unfolding send_images
  send_images-Keeps read slot i [] h = Keeps-pure calm.pre _
  send_images-Keeps read slot i (l ∷ ls) h = Keeps-bind calm.pre (h (u32 (i * slot)) l) (λ bytes.
      or_return-Keeps calm env _ _ _ (send_full-Keeps calm env fuel bytes)
        (send_images-Keeps read slot (i + 1) ls h))

  pub stream_send-Keeps :
      (req : OjlsHdr) (status : ℕ) (read : ℕ → ℕ → M (List ℕ)) (slot : ℕ) (lens : List ℕ)
      (count : ℕ)
      → ((off len : ℕ) → Keeps R (read off len))
      → Keeps R (stream_send fuel env req status read slot lens count)
  unfolding stream_send
  stream_send-Keeps req status read slot lens count h =
      or_return-Keeps calm env _ _ _
        (send_full-Keeps calm env fuel (ojls_hdr_pack (stream_hdr req status lens count)))
        (or_return-Keeps calm env _ _ _ (send_lens-Keeps lens)
          (send_images-Keeps read slot 0 lens h))

  loopback_reply-Keeps :
      (req : OjlsHdr) (payload : List ℕ) → Keeps R (loopback_reply fuel env req payload)
  unfolding loopback_reply
  loopback_reply-Keeps req payload =
      Keeps-if (is_stream req)
        (Keeps-bind calm.pre
          (sys_alloc-Keeps calm env (u32 (req.payload_len / expected_bytes req * 4)))
          (λ memory. Keeps-if (not memory) (Keeps-pure calm.pre _) (
            stream_send-Keeps req st_ok (payload_bytes payload) _ _ _
              (λ off len. Keeps-pure calm.pre _))))
        (or_return-Keeps calm env _ _ _
          (send_full-Keeps calm env fuel (ojls_hdr_pack (loopback_hdr req)))
          (or_return-Keeps calm env _ _ _
            (send_full-Keeps calm env fuel (take req.payload_len payload)) (Keeps-pure calm.pre _)))

  or_stop-Keeps : (m : M ℤ) (rest : M Round) → Keeps R m → Keeps R rest → Keeps R (or_stop m rest)
  or_stop-Keeps m rest h k =
      Keeps-bind calm.pre h (λ rc. Keeps-if (is_zero rc) k (Keeps-pure calm.pre _))

  serve_loopback-Keeps :
      (req : OjlsHdr) (loop_cap : ℕ) → Keeps R (serve_loopback fuel env req loop_cap)
  unfolding serve_loopback grow
  serve_loopback-Keeps req loop_cap =
      Keeps-bind calm.pre
        (Keeps-if (ltb loop_cap req.payload_len)
          (Keeps-bind calm.pre (sys_alloc-Keeps calm env req.payload_len)
            (λ memory. Keeps-pure calm.pre _))
          (Keeps-pure calm.pre _))
        (λ cap. Keeps-if (ltb cap req.payload_len) (Keeps-pure calm.pre _) (
          Keeps-bind calm.pre (recv_full-Keeps calm env fuel req.payload_len) (λ r.
            Keeps-if (is_zero r.0)
              (or_stop-Keeps _ _ (loopback_reply-Keeps req r.1) (Keeps-pure calm.pre _))
              (Keeps-pure calm.pre _))))

  pub finish-Keeps :
      (req : OjlsHdr) (loop_cap : ℕ) (st : ℤ) → Keeps R (finish_request fuel env req loop_cap st)
  unfolding finish_request
  finish-Keeps req loop_cap (negsuc n) = Keeps-pure calm.pre _
  finish-Keeps req loop_cap (pos zero) = Keeps-pure calm.pre _
  finish-Keeps req loop_cap (pos (suc n)) =
      or_stop-Keeps _ _ (send_error-Keeps req (suc n)) (Keeps-pure calm.pre _)

  -- The hardware's answers, and the stores of the payloads, are given.
  module _ (hw : Hw) (timeout_ms : ℕ)
      (stores : (off : ℕ) (bs : List ℕ) (t : Trace) → R t (mem_stored hw.tx.b.buf off bs ∷ t))
      (encodes : (req : OjlsHdr) → Keeps R (encode_and_reply fuel env hw req timeout_ms))
      (streams : (req : OjlsHdr) (count : ℕ)
        → Keeps R (stream_and_reply fuel env hw req count timeout_ms)) where
    pub serve_hardware-Keeps :
        (req : OjlsHdr) (loop_cap : ℕ)
        → Keeps R (serve_hardware fuel env hw timeout_ms req loop_cap)
    unfolding serve_hardware
    serve_hardware-Keeps req loop_cap =
        Keeps-bind calm.pre (recv_full-Keeps calm env fuel req.payload_len) (λ r.
          Keeps-bind calm.pre {m = emit (mem_stored hw.tx.b.buf hw.tx.off r.1)}
            (record { runs = λ t. stores hw.tx.off r.1 t })
            (λ _.
              Keeps-if (is_zero r.0)
                (Keeps-bind calm.pre
                  (Keeps-if (is_stream req) (streams req (image_count req)) (encodes req))
                  (λ st. finish-Keeps req loop_cap st))
                (Keeps-pure calm.pre (stop (negsuc 0)))))

  -- What is done with the hardware is given.
  module _ (hw : Hw) (timeout_ms : ℕ)
      (hardware : (req : OjlsHdr) (loop_cap : ℕ)
        → Keeps R (serve_hardware fuel env hw timeout_ms req loop_cap)) where
    serve_header-Keeps :
        (loopback : Bool) (req : OjlsHdr) (loop_cap : ℕ)
        → Keeps R (serve_header fuel env loopback hw timeout_ms req loop_cap)
    unfolding serve_header serve_request
    serve_header-Keeps loopback req loop_cap =
        Keeps-if (req.magic != proto_magic)
          (Keeps-bind calm.pre (send_error-Keeps req st_bad_magic) (λ _. Keeps-pure calm.pre _))
          (Keeps-if (request_status loopback hw req != st_ok)
            (or_stop-Keeps _ _ (drain-Keeps calm env fuel req.payload_len)
              (or_stop-Keeps _ _ (send_error-Keeps req _) (Keeps-pure calm.pre _)))
            (Keeps-if loopback (serve_loopback-Keeps req loop_cap) (hardware req loop_cap)))

    on_header-Keeps :
        (loopback : Bool) (loop_cap : ℕ) (r : ℤ × List ℕ)
        → Keeps R (on_header fuel env loopback hw timeout_ms loop_cap r)
    unfolding on_header
    on_header-Keeps loopback loop_cap (pos zero, raw) = serve_header-Keeps loopback _ loop_cap
    on_header-Keeps loopback loop_cap (pos (suc zero), raw) = Keeps-pure calm.pre _
    on_header-Keeps loopback loop_cap (pos (suc (suc n)), raw) = Keeps-pure calm.pre _
    on_header-Keeps loopback loop_cap (negsuc n, raw) = Keeps-pure calm.pre _

    serve_loop-Keeps :
        (rounds : ℕ) (loopback : Bool) (loop_cap : ℕ)
        → Keeps R (serve_loop rounds fuel env loopback hw timeout_ms loop_cap)
    unfolding serve_loop serve_round serve_next
    serve_loop-Keeps zero loopback loop_cap = Keeps-stuck calm.pre
    serve_loop-Keeps (suc rounds) loopback loop_cap =
        Keeps-bind calm.pre
          (Keeps-bind calm.pre (recv_full-Keeps calm env fuel proto_hdr_len)
            (on_header-Keeps loopback loop_cap))
          (next (serve_loop-Keeps rounds loopback))
      where
        next :
            ((c : ℕ) → Keeps R (serve_loop rounds fuel env loopback hw timeout_ms c))
            → (r : Round)
            → Keeps R (serve_next (serve_loop rounds fuel env loopback hw timeout_ms) r)
        next h (stop rc) = Keeps-pure calm.pre rc
        next h (again c) = h c

    pub serve_connection-Keeps :
        (rounds : ℕ) (loopback : Bool)
        → Keeps R (serve_connection rounds fuel env loopback hw timeout_ms)
    unfolding serve_connection
    serve_connection-Keeps rounds loopback = serve_loop-Keeps rounds loopback 0
