-- ===== src/Server/Order/Requests.antt =====
-- Every request, and every connection, leaves the order of hand-overs intact.
use open_jls_demos.Prelude.{
  ℕ, zero, suc, ◌*◌, ◌≡◌, ◌≤◌, sym, List, ◌∷◌, length, is_zero, arith, Bool, not, Option, none,
  some, ℤ, pos, negsuc,
}
use open_jls_demos.World.{Env, Trace, M, pure, emit, mem_stored, ReadLaw, ◌>>=◌}
use open_jls_demos.World.Keeps.{Keeps, Keeps-bind, Upon, Upon-some, Upon-map, Upon-bind, Upon-both}
use open_jls_demos.Uio.Keeps.{now_us-Keeps}
use open_jls_demos.AxiDma.{AxidmaRing, s2mm}
use open_jls_demos.AxiDma.Keeps.{wait-Keeps, wait_packets-Keeps, ring_bytes-Keeps}
use open_jls_demos.Proto.{OjlsHdr}
use open_jls_demos.Server.{Hw, hw_recover}
use open_jls_demos.Server.Io.Keeps.{sys_alloc-Keeps, send_full-Keeps, recv_full-Keeps}
use open_jls_demos.Server.Keeps.Core.{or_return-Keeps, recover-Keeps}
use open_jls_demos.Server.Keeps.Requests.{stream_send-Keeps, finish-Keeps, serve_connection-Keeps}
use open_jls_demos.Server.Keeps.Hardware.{collect-Keeps, status-Keeps}
use open_jls_demos.Server.Encode.{encode_reply, after_wait, encode_run, encode_and_reply}
use open_jls_demos.Server.Stream.{stream_reply, stream_run, ready_level, stream_and_reply}
use open_jls_demos.Server.Serve.{Round, serve_hardware, serve_connection}
use mathlib.Core.Path.{subst}
use open_jls_demos.Server.Order.{Coherent}
use open_jls_demos.Server.Io.{recv_full}
use open_jls_demos.Server.Io.Length.{Fits, recv_full-Fits}
use open_jls_demos.Server.Request.{is_stream, image_count}
use open_jls_demos.Server.Order.Leads.{
  Leads, Stays, Leads-bind, Leads-if, Leads-pure, Keeps-Leads, or_return-Leads, PixelsStored,
  RxOwned, Coherent-IsCalm, AllFlushed-IsCalm, RxOwned-IsCalm,
}
use open_jls_demos.Server.Order.Syncs.{for_cpu-Coherent, sync_rx-Gives, region-RxOwned}
use open_jls_demos.Server.Order.Engine.{IsWired, Keeps-then, starts-Coherent, prepared-Coherent}

Leads-Keeps : {P : Trace → Type 0} {A : Type 0} {m : M A} → Leads P P m → Keeps (Stays P) m
Leads-Keeps {P} {A} {m} l = record { runs = λ t. go t (m t) (l.runs t) }
  where
    go :
        (t : Trace) (r : Option (A × Trace))
        → (P t → Upon r (λ _ u. P u))
        → Upon r (λ _ u. P t → P u)
    go t none h = tt
    go t (some (a, u)) h = h

module _ (env : Env) (fuel : ℕ) (hw : Hw) (wired : IsWired hw) where
  abbrev size : ℕ
  size = hw.desc_buf.size

  -- Reads of rx and sends, with the CPU as its owner.
  owner_ends :
      {A : Type 0} {m : M A}
      → Keeps (Stays (RxOwned size hw.rx.off)) m
      → Leads (RxOwned size hw.rx.off) (Coherent size) m
  owner_ends k = Keeps-Leads (λ t p. p.0) k

  encode_reply-Coherent :
      (req : OjlsHdr) (ring : AxidmaRing)
      → Leads (Coherent size) (Coherent size) (encode_reply fuel env hw req ring)
  unfolding encode_reply
  encode_reply-Coherent req ring =
      let calm = Coherent-IsCalm size in
      let owner = RxOwned-IsCalm size hw.rx.off in
      Leads-bind (Keeps-Leads (λ t c. c) (now_us-Keeps calm env)) (λ _.
        Leads-bind (Keeps-Leads (λ t c. c) (ring_bytes-Keeps calm env ring)) (λ n.
          or_return-Leads _ (sync_rx-Gives size env hw.rx.b.buf hw.rx.off n wired.rx_is) (
            owner_ends (
              or_return-Keeps owner env _ _ _ (send_full-Keeps owner env fuel _) (
                Keeps-bind owner.pre (region-RxOwned size env hw.rx 0 n wired.rx_is) (λ bytes.
                  or_return-Keeps owner env _ _ _ (send_full-Keeps owner env fuel bytes)
                    (record { runs = λ t p. p })))))))

  recovering :
      (width height : ℕ) (code : ℤ)
      → Leads (Coherent size) (Coherent size) (hw_recover fuel env width height >>= λ _. pure code)
  recovering width height code =
      Leads-bind
        (Keeps-Leads (λ t c. c) (recover-Keeps (Coherent-IsCalm size) env fuel width height))
        (λ _. Leads-pure code (λ t c. c))

  after_wait-Coherent :
      (req : OjlsHdr) (ring : AxidmaRing) (rc : ℤ)
      → Leads (Coherent size) (Coherent size) (after_wait fuel env hw req ring rc)
  unfolding after_wait
  after_wait-Coherent req ring (pos zero) = encode_reply-Coherent req ring
  after_wait-Coherent req ring (pos (suc n)) = recovering req.width req.height _
  after_wait-Coherent req ring (negsuc zero) = recovering req.width req.height _
  after_wait-Coherent req ring (negsuc (suc zero)) = recovering req.width req.height _
  after_wait-Coherent req ring (negsuc (suc (suc n))) = recovering req.width req.height _

  encode-Coherent :
      (req : OjlsHdr) (timeout_ms : ℕ)
      → Leads
          (PixelsStored size hw.tx.off req.payload_len)
          (Coherent size)
          (encode_and_reply fuel env hw req timeout_ms)
  unfolding encode_and_reply encode_run
  encode-Coherent req timeout_ms =
      (prepared-Coherent env fuel hw wired req.width req.height 100 req.payload_len _ _ _ _ _ _ _ _
        _ _ _ _ _
        (λ out_ring in_ring. starts-Coherent env fuel hw wired out_ring in_ring _ _ (
          Leads-bind
            (Keeps-Leads (λ t c. c)
              (wait-Keeps (Coherent-IsCalm size) env out_ring (for_cpu-Coherent size env _ _ _) fuel
                hw.irq_ok s2mm timeout_ms))
            (after_wait-Coherent req out_ring))))

  stream_reply-Coherent :
      (req : OjlsHdr) (count slot : ℕ) (ring : AxidmaRing) (rc : ℤ)
      → Leads (Coherent size) (Coherent size) (stream_reply fuel env hw req count slot ring rc)
  unfolding stream_reply
  stream_reply-Coherent req count slot ring rc =
      let calm = Coherent-IsCalm size in
      let owner = RxOwned-IsCalm size hw.rx.off in
      Leads-bind (Keeps-Leads (λ t c. c) (now_us-Keeps calm env)) (λ _.
        Leads-bind (Keeps-Leads (λ t c. c) (status-Keeps calm env fuel req rc)) (λ status.
          Keeps-then size _ (λ t c. c) (for_cpu-Coherent size env hw.desc_buf.buf 0 _)
            (or_return-Leads _ (sync_rx-Gives size env hw.rx.b.buf hw.rx.off _ wired.rx_is) (
              owner_ends (
                Keeps-bind owner.pre (collect-Keeps owner env count ring 0) (λ lens.
                  or_return-Keeps owner env _ _ _
                    (stream_send-Keeps owner env fuel req status _ slot lens count
                      (λ off n. region-RxOwned size env hw.rx off n wired.rx_is))
                    (record { runs = λ t p. p })))))))

  stream-Coherent :
      (req : OjlsHdr) (count timeout_ms : ℕ)
      → Leads
          (PixelsStored size hw.tx.off req.payload_len)
          (Coherent size)
          (stream_and_reply fuel env hw req count timeout_ms)
  unfolding stream_and_reply stream_run
  stream-Coherent req count timeout_ms =
      (prepared-Coherent env fuel hw wired req.width req.height (ready_level req) req.payload_len _
        _ _ _ _ _ _ _ _ _ _ _ _
        (λ out_ring in_ring.
          Leads-bind
            (Keeps-Leads (λ t p. p) (sys_alloc-Keeps (AllFlushed-IsCalm size) env (count * 4)))
            (λ memory. Leads-if (not memory) (Leads-pure _ (λ t p. p.0)) (
              starts-Coherent env fuel hw wired out_ring in_ring _ _ (
                Leads-bind
                  (Keeps-Leads (λ t c. c)
                    (wait_packets-Keeps (Coherent-IsCalm size) env out_ring
                      (for_cpu-Coherent size env _ _ _) fuel hw.irq_ok timeout_ms))
                  (stream_reply-Coherent req count _ out_ring))))))

  -- A payload of at most `len` bytes comes into tx.
  stored-Leads :
      (len : ℕ) (bs : List ℕ) (rest : M Round)
      → length bs ≤ len
      → Leads (PixelsStored size hw.tx.off len) (Coherent size) rest
      → Leads
          (Coherent size)
          (Coherent size)
          (emit (mem_stored hw.tx.b.buf hw.tx.off bs) >>= λ _. rest)
  stored-Leads len bs rest fits l =
      Leads-bind {Q = PixelsStored size hw.tx.off len}
        {m = emit (mem_stored hw.tx.b.buf hw.tx.off bs)}
        (record {
          runs = λ t c.
              subst (λ b. PixelsStored size hw.tx.off len (mem_stored b hw.tx.off bs ∷ t))
                (sym wired.tx_is) (c, ground arith);
        })
        (λ _. l)

  serve_hardware-Coherent :
      (law : ReadLaw env) (timeout_ms : ℕ) (req : OjlsHdr) (loop_cap : ℕ)
      → Keeps (Stays (Coherent size)) (serve_hardware fuel env hw timeout_ms req loop_cap)
  unfolding serve_hardware
  serve_hardware-Coherent law timeout_ms req loop_cap =
      let calm = Coherent-IsCalm size in
      let len = req.payload_len in
      Leads-Keeps (record {
        runs = λ t c.
            Upon-bind (recv_full fuel env len) _ t (λ r u. Coherent size u × Fits len r u)
              (λ _ u. Coherent size u)
              (Upon-both (recv_full fuel env len t) (λ _ u. Coherent size u) (Fits len)
                (Upon-map (recv_full fuel env len t) (λ _ u. Stays (Coherent size) t u)
                  (λ _ u. Coherent size u) ((recv_full-Keeps calm env fuel len).runs t)
                  (λ _ u f. f c))
                (recv_full-Fits env law len fuel t))
              (λ r u (c, fits).
                (stored-Leads len r.1 _ fits (
                    Leads-if (is_zero r.0)
                      (Leads-bind
                        (Leads-if (is_stream req) (stream-Coherent req (image_count req) timeout_ms)
                          (encode-Coherent req timeout_ms))
                        (λ st. Keeps-Leads (λ t c. c) (finish-Keeps calm env fuel req loop_cap st)))
                      (Leads-pure _ (λ t p. p.0)))).runs
                  u c);
      })

-- A connection that begins after a coherent run leaves a coherent run, whatever the requests, the
-- errors on the way and the answers of the system: at every start of the engine, the payload that
-- the CPU stored last in the tx buffer, and since the last descriptor was stored the whole
-- descriptor buffer, lay in the offset and size that were staged with direction 1 when the driver
-- took a kick for the device; and at every read of the rx buffer, since the last start the driver
-- had taken a kick for the CPU with direction 2 and a staged offset not above that of the read. A
-- staged value counts only where the driver took it. The handle has its buffers in their places,
-- `read` obeys its law, and the connection has ended.
pub connection-Coherent :
    (env : Env) (fuel rounds : ℕ) (loopback : Bool) (hw : Hw) (timeout_ms : ℕ) (t u : Trace)
    (rc : ℤ)
    → IsWired hw
    → ReadLaw env
    → Coherent hw.desc_buf.size t
    → serve_connection rounds fuel env loopback hw timeout_ms t ≡ some (rc, u)
    → Coherent hw.desc_buf.size u
connection-Coherent env fuel rounds loopback hw timeout_ms t u rc wired law c e =
    let size = hw.desc_buf.size in
    let all =
      serve_connection-Keeps (Coherent-IsCalm size) env fuel hw timeout_ms
        (serve_hardware-Coherent env fuel hw wired law timeout_ms) rounds loopback in
    Upon-some (serve_connection rounds fuel env loopback hw timeout_ms t)
      (λ _ v. Stays (Coherent size) t v) (all.runs t) e c
