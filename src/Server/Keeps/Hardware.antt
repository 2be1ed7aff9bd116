-- ===== src/Server/Keeps/Hardware.antt =====
-- Encode and stream requests: plain events and the engine's work.
use open_jls_demos.Prelude.{
  ℕ, zero, suc, ◌+◌, ◌*◌, ◌||◌, refl, Bool, not, List, [], ◌∷◌, Option, none, some, u64, test_bit,
  ltb, ◌==◌, ◌!=◌, ◌%◌, ℤ, pos, negsuc,
}
use open_jls_demos.World.{Env, M, Trace, dma, desc_stored}
use open_jls_demos.World.Desc.{AxidmaDesc}
use open_jls_demos.World.Keeps.{Keeps, IsCalm, IsServing, Keeps-pure, Keeps-bind, Keeps-if}
use open_jls_demos.Uio.{uio_wr}
use open_jls_demos.Uio.Keeps.{now_us-Keeps}
use open_jls_demos.Udmabuf.{Udmabuf}
use open_jls_demos.AxiDma.{AxidmaRing, axidma_sg_start, s2mm, mm2s, desc_size, eof_bit}
use open_jls_demos.AxiDma.Ring.{store_descs, axidma_ring_build, ring_chunks}
use open_jls_demos.AxiDma.Keeps.{
  reset-Keeps, desc_status-Keeps, wait-Keeps, wait_packets-Keeps, ring_bytes-Keeps,
}
use open_jls_demos.Proto.{OjlsHdr}
use open_jls_demos.Server.{Hw}
use open_jls_demos.Server.Io.Keeps.{sys_alloc-Keeps, send_full-Keeps}
use open_jls_demos.Server.Keeps.Core.{
  or_return-Keeps, configure-Keeps, gate_set-Keeps, recover-Keeps, for_device-Keeps, for_cpu-Keeps,
  region-Keeps, serving_attrs,
}
use open_jls_demos.Server.Keeps.Requests.{stream_send-Keeps}
use open_jls_demos.Server.Encode.{
  built_or_return, encode_reply, after_wait, encode_run, encode_and_reply,
}
use open_jls_demos.Server.Stream.{
  collect_lens, stream_status, stream_reply, stream_run, ready_level, stream_and_reply,
}

module _ {R : Trace → Trace → Type 0} (calm : IsCalm R) (env : Env) where
  pub collect-Keeps : (n : ℕ) (ring : AxidmaRing) (i : ℕ) → Keeps R (collect_lens n env ring i)
  unfolding collect_lens
  collect-Keeps zero ring i = Keeps-pure calm.pre _
  collect-Keeps (suc n) ring i = Keeps-bind calm.pre (desc_status-Keeps calm env ring i) (λ st.
      Keeps-if (not (test_bit st eof_bit)) (Keeps-pure calm.pre _)
        (Keeps-bind calm.pre (collect-Keeps n ring (i + 1)) (λ rest. Keeps-pure calm.pre _)))

  pub status-Keeps : (fuel : ℕ) (req : OjlsHdr) (rc : ℤ) → Keeps R (stream_status fuel env req rc)
  unfolding stream_status
  status-Keeps fuel req (pos zero) = Keeps-pure calm.pre _
  status-Keeps fuel req (pos (suc n)) =
      Keeps-bind calm.pre (recover-Keeps calm env fuel req.width req.height)
        (λ _. Keeps-pure calm.pre _)
  status-Keeps fuel req (negsuc zero) =
      Keeps-bind calm.pre (recover-Keeps calm env fuel req.width req.height)
        (λ _. Keeps-pure calm.pre _)
  status-Keeps fuel req (negsuc (suc zero)) =
      Keeps-bind calm.pre (recover-Keeps calm env fuel req.width req.height)
        (λ _. Keeps-pure calm.pre _)
  status-Keeps fuel req (negsuc (suc (suc n))) =
      Keeps-bind calm.pre (recover-Keeps calm env fuel req.width req.height)
        (λ _. Keeps-pure calm.pre _)

  -- A ring that was built, or the code that says it was not.
  pub built-Keeps :
      (k : AxidmaRing → M ℤ)
      → ((ring : AxidmaRing) → Keeps R (k ring))
      → (r : ℤ × Option AxidmaRing) → Keeps R (built_or_return r k)
  unfolding built_or_return
  built-Keeps k h (pos zero, none) = Keeps-pure calm.pre _
  built-Keeps k h (pos zero, some ring) = h ring
  built-Keeps k h (pos (suc n), none) = Keeps-pure calm.pre _
  built-Keeps k h (pos (suc n), some ring) = Keeps-pure calm.pre _
  built-Keeps k h (negsuc n, none) = Keeps-pure calm.pre _
  built-Keeps k h (negsuc n, some ring) = Keeps-pure calm.pre _

  -- Stores of descriptors are given.
  module _ (stores : (o : ℕ) (d : AxidmaDesc) (t : Trace) → R t (desc_stored o d ∷ t)) where
    store-Keeps : (off : ℕ) (ds : List AxidmaDesc) → Keeps R (store_descs off ds)
    unfolding store_descs
    store-Keeps off [] = Keeps-pure calm.pre tt
    store-Keeps off (d ∷ ds) =
        Keeps-bind calm.pre {m = λ t. some (tt, desc_stored off d ∷ t)}
          (record { runs = λ t. stores off d t }) (λ _. store-Keeps (off + desc_size) ds)

    pub build-Keeps :
        (db : Udmabuf) (off cap phys len chunk : ℕ) (frame : Bool)
        → Keeps R (axidma_ring_build db off cap phys len chunk frame)
    unfolding axidma_ring_build
    build-Keeps db off cap phys len chunk frame = Keeps-if (len == 0) (Keeps-pure calm.pre _) (
        Keeps-if (off % 64 != 0 || u64 (db.phys + off) % 64 != 0) (Keeps-pure calm.pre _) (
          Keeps-if (ltb cap (u64 (ring_chunks len chunk * desc_size))) (Keeps-pure calm.pre _)
            (Keeps-bind calm.pre (store-Keeps off _) (λ _. Keeps-pure calm.pre _))))

module _ {R : Trace → Trace → Type 0} (serving : IsServing R) (env : Env) (fuel : ℕ) (hw : Hw) where
  write-Keeps : (off v : ℕ) → Keeps R (uio_wr dma off v)
  unfolding uio_wr
  write-Keeps off v = record { runs = λ t. serving.device _ refl t }

  start-Keeps : (chan : ℕ) (ring : AxidmaRing) → Keeps R (axidma_sg_start chan ring)
  unfolding axidma_sg_start
  start-Keeps chan ring =
      let pre = serving.calm.pre in
      Keeps-if (ring.count == 0) (Keeps-pure pre _) (
        Keeps-bind pre (write-Keeps _ _) (λ _. Keeps-bind pre (write-Keeps _ _) (λ _.
          Keeps-bind pre (write-Keeps _ _) (λ _. Keeps-bind pre (write-Keeps _ _) (λ _.
            Keeps-bind pre (write-Keeps _ _)
              (λ _. Keeps-bind pre (write-Keeps _ _) (λ _. Keeps-pure pre _)))))))

  encode_reply-Keeps :
      (req : OjlsHdr) (ring : AxidmaRing) → Keeps R (encode_reply fuel env hw req ring)
  unfolding encode_reply
  encode_reply-Keeps req ring =
      let calm = serving.calm in
      Keeps-bind calm.pre (now_us-Keeps calm env) (λ _.
        Keeps-bind calm.pre (ring_bytes-Keeps calm env ring) (λ n.
          or_return-Keeps calm env _ _ _
            (for_cpu-Keeps serving.calm env (serving_attrs serving env) hw.rx.b.buf hw.rx.off n)
            (or_return-Keeps calm env _ _ _ (send_full-Keeps calm env fuel _) (
              Keeps-bind calm.pre (region-Keeps serving env hw.rx 0 n) (λ bytes.
                or_return-Keeps calm env _ _ _ (send_full-Keeps calm env fuel bytes)
                  (Keeps-pure calm.pre _))))))

  after_wait-Keeps :
      (req : OjlsHdr) (ring : AxidmaRing) (rc : ℤ) → Keeps R (after_wait fuel env hw req ring rc)
  unfolding after_wait
  after_wait-Keeps req ring (pos zero) = encode_reply-Keeps req ring
  after_wait-Keeps req ring (pos (suc n)) =
      Keeps-bind serving.calm.pre (recover-Keeps serving.calm env fuel req.width req.height)
        (λ _. Keeps-pure serving.calm.pre _)
  after_wait-Keeps req ring (negsuc zero) =
      Keeps-bind serving.calm.pre (recover-Keeps serving.calm env fuel req.width req.height)
        (λ _. Keeps-pure serving.calm.pre _)
  after_wait-Keeps req ring (negsuc (suc zero)) =
      Keeps-bind serving.calm.pre (recover-Keeps serving.calm env fuel req.width req.height)
        (λ _. Keeps-pure serving.calm.pre _)
  after_wait-Keeps req ring (negsuc (suc (suc n))) =
      Keeps-bind serving.calm.pre (recover-Keeps serving.calm env fuel req.width req.height)
        (λ _. Keeps-pure serving.calm.pre _)

  pub encode-Keeps :
      (req : OjlsHdr) (timeout_ms : ℕ) → Keeps R (encode_and_reply fuel env hw req timeout_ms)
  unfolding encode_and_reply encode_run
  encode-Keeps req timeout_ms =
      let calm = serving.calm in
      let stores =
        λ (o : ℕ) (d : AxidmaDesc) (t : Trace). serving.device (desc_stored o d) refl t in
      or_return-Keeps calm env _ _ _ (configure-Keeps calm env fuel req.width req.height) (
        or_return-Keeps calm env _ _ _ (gate_set-Keeps calm env 100) (
          or_return-Keeps calm env _ _ _
            (for_device-Keeps serving.calm env (serving_attrs serving env) hw.tx.b.buf hw.tx.off _)
            (or_return-Keeps calm env _ _ _ (reset-Keeps calm env fuel) (
              Keeps-bind calm.pre (build-Keeps calm env stores _ _ _ _ _ _ _) (
                built-Keeps calm env _ (λ out_ring.
                  Keeps-bind calm.pre (build-Keeps calm env stores _ _ _ _ _ _ _) (
                    built-Keeps calm env _ (λ in_ring.
                      or_return-Keeps calm env _ _ _
                        (for_device-Keeps serving.calm env (serving_attrs serving env)
                          hw.desc_buf.buf 0 _)
                        (Keeps-bind calm.pre (now_us-Keeps calm env) (λ _.
                          or_return-Keeps calm env _ _ _ (start-Keeps s2mm out_ring) (
                            or_return-Keeps calm env _ _ _ (start-Keeps mm2s in_ring) (
                              Keeps-bind calm.pre
                                (wait-Keeps calm env out_ring
                                  (for_cpu-Keeps serving.calm env (serving_attrs serving env) _ _ _)
                                  fuel hw.irq_ok s2mm timeout_ms)
                                (after_wait-Keeps req out_ring)))))))))))))

  stream_reply-Keeps :
      (req : OjlsHdr) (count slot : ℕ) (ring : AxidmaRing) (rc : ℤ)
      → Keeps R (stream_reply fuel env hw req count slot ring rc)
  unfolding stream_reply
  stream_reply-Keeps req count slot ring rc =
      let calm = serving.calm in
      Keeps-bind calm.pre (now_us-Keeps calm env) (λ _.
        Keeps-bind calm.pre (status-Keeps calm env fuel req rc) (λ status.
          or_return-Keeps calm env _ _ _
            (for_cpu-Keeps serving.calm env (serving_attrs serving env) hw.desc_buf.buf 0 _)
            (or_return-Keeps calm env _ _ _
              (for_cpu-Keeps serving.calm env (serving_attrs serving env) hw.rx.b.buf hw.rx.off _)
              (Keeps-bind calm.pre (collect-Keeps calm env count ring 0) (λ lens.
                or_return-Keeps calm env _ _ _
                  (stream_send-Keeps calm env fuel req status _ slot lens count
                    (region-Keeps serving env hw.rx))
                  (Keeps-pure calm.pre _))))))

  pub stream-Keeps :
      (req : OjlsHdr) (count timeout_ms : ℕ)
      → Keeps R (stream_and_reply fuel env hw req count timeout_ms)
  unfolding stream_and_reply stream_run
  stream-Keeps req count timeout_ms =
      let calm = serving.calm in
      let stores =
        λ (o : ℕ) (d : AxidmaDesc) (t : Trace). serving.device (desc_stored o d) refl t in
      or_return-Keeps calm env _ _ _ (configure-Keeps calm env fuel req.width req.height) (
        or_return-Keeps calm env _ _ _ (gate_set-Keeps calm env (ready_level req)) (
          or_return-Keeps calm env _ _ _
            (for_device-Keeps serving.calm env (serving_attrs serving env) hw.tx.b.buf hw.tx.off _)
            (or_return-Keeps calm env _ _ _ (reset-Keeps calm env fuel) (
              Keeps-bind calm.pre (build-Keeps calm env stores _ _ _ _ _ _ _) (
                built-Keeps calm env _ (λ out_ring.
                  Keeps-bind calm.pre (build-Keeps calm env stores _ _ _ _ _ _ _) (
                    built-Keeps calm env _ (λ in_ring.
                      or_return-Keeps calm env _ _ _
                        (for_device-Keeps serving.calm env (serving_attrs serving env)
                          hw.desc_buf.buf 0 _)
                        (Keeps-bind calm.pre (sys_alloc-Keeps calm env _) (λ memory.
                          Keeps-if (not memory) (Keeps-pure calm.pre _) (
                            Keeps-bind calm.pre (now_us-Keeps calm env) (λ _.
                              or_return-Keeps calm env _ _ _ (start-Keeps s2mm out_ring) (
                                or_return-Keeps calm env _ _ _ (start-Keeps mm2s in_ring) (
                                  Keeps-bind calm.pre
                                    (wait_packets-Keeps calm env out_ring
                                      (for_cpu-Keeps serving.calm env (serving_attrs serving env) _
                                        _ _)
                                      fuel hw.irq_ok timeout_ms)
                                    (stream_reply-Keeps req count _ out_ring)))))))))))))))
