-- ===== src/Client/Stream/Exchange.antt =====
-- A stream over an open connection: `run_stream` from its request on.
use open_jls_demos.Prelude.{
  ℕ, zero, suc, ◌+◌, ◌*◌, ◌^◌, ◌<◌, ◌≡◌, inl, inr, refl, ap, ◌∙◌, not, List, ◌∷◌, ◌++◌, map,
  append_assoc, length, length-take, take, u32, ◌!=◌, Bool-cases, IsU32, ℤ, pos, negsuc, arith,
}
use open_jls_demos.World.{Env, Trace, received, sent, clock_read, allocated}
use open_jls_demos.World.Returns.{Returns, Returns-bind, Returns-if}
use open_jls_demos.World.Keeps.{Returns-and}
use open_jls_demos.World.Laws.{Lawful}
use open_jls_demos.World.System.{sys_alloc}
use open_jls_demos.Proto.{proto_hdr_len, st_ok, ojls_hdr_pack, ojls_hdr_unpack}
use open_jls_demos.Proto.RoundTrip.{length-pack, unpack-IsHdr}
use open_jls_demos.Server.Io.Receive.{Received}
use open_jls_demos.Server.Io.Send.{Sent}
use open_jls_demos.Client.Io.{now_us, send_full, recv_full}
use open_jls_demos.Client.Io.Agree.{client_send-Sent, client_recv-Received}
use open_jls_demos.Client.Io.Keeps.{recv_full-Keeps, send_full-Keeps}
use open_jls_demos.Client.Reply.{
  reply_malformed, reply_rejected, reply_fine, ReplyCheck, check_reply, table_total, split_reply,
}
use open_jls_demos.Client.Stream.{
  Loaded, stream_req, write_stream, stream_payload, on_payload, on_check, on_stream_raw,
  stream_exchange,
}
use open_jls_demos.Client.Stream.Written.{
  kept, SameFiles, SameFiles-IsCalm, file_of, WriteEnd, some_images, write_stream-Ends,
}
use open_jls_demos.Client.Stream.Outcome.{StreamEnd, or_fail-Returns, AfterReply, streamed}

module _ {env : Env} {k : ℕ} (law : Lawful env k) (fuel : ℕ) (enough : 2 ^ 32 + k < fuel)
    (dir : List ℕ) (paths : List (List ℕ)) (request before out : List ℕ)
    (files : List (List ℕ × List ℕ)) where
  abbrev End : ℤ → Trace → Type 0
  End = StreamEnd dir paths request before out files

  payload-End :
      (raw payload : List ℕ) (t u : Trace)
      → AfterReply request before out files raw t
      → received u ≡ received t ++ payload
      → sent u ≡ sent t
      → kept u ≡ kept t
      → length payload ≡ (ojls_hdr_unpack raw).payload_len
      → check_reply (length paths) (ojls_hdr_unpack raw) ≡ reply_fine
      → Returns (stream_payload env dir paths (ojls_hdr_unpack raw) payload u) End
  unfolding stream_payload now_us split_reply
  payload-End raw payload t u a x y z l c =
      let count = length paths in
      let resp = ojls_hdr_unpack raw in
      let first = u32 (count * 4) in
      Returns-if (table_total count 0 payload first != resp.payload_len) _ _ u End (λ _. inr refl)
        (λ adds.
          or_fail-Returns (write_stream env dir paths count 0 payload first) _ u
            (WriteEnd u (map (file_of dir paths) (some_images count 0 payload first))) End
            (write_stream-Ends env dir paths count 0 payload first u)
            (λ v w. elim (Bool-cases (resp.status != st_ok)) [
              | inl bad ↦ rw bad (inr refl)
              | inr good ↦
                  rw good (
                    inl
                      (refl, streamed env dir paths raw payload t u v a (x, y, z) l c adds w good))
            ])
            (λ v. inr refl))

  body-End :
      (raw : List ℕ) (t : Trace)
      → AfterReply request before out files raw t
      → check_reply (length paths) (ojls_hdr_unpack raw) ≡ reply_fine
      → (rc : ℤ) (payload : List ℕ) (u : Trace)
      → Received env (received t) (sent t) (ojls_hdr_unpack raw).payload_len rc payload u
        × SameFiles t u
      → Returns (on_payload env dir paths (ojls_hdr_unpack raw) (rc, payload) u) End
  unfolding on_payload
  body-End raw t a c (pos zero) payload u (r, z) =
      payload-End raw payload t u a r.taken r.silent z (r.all_of_it refl) c
  body-End raw t a c (pos (suc n)) payload u r = inr refl
  body-End raw t a c (negsuc n) payload u r = inr refl

  check-End :
      (raw : List ℕ) (t : Trace)
      → AfterReply request before out files raw t
      → IsU32 (ojls_hdr_unpack raw).payload_len
      → (c : ReplyCheck) → check_reply (length paths) (ojls_hdr_unpack raw) ≡ c
      → Returns (on_check fuel env dir paths (ojls_hdr_unpack raw) c t) End
  unfolding on_check sys_alloc
  check-End raw t a i reply_malformed e = inr refl
  check-End raw t a i reply_rejected e = inr refl
  check-End raw t a i reply_fine e =
      let resp = ojls_hdr_unpack raw in
      let len = resp.payload_len in
      let memory = env.alloc t len in
      let u : Trace = allocated len memory ∷ t in
      Returns-if (not memory) _ _ u End (λ _. inr refl)
        (λ _.
          Returns-bind (recv_full fuel env len) (on_payload env dir paths resp) u
            (λ r v. Received env (received t) (sent t) len r.0 r.1 v × SameFiles u v) End
            (Returns-and (recv_full fuel env len) u
              (λ r v. Received env (received t) (sent t) len r.0 r.1 v)
              (client_recv-Received law fuel len u (omega arith))
              (recv_full-Keeps SameFiles-IsCalm env fuel len))
            (λ r v p. body-End raw t a e r.0 r.1 v p))

  raw-End :
      (t : Trace)
      → received t ≡ before
      → sent t ≡ out ++ request
      → kept t ≡ files
      → (rc : ℤ) (raw : List ℕ) (u : Trace)
      → Received env (received t) (sent t) 20 rc raw u × SameFiles t u
      → Returns (on_stream_raw fuel env dir paths (rc, raw) u) End
  unfolding on_stream_raw
  raw-End t e s f (pos zero) raw u (r, z) =
      check-End raw u
        (record {
          taken = r.taken ∙ ap (λ x. x ++ raw) e;
          went = r.silent ∙ s;
          raw_length = r.all_of_it refl;
          nothing = z ∙ f;
        })
        (unpack-IsHdr raw r.bytes).payload_len_u32 _ refl
  raw-End t e s f (pos (suc n)) raw u r = inr refl
  raw-End t e s f (negsuc n) raw u r = inr refl

-- The bytes of the request for a stream of `count` images like the first.
abbrev pub stream_msg : Loaded → ℕ → ℕ → List ℕ
stream_msg (first, pixels) ready_pct count =
    ojls_hdr_pack (stream_req first ready_pct count)
    ++ take (stream_req first ready_pct count).payload_len pixels

-- Under the laws and with fuel above 4 GiB, the exchange of a stream ends, with 0 or 1. If it
-- returns 0, the request of the stream and nothing else was sent; one reply was taken in, a header
-- that the client finds fine with the status of a success and the payload that it announces; and
-- the files newly written are those that the table in the payload cuts out of it, one for each
-- image that is not empty, under the path made of its input's.
pub stream_exchange_total :
    {env : Env} {k : ℕ} (fuel : ℕ) (dir : List ℕ) (ready_pct : ℕ) (paths : List (List ℕ))
    (loaded : Loaded) (t : Trace)
    → Lawful env k
    → 2 ^ 32 + k < fuel
    → Returns (stream_exchange fuel env dir ready_pct paths loaded t) (
        StreamEnd dir paths
          (stream_msg loaded ready_pct (length paths))
          (received t)
          (sent t)
          (kept t))
unfolding stream_exchange now_us stream_req
stream_exchange_total {env} fuel dir ready_pct paths (first, pixels) t law enough =
    let req = stream_req first ready_pct (length paths) in
    let hdr = ojls_hdr_pack req in
    let body = take req.payload_len pixels in
    let u₀ : Trace = clock_read (env.clock t) ∷ t in
    let calm = SameFiles-IsCalm in
    let Q = StreamEnd dir paths (hdr ++ body) (received t) (sent t) (kept t) in
    or_fail-Returns (send_full fuel env hdr) _ u₀
      (λ rc u. Sent (received t) (sent t) hdr rc u × SameFiles u₀ u) Q
      (Returns-and (send_full fuel env hdr) u₀ (Sent (received t) (sent t) hdr)
        (client_send-Sent law fuel hdr u₀ (omega (arith, length-pack req)))
        (send_full-Keeps calm env fuel hdr))
      (λ u (p, pf).
        or_fail-Returns (send_full fuel env body) _ u
          (λ rc v. Sent (received u) (sent u) body rc v × SameFiles u v) Q
          (Returns-and (send_full fuel env body) u (Sent (received u) (sent u) body)
            (client_send-Sent law fuel body u (omega (arith, length-take req.payload_len pixels)))
            (send_full-Keeps calm env fuel body))
          (λ v (q, qf).
            Returns-bind (recv_full fuel env proto_hdr_len) (on_stream_raw fuel env dir paths) v
              (λ r w. Received env (received v) (sent v) 20 r.0 r.1 w × SameFiles v w) Q
              (Returns-and (recv_full fuel env proto_hdr_len) v
                (λ r w. Received env (received v) (sent v) 20 r.0 r.1 w)
                (client_recv-Received law fuel 20 v (omega arith))
                (recv_full-Keeps calm env fuel 20))
              (λ r w got.
                raw-End law fuel enough dir paths (hdr ++ body) (received t) (sent t) (kept t) v
                  (q.deaf ∙ p.deaf)
                  (q.all_of_it refl
                    ∙ ap (λ x. x ++ body) (p.all_of_it refl)
                    ∙ append_assoc (sent t) hdr body)
                  (qf ∙ pf) r.0 r.1 w got))
          (λ v. inr refl))
      (λ u. inr refl)
