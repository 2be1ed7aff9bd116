-- ===== src/Server/Serve/Rounds.antt =====
-- One round of the loop of `serve_connection`: a request in, one reply out.
use open_jls_demos.Prelude.{
  ℕ, zero, suc, inl, inr, ◌^◌, ◌<◌, ◌≡◌, refl, ap, ◌∙◌, Bool, List, [], ◌∷◌, ◌++◌, append_assoc,
  append-nil, length, length-append, ℤ, pos, negsuc, arith,
}
use open_jls_demos.World.{Env, Trace, received, sent}
use open_jls_demos.World.Returns.{Returns, Returns-bind, Returns-map}
use open_jls_demos.World.Laws.{Lawful, Enough}
use open_jls_demos.Proto.{ojls_hdr_unpack, proto_magic}
use open_jls_demos.Proto.RoundTrip.{unpack-IsHdr}
use open_jls_demos.Server.{Hw}
use open_jls_demos.Server.Io.{recv_full}
use open_jls_demos.Server.Io.Receive.{Received, recv_full_total}
use open_jls_demos.Server.Stream.Answer.{TransferBound}
use open_jls_demos.Server.Serve.{Round, stop, again, serve_header, on_header, serve_round}
use open_jls_demos.Server.Serve.Answers.{Answered}
use open_jls_demos.Server.Serve.Exchange.{IsAnswer, HeaderRead, RoundEnd}
use open_jls_demos.Server.Serve.Requests.{serve_header-Answers}

length_zero : (xs : List ℕ) → length xs ≡ 0 → xs ≡ []
length_zero [] e = refl
length_zero (x ∷ xs) e = absurd (omega arith)

module _ {env : Env} {k : ℕ} (law : Lawful env k) (cap : ℕ) (bound : TransferBound env cap)
    (short : cap < 2 ^ 32) (hw : Hw) (timeout_ms fuel : ℕ) (enough : Enough k timeout_ms fuel) where
  module _ (loopback : Bool) (loop_cap : ℕ) where
    header_read :
        (t : Trace) (raw : List ℕ) (u : Trace)
        → Received env (received t) (sent t) 20 (pos 0) raw u
        → HeaderRead env (received t)
    header_read t raw u d = elim d.source [
      | inl none_yet ↦ absurd (omega (arith, none_yet, d.all_of_it refl))
      | inr (w, n, bs, q, e) ↦ (
        w,
        n,
        bs,
        q,
        omega (
          arith,
          length-append (received w) bs,
          ap length e,
          ap length d.taken,
          length-append (received t) raw,
          d.all_of_it refl,
        ),
      )
    ]

    exchange_done :
        (t : Trace) (raw : List ℕ) (u : Trace)
        → (d : Received env (received t) (sent t) 20 (pos 0) raw u) → (r : Round) (v : Trace)
        → Answered
            (λ a b.
              ((ojls_hdr_unpack raw).magic ≡ proto_magic)
              × ((length a ≡ (ojls_hdr_unpack raw).payload_len)
                  × IsAnswer loopback hw cap (ojls_hdr_unpack raw) a b))
            (received u)
            (sent u)
            r
            v
        → RoundEnd env loopback hw cap (received t) (sent t) r v
    exchange_done t raw u d (stop rc) v a = inr a
    exchange_done t raw u d (again c) v (payload, reply, x, y, (m, (l, w))) = (
      raw ++ payload,
      reply,
      x ∙ ap (λ z. z ++ payload) d.taken ∙ append_assoc (received t) raw payload,
      y ∙ ap (λ z. z ++ reply) d.silent,
      record {
        raw = raw;
        payload = payload;
        request_parts = refl;
        raw_length = d.all_of_it refl;
        magic = m;
        payload_length = l;
        answered = w;
      },
      header_read t raw u d,
    )

    by_code :
        (t : Trace) (rc : ℤ) (raw : List ℕ) (u : Trace)
        → Received env (received t) (sent t) 20 rc raw u
        → Returns
            (on_header fuel env loopback hw timeout_ms loop_cap (rc, raw) u)
            (RoundEnd env loopback hw cap (received t) (sent t))
    unfolding on_header
    by_code t (pos zero) raw u d =
        let req = ojls_hdr_unpack raw in
        Returns-map (serve_header fuel env loopback hw timeout_ms req loop_cap u) _
          (RoundEnd env loopback hw cap (received t) (sent t))
          ((serve_header-Answers law cap bound short hw timeout_ms fuel enough req
              (unpack-IsHdr raw d.bytes).payload_len_u32 loop_cap loopback).ends
            u)
          (exchange_done t raw u d)
    by_code t (pos (suc zero)) raw u d = inl (
      refl,
      d.taken
          ∙ ap (λ z. received t ++ z) (length_zero raw (d.orderly refl))
          ∙ append-nil (received t),
      d.silent,
    )
    by_code t (pos (suc (suc n))) raw u d =
        absurd (elim d.codes [ inl e ↦ cc | inr (inl e) ↦ cc | inr (inr e) ↦ cc ])
    by_code t (negsuc n) raw u d =
        inr (elim d.codes [ inl e ↦ cc | inr (inl e) ↦ cc | inr (inr e) ↦ e ])

    pub serve_round-Ends :
        (t : Trace)
        → Returns
            (serve_round fuel env loopback hw timeout_ms loop_cap t)
            (RoundEnd env loopback hw cap (received t) (sent t))
    unfolding serve_round
    serve_round-Ends t =
        Returns-bind (recv_full fuel env 20) (on_header fuel env loopback hw timeout_ms loop_cap) t
          (λ x u. Received env (received t) (sent t) 20 x.0 x.1 u)
          (RoundEnd env loopback hw cap (received t) (sent t))
          (recv_full_total env k fuel 20 t law.reads law.signals (omega arith))
          (λ (rc, raw) u d. by_code t rc raw u d)
