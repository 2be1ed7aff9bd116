-- ===== src/Client/Encode/Answers.antt =====
-- The round trips of the client: what goes out, and what a success has taken in.
use open_jls_demos.Prelude.{
  ℕ, zero, suc, ◌+◌, ◌^◌, ◌<◌, ◌≡◌, inl, inr, refl, sym, ap, ◌∙◌, true, ◌||◌, not, List, [], ◌∷◌,
  ◌++◌, append_assoc, append-nil, Option, none, some, length, length-take, take, ltb, ◌!=◌,
  if◌then◌else◌, IsU32, ℤ, pos, negsuc, is_zero, is_zero_iff, arith,
}
use mathlib.Core.Path.{subst}
use open_jls_demos.World.{Env, Trace, M, pure, received, sent, clock_read}
use open_jls_demos.World.Returns.{Returns, Returns-bind, Returns-map, Returns-if}
use open_jls_demos.World.Laws.{Lawful}
use open_jls_demos.World.System.{sys_alloc}
use open_jls_demos.Proto.{
  proto_magic, proto_hdr_len, msg_encode_resp, st_ok, ojls_hdr_pack, ojls_hdr_unpack,
}
use open_jls_demos.Proto.RoundTrip.{length-pack, unpack-IsHdr}
use open_jls_demos.Server.Io.Receive.{Received}
use open_jls_demos.Server.Io.Send.{Sent}
use open_jls_demos.Client.{Image, encode_req}
use open_jls_demos.Client.Io.{now_us, send_full, recv_full}
use open_jls_demos.Client.Io.Agree.{client_send-Sent, client_recv-Received}
use open_jls_demos.Client.Encode.{
  or_out, response_room, take_payload, on_response, on_response_raw, encode_once, encode_next,
  encode_rounds,
}
use open_jls_demos.Client.Encode.Ends.{
  request_msg, times, IsResponse, OnceEnd, responses, RoundsEnd,
}

-- A step whose failure leads to `out`.
or_out-Returns :
    {A : Type 0} (m : M ℤ) (rest : M (Option A)) (t : Trace) (P : ℤ → Trace → Type 0)
    (Q : Option A → Trace → Type 0)
    → Returns (m t) P
    → ((u : Trace) → P (pos 0) u → Returns (rest u) Q)
    → ((u : Trace) → Q none u)
    → Returns (or_out m rest t) Q
or_out-Returns m rest t P Q h k f =
    Returns-bind m (λ rc. if is_zero rc then rest else pure none) t P Q h
      (λ rc u p.
        Returns-if (is_zero rc) rest (pure none) u Q
          (λ z. k u (subst (λ c. P c u) ((is_zero_iff rc).0 z) p)) (λ _. f u))

module _ {env : Env} {k : ℕ} (law : Lawful env k) (fuel : ℕ) (enough : 2 ^ 32 + k < fuel) where
  response_room-Quiet :
      (held : Option (List ℕ)) (len : ℕ) (t : Trace)
      → Returns
          (response_room env held len t)
          (λ _ u. (received u ≡ received t) × (sent u ≡ sent t))
  unfolding response_room sys_alloc
  response_room-Quiet none len t = (refl, refl)
  response_room-Quiet (some payload) len t =
      Returns-if (ltb (length payload) len) (sys_alloc env len) (pure true) t
        (λ _ u. (received u ≡ received t) × (sent u ≡ sent t)) (λ _. (refl, refl))
        (λ _. (refl, refl))

  module _ (img : Image) (before out : List ℕ) where
    -- The header of the response is there, the payload is not.
    abbrev AfterHeader : List ℕ → Trace → Type 0
    AfterHeader raw t =
        (received t ≡ before ++ raw) × (sent t ≡ out ++ request_msg img) × (length raw ≡ 20)

    payload_end :
        (raw : List ℕ)
        → (t : Trace) → AfterHeader raw t
        → (ojls_hdr_unpack raw).magic ≡ proto_magic
        → (ojls_hdr_unpack raw).type ≡ msg_encode_resp
        → (ojls_hdr_unpack raw).status ≡ st_ok
        → (rc : ℤ) (payload : List ℕ) (u : Trace)
        → Received env (received t) (sent t) (ojls_hdr_unpack raw).payload_len rc payload u
        → Returns (take_payload env (rc, payload) u) (OnceEnd img before out)
    unfolding take_payload now_us
    payload_end raw t (e, s, l) m y o (pos zero) payload u r = inr (
      raw,
      payload,
      refl,
      r.taken ∙ ap (λ x. x ++ payload) e ∙ append_assoc before raw payload,
      r.silent ∙ s,
      record { raw_length = l; magic = m; kind = y; status = o; payload_length = r.all_of_it refl },
    )
    payload_end raw t a m y o (pos (suc n)) payload u r = inl refl
    payload_end raw t a m y o (negsuc n) payload u r = inl refl

    on_response-End :
        (raw : List ℕ) (held : Option (List ℕ)) (t : Trace)
        → AfterHeader raw t
        → IsU32 (ojls_hdr_unpack raw).payload_len
        → Returns (on_response fuel env held (ojls_hdr_unpack raw) t) (OnceEnd img before out)
    unfolding on_response
    on_response-End raw held t (e, s, l) p =
        let resp = ojls_hdr_unpack raw in
        let Q = OnceEnd img before out in
        Returns-if (resp.magic != proto_magic || resp.type != msg_encode_resp) _ _ t Q
          (λ _. inl refl)
          (λ fine.
            Returns-if (resp.status != st_ok) _ _ t Q (λ _. inl refl)
              (λ good.
                Returns-bind (response_room env held resp.payload_len) _ t
                  (λ _ u. (received u ≡ received t) × (sent u ≡ sent t)) Q
                  (response_room-Quiet held resp.payload_len t)
                  (λ memory u (x, y).
                    Returns-if (not memory) _ _ u Q (λ _. inl refl)
                      (λ _.
                        Returns-bind (recv_full fuel env resp.payload_len) (take_payload env) u
                          (λ r v. Received env (received u) (sent u) resp.payload_len r.0 r.1 v) Q
                          (client_recv-Received law fuel resp.payload_len u (omega arith))
                          (λ r v got.
                            payload_end raw u (x ∙ e, y ∙ s, l) (ground (arith, fine))
                              (ground (arith, fine)) (ground (arith, good)) r.0 r.1 v got)))))

    header_end :
        (held : Option (List ℕ)) (t : Trace)
        → received t ≡ before
        → sent t ≡ out ++ request_msg img
        → (rc : ℤ) (raw : List ℕ) (u : Trace) → Received env (received t) (sent t) 20 rc raw u
        → Returns (on_response_raw fuel env held (rc, raw) u) (OnceEnd img before out)
    unfolding on_response_raw
    header_end held t e s (pos zero) raw u r =
        on_response-End raw held u (r.taken ∙ ap (λ x. x ++ raw) e, r.silent ∙ s, r.all_of_it refl)
          (unpack-IsHdr raw r.bytes).payload_len_u32
    header_end held t e s (pos (suc n)) raw u r = inl refl
    header_end held t e s (negsuc n) raw u r = inl refl

  module _ (img : Image) (small : IsU32 img.bytes) where
    encode_once-End :
        (held : Option (List ℕ)) (t : Trace)
        → Returns (encode_once fuel env img held t) (OnceEnd img (received t) (sent t))
    unfolding encode_once now_us
    encode_once-End held t =
        let hdr = ojls_hdr_pack (encode_req img) in
        let body = take img.bytes img.pixels in
        let t₁ : Trace = clock_read (env.clock t) ∷ t in
        let Q = OnceEnd img (received t) (sent t) in
        or_out-Returns (send_full fuel env hdr) _ t₁ (Sent (received t) (sent t) hdr) Q
          (client_send-Sent law fuel hdr t₁ (omega (arith, length-pack (encode_req img))))
          (λ u p.
            or_out-Returns (send_full fuel env body) _ u (Sent (received u) (sent u) body) Q
              (client_send-Sent law fuel body u (omega (arith, length-take img.bytes img.pixels)))
              (λ v q.
                Returns-bind (recv_full fuel env proto_hdr_len) (on_response_raw fuel env held) v
                  (λ r w. Received env (received v) (sent v) 20 r.0 r.1 w) Q
                  (client_recv-Received law fuel 20 v (omega arith))
                  (λ r w got.
                    header_end img (received t) (sent t) held v (q.deaf ∙ p.deaf)
                      (q.all_of_it refl
                        ∙ ap (λ x. x ++ body) (p.all_of_it refl)
                        ∙ append_assoc (sent t) hdr body)
                      r.0 r.1 w got))
              (λ v. inl refl))
          (λ u. inl refl)

    RoundsEnd-more :
        (n : ℕ) (held : Option (List ℕ)) (t u : Trace) (raw payload : List ℕ)
        → received u ≡ received t ++ (raw ++ payload)
        → sent u ≡ sent t ++ request_msg img
        → IsResponse raw payload
        → (r : Option (List ℕ)) (v : Trace)
        → RoundsEnd n img (some payload) (received u) (sent u) r v
        → RoundsEnd (suc n) img held (received t) (sent t) r v
    RoundsEnd-more n held t u raw payload e s i r v (inl none_left) = inl none_left
    RoundsEnd-more n held t u raw payload e s i r v (inr (rs, l, p, x, y, a)) = inr (
      (raw, payload) ∷ rs,
      ap suc l,
      p,
      x ∙ ap (λ z. z ++ responses rs) e ∙ append_assoc (received t) (raw ++ payload) (responses rs),
      y
          ∙ ap (λ z. z ++ times n (request_msg img)) s
          ∙ append_assoc (sent t) (request_msg img) (times n (request_msg img)),
      (i, a),
    )

    encode_rounds-End :
        (n : ℕ) (held : Option (List ℕ)) (t : Trace)
        → Returns (encode_rounds n fuel env img held t) (RoundsEnd n img held (received t) (sent t))
    unfolding encode_rounds encode_next
    encode_rounds-End zero held t =
        inr ([], refl, refl, sym (append-nil (received t)), sym (append-nil (sent t)), tt)
    encode_rounds-End (suc n) held t =
        Returns-bind (encode_once fuel env img held) (encode_next (encode_rounds n fuel env img)) t
          (OnceEnd img (received t) (sent t)) (RoundsEnd (suc n) img held (received t) (sent t))
          (encode_once-End held t) (next (encode_rounds-End n))
      where
        next :
            ((h : Option (List ℕ)) (u : Trace)
              → Returns
                  (encode_rounds n fuel env img h u)
                  (RoundsEnd n img h (received u) (sent u)))
            → (r : Option (List ℕ)) (u : Trace) → OnceEnd img (received t) (sent t) r u
            → Returns
                (encode_next (encode_rounds n fuel env img) r u)
                (RoundsEnd (suc n) img held (received t) (sent t))
        next ih none u h = inl refl
        next ih (some p) u (inl c) = cc
        next ih (some p) u (inr (raw, payload, e, x, y, i)) =
            Returns-map (encode_rounds n fuel env img (some p) u)
              (RoundsEnd n img (some p) (received u) (sent u))
              (RoundsEnd (suc n) img held (received t) (sent t)) (ih (some p) u)
              (λ r v d.
                RoundsEnd-more n held t u raw payload x y i r v
                  (subst (λ h. RoundsEnd n img h (received u) (sent u) r v) e d))

-- Under the laws, for an image of less than 4 GiB and with fuel above the longest message, the
-- loop of the client over `count` round trips ends. Unless it fails, it has sent the request for
-- the image `count` times and nothing else, and taken in exactly `count` responses, each with a
-- good magic, the type and the status of a success and the payload that its header announces; its
-- result is the payload of the last one.
pub encode_rounds_total :
    {env : Env} {k : ℕ} (fuel : ℕ) (img : Image) (count : ℕ) (t : Trace)
    → Lawful env k
    → 2 ^ 32 + k < fuel
    → IsU32 img.bytes
    → Returns
        (encode_rounds count fuel env img none t)
        (RoundsEnd count img none (received t) (sent t))
encode_rounds_total fuel img count t law enough small =
    encode_rounds-End law fuel enough img small count none t
