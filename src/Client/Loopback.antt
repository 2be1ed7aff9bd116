-- ===== src/Client/Loopback.antt =====
-- The client's round trips against the server in loopback mode.
use open_jls_demos.Prelude.{
  ℕ, zero, suc, inl, inr, ◌⊎◌, ◌+◌, ◌^◌, ◌≤◌, ◌<◌, ◌≡◌, refl, sym, ap, ◌∙◌, true, Bool, List, [],
  ◌∷◌, ◌++◌, Option, none, some, append_assoc, append-nil, length, length-append, take, take_append,
  take-length, drop, drop_append, All, pos, arith,
}
use mathlib.Core.Option.{some_inj}
use open_jls_demos.World.{Env, Trace, received, sent}
use open_jls_demos.World.Returns.{Returns-some}
use open_jls_demos.World.Laws.{Lawful, Enough}
use open_jls_demos.Proto.{OjlsHdr, IsHdr, st_ok, ojls_hdr_pack, ojls_hdr_unpack}
use open_jls_demos.Proto.RoundTrip.{length-pack, unpack-pack}
use open_jls_demos.Server.{Hw}
use open_jls_demos.Server.Request.{request_status}
use open_jls_demos.Server.Stream.Answer.{TransferBound}
use open_jls_demos.Server.Serve.{serve_connection}
use open_jls_demos.Server.Serve.Echo.{echo_msg}
use open_jls_demos.Server.Serve.Service.{answer, service, service-more, loopback-refines}
use open_jls_demos.Server.Serve.Session.{FinitePeer}
use open_jls_demos.Client.{Image, encode_req}
use open_jls_demos.Client.Encode.{encode_rounds}
use open_jls_demos.Client.Encode.Ends.{
  request_msg, times, IsResponse, responses, last_payload, RoundsEnd,
}
use open_jls_demos.Client.Encode.Answers.{encode_rounds_total}
use open_jls_demos.Client.Pgm.{pgm_load}
use open_jls_demos.Client.Pgm.Load.{pgm_load-IsImage}
use open_jls_demos.Client.Request.{client_request_accepted}

-- Concatenations whose front parts are equally long have the same parts.
append-cut :
    (xs ys zs ws : List ℕ) → length xs ≡ length zs → xs ++ ys ≡ zs ++ ws → (xs ≡ zs) × (ys ≡ ws)
append-cut xs ys zs ws l e = (
  sym (take_append xs ys)
      ∙ ap (λ n. take n (xs ++ ys)) l
      ∙ ap (take (length zs)) e
      ∙ take_append zs ws,
  sym (drop_append xs ys)
      ∙ ap (λ n. drop n (xs ++ ys)) l
      ∙ ap (drop (length zs)) e
      ∙ drop_append zs ws,
)

unpacked : (h : OjlsHdr) → IsHdr h → ojls_hdr_unpack (ojls_hdr_pack h) ≡ h
unpacked h i = ap ojls_hdr_unpack (sym (append-nil (ojls_hdr_pack h))) ∙ unpack-pack h [] i

-- The header of the echo.
abbrev echo_hdr : Image → OjlsHdr
echo_hdr img = record (encode_req img) { type = 2; status = 0 }

length-times : (n : ℕ) (img : Image) → n < suc (length (times n (request_msg img)))
length-times zero img = omega arith
length-times (suc n) img =
    let hdr = ojls_hdr_pack (encode_req img) in
    omega (
      arith,
      length-times n img,
      length-append (request_msg img) (times n (request_msg img)),
      length-append hdr (take img.bytes img.pixels),
      length-pack (encode_req img),
    )

module _ (hw : Hw) (img : Image) (header : IsHdr (encode_req img))
    (whole : length img.pixels ≡ img.bytes)
    (accepted : request_status true hw (encode_req img) ≡ st_ok) where
  body_lem : take img.bytes img.pixels ≡ img.pixels
  body_lem = ap (λ n. take n img.pixels) (sym whole) ∙ take-length img.pixels

  service-times :
      (n m : ℕ)
      → n < m
      → service m hw (times n (request_msg img)) ≡ times n (echo_msg (encode_req img) img.pixels)
  unfolding service
  service-times zero zero f = absurd (omega arith)
  service-times zero (suc m) f = refl
  service-times (suc n) zero f = absurd (omega arith)
  service-times (suc n) (suc m) f =
      let hdr = ojls_hdr_pack (encode_req img) in
      let body = take img.bytes img.pixels in
      let back : ojls_hdr_unpack hdr ≡ encode_req img = unpacked (encode_req img) header in
      let l : length body ≡ (ojls_hdr_unpack hdr).payload_len =
        ap length body_lem ∙ whole ∙ sym (ap (λ h. h.payload_len) back) in
      let echo : answer hw (encode_req img) img.pixels ≡ echo_msg (encode_req img) img.pixels =
        ground (arith, accepted) in
      ap (service (suc m) hw) (append_assoc hdr body (times n (request_msg img)))
      ∙ service-more m hw hdr body (times n (request_msg img)) (length-pack (encode_req img)) l
      ∙ ap (λ h. answer hw h body ++ service m hw (times n (request_msg img))) back
      ∙ ap (λ x. answer hw (encode_req img) x ++ service m hw (times n (request_msg img))) body_lem
      ∙ ap (λ x. x ++ service m hw (times n (request_msg img))) echo
      ∙ ap (λ x. echo_msg (encode_req img) img.pixels ++ x) (service-times n m (omega arith))

  echo_hdr-IsHdr : IsHdr (echo_hdr img)
  echo_hdr-IsHdr = record {
    magic_u32 = header.magic_u32;
    version_u16 = header.version_u16;
    type_u8 = omega arith;
    status_u8 = omega arith;
    width_u16 = header.width_u16;
    height_u16 = header.height_u16;
    bitness_u8 = header.bitness_u8;
    ready_pct_u8 = header.ready_pct_u8;
    payload_len_u32 = header.payload_len_u32;
  }

  -- A response cut off the front of an echo is that echo.
  response_echo :
      (raw payload rest more : List ℕ)
      → IsResponse raw payload
      → (raw ++ payload) ++ rest ≡ echo_msg (encode_req img) img.pixels ++ more
      → (payload ≡ img.pixels) × (rest ≡ more)
  response_echo raw payload rest more i e =
      let hdr = ojls_hdr_pack (echo_hdr img) in
      let whole_eq : raw ++ (payload ++ rest) ≡ hdr ++ (img.pixels ++ more) =
        sym (append_assoc raw payload rest) ∙ e ∙ append_assoc hdr img.pixels more in
      let (front, back) =
        append-cut raw (payload ++ rest) hdr (img.pixels ++ more)
          (i.raw_length ∙ sym (length-pack (echo_hdr img))) whole_eq in
      let l : length payload ≡ length img.pixels =
        i.payload_length
        ∙ ap (λ r. (ojls_hdr_unpack r).payload_len) front
        ∙ ap (λ h. h.payload_len) (unpacked (echo_hdr img) echo_hdr-IsHdr)
        ∙ sym whole in
      append-cut payload rest img.pixels more l back

  later :
      (n : ℕ) {payload : List ℕ}
      → payload ≡ img.pixels
      → ((◌≡◌ {A = Option (List ℕ)} (some payload) (some img.pixels)) × (n ≡ 0)) ⊎ (1 ≤ n)
  later zero p = inl (ap some p, refl)
  later (suc n) p = inr (omega arith)

  responses_echo :
      (n : ℕ) (held : Option (List ℕ)) (rs : List (List ℕ × List ℕ))
      → length rs ≡ n
      → responses rs ≡ times n (echo_msg (encode_req img) img.pixels)
      → All (λ e. IsResponse e.0 e.1) rs
      → ((held ≡ some img.pixels) × (n ≡ 0)) ⊎ (1 ≤ n)
      → last_payload held rs ≡ some img.pixels
  responses_echo n held [] l e a (inl (h, z)) = h
  responses_echo n held [] l e a (inr m) = absurd (omega arith)
  responses_echo zero held ((raw, payload) ∷ rs) l e a c = absurd (omega arith)
  responses_echo (suc n) held ((raw, payload) ∷ rs) l e (i, a) c =
      let (p, r) =
        response_echo raw payload (responses rs) (times n (echo_msg (encode_req img) img.pixels)) i
          e in
      responses_echo n (some payload) rs (omega (arith, l)) r a (later n p)

-- A client that loads an image and asks for it any number of times over one connection, and a
-- server in loopback mode at the other end: if the connection hands each of them what the other
-- sent, the server ends with 0 and the client without failure, then the client's result is exactly
-- the pixels of the image. Both run under the laws of their systems and with enough fuel.
pub loopback_returns_image :
    {env_c env_s : Env} {k_c k_s : ℕ} (memory : ℕ → Bool) (file : List ℕ) (img : Image) (hw : Hw)
    (n fuel_c : ℕ) (cap timeout_ms fuel_s total rounds : ℕ) (payload : List ℕ) (t u : Trace)
    → pgm_load memory file ≡ some img
    → Lawful env_c k_c
    → 2 ^ 32 + k_c < fuel_c
    → Lawful env_s k_s
    → TransferBound env_s cap
    → cap < 2 ^ 32
    → Enough k_s timeout_ms fuel_s
    → FinitePeer env_s total
    → total < rounds
    → encode_rounds (suc n) fuel_c env_c img none [] ≡ some (some payload, t)
    → serve_connection rounds fuel_s env_s true hw timeout_ms [] ≡ some (pos 0, u)
    → received u ≡ sent t
    → received t ≡ sent u
    → payload ≡ img.pixels
loopback_returns_image memory file img hw n fuel_c cap timeout_ms fuel_s total rounds payload t u
      load law_c enough_c law_s bound short enough_s finite few run_c run_s there back =
    let i = pgm_load-IsImage memory file img load in
    let (accepted, header, whole) = client_request_accepted hw memory file img load in
    let served =
      loopback-refines cap hw timeout_ms fuel_s total rounds u law_s bound short enough_s finite few
        run_s in
    go accepted header whole served (
      Returns-some (encode_rounds (suc n) fuel_c _ img none []) (RoundsEnd (suc n) img none [] [])
        (encode_rounds_total fuel_c img (suc n) [] law_c enough_c (omega (arith, i.bytes))) run_c)
  where
    go :
        request_status true hw (encode_req img) ≡ st_ok
        → IsHdr (encode_req img)
        → length img.pixels ≡ img.bytes
        → sent u ≡ service (suc (length (received u))) hw (received u)
        → RoundsEnd (suc n) img none [] [] (some payload) t
        → payload ≡ img.pixels
    go accepted header whole served (inl c) = cc
    go accepted header whole served (inr (rs, l, p, x, y, a)) =
        let long : suc n < suc (length (times (suc n) (request_msg img))) =
          length-times (suc n) img in
        let all : responses rs ≡ times (suc n) (echo_msg (encode_req img) img.pixels) =
          sym x
          ∙ back
          ∙ served
          ∙ ap (λ b. service (suc (length b)) hw b) (there ∙ y)
          ∙ service-times hw img header whole accepted (suc n)
              (suc (length (times (suc n) (request_msg img)))) long in
        some_inj.0 (
          p
          ∙ responses_echo hw img header whole accepted (suc n) none rs l all a (inr (omega arith)))
