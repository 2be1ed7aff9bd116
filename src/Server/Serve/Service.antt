-- ===== src/Server/Serve/Service.antt =====
-- The server in loopback mode as a function from the bytes of a connection to those sent back.
use open_jls_demos.Prelude.{
  ℕ, zero, suc, inl, inr, some, ◌+◌, ◌^◌, ◌<◌, ◌≡◌, refl, sym, ap, ◌∙◌, true, List, [], ◌∷◌, ◌++◌,
  append_assoc, length, length-append, take, take_append, drop, drop_append, drop-drop, All, ◌!=◌,
  if◌then◌else◌, pos, arith,
}
use open_jls_demos.World.{Env, Trace, received, sent}
use open_jls_demos.World.Returns.{Returns-some}
use open_jls_demos.World.Laws.{Lawful, Enough}
use open_jls_demos.Proto.{OjlsHdr, st_ok, ojls_hdr_pack, ojls_hdr_unpack}
use open_jls_demos.Server.{Hw}
use open_jls_demos.Server.Request.{request_status}
use open_jls_demos.Server.Encode.{error_hdr}
use open_jls_demos.Server.Stream.Answer.{TransferBound}
use open_jls_demos.Server.Serve.{serve_connection}
use open_jls_demos.Server.Serve.Echo.{echo_msg}
use open_jls_demos.Server.Serve.Exchange.{Exchange, IsAnswer}
use open_jls_demos.Server.Serve.Session.{
  FinitePeer, requests, replies, ConnectionEnd, serve_connection_total,
}

-- The answer to one request.
abbrev pub answer : Hw → OjlsHdr → List ℕ → List ℕ
answer hw req payload =
    if request_status true hw req != st_ok
    then ojls_hdr_pack (error_hdr req (request_status true hw req))
    else echo_msg req payload

-- The bytes are cut into requests, each a header and the payload that it announces.
unfoldable pub service : ℕ → Hw → List ℕ → List ℕ
service zero hw bytes = []
service (suc n) hw [] = []
service (suc n) hw (b ∷ bytes) =
    let req = ojls_hdr_unpack (take 20 (b ∷ bytes)) in
    answer hw req (take req.payload_len (drop 20 (b ∷ bytes)))
    ++ service n hw (drop (20 + req.payload_len) (b ∷ bytes))

IsAnswer-answer :
    (hw : Hw) (cap : ℕ) (req : OjlsHdr) (payload reply : List ℕ)
    → IsAnswer true hw cap req payload reply
    → reply ≡ answer hw req payload
IsAnswer-answer hw cap req payload reply (inl (bad, e)) = ground (arith, bad, e)
IsAnswer-answer hw cap req payload reply (inr (good, e)) = ground (arith, good, e)

-- A request in front of other bytes.
pub service-more :
    (n : ℕ) (hw : Hw) (raw payload rest : List ℕ)
    → length raw ≡ 20
    → length payload ≡ (ojls_hdr_unpack raw).payload_len
    → service (suc n) hw (raw ++ (payload ++ rest))
      ≡ answer hw (ojls_hdr_unpack raw) payload ++ service n hw rest
unfolding service
service-more n hw [] payload rest l p = absurd (omega arith)
service-more n hw (b ∷ raw) payload rest l p =
    let all = (b ∷ raw) ++ (payload ++ rest) in
    let req = ojls_hdr_unpack (b ∷ raw) in
    let front : take 20 all ≡ b ∷ raw =
      ap (λ m. take m all) (sym l) ∙ take_append (b ∷ raw) (payload ++ rest) in
    let back : drop 20 all ≡ payload ++ rest =
      ap (λ m. drop m all) (sym l) ∙ drop_append (b ∷ raw) (payload ++ rest) in
    let same : ojls_hdr_unpack (take 20 all) ≡ req = ap ojls_hdr_unpack front in
    let body : take req.payload_len (drop 20 all) ≡ payload =
      ap (take req.payload_len) back
      ∙ ap (λ m. take m (payload ++ rest)) (sym p)
      ∙ take_append payload rest in
    let later : drop (20 + req.payload_len) all ≡ rest =
      sym (drop-drop 20 req.payload_len all)
      ∙ ap (drop req.payload_len) back
      ∙ ap (λ m. drop m (payload ++ rest)) (sym p)
      ∙ drop_append payload rest in
    ap
      (λ h.
        answer hw h (take h.payload_len (drop 20 all))
        ++ service n hw (drop (20 + h.payload_len) all))
      same
    ∙ ap (λ x. answer hw req x ++ service n hw (drop (20 + req.payload_len) all)) body
    ∙ ap (λ x. answer hw req payload ++ service n hw x) later

replies-service :
    (hw : Hw) (cap n : ℕ) (es : List (List ℕ × List ℕ))
    → All (λ e. Exchange true hw cap e.0 e.1) es
    → length (requests es) < n
    → replies es ≡ service n hw (requests es)
unfolding service
replies-service hw cap zero es a f = absurd (omega arith)
replies-service hw cap (suc n) [] a f = refl
replies-service hw cap (suc n) ((request, reply) ∷ es) (e, a) f =
    let parts : request ++ requests es ≡ e.raw ++ (e.payload ++ requests es) =
      ap (λ x. x ++ requests es) e.request_parts ∙ append_assoc e.raw e.payload (requests es) in
    let long : length request ≡ length e.raw + length e.payload =
      ap length e.request_parts ∙ length-append e.raw e.payload in
    ap (λ x. x ++ replies es)
      (IsAnswer-answer hw cap (ojls_hdr_unpack e.raw) e.payload reply e.answered)
    ∙ ap (λ x. answer hw (ojls_hdr_unpack e.raw) e.payload ++ x)
        (replies-service hw cap n es a
          (omega (arith, f, long, length-append request (requests es), e.raw_length)))
    ∙ sym (service-more n hw e.raw e.payload (requests es) e.raw_length e.payload_length)
    ∙ ap (service (suc n) hw) (sym parts)

-- Under the laws and with enough fuel, a connection in loopback mode that `serve_connection` ends
-- with 0 refines a function of the bytes received: cut into requests, each a header of 20 bytes
-- and the payload that it announces, they determine the bytes sent, which are for each request in
-- order the error header of the failed check, or the echo of its payload. How the bytes came in,
-- and which calls were interrupted, plays no part.
pub loopback-refines :
    {env : Env} {k : ℕ} (cap : ℕ) (hw : Hw) (timeout_ms fuel total rounds : ℕ) (u : Trace)
    → Lawful env k
    → TransferBound env cap
    → cap < 2 ^ 32
    → Enough k timeout_ms fuel
    → FinitePeer env total
    → total < rounds
    → serve_connection rounds fuel env true hw timeout_ms [] ≡ some (pos 0, u)
    → sent u ≡ service (suc (length (received u))) hw (received u)
loopback-refines cap hw timeout_ms fuel total rounds u law bound short enough finite f e = go (
    Returns-some (serve_connection rounds fuel _ true hw timeout_ms [])
      (ConnectionEnd true hw cap [] [])
      (serve_connection_total cap true hw timeout_ms fuel total rounds [] law bound short enough
        finite (omega arith))
      e)
  where
    go :
        ConnectionEnd true hw cap [] [] (pos 0) u
        → sent u ≡ service (suc (length (received u))) hw (received u)
    go (inl (es, z, x, y, a)) =
        y
        ∙ replies-service hw cap (suc (length (requests es))) es a (omega arith)
        ∙ ap (λ b. service (suc (length b)) hw b) (sym x)
    go (inr c) = cc
