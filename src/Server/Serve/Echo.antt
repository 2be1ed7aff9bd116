-- ===== src/Server/Serve/Echo.antt =====
-- `loopback_reply` sends the payload back.
use open_jls_demos.Prelude.{
  ℕ, zero, suc, inl, inr, ◌+◌, ◌*◌, ◌/◌, ◌^◌, ◌≤◌, ◌<◌, ◌≡◌, refl, sym, ap, ◌∙◌, not, List, [],
  ◌++◌, append-nil, length, length-take, take, take_add, take-length, drop, length-drop, drop-drop,
  replicate, length-replicate, sum, ==_iff, Bool-cases, if◌then◌else◌, u32, pos, negsuc, arith,
}
use native.Mathlib.Nat.{add-mul, suc-mul, div-add-mod'}
use open_jls_demos.World.{Env, Trace, pure, received, sent}
use open_jls_demos.World.Returns.{Returns}
use open_jls_demos.World.Laws.{Lawful}
use open_jls_demos.Proto.{OjlsHdr, ojls_hdr_pack}
use open_jls_demos.Proto.RoundTrip.{length-pack}
use open_jls_demos.Server.{or_return}
use open_jls_demos.Server.Io.{send_full}
use open_jls_demos.Server.Replies.{
  Sends, Sending, Sends-full, Sends-done, Sends-map, Sends-then, Sends-later, Sends-if,
  Sends-failed,
}
use open_jls_demos.Server.Request.{is_stream, expected_bytes, image_count}
use open_jls_demos.Server.Request.Accept.{IsWellFormed}
use open_jls_demos.Server.Stream.{send_images, stream_send}
use open_jls_demos.Server.Stream.Send.{
  len_table, announced, IsStreamOf, stream_parts-Sends, sys_alloc-Silent,
}
use open_jls_demos.Server.Serve.{payload_bytes, loopback_hdr, loopback_reply}

-- Image `i`, then the `n` images after it.
next_image :
    (size n i : ℕ) (payload : List ℕ)
    → take size (drop (i * size) payload) ++ take (n * size) (drop ((i + 1) * size) payload)
      ≡ take (suc n * size) (drop (i * size) payload)
next_image size n i payload =
    let d : (i + 1) * size ≡ i * size + size = add-mul i 1 size ∙ omega arith in
    let s : size + n * size ≡ suc n * size = omega (arith, suc-mul n size) in
    ap (λ xs. take size (drop (i * size) payload) ++ take (n * size) xs)
      (ap (λ m. drop m payload) d ∙ sym (drop-drop (i * size) size payload))
    ∙ take_add size (n * size) (drop (i * size) payload)
    ∙ ap (λ m. take m (drop (i * size) payload)) s

sum-replicate : (n size : ℕ) → sum (replicate n size) ≡ n * size
sum-replicate zero size = omega arith
sum-replicate (suc n) size = omega (arith, sum-replicate n size, suc-mul n size)

-- What loopback mode answers: the payload under a header that marks success, for a stream with
-- the table of lengths in front.
abbrev pub echo_msg : OjlsHdr → List ℕ → List ℕ
echo_msg req payload =
    let lens = replicate (image_count req) (expected_bytes req) in
    if is_stream req
    then ojls_hdr_pack (announced req 0 lens) ++ (len_table lens ++ payload)
    else ojls_hdr_pack (record req { type = 2; status = 0 }) ++ payload

module _ {env : Env} {k : ℕ} (law : Lawful env k) (fuel : ℕ) (payload : List ℕ)
    (enough : length payload + k + 20 < fuel) (short : length payload < 2 ^ 32) where
  -- The images of a stream, taken out of the payload one after the other, are the payload.
  send_echo-Sends :
      (size n i : ℕ)
      → i * size + n * size ≤ length payload
      → Sends env
          (λ b. b ≡ take (n * size) (drop (i * size) payload))
          (send_images fuel env (payload_bytes payload) size i (replicate n size))
  unfolding send_images
  send_echo-Sends size zero i h =
      let e : 0 ≡ zero * size = omega arith in
      Sends-map (λ b. b ≡ []) (λ b. b ≡ take (zero * size) (drop (i * size) payload))
        (λ b f. rw f (ap (λ m. take m (drop (i * size) payload)) e)) Sends-done
  send_echo-Sends size (suc n) i h =
      let off : u32 (i * size) ≡ i * size = omega arith in
      let l : length (take size (drop (u32 (i * size)) payload)) ≤ length payload = omega (
        arith,
        length-take size (drop (u32 (i * size)) payload),
        length-drop (u32 (i * size)) payload,
      ) in
      Sends-then (λ a. a ≡ take size (drop (u32 (i * size)) payload))
        (λ b. b ≡ take (n * size) (drop ((i + 1) * size) payload))
        (λ b. b ≡ take (suc n * size) (drop (i * size) payload))
        (λ a b e f. rw (e, f, off) (next_image size n i payload))
        (Sends-full fuel (take size (drop (u32 (i * size)) payload)) law (omega (arith, l)))
        (send_echo-Sends size n (i + 1) (omega (arith, h, suc-mul n size, add-mul i 1 size)))

  echo_stream-Sends :
      (req : OjlsHdr) (size n : ℕ)
      → n * size ≡ length payload
      → Sends env
          (λ msg.
            msg
            ≡ ojls_hdr_pack (announced req 0 (replicate n size))
              ++ (len_table (replicate n size) ++ payload))
          (stream_send fuel env req 0 (payload_bytes payload) size (replicate n size) n)
  echo_stream-Sends req size n e =
      let z : 0 * size ≡ 0 = omega arith in
      let all : take (n * size) (drop (0 * size) payload) ≡ payload =
        ap (λ m. take (n * size) (drop m payload)) z
        ∙ ap (λ m. take m payload) e
        ∙ take-length payload in
      Sends-map
        (IsStreamOf (λ b. b ≡ take (n * size) (drop (0 * size) payload)) req 0 (replicate n size)) _
        (λ msg (images, f, m).
          let g : images ≡ payload = f ∙ all in
          m
          ∙ ap
              (λ x.
                ojls_hdr_pack (announced req 0 (replicate n size))
                ++ (len_table (replicate n size) ++ x))
              g)
        (stream_parts-Sends law fuel 0 (omega arith) (payload_bytes payload) size _ req 0 n
          (replicate n size) (length-replicate n size)
          (send_echo-Sends size n 0 (omega (arith, e))))

  echo_one-Sends :
      (req : OjlsHdr)
      → length payload ≡ req.payload_len
      → Sends env
          (λ msg. msg ≡ ojls_hdr_pack (record req { type = 2; status = 0 }) ++ payload)
          (or_return (send_full fuel env (ojls_hdr_pack (loopback_hdr req))) (negsuc 0) (
            or_return
              (send_full fuel env (take req.payload_len payload))
              (negsuc 0)
              (pure (pos 0))))
  echo_one-Sends req l =
      let h = loopback_hdr req in
      let all : take req.payload_len payload ≡ payload = rw (sym l) (take-length payload) in
      Sends-then (λ a. a ≡ ojls_hdr_pack h) (λ b. b ≡ payload) _ (λ a b e f. rw (e, f) refl)
        (Sends-full fuel (ojls_hdr_pack h) law (omega (arith, length-pack h)))
        (Sends-then (λ a. a ≡ take req.payload_len payload) (λ b. b ≡ []) (λ b. b ≡ payload)
          (λ a b e f. rw (e, f, append-nil) all)
          (Sends-full fuel (take req.payload_len payload) law (omega (arith, ap length all)))
          Sends-done)

  -- For a well-formed request, `loopback_reply` sends the whole echo, or fails.
  pub loopback_reply-Sends :
      (req : OjlsHdr)
      → IsWellFormed req
      → length payload ≡ req.payload_len
      → Sends env (λ msg. msg ≡ echo_msg req payload) (loopback_reply fuel env req payload)
  unfolding loopback_reply image_count
  loopback_reply-Sends req w l = elim (Bool-cases (is_stream req)) [
    | inl stream ↦
        let n = req.payload_len / expected_bytes req in
        let (nonzero, _, whole) = w.images ((==_iff _ _).0 stream) in
        rw stream (
          Sends-later _ (sys_alloc-Silent law (u32 (n * 4))) (λ memory.
            Sends-if _ (not memory) Sends-failed (
              echo_stream-Sends req (expected_bytes req) n
                (omega (arith, l, whole, div-add-mod' req.payload_len (expected_bytes req))))))
    | inr single ↦ rw single (echo_one-Sends req l)
  ]

-- For a well-formed request whose payload is complete, under the laws and with enough fuel,
-- `loopback_reply` ends, and reads nothing from the socket. It returns 0 exactly after it has sent
-- the payload back in one message: under a header that marks success, for a stream with the table
-- of its image lengths in front. The only other code is -1.
pub loopback_reply_total :
    {env : Env} {k : ℕ} (req : OjlsHdr) (payload : List ℕ) (fuel : ℕ) (t : Trace)
    → Lawful env k
    → IsWellFormed req
    → length payload ≡ req.payload_len
    → length payload < 2 ^ 32
    → length payload + k + 20 < fuel
    → Returns
        (loopback_reply fuel env req payload t)
        (Sending (received t) (sent t) (λ msg. msg ≡ echo_msg req payload))
loopback_reply_total req payload fuel t law w l short enough =
    (loopback_reply-Sends law fuel payload enough short req w l).ends t
