-- ===== src/Server/Stream/Send.antt =====
-- Software/src/ojls_server.c, `stream_send`: the message that it sends.
use open_jls_demos.Prelude.{
  ℕ, ◌+◌, ◌*◌, ◌≤◌, ◌<◌, ◌≡◌, refl, ap, List, [], ◌∷◌, ◌++◌, length, length-append, sum, All, u32,
  IsU32, arith,
}
use open_jls_demos.World.{Env, M, allocated}
use open_jls_demos.World.Laws.{Lawful}
use open_jls_demos.World.Silent.{Silent, Silent-event}
use open_jls_demos.World.Polls.{Ends}
use open_jls_demos.Proto.{OjlsHdr, ojls_hdr_pack, ojls_put_u32}
use open_jls_demos.Proto.RoundTrip.{length-pack, length-put_u32}
use open_jls_demos.Server.Replies.{
  Sends, Sends-full, Sends-done, Sends-map, Sends-then, Sends-after,
}
use open_jls_demos.World.System.{sys_alloc}
use open_jls_demos.Server.Stream.{total_len, stream_hdr, send_lens, send_images, stream_send}

-- The table of lengths on the wire.
abbrev pub len_table : List ℕ → List ℕ
len_table [] = []
len_table (l ∷ ls) = ojls_put_u32 l ++ len_table ls

-- The header of a stream reply that announces the table and the images of `lens`.
abbrev pub announced : OjlsHdr → ℕ → List ℕ → OjlsHdr
announced req status lens = record req {
  type = 4;
  status = status;
  payload_len = u32 (length lens * 4 + sum lens);
}

-- A header, the table of lengths, then the images.
abbrev pub IsStreamOf : (List ℕ → Type 0) → OjlsHdr → ℕ → List ℕ → List ℕ → Type 0
IsStreamOf I req status lens msg =
    (images : List ℕ) × I images
    × (msg ≡ ojls_hdr_pack (announced req status lens) ++ (len_table lens ++ images))

-- As many bytes follow the table as the lengths say.
abbrev pub IsStream : OjlsHdr → ℕ → List ℕ → List ℕ → Type 0
IsStream req status lens = IsStreamOf (λ images. length images ≡ sum lens) req status lens

total_len-sum : (acc : ℕ) (lens : List ℕ) → IsU32 acc → total_len acc lens ≡ u32 (acc + sum lens)
unfolding total_len
total_len-sum acc [] h = omega arith
total_len-sum acc (l ∷ lens) h = omega (arith, total_len-sum (u32 (acc + l)) lens (omega arith))

stream_hdr-announced :
    (req : OjlsHdr) (status count : ℕ) (lens : List ℕ)
    → length lens ≡ count
    → stream_hdr req status lens count ≡ announced req status lens
unfolding stream_hdr
stream_hdr-announced req status count lens l =
    ap (λ n. record req { type = 4; status = status; payload_len = n })
      (omega (arith, total_len-sum (u32 (count * 4)) lens (omega arith)))

pub sys_alloc-Silent : {env : Env} {k : ℕ} → Lawful env k → (n : ℕ) → Silent env (sys_alloc env n)
unfolding sys_alloc
sys_alloc-Silent {env} law n =
    Silent-event law.clock (λ t. env.alloc t n) (λ t. allocated n (env.alloc t n))
      (λ t u. (refl, refl))

module _ {env : Env} {k : ℕ} (law : Lawful env k) (fuel cap : ℕ)
    (enough : cap + k + 20 < fuel) where
  send_lens-Sends : (lens : List ℕ) → Sends env (λ b. b ≡ len_table lens) (send_lens fuel env lens)
  unfolding send_lens
  send_lens-Sends [] = Sends-done
  send_lens-Sends (l ∷ lens) =
      Sends-then (λ a. a ≡ ojls_put_u32 l) (λ b. b ≡ len_table lens) (λ b. b ≡ len_table (l ∷ lens))
        (λ a b e f. rw (e, f) refl)
        (Sends-full fuel (ojls_put_u32 l) law (omega (arith, length-put_u32 l)))
        (send_lens-Sends lens)

  module _ (read : ℕ → ℕ → M (List ℕ)) (slot : ℕ) where
    send_images-Sends :
        (i : ℕ) (lens : List ℕ)
        → ((off len : ℕ) → len ≤ cap → Ends env (λ _ bs _. length bs ≡ len) (read off len))
        → All (λ l. l ≤ cap) lens
        → Sends env (λ b. length b ≡ sum lens) (send_images fuel env read slot i lens)
    unfolding send_images
    send_images-Sends i [] reads a =
        Sends-map (λ b. b ≡ []) (λ b. length b ≡ 0) (λ b e. rw e refl) Sends-done
    send_images-Sends i (l ∷ lens) reads (h, a) =
        Sends-after (λ bs. length bs ≡ l) (λ b. length b ≡ sum (l ∷ lens))
          (reads (u32 (i * slot)) l h)
          (λ bytes e.
            Sends-then (λ a. a ≡ bytes) (λ b. length b ≡ sum lens) (λ b. length b ≡ sum (l ∷ lens))
              (λ a b x y. omega (arith, length-append a b, ap length x))
              (Sends-full fuel bytes law (omega arith)) (send_images-Sends (i + 1) lens reads a))

    -- Whatever the images are, header and table go in front of them.
    pub stream_parts-Sends :
        (I : List ℕ → Type 0) (req : OjlsHdr) (status count : ℕ) (lens : List ℕ)
        → length lens ≡ count
        → Sends env I (send_images fuel env read slot 0 lens)
        → Sends env
            (IsStreamOf I req status lens)
            (stream_send fuel env req status read slot lens count)
    unfolding stream_send
    stream_parts-Sends I req status count lens l body =
        let h = stream_hdr req status lens count in
        let Rest : List ℕ → Type 0 =
          λ b. (images : List ℕ) × I images × (b ≡ len_table lens ++ images) in
        Sends-then (λ a. a ≡ ojls_hdr_pack h) Rest (IsStreamOf I req status lens)
          (λ x y e (images, n, f).
            (images, n, rw (e, f, stream_hdr-announced req status count lens l) refl))
          (Sends-full fuel (ojls_hdr_pack h) law (omega (arith, length-pack h)))
          (Sends-then (λ x. x ≡ len_table lens) I Rest (λ x y e n. (y, n, rw e refl))
            (send_lens-Sends lens) body)

    pub stream_send-Sends :
        (req : OjlsHdr) (status count : ℕ) (lens : List ℕ)
        → ((off len : ℕ) → len ≤ cap → Ends env (λ _ bs _. length bs ≡ len) (read off len))
        → All (λ l. l ≤ cap) lens
        → length lens ≡ count
        → Sends env
            (IsStream req status lens)
            (stream_send fuel env req status read slot lens count)
    stream_send-Sends req status count lens reads a l =
        stream_parts-Sends (λ images. length images ≡ sum lens) req status count lens l
          (send_images-Sends 0 lens reads a)
