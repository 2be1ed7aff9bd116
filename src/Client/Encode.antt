-- ===== src/Client/Encode.antt =====
-- Software/host/ojls_client.c: the loop of `main` that sends an image and receives its bitstream.
pub mod Ends
pub mod Answers
pub mod Keeps
use open_jls_demos.Prelude.{
  ℕ, zero, suc, Bool, true, ◌||◌, not, List, Option, none, some, length, take, ltb, ◌!=◌,
  if◌then◌else◌, ℤ, is_zero,
}
use open_jls_demos.World.{Env, M, pure, ◌>>=◌, ◌>>◌}
use open_jls_demos.World.System.{sys_alloc}
use open_jls_demos.Proto.{
  OjlsHdr, proto_magic, proto_hdr_len, msg_encode_resp, st_ok, ojls_hdr_pack, ojls_hdr_unpack,
}
use open_jls_demos.Client.{Image, encode_req}
use open_jls_demos.Client.Io.{now_us, send_full, recv_full}

-- `if (m != 0) goto out;`
abbrev pub or_out : {A : Type 0} → M ℤ → M (Option A) → M (Option A)
or_out m rest = m >>= λ rc. if is_zero rc then rest else pure none

-- The buffer of the response: kept where it is long enough, and otherwise allocated.
unfoldable pub response_room : Env → Option (List ℕ) → ℕ → M Bool
response_room env none len = sys_alloc env len
response_room env (some payload) len =
    if ltb (length payload) len then sys_alloc env len else pure true

unfoldable pub take_payload : Env → ℤ × List ℕ → M (Option (List ℕ))
take_payload env (rc, payload) =
    if is_zero rc then (do _ ← now_us env; pure (some payload)) else pure none

-- What the header of the response leads to.
unfoldable pub on_response : ℕ → Env → Option (List ℕ) → OjlsHdr → M (Option (List ℕ))
on_response fuel env held resp =
    if resp.magic != proto_magic || resp.type != msg_encode_resp
    then pure none
    else if resp.status != st_ok
    then pure none
    else (do
      memory ← response_room env held resp.payload_len
      if not memory then pure none else recv_full fuel env resp.payload_len >>= take_payload env)

unfoldable pub on_response_raw : ℕ → Env → Option (List ℕ) → ℤ × List ℕ → M (Option (List ℕ))
on_response_raw fuel env held (rc, raw) =
    if is_zero rc then on_response fuel env held (ojls_hdr_unpack raw) else pure none

-- One round trip. `held` is the buffer of the response before it, and the result the payload of
-- this one, or `none` on the way to `out`.
unfoldable pub encode_once : ℕ → Env → Image → Option (List ℕ) → M (Option (List ℕ))
encode_once fuel env img held = do
  _ ← now_us env
  or_out (send_full fuel env (ojls_hdr_pack (encode_req img))) (
      or_out (send_full fuel env (take img.bytes img.pixels))
        (recv_full fuel env proto_hdr_len >>= on_response_raw fuel env held))

unfoldable pub encode_next :
    (Option (List ℕ) → M (Option (List ℕ))) → Option (List ℕ) → M (Option (List ℕ))
encode_next next none = pure none
encode_next next (some payload) = next (some payload)

-- `count` rounds; with at least one, `none` is a failure.
unfoldable pub encode_rounds : ℕ → ℕ → Env → Image → Option (List ℕ) → M (Option (List ℕ))
encode_rounds zero fuel env img held = pure held
encode_rounds (suc count) fuel env img held =
    encode_once fuel env img held >>= encode_next (encode_rounds count fuel env img)
