-- ===== src/Client/Encode/Keeps.antt =====
-- The round trips of the client make plain events only.
use open_jls_demos.Prelude.{
  ℕ, zero, suc, ◌||◌, not, List, Option, none, some, length, take, ltb, ◌!=◌, ℤ, is_zero,
}
use open_jls_demos.World.{Env, Trace, M}
use open_jls_demos.World.Keeps.{Keeps, IsCalm, Keeps-pure, Keeps-bind, Keeps-if}
use open_jls_demos.Proto.{
  OjlsHdr, proto_magic, proto_hdr_len, msg_encode_resp, st_ok, ojls_hdr_pack, ojls_hdr_unpack,
}
use open_jls_demos.Client.{Image, encode_req}
use open_jls_demos.Client.Io.Keeps.{now_us-Keeps, sys_alloc-Keeps, recv_full-Keeps, send_full-Keeps}
use open_jls_demos.Client.Encode.{
  or_out, response_room, take_payload, on_response, on_response_raw, encode_once, encode_next,
  encode_rounds,
}

module _ {R : Trace → Trace → Type 0} (calm : IsCalm R) (env : Env) (fuel : ℕ) where
  or_out-Keeps :
      {A : Type 0} (m : M ℤ) (rest : M (Option A))
      → Keeps R m
      → Keeps R rest
      → Keeps R (or_out m rest)
  or_out-Keeps m rest h k =
      Keeps-bind calm.pre h (λ rc. Keeps-if (is_zero rc) k (Keeps-pure calm.pre none))

  response_room-Keeps : (held : Option (List ℕ)) (len : ℕ) → Keeps R (response_room env held len)
  unfolding response_room
  response_room-Keeps none len = sys_alloc-Keeps calm env len
  response_room-Keeps (some payload) len =
      Keeps-if (ltb (length payload) len) (sys_alloc-Keeps calm env len) (Keeps-pure calm.pre _)

  take_payload-Keeps : (r : ℤ × List ℕ) → Keeps R (take_payload env r)
  unfolding take_payload
  take_payload-Keeps (rc, payload) =
      Keeps-if (is_zero rc)
        (Keeps-bind calm.pre (now_us-Keeps calm env) (λ _. Keeps-pure calm.pre _))
        (Keeps-pure calm.pre _)

  on_response-Keeps :
      (held : Option (List ℕ)) (resp : OjlsHdr) → Keeps R (on_response fuel env held resp)
  unfolding on_response
  on_response-Keeps held resp =
      Keeps-if (resp.magic != proto_magic || resp.type != msg_encode_resp) (Keeps-pure calm.pre _) (
        Keeps-if (resp.status != st_ok) (Keeps-pure calm.pre _) (
          Keeps-bind calm.pre (response_room-Keeps held resp.payload_len) (λ memory.
            Keeps-if (not memory) (Keeps-pure calm.pre _) (
              Keeps-bind calm.pre (recv_full-Keeps calm env fuel resp.payload_len)
                take_payload-Keeps))))

  on_response_raw-Keeps :
      (held : Option (List ℕ)) (r : ℤ × List ℕ) → Keeps R (on_response_raw fuel env held r)
  unfolding on_response_raw
  on_response_raw-Keeps held (rc, raw) =
      Keeps-if (is_zero rc) (on_response-Keeps held (ojls_hdr_unpack raw)) (Keeps-pure calm.pre _)

  encode_once-Keeps :
      (img : Image) (held : Option (List ℕ)) → Keeps R (encode_once fuel env img held)
  unfolding encode_once
  encode_once-Keeps img held = Keeps-bind calm.pre (now_us-Keeps calm env) (λ _.
      or_out-Keeps _ _ (send_full-Keeps calm env fuel (ojls_hdr_pack (encode_req img))) (
        or_out-Keeps _ _ (send_full-Keeps calm env fuel (take img.bytes img.pixels)) (
          Keeps-bind calm.pre (recv_full-Keeps calm env fuel proto_hdr_len)
            (on_response_raw-Keeps held))))

  pub encode_rounds-Keeps :
      (img : Image) (count : ℕ) (held : Option (List ℕ))
      → Keeps R (encode_rounds count fuel env img held)
  unfolding encode_rounds encode_next
  encode_rounds-Keeps img zero held = Keeps-pure calm.pre held
  encode_rounds-Keeps img (suc count) held =
      Keeps-bind calm.pre (encode_once-Keeps img held) (next (encode_rounds-Keeps img count))
    where
      next :
          ((h : Option (List ℕ)) → Keeps R (encode_rounds count fuel env img h))
          → (r : Option (List ℕ)) → Keeps R (encode_next (encode_rounds count fuel env img) r)
      next h none = Keeps-pure calm.pre none
      next h (some payload) = h (some payload)
