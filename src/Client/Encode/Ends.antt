-- ===== src/Client/Encode/Ends.antt =====
-- What the round trips of the client put on the connection and take from it.
use open_jls_demos.Prelude.{
  ℕ, zero, suc, ◌≡◌, ◌⊎◌, List, [], ◌∷◌, ◌++◌, Option, none, some, length, take, All,
}
use open_jls_demos.World.{Trace, received, sent}
use open_jls_demos.Proto.{proto_magic, msg_encode_resp, st_ok, ojls_hdr_pack, ojls_hdr_unpack}
use open_jls_demos.Client.{Image, encode_req}

-- The bytes of the request for an image.
abbrev pub request_msg : Image → List ℕ
request_msg img = ojls_hdr_pack (encode_req img) ++ take img.bytes img.pixels

abbrev pub times : ℕ → List ℕ → List ℕ
times zero msg = []
times (suc n) msg = msg ++ times n msg

-- A response that the client accepts: 20 bytes of header, and the payload that they announce.
pub record IsResponse (raw payload : List ℕ) : Type 0 where
  pub raw_length : length raw ≡ 20
  pub magic : (ojls_hdr_unpack raw).magic ≡ proto_magic
  pub kind : (ojls_hdr_unpack raw).type ≡ msg_encode_resp
  pub status : (ojls_hdr_unpack raw).status ≡ st_ok
  pub payload_length : length payload ≡ (ojls_hdr_unpack raw).payload_len

-- How a round trip ends: `goto out`, or one request out and one response in.
abbrev pub OnceEnd : Image → List ℕ → List ℕ → Option (List ℕ) → Trace → Type 0
OnceEnd img before out r t =
    (r ≡ none)
    ⊎ ((raw : List ℕ) × (payload : List ℕ) × (r ≡ some payload)
        × (received t ≡ before ++ (raw ++ payload))
        × (sent t ≡ out ++ request_msg img)
        × IsResponse raw payload)

-- The bytes of responses, and the payload of the last one.
abbrev pub responses : List (List ℕ × List ℕ) → List ℕ
responses [] = []
responses ((raw, payload) ∷ rs) = (raw ++ payload) ++ responses rs

abbrev pub last_payload : Option (List ℕ) → List (List ℕ × List ℕ) → Option (List ℕ)
last_payload held [] = held
last_payload held ((raw, payload) ∷ rs) = last_payload (some payload) rs

-- After `n` round trips that went well.
abbrev pub RoundsEnd :
    ℕ → Image → Option (List ℕ) → List ℕ → List ℕ → Option (List ℕ) → Trace → Type 0
RoundsEnd n img held before out r t =
    (r ≡ none)
    ⊎ ((rs : List (List ℕ × List ℕ)) × (length rs ≡ n)
        × (r ≡ last_payload held rs)
        × (received t ≡ before ++ responses rs)
        × (sent t ≡ out ++ times n (request_msg img))
        × All (λ e. IsResponse e.0 e.1) rs)
