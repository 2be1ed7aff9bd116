-- ===== src/Examples/Client.antt =====
-- The client.
use open_jls_demos.Prelude.{ℕ, ◌≡◌, refl, true, [], ◌∷◌, ◌++◌, some, length, arith}
use open_jls_demos.Proto.{IsHdr, st_ok}
use open_jls_demos.Server.Request.{request_status}
use open_jls_demos.Server.Stream.Send.{len_table, announced}
use open_jls_demos.Client.{Image, encode_req}
use open_jls_demos.Client.Pgm.{
  digits, skip_to_digit, pgm_token, bitness_loop, pgm_bitness, swap_samples, pgm_pixels, pgm_body,
  pgm_header, pgm_load,
}
use open_jls_demos.Client.Pgm.Bitness.{IsBitness, pgm_bitness-IsBitness}
use open_jls_demos.Client.Pgm.Samples.{wire_samples, swap_samples-order}
use open_jls_demos.Client.Request.{client_request_accepted}
use open_jls_demos.Client.Reply.{reply_fine, check_reply, split_reply}
use open_jls_demos.Client.Reply.Split.{stream_reply-split}
use open_jls_demos.Examples.Board.{small_hw, pgm_file}
use open_jls_demos.Examples.Serving.{three_hdr}

abbrev pub pgm_image : Image
pgm_image = record { width = 2; height = 1; bitness = 10; bytes = 4; pixels = 255 ∷ 3 ∷ 1 ∷ 0 ∷ [] }

pub load-pgm_file : pgm_load (λ n. true) pgm_file ≡ some pgm_image
unfolding pgm_load pgm_header pgm_token skip_to_digit digits pgm_body pgm_bitness bitness_loop
    pgm_pixels swap_samples
load-pgm_file = refl

client_request_accepted_example :
    (request_status true small_hw (encode_req pgm_image) ≡ st_ok)
    × IsHdr (encode_req pgm_image)
    × (length pgm_image.pixels ≡ 4)
client_request_accepted_example =
    client_request_accepted small_hw (λ n. true) pgm_file pgm_image load-pgm_file

pgm_bitness-IsBitness_example : (b : ℕ) × (pgm_bitness 4095 ≡ some b) × IsBitness 4095 b
pgm_bitness-IsBitness_example = pgm_bitness-IsBitness 4095 (omega arith)

swap_samples-order_example :
    (wire_samples (swap_samples 2 (3 ∷ 255 ∷ 0 ∷ 1 ∷ [])) ≡ 1023 ∷ 1 ∷ [])
    × (swap_samples 2 (swap_samples 2 (3 ∷ 255 ∷ 0 ∷ 1 ∷ [])) ≡ 3 ∷ 255 ∷ 0 ∷ 1 ∷ [])
swap_samples-order_example = swap_samples-order 2 (3 ∷ 255 ∷ 0 ∷ 1 ∷ []) refl

stream_reply-split_example :
    (check_reply 3 (announced three_hdr 0 (2 ∷ 0 ∷ 1 ∷ [])) ≡ reply_fine)
    × (split_reply
          (λ i b. true)
          3
          (announced three_hdr 0 (2 ∷ 0 ∷ 1 ∷ []))
          (len_table (2 ∷ 0 ∷ 1 ∷ []) ++ (7 ∷ 8 ∷ 9 ∷ []))
        ≡ some ((0, 7 ∷ 8 ∷ []) ∷ (2, 9 ∷ []) ∷ []))
stream_reply-split_example =
    stream_reply-split (λ i b. true) three_hdr (2 ∷ 0 ∷ 1 ∷ []) (7 ∷ 8 ∷ 9 ∷ []) (λ i b. refl) refl
      (omega arith, (omega arith, (omega arith, tt))) refl (omega arith)
