-- ===== src/Client/Reply.antt =====
-- Software/host/ojls_client.c: what `run_stream` makes of the reply to a stream.
pub mod Split
use open_jls_demos.Prelude.{
  ℕ, zero, suc, ◌+◌, ◌*◌, ◌%◌, ◌^◌, Bool, ◌||◌, ◌&&◌, List, [], ◌∷◌, Option, none, some, take, drop,
  u32, u64, ltb, ◌==◌, ◌!=◌, if◌then◌else◌,
}
use open_jls_demos.Proto.{OjlsHdr, proto_magic, msg_stream_resp, st_ok, ojls_get_u32}

-- What the header of the reply leads to.
pub data ReplyCheck : Type 0 where
  reply_malformed reply_rejected reply_fine : ReplyCheck

unfoldable pub check_reply : ℕ → OjlsHdr → ReplyCheck
check_reply count resp =
    if resp.magic != proto_magic
    then reply_malformed
    else if resp.status != st_ok && resp.payload_len == 0
    then reply_rejected
    else if resp.type != msg_stream_resp || ltb resp.payload_len (u32 (count * 4))
    then reply_malformed
    else reply_fine

-- `ojls_get_u32(payload + 4 * i)`
unfoldable pub table_len : List ℕ → ℕ → ℕ
table_len payload i = ojls_get_u32 (drop (4 * i) payload)

-- The loop that adds up the table: `n` entries are left, from index `i` on.
unfoldable pub table_total : ℕ → ℕ → List ℕ → ℕ → ℕ
table_total zero i payload total = total
table_total (suc n) i payload total =
    table_total n (i + 1) payload (u64 (total + table_len payload i))

-- The loop that writes the images: `saved` is what `write_jls` answers for the index of an image,
-- and `none` that a write failed. The result lists the images written.
unfoldable pub write_images : (ℕ → List ℕ → Bool) → ℕ → ℕ → List ℕ → ℕ → Option (List (ℕ × List ℕ))
write_images saved zero i payload off = some []
write_images saved (suc n) i payload off =
    let len = table_len payload i in
    let skipped = write_images saved n (i + 1) payload off in
    let rest = write_images saved n (i + 1) payload (u64 (off + len)) in
    if len == 0
    then skipped
    else if saved i (take len (drop off payload))
    then elim rest [ none ↦ none | some ws ↦ some ((i, take len (drop off payload)) ∷ ws) ]
    else none

-- From the received payload on; `none` is a failure.
unfoldable pub split_reply : (ℕ → List ℕ → Bool) → ℕ → OjlsHdr → List ℕ → Option (List (ℕ × List ℕ))
split_reply saved count resp payload =
    if table_total count 0 payload (u32 (count * 4)) != resp.payload_len
    then none
    else write_images saved count 0 payload (u32 (count * 4))
