-- ===== src/Client/Reply/Split.antt =====
-- The client takes apart what `stream_send` puts together.
use open_jls_demos.Prelude.{
  ℕ, zero, suc, ◌+◌, ◌*◌, ◌^◌, ◌<◌, ◌≡◌, refl, sym, ap, ◌∙◌, Bool, true, false, List, [], ◌∷◌, ◌++◌,
  append_assoc, some, length, length-append, take, drop, drop-drop, drop_append, sum, All, IsU32,
  u32, u64, ◌==◌, if◌then◌else◌, arith,
}
use open_jls_demos.Proto.{OjlsHdr, ojls_put_u32, proto_magic}
use open_jls_demos.Proto.RoundTrip.{get_u32-put_u32, length-put_u32}
use open_jls_demos.Server.Stream.Send.{len_table, announced}
use open_jls_demos.Client.Reply.{
  reply_fine, check_reply, table_len, table_total, write_images, split_reply,
}

-- The images cut off the front one after the other, each with its index; those without bytes are
-- left out.
abbrev pub cut : ℕ → List ℕ → List ℕ → List (ℕ × List ℕ)
cut i [] bs = []
cut i (l ∷ ls) bs =
    let rest = cut (i + 1) ls (drop l bs) in if l == 0 then rest else (i, take l bs) ∷ rest

length-len_table : (lens : List ℕ) → length (len_table lens) ≡ length lens * 4
length-len_table [] = omega arith
length-len_table (l ∷ lens) = omega (
  arith,
  length-append (ojls_put_u32 l) (len_table lens),
  length-put_u32 l,
  length-len_table lens,
)

module _ (payload : List ℕ) where
  -- From the entry with index `i` on the table is that of `lens`.
  abbrev TableAt : ℕ → List ℕ → List ℕ → Type 0
  TableAt i lens rest = drop (4 * i) payload ≡ len_table lens ++ rest

  table_len-head :
      (i l : ℕ) (lens rest : List ℕ) → IsU32 l → TableAt i (l ∷ lens) rest → table_len payload i ≡ l
  unfolding table_len
  table_len-head i l lens rest h e =
      rw (e, append_assoc) (get_u32-put_u32 l (len_table lens ++ rest) h)

  TableAt-tail :
      (i l : ℕ) (lens rest : List ℕ) → TableAt i (l ∷ lens) rest → TableAt (i + 1) lens rest
  TableAt-tail i l lens rest e =
      let step : 4 * (i + 1) ≡ 4 * i + 4 = omega arith in
      ap (λ n. drop n payload) step
      ∙ sym (drop-drop (4 * i) 4 payload)
      ∙ ap (drop 4) (e ∙ append_assoc (ojls_put_u32 l) (len_table lens) rest)
      ∙ ap (λ n. drop n (ojls_put_u32 l ++ (len_table lens ++ rest))) (sym (length-put_u32 l))
      ∙ drop_append (ojls_put_u32 l) (len_table lens ++ rest)

  table_total-sum :
      (lens rest : List ℕ) (i total : ℕ)
      → All IsU32 lens
      → TableAt i lens rest
      → total + sum lens < 2 ^ 64
      → table_total (length lens) i payload total ≡ total + sum lens
  unfolding table_total
  table_total-sum [] rest i total a e f = omega arith
  table_total-sum (l ∷ lens) rest i total (h, a) e f =
      let same : u64 (total + table_len payload i) ≡ total + l =
        omega (arith, table_len-head i l lens rest h e) in
      ap (table_total (length lens) (i + 1) payload) same
      ∙ table_total-sum lens rest (i + 1) (total + l) a (TableAt-tail i l lens rest e) (omega arith)
      ∙ omega arith

  write_images-cut :
      (saved : ℕ → List ℕ → Bool) (lens rest bs : List ℕ) (i off : ℕ)
      → ((i : ℕ) (b : List ℕ) → saved i b ≡ true)
      → All IsU32 lens
      → TableAt i lens rest
      → drop off payload ≡ bs
      → off + sum lens < 2 ^ 64
      → write_images saved (length lens) i payload off ≡ some (cut i lens bs)
  unfolding write_images
  write_images-cut saved [] rest bs i off s a e d f = refl
  write_images-cut saved (zero ∷ lens) rest bs i off s (h, a) e d f =
      rw (table_len-head i zero lens rest h e) (
        write_images-cut saved lens rest bs (i + 1) off s a (TableAt-tail i zero lens rest e) d
          (omega arith))
  write_images-cut saved (suc l ∷ lens) rest bs i off s (h, a) e d f =
      let same : u64 (off + suc l) ≡ off + suc l = omega arith in
      let later =
        write_images-cut saved lens rest (drop (suc l) bs) (i + 1) (off + suc l) s a
          (TableAt-tail i (suc l) lens rest e)
          (sym (drop-drop off (suc l) payload) ∙ ap (drop (suc l)) d) (omega arith) in
      let head = table_len-head i (suc l) lens rest h e in
      let nonzero : (suc l == 0) ≡ false = ground arith in
      rw
        (
          head,
          nonzero,
          s i (take (suc l) (drop off payload)),
          ap (write_images saved (length lens) (i + 1) payload) same ∙ later,
          head,
          d,
        )
        refl

-- The header that `stream_send` makes for a run without error, and the table and the images behind
-- it, where together they are shorter than 4 GiB: the client finds the header fine and the lengths
-- to add up, and, if no write fails, writes for each image that is not empty exactly its bytes,
-- under its index in the stream.
pub stream_reply-split :
    (saved : ℕ → List ℕ → Bool) (req : OjlsHdr) (lens images : List ℕ)
    → ((i : ℕ) (b : List ℕ) → saved i b ≡ true)
    → req.magic ≡ proto_magic
    → All IsU32 lens
    → length images ≡ sum lens
    → length lens * 4 + sum lens < 2 ^ 32
    → (check_reply (length lens) (announced req 0 lens) ≡ reply_fine)
      × (split_reply saved (length lens) (announced req 0 lens) (len_table lens ++ images)
          ≡ some (cut 0 lens images))
unfolding check_reply split_reply
stream_reply-split saved req lens images s m a l f =
    let n = length lens in
    let payload = len_table lens ++ images in
    let total : table_total n 0 payload (u32 (n * 4)) ≡ u32 (n * 4 + sum lens) =
      table_total-sum payload lens images 0 (u32 (n * 4)) a refl (omega arith) ∙ omega arith in
    let off : u32 (n * 4) ≡ length (len_table lens) = omega (arith, length-len_table lens) in
    (
      ground arith,
      ground (
        arith,
        total,
        write_images-cut payload saved lens images images 0 (u32 (n * 4)) s a refl
            (ap (λ x. drop x payload) off ∙ drop_append (len_table lens) images) (omega arith),
      ),
    )
