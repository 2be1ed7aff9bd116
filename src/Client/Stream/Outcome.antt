-- ===== src/Client/Stream/Outcome.antt =====
-- How a stream ends for the client: `run_stream` after the reply.
use open_jls_demos.Prelude.{
  ℕ, ◌*◌, ◌≡◌, ◌⊎◌, ap, ◌∙◌, true, false, List, ◌∷◌, ◌++◌, map, append_assoc, some, length, u32,
  ◌!=◌, if◌then◌else◌, ℤ, pos, is_zero, is_zero_iff, arith,
}
use mathlib.Core.Path.{subst}
use open_jls_demos.World.{Env, Trace, M, pure, received, sent, clock_read}
use open_jls_demos.World.Returns.{Returns, Returns-bind, Returns-if}
use open_jls_demos.Proto.{st_ok, ojls_hdr_unpack}
use open_jls_demos.Client.Reply.{reply_fine, check_reply, table_total, split_reply}
use open_jls_demos.Client.Stream.{or_fail_one}
use open_jls_demos.Client.Stream.Written.{
  kept, file_of, WriteEnd, some_images, write_images-all, WriteEnd-zero,
}

-- A success: the request went out, one reply of a success came in whole, and the files of its
-- images were written.
pub record Streamed (dir : List ℕ) (paths : List (List ℕ)) (request before out : List ℕ)
    (files : List (List ℕ × List ℕ)) (t : Trace) : Type 0 where
  pub raw : List ℕ
  pub payload : List ℕ
  pub images : List (ℕ × List ℕ)
  pub raw_length : length raw ≡ 20
  pub payload_length : length payload ≡ (ojls_hdr_unpack raw).payload_len
  pub fine : check_reply (length paths) (ojls_hdr_unpack raw) ≡ reply_fine
  pub status : (ojls_hdr_unpack raw).status ≡ st_ok
  pub split : split_reply (λ i b. true) (length paths) (ojls_hdr_unpack raw) payload ≡ some images
  pub sent_all : sent t ≡ out ++ request
  pub taken : received t ≡ before ++ (raw ++ payload)
  pub written : kept t ≡ files ++ map (file_of dir paths) images

-- The code is 0 after a success, and otherwise 1.
abbrev pub StreamEnd :
    List ℕ → List (List ℕ) → List ℕ → List ℕ → List ℕ → List (List ℕ × List ℕ) → ℤ → Trace → Type 0
StreamEnd dir paths request before out files rc t =
    ((rc ≡ pos 0) × Streamed dir paths request before out files t) ⊎ (rc ≡ pos 1)

-- A step whose failure leaves the code 1.
pub or_fail-Returns :
    (m rest : M ℤ) (t : Trace) (P Q : ℤ → Trace → Type 0)
    → Returns (m t) P
    → ((u : Trace) → P (pos 0) u → Returns (rest u) Q)
    → ((u : Trace) → Q (pos 1) u)
    → Returns (or_fail_one m rest t) Q
or_fail-Returns m rest t P Q h k f =
    Returns-bind m (λ rc. if is_zero rc then rest else pure (pos 1)) t P Q h
      (λ rc u p.
        Returns-if (is_zero rc) rest (pure (pos 1)) u Q
          (λ z. k u (subst (λ c. P c u) ((is_zero_iff rc).0 z) p)) (λ _. f u))

-- The request went out, and the header of the reply is there.
pub record AfterReply (request before out : List ℕ) (files : List (List ℕ × List ℕ)) (raw : List ℕ)
    (t : Trace) : Type 0 where
  pub taken : received t ≡ before ++ raw
  pub went : sent t ≡ out ++ request
  pub raw_length : length raw ≡ 20
  pub nothing : kept t ≡ files

module _ (env : Env) (dir : List ℕ) (paths : List (List ℕ)) {request before out : List ℕ}
    {files : List (List ℕ × List ℕ)} where
  pub streamed :
      (raw payload : List ℕ) (t u v : Trace)
      → AfterReply request before out files raw t
      → (received u ≡ received t ++ payload) × (sent u ≡ sent t) × (kept u ≡ kept t)
      → length payload ≡ (ojls_hdr_unpack raw).payload_len
      → check_reply (length paths) (ojls_hdr_unpack raw) ≡ reply_fine
      → (table_total (length paths) 0 payload (u32 (length paths * 4))
          != (ojls_hdr_unpack raw).payload_len)
        ≡ false
      → WriteEnd u
          (map (file_of dir paths) (some_images (length paths) 0 payload (u32 (length paths * 4))))
          (pos 0)
          v
      → ((ojls_hdr_unpack raw).status != st_ok) ≡ false
      → Streamed dir paths request before out files (clock_read (env.clock v) ∷ v)
  unfolding split_reply
  streamed raw payload t u v a (x, y, z) l c adds w good = record {
    raw = raw;
    payload = payload;
    images = some_images (length paths) 0 payload (u32 (length paths * 4));
    raw_length = a.raw_length;
    payload_length = l;
    fine = c;
    status = ground (arith, good);
    split = rw adds (write_images-all (length paths) 0 payload (u32 (length paths * 4)));
    sent_all = w.1 ∙ y ∙ a.went;
    taken = w.0 ∙ x ∙ ap (λ b. b ++ payload) a.taken ∙ append_assoc before raw payload;
    written =
        WriteEnd-zero u _ v w
        ∙ ap
            (λ b.
              b
              ++ map (file_of dir paths)
                  (some_images (length paths) 0 payload (u32 (length paths * 4))))
            (z ∙ a.nothing);
  }
