-- ===== src/Client/Stream/Keeps.antt =====
-- A stream of the client makes plain events, and writes files.
use open_jls_demos.Prelude.{
  ℕ, zero, suc, refl, ◌+◌, ◌∷◌, not, List, [], Option, none, some, length, u64, ◌==◌, ℤ, is_zero,
}
use open_jls_demos.World.{Env, Trace, M, SaveIo, saved}
use open_jls_demos.World.System.{sys_file, sys_save}
use open_jls_demos.World.Keeps.{Keeps, IsCalm, Keeps-pure, Keeps-bind, Keeps-if, Keeps-plain}
use open_jls_demos.Proto.{OjlsHdr, proto_hdr_len, ojls_hdr_unpack}
use open_jls_demos.Client.{Image}
use open_jls_demos.Client.Files.{parse_file, load_path, write_jls}
use open_jls_demos.Client.Io.Keeps.{now_us-Keeps, sys_alloc-Keeps, recv_full-Keeps, send_full-Keeps}
use open_jls_demos.Client.Reply.{reply_malformed, reply_rejected, reply_fine, ReplyCheck, table_len}
use open_jls_demos.Client.Stream.{
  Loaded, or_fail_one, differs, add_image, load_images, write_stream, stream_payload, on_payload,
  on_check, on_stream_raw, stream_exchange,
}

module _ {R : Trace → Trace → Type 0} (calm : IsCalm R) (env : Env) where
  parse_file-Keeps : (r : Option (List ℕ)) → Keeps R (parse_file env r)
  unfolding parse_file
  parse_file-Keeps none = record { runs = calm.pre.same }
  parse_file-Keeps (some bytes) = record { runs = calm.pre.same }

  pub load_path-Keeps : (path : List ℕ) → Keeps R (load_path env path)
  unfolding load_path sys_file
  load_path-Keeps path = Keeps-bind calm.pre (Keeps-plain calm _ _ (λ t. refl)) parse_file-Keeps

  pub load_images-Keeps :
      (count : ℕ) (paths : List (List ℕ)) (so_far : Option Loaded)
      → Keeps R (load_images env count paths so_far)
  unfolding load_images add_image
  load_images-Keeps count [] so_far = Keeps-pure calm.pre so_far
  load_images-Keeps count (path ∷ paths) so_far =
      Keeps-bind calm.pre (load_path-Keeps path) (add (load_images-Keeps count paths) so_far)
    where
      add :
          ((s : Option Loaded) → Keeps R (load_images env count paths s))
          → (s : Option Loaded) (img : Option Image)
          → Keeps R (add_image env count (load_images env count paths) s img)
      add h s none = Keeps-pure calm.pre none
      add h none (some img) =
          Keeps-bind calm.pre (sys_alloc-Keeps calm env _)
            (λ memory. Keeps-if (not memory) (Keeps-pure calm.pre none) (h _))
      add h (some (first, pixels)) (some img) =
          Keeps-if (differs img first) (Keeps-pure calm.pre none) (h _)

  -- Files may be written.
  module _ (fuel : ℕ)
      (writes : (path bytes : List ℕ) (io : SaveIo) (t : Trace)
        → R t (saved path bytes io ∷ t)) where
    or_fail-Keeps : (m rest : M ℤ) → Keeps R m → Keeps R rest → Keeps R (or_fail_one m rest)
    or_fail-Keeps m rest h k =
        Keeps-bind calm.pre h (λ rc. Keeps-if (is_zero rc) k (Keeps-pure calm.pre _))

    pub sys_save-Keeps : (path bytes : List ℕ) → Keeps R (sys_save env path bytes)
    unfolding sys_save
    sys_save-Keeps path bytes = record { runs = λ t. writes path bytes _ t }

    write_stream-Keeps :
        (dir : List ℕ) (paths : List (List ℕ)) (n i : ℕ) (payload : List ℕ) (off : ℕ)
        → Keeps R (write_stream env dir paths n i payload off)
    unfolding write_stream write_jls
    write_stream-Keeps dir paths zero i payload off = Keeps-pure calm.pre _
    write_stream-Keeps dir paths (suc n) i payload off =
        Keeps-if (table_len payload i == 0) (write_stream-Keeps dir paths n (i + 1) payload off) (
          or_fail-Keeps _ _ (Keeps-bind calm.pre (sys_save-Keeps _ _) (λ io. Keeps-pure calm.pre _))
            (write_stream-Keeps dir paths n (i + 1) payload (u64 (off + table_len payload i))))

    on_payload-Keeps :
        (dir : List ℕ) (paths : List (List ℕ)) (resp : OjlsHdr) (r : ℤ × List ℕ)
        → Keeps R (on_payload env dir paths resp r)
    unfolding on_payload stream_payload
    on_payload-Keeps dir paths resp (rc, payload) =
        Keeps-if (is_zero rc)
          (Keeps-if _ (Keeps-pure calm.pre _) (
            or_fail-Keeps _ _ (write_stream-Keeps dir paths (length paths) 0 payload _)
              (Keeps-bind calm.pre (now_us-Keeps calm env) (λ _. Keeps-pure calm.pre _))))
          (Keeps-pure calm.pre _)

    on_check-Keeps :
        (dir : List ℕ) (paths : List (List ℕ)) (resp : OjlsHdr) (c : ReplyCheck)
        → Keeps R (on_check fuel env dir paths resp c)
    unfolding on_check
    on_check-Keeps dir paths resp reply_malformed = Keeps-pure calm.pre _
    on_check-Keeps dir paths resp reply_rejected = Keeps-pure calm.pre _
    on_check-Keeps dir paths resp reply_fine =
        Keeps-bind calm.pre (sys_alloc-Keeps calm env resp.payload_len) (λ memory.
          Keeps-if (not memory) (Keeps-pure calm.pre _) (
            Keeps-bind calm.pre (recv_full-Keeps calm env fuel resp.payload_len)
              (on_payload-Keeps dir paths resp)))

    on_stream_raw-Keeps :
        (dir : List ℕ) (paths : List (List ℕ)) (r : ℤ × List ℕ)
        → Keeps R (on_stream_raw fuel env dir paths r)
    unfolding on_stream_raw
    on_stream_raw-Keeps dir paths (rc, raw) =
        Keeps-if (is_zero rc) (on_check-Keeps dir paths (ojls_hdr_unpack raw) _)
          (Keeps-pure calm.pre _)

    pub stream_exchange-Keeps :
        (dir : List ℕ) (ready_pct : ℕ) (paths : List (List ℕ)) (loaded : Loaded)
        → Keeps R (stream_exchange fuel env dir ready_pct paths loaded)
    unfolding stream_exchange
    stream_exchange-Keeps dir ready_pct paths (first, pixels) =
        Keeps-bind calm.pre (now_us-Keeps calm env) (λ _.
          or_fail-Keeps _ _ (send_full-Keeps calm env fuel _) (
            or_fail-Keeps _ _ (send_full-Keeps calm env fuel _) (
              Keeps-bind calm.pre (recv_full-Keeps calm env fuel proto_hdr_len)
                (on_stream_raw-Keeps dir paths))))
