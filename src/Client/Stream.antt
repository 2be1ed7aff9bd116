-- ===== src/Client/Stream.antt =====
-- Software/host/ojls_client.c: `run_stream`.
pub mod Keeps
pub mod Written
pub mod Closes
pub mod Outcome
pub mod Exchange
use open_jls_demos.Prelude.{
  ℕ, zero, suc, ◌+◌, ◌-◌, ◌*◌, Bool, ◌||◌, not, List, [], ◌∷◌, ◌++◌, Option, none, some, length,
  take, drop, get_or, u8, u32, u64, ◌==◌, ◌!=◌, if◌then◌else◌, ℤ, pos, negsuc, is_zero,
}
use open_jls_demos.World.{Env, M, pure, ◌>>=◌, ◌>>◌}
use open_jls_demos.World.System.{sys_alloc, sys_close}
use open_jls_demos.Proto.{
  OjlsHdr, proto_magic, proto_version, proto_hdr_len, msg_stream_req, st_ok, ojls_hdr_pack,
  ojls_hdr_unpack,
}
use open_jls_demos.Client.{Image}
use open_jls_demos.Client.Io.{now_us, send_full, recv_full}
use open_jls_demos.Client.Connect.{connect_host}
use open_jls_demos.Client.Files.{load_path, write_jls}
use open_jls_demos.Client.Reply.{
  reply_malformed, reply_rejected, reply_fine, ReplyCheck, check_reply, table_len, table_total,
}

-- `if (m != 0) goto out;` with `rc` still 1
abbrev pub or_fail_one : M ℤ → M ℤ → M ℤ
or_fail_one m rest = m >>= λ rc. if is_zero rc then rest else pure (pos 1)

-- The first image, and the pixels of all images so far.
abbrev pub Loaded : Type 0
Loaded = Image × List ℕ

abbrev pub differs : Image → Image → Bool
differs img first =
    img.width != first.width
    || img.height != first.height
    || img.bitness != first.bitness
    || img.bytes != first.bytes

-- What the loop that loads the images makes of one: `so_far` is `none` before the first.
unfoldable pub add_image :
    Env → ℕ → (Option Loaded → M (Option Loaded)) → Option Loaded → Option Image → M (Option Loaded)
add_image env count next so_far none = pure none
add_image env count next none (some img) = do
  memory ← sys_alloc env (img.bytes * count)
  if not memory then pure none else next (some (img, take img.bytes img.pixels))
add_image env count next (some (first, pixels)) (some img) =
    if differs img first
    then pure none
    else next (some (first, pixels ++ take first.bytes img.pixels))

unfoldable pub load_images : Env → ℕ → List (List ℕ) → Option Loaded → M (Option Loaded)
load_images env count [] so_far = pure so_far
load_images env count (path ∷ paths) so_far =
    load_path env path >>= add_image env count (load_images env count paths) so_far

unfoldable pub stream_req : Image → ℕ → ℕ → OjlsHdr
stream_req first ready_pct count = record {
  magic = proto_magic;
  version = proto_version;
  type = msg_stream_req;
  status = 0;
  width = first.width;
  height = first.height;
  bitness = first.bitness;
  ready_pct = u8 ready_pct;
  payload_len = u32 (first.bytes * count);
}

-- The loop that writes the images: `n` are left, from index `i` on.
unfoldable pub write_stream : Env → List ℕ → List (List ℕ) → ℕ → ℕ → List ℕ → ℕ → M ℤ
write_stream env dir paths zero i payload off = pure (pos 0)
write_stream env dir paths (suc n) i payload off =
    let len = table_len payload i in
    if len == 0
    then write_stream env dir paths n (i + 1) payload off
    else or_fail_one (write_jls env dir (get_or paths i []) (take len (drop off payload)))
        (write_stream env dir paths n (i + 1) payload (u64 (off + len)))

-- The payload is there.
unfoldable pub stream_payload : Env → List ℕ → List (List ℕ) → OjlsHdr → List ℕ → M ℤ
stream_payload env dir paths resp payload =
    let count = length paths in
    if table_total count 0 payload (u32 (count * 4)) != resp.payload_len
    then pure (pos 1)
    else or_fail_one (write_stream env dir paths count 0 payload (u32 (count * 4)))
        (do _ ← now_us env; pure (if resp.status != st_ok then pos 1 else pos 0))

unfoldable pub on_payload : Env → List ℕ → List (List ℕ) → OjlsHdr → ℤ × List ℕ → M ℤ
on_payload env dir paths resp (rc, payload) =
    if is_zero rc then stream_payload env dir paths resp payload else pure (pos 1)

unfoldable pub on_check : ℕ → Env → List ℕ → List (List ℕ) → OjlsHdr → ReplyCheck → M ℤ
on_check fuel env dir paths resp reply_malformed = pure (pos 1)
on_check fuel env dir paths resp reply_rejected = pure (pos 1)
on_check fuel env dir paths resp reply_fine = do
  memory ← sys_alloc env resp.payload_len
  if not memory
      then pure (pos 1)
      else recv_full fuel env resp.payload_len >>= on_payload env dir paths resp

unfoldable pub on_stream_raw : ℕ → Env → List ℕ → List (List ℕ) → ℤ × List ℕ → M ℤ
on_stream_raw fuel env dir paths (rc, raw) =
    let resp = ojls_hdr_unpack raw in
    if is_zero rc
    then on_check fuel env dir paths resp (check_reply (length paths) resp)
    else pure (pos 1)

-- Over the open connection.
unfoldable pub stream_exchange : ℕ → Env → List ℕ → ℕ → List (List ℕ) → Loaded → M ℤ
stream_exchange fuel env dir ready_pct paths (first, pixels) =
    let req = stream_req first ready_pct (length paths) in
    now_us env >>= λ _. or_fail_one (send_full fuel env (ojls_hdr_pack req)) (
      or_fail_one (send_full fuel env (take req.payload_len pixels))
        (recv_full fuel env proto_hdr_len >>= on_stream_raw fuel env dir paths))

-- A connection that is used and closed at `out`.
unfoldable pub with_connection : M ℤ → Option ℕ → M ℤ
with_connection talk none = pure (pos 1)
with_connection talk (some fd) = do rc ← talk; sys_close fd; pure rc

unfoldable pub on_loaded : ℕ → Env → List ℕ → ℤ → List ℕ → ℕ → List (List ℕ) → Option Loaded → M ℤ
unfolding with_connection
on_loaded fuel env host port dir ready_pct paths none = pure (pos 1)
on_loaded fuel env host port dir ready_pct paths (some loaded) =
    connect_host env host port
    >>= with_connection (stream_exchange fuel env dir ready_pct paths loaded)

-- `paths` is not empty.
unfoldable pub run_stream : ℕ → Env → List ℕ → ℤ → List ℕ → ℕ → List (List ℕ) → M ℤ
run_stream fuel env host port dir ready_pct paths =
    load_images env (length paths) paths none >>= on_loaded fuel env host port dir ready_pct paths
