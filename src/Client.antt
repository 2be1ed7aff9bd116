-- ===== src/Client.antt =====
-- Software/host/ojls_client.c: the host client. Images and the requests made of them.
pub mod Io
pub mod Connect
pub mod Encode
pub mod Files
pub mod Stream
pub mod Main
pub mod Loopback
pub mod Descriptors
pub mod Pgm
pub mod Reply
pub mod Request
use open_jls_demos.Prelude.{ℕ, List}
use open_jls_demos.Proto.{OjlsHdr, proto_magic, proto_version, msg_encode_req, msg_stream_req}

-- `pixels` are the bytes in wire order.
pub record Image : Type 0 where
  pub width : ℕ
  pub height : ℕ
  pub bitness : ℕ
  pub bytes : ℕ
  pub pixels : List ℕ

-- The request of `main` for one image.
abbrev pub encode_req : Image → OjlsHdr
encode_req img = record {
  magic = proto_magic;
  version = proto_version;
  type = msg_encode_req;
  status = 0;
  width = img.width;
  height = img.height;
  bitness = img.bitness;
  ready_pct = 0;
  payload_len = img.bytes;
}
