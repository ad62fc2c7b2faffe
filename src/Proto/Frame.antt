-- ===== src/Proto/Frame.antt =====
-- crates/lockframe-proto/src/frame.rs: a header and its payload bytes. Lengths are below 2^32, so
-- `Frame::new` does not panic; the bound is a hypothesis of the theorems where it matters.
pub mod Wire
use lockframe.Common.{
  ℕ, ◌+◌, ◌-◌, List, ◌++◌, ltb, if◌then◌else◌, Result, ok, err, ◌>>=◌, length, take, drop,
  to_be_bytes,
}
use lockframe.Proto.Errors.{ProtocolError, payload_too_large, frame_truncated}
use lockframe.Proto.Header.{FrameHeader, size, max_payload_size, from_bytes, to_bytes}
use lockframe.Proto.Header

pub record Frame : Type 0 where
  pub header : FrameHeader
  pub payload : List ℕ

unfoldable pub new : FrameHeader → List ℕ → Frame
new header payload = record {
  header = record header { payload_size = to_be_bytes 4 (length payload) };
  payload = payload;
}

-- The bytes that are put into the buffer.
unfoldable pub encode : Frame → Result ProtocolError (List ℕ)
encode f =
    if ltb max_payload_size (length f.payload)
    then err (payload_too_large (length f.payload) max_payload_size)
    else ok (to_bytes f.header ++ f.payload)

-- `bytes.get(128..128 + payload_size)`, after the check that the bytes are there. The sum of the
-- two sizes is far below the limit of `usize`.
unfoldable pub read_payload : List ℕ → FrameHeader → Result ProtocolError Frame
read_payload bytes header =
    let payload_size = Header.payload_size header in
    if ltb (length bytes) (size + payload_size)
    then err (frame_truncated payload_size (length bytes - size))
    else ok (record { header = header; payload = take payload_size (drop size bytes) })

unfoldable pub decode : List ℕ → Result ProtocolError Frame
decode bytes = from_bytes bytes >>= read_payload bytes
