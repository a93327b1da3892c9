-- ===== src/Atls/Transport/Frame.antt =====
-- pkg/atls/internal_transport/protocol.go: the frames on a TLS connection. What a writer sends and
-- what a reader still receives are byte strings; `io.ReadFull` fails where too few bytes are left.
pub mod RoundTrip
use session_bound_agent_iden.Common.{
  [], ℕ, ◌+◌, ◌*◌, ◌/◌, ◌%◌, ◌==◌, ◌∷◌, ◌++◌, Bool, true, false, if◌then◌else◌, ltb, length, take,
  drop, Result, ok, err,
}
use session_bound_agent_iden.GoString.{Bytes}

pub data FrameErr : Type 0 where
  payload_too_large invalid_frame_type unexpected_end : FrameErr

pub record Frame : Type 0 where
  pub type : ℕ
  pub payload : Bytes

abbrev pub frame_type_request : ℕ
frame_type_request = 1

abbrev pub frame_type_authenticator : ℕ
frame_type_authenticator = 2

-- 16 MiB
abbrev pub max_frame_payload_len : ℕ
max_frame_payload_len = 16777216

abbrev pub put_uint32 : ℕ → Bytes
put_uint32 v = v / 16777216 % 256 ∷ v / 65536 % 256 ∷ v / 256 % 256 ∷ v % 256 ∷ []

abbrev pub read_uint32 : ℕ → ℕ → ℕ → ℕ → ℕ
read_uint32 a b c d = a * 16777216 + b * 65536 + c * 256 + d

-- What `writeFrame` sends.
unfoldable pub write_frame : Frame → Result FrameErr Bytes
write_frame f =
    if ltb max_frame_payload_len (length f.payload)
    then err payload_too_large
    else ok (f.type ∷ (put_uint32 (length f.payload) ++ f.payload))

-- The frame that `readFrame` takes, and what is left to receive.
unfoldable pub read_frame : Bytes → Result FrameErr (Frame × Bytes)
read_frame (t ∷ a ∷ b ∷ c ∷ d ∷ rest) =
    let n = read_uint32 a b c d in
    if t == 0
    then err invalid_frame_type
    else if ltb max_frame_payload_len n
    then err payload_too_large
    else if ltb (length rest) n
    then err unexpected_end
    else ok (record { type = t; payload = take n rest }, drop n rest)
read_frame b = err unexpected_end
