-- ===== src/Atls/Transport/Frame/RoundTrip.antt =====
-- A frame is read as it was written, and in no other way.
use session_bound_agent_iden.Common.{
  [], ◌/◌, ◌%◌, ℕ, ◌<◌, ◌≤◌, ◌≢◌, ◌↔◌, ◌∷◌, ◌++◌, ◌≡◌, ap, ◌∙◌, length, take, ok, arith,
}
use session_bound_agent_iden.GoString.{Bytes}
use session_bound_agent_iden.Atls.Ea.Wire.Numbers.{
  AreBytes-take, AreBytes, take-append, drop-append, length-append, length-take, take-drop,
}
use session_bound_agent_iden.Atls.Transport.Frame.{
  Frame, read_frame, write_frame, put_uint32, read_uint32,
}

put-read_uint32 :
    (a b c d : ℕ)
    → a < 256
    → b < 256
    → c < 256
    → d < 256
    → put_uint32 (read_uint32 a b c d) ≡ a ∷ b ∷ c ∷ d ∷ []
put-read_uint32 a b c d ha hb hc hd = ground arith

read-put_uint32 :
    (v : ℕ)
    → v ≤ 16777216
    → read_uint32 (v / 16777216 % 256) (v / 65536 % 256) (v / 256 % 256) (v % 256) ≡ v
read-put_uint32 v h = omega arith

pub read-write_frame :
    (f : Frame) (b rest : Bytes)
    → f.type ≢ 0
    → write_frame f ≡ ok b
    → read_frame (b ++ rest) ≡ ok (f, rest)
unfolding read_frame write_frame
read-write_frame f b rest typed h = ground (
  arith,
  length-append f.payload rest,
  take-append f.payload rest,
  drop-append f.payload rest,
  read-put_uint32 (length f.payload),
)

write-read_frame :
    (b : Bytes) (f : Frame) (rest : Bytes)
    → AreBytes b
    → read_frame b ≡ ok (f, rest)
    → (c : Bytes) × (write_frame f ≡ ok c) × (b ≡ c ++ rest) × (f.type ≢ 0)
unfolding read_frame write_frame
write-read_frame (t ∷ w ∷ x ∷ y ∷ z ∷ b) f rest h e =
    let n = read_uint32 w x y z in
    (
      t ∷ (w ∷ x ∷ y ∷ z ∷ take n b),
      ground (arith, length-take n b, put-read_uint32 w x y z),
      ground (arith, take-drop n b),
      ground arith,
    )
write-read_frame _ f rest h e = ground arith

-- What is left to receive begins with a frame exactly when it begins with what the frame is
-- written as and the type of the frame is not 0, where it holds bytes.
pub frame_roundtrip :
    (b rest : Bytes) (f : Frame)
    → AreBytes b
    → (read_frame b ≡ ok (f, rest))
      ↔ ((c : Bytes) × (write_frame f ≡ ok c) × (b ≡ c ++ rest) × (f.type ≢ 0))
frame_roundtrip b rest f h = (
  write-read_frame b f rest h,
  λ (c, written, same, typed). ap read_frame same ∙ read-write_frame f c rest typed written,
)

pub read_frame-AreBytes :
    (b : Bytes) (f : Frame) (rest : Bytes)
    → AreBytes b
    → read_frame b ≡ ok (f, rest)
    → AreBytes f.payload
unfolding read_frame
read_frame-AreBytes (t ∷ w ∷ x ∷ y ∷ z ∷ b) f rest h e =
    ground (arith, AreBytes-take (read_uint32 w x y z) b)
read_frame-AreBytes _ f rest h e = ground arith
