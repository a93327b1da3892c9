-- ===== src/Atls/Ea/Wire/Handshake.antt =====
-- A handshake message is read back as written, and is written in one way.
use session_bound_agent_iden.Common.{◌≤◌, ◌∷◌, ◌++◌, ◌≡◌, length, take, ok, arith}
use session_bound_agent_iden.GoString.{Bytes}
use session_bound_agent_iden.Atls.Ea.Wire.{
  HandshakeMessage, marshal_handshake_message, unmarshal_handshake_message, read_uint24,
}
use session_bound_agent_iden.Atls.Ea.Wire.Numbers.{
  AreBytes, AreBytes-take, take-append, drop-append, length-append, length-take, take-drop,
  put-read_uint24, read-put_uint24,
}

-- Whatever follows it, a message that could be written is read back, and nothing behind it.
pub unmarshal-marshal_handshake :
    (m : HandshakeMessage) (b rest : Bytes)
    → marshal_handshake_message m ≡ ok b
    → unmarshal_handshake_message (b ++ rest) ≡ ok (m, rest)
unfolding marshal_handshake_message unmarshal_handshake_message
unmarshal-marshal_handshake m b rest h = ground (
  arith,
  length-append m.body rest,
  take-append m.body rest,
  drop-append m.body rest,
  read-put_uint24 (length m.body),
)

-- A message that was read is what its writer writes: no other bytes stand for it. Its body holds
-- bytes.
pub marshal-unmarshal_handshake :
    (b : Bytes) (m : HandshakeMessage) (rest : Bytes)
    → AreBytes b
    → unmarshal_handshake_message b ≡ ok (m, rest)
    → (c : Bytes) × (marshal_handshake_message m ≡ ok c) × (b ≡ c ++ rest) × AreBytes m.body
unfolding marshal_handshake_message unmarshal_handshake_message
marshal-unmarshal_handshake (t ∷ x ∷ y ∷ z ∷ b) m rest h e =
    let n = read_uint24 x y z in
    (
      t ∷ (x ∷ y ∷ z ∷ take n b),
      ground (arith, length-take n b, put-read_uint24 x y z),
      ground (arith, take-drop n b),
      ground (arith, AreBytes-take n b),
    )
marshal-unmarshal_handshake _ m rest h e = ground arith

pub marshal_handshake_fits :
    (m : HandshakeMessage) (b : Bytes)
    → marshal_handshake_message m ≡ ok b
    → length m.body ≤ 0xffffff
unfolding marshal_handshake_message
marshal_handshake_fits m b h = ground arith
