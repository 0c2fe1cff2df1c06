-- ===== src/Tests/Wire.antt =====
-- The numbers of the binary protocol and the header of a datagram, at inputs.
use rust_memcache.Prelude.{◌≡◌, refl, [], ◌∷◌}
use mathlib.Core.List.{map}
use rust_memcache.Error.{
  command_error_from, key_not_found, key_exists, value_too_large, invalid_arguments,
  authentication_required, unknown,
}
use rust_memcache.Wire.{to_be}
use rust_memcache.Packet.{Opcode, opcode_u8, magic_u8, Magic}
use rust_memcache.Stream.Udp.{udp_header}

-- The quiet and the plain commands that the client sends.
opcodes :
    map opcode_u8 (
      Opcode.get ∷ Opcode.set ∷ Opcode.add ∷ Opcode.replace ∷ Opcode.delete ∷ Opcode.increment
      ∷ Opcode.decrement ∷ Opcode.flush ∷ Opcode.noop ∷ Opcode.version ∷ Opcode.get_kq
      ∷ Opcode.append ∷ Opcode.prepend ∷ Opcode.stat ∷ Opcode.touch ∷ Opcode.start_auth ∷ [])
    ≡ 0 ∷ 1 ∷ 2 ∷ 3 ∷ 4 ∷ 5 ∷ 6 ∷ 8 ∷ 10 ∷ 11 ∷ 13 ∷ 14 ∷ 15 ∷ 16 ∷ 28 ∷ 33 ∷ []
unfolding opcode_u8
opcodes = refl

magics : map magic_u8 (Magic.request ∷ Magic.response ∷ []) ≡ 128 ∷ 129 ∷ []
unfolding magic_u8
magics = refl

-- The statuses of a response.
statuses :
    map command_error_from (1 ∷ 2 ∷ 3 ∷ 4 ∷ 32 ∷ 129 ∷ [])
    ≡ key_not_found
      ∷ key_exists
      ∷ value_too_large
      ∷ invalid_arguments
      ∷ authentication_required
      ∷ unknown 129
      ∷ []
unfolding command_error_from
statuses = refl

-- The request id, the sequence number 0, the total 1, and two bytes of zero.
datagram_header : udp_header 258 ≡ 1 ∷ 2 ∷ 0 ∷ 0 ∷ 0 ∷ 1 ∷ 0 ∷ 0 ∷ []
unfolding udp_header to_be
datagram_header = refl
