-- ===== src/Wire.antt =====
-- Numbers on the wire, as the byteorder crate writes and reads them: big endian, in `w` bytes.
pub mod RoundTrip
use rust_memcache.Prelude.{ℕ, zero, suc, ◌+◌, ◌*◌, ◌/◌, ◌%◌, ◌^◌, Bytes, [], ◌∷◌, ◌++◌, length}

-- `write_u8`, `write_u16::<BigEndian>`, `write_u32::<BigEndian>` and `write_u64::<BigEndian>`.
unfoldable pub to_be : ℕ → ℕ → Bytes
to_be zero n = []
to_be (suc w) n = to_be w (n / 256) ++ (n % 256 ∷ [])

-- `read_u16::<BigEndian>` and the others, on the bytes that were read.
from_be_acc : ℕ → Bytes → ℕ
from_be_acc acc [] = acc
from_be_acc acc (b ∷ bs) = from_be_acc (acc * 256 + b) bs

unfoldable pub from_be : Bytes → ℕ
unfolding from_be_acc
from_be = from_be_acc 0
