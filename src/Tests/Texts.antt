-- ===== src/Tests/Texts.antt =====
-- Examples for texts, numbers and values.
use rust_memcache.Prelude.{[], ◌∷◌, arith}
use rust_memcache.Text.Decimal.{to_decimal}
use rust_memcache.Text.Decimal.Signed.{negsuc, int_to_string}
use rust_memcache.Value.{int_value, from_int, uint_value, from_uint}
use rust_memcache.Value.RoundTrip.{Reads, int-Reads, uint-Reads}
use rust_memcache.Tests.Channels.{tcp_with, tcp-Ready}

uint-Reads_example :
    Reads uint_value (from_uint 8) 255 (tcp_with (1 ∷ [])) [] (1 ∷ []) (to_decimal 255)
uint-Reads_example =
    uint-Reads 8 255 (tcp_with (1 ∷ [])) [] (1 ∷ []) (omega arith) (tcp-Ready (1 ∷ []))

-- -128, the least number of eight bits.
int-Reads_example :
    Reads int_value
      (from_int 7)
      (negsuc 127)
      (tcp_with (1 ∷ []))
      []
      (1 ∷ [])
      (int_to_string (negsuc 127))
int-Reads_example =
    int-Reads 7 (negsuc 127) (tcp_with (1 ∷ [])) [] (1 ∷ []) (omega arith) (tcp-Ready (1 ∷ []))
