-- ===== src/Text.antt =====
-- The string operations of the standard library that the code uses, on bytes.
pub mod Utf8
pub mod Words
pub mod Decimal
pub mod Total
use mathlib.Core.List.{reverse}
use rust_memcache.Prelude.{
  ℕ, zero, suc, Bytes, List, [], ◌∷◌, starts_with, drop, length, ◌==◌, if◌then◌else◌,
}

-- `s.trim_start_matches(pat)` takes `pat` off the front as often as it stands there. Each round takes a
-- byte at least, so `length s` rounds are enough for a `pat` that is not empty.
trim_start_loop : ℕ → Bytes → Bytes → Bytes
trim_start_loop zero pat s = s
trim_start_loop (suc fuel) pat s =
    let rest = trim_start_loop fuel pat (drop (length pat) s) in
    if starts_with s pat then rest else s

unfoldable pub trim_start_matches : Bytes → Bytes → Bytes
unfolding trim_start_loop
trim_start_matches pat s = trim_start_loop (length s) pat s

-- `s.trim_end_matches(pat)`
unfoldable pub trim_end_matches : Bytes → Bytes → Bytes
trim_end_matches pat s = reverse (trim_start_matches (reverse pat) (reverse s))

cons_first : ℕ → List Bytes → List Bytes
cons_first c [] = (c ∷ []) ∷ []
cons_first c (w ∷ ws) = (c ∷ w) ∷ ws

-- `s.split(" ")`: the parts between single spaces, empty ones too.
unfoldable pub split_spaces : Bytes → List Bytes
unfolding cons_first
split_spaces [] = [] ∷ []
split_spaces (c ∷ s) =
    let parts = split_spaces s in if c == 32 then [] ∷ parts else cons_first c parts
