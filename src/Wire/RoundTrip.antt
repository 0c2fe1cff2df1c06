-- ===== src/Wire/RoundTrip.antt =====
-- Reading back what was written.
use rust_memcache.Prelude.{
  ℕ, zero, suc, ◌+◌, ◌*◌, ◌/◌, ◌%◌, ◌^◌, ◌<◌, ◌≡◌, refl, ◌∙◌, Bytes, [], ◌∷◌, ◌++◌, length,
  length-append, arith,
}
use native.Mathlib.Nat.{pow-suc}
use rust_memcache.Wire.{to_be, from_be_acc, from_be}

pub length-to_be : (w n : ℕ) → length (to_be w n) ≡ w
unfolding to_be
length-to_be zero n = refl
length-to_be (suc w) n =
    omega (arith, length-append (to_be w (n / 256)) (n % 256 ∷ []), length-to_be w (n / 256))

from_be_acc-append :
    (acc b : ℕ) (bs : Bytes) → from_be_acc acc (bs ++ (b ∷ [])) ≡ from_be_acc acc bs * 256 + b
unfolding from_be_acc
from_be_acc-append acc b [] = refl
from_be_acc-append acc b (x ∷ bs) = from_be_acc-append (acc * 256 + x) b bs

lt_of_pow : (w n : ℕ) → n < 256 ^ suc w → n / 256 < 256 ^ w
lt_of_pow w n h = omega (arith, pow-suc 256 w)

pub from_be-to_be : (w n : ℕ) → n < 256 ^ w → from_be (to_be w n) ≡ n
unfolding from_be to_be
from_be-to_be zero n h = omega arith
from_be-to_be (suc w) n h =
    from_be_acc-append 0 (n % 256) (to_be w (n / 256))
    ∙ omega (arith, from_be-to_be w (n / 256) (lt_of_pow w n h))
