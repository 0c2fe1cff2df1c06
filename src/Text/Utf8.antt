-- ===== src/Text/Utf8.antt =====
-- `str::from_utf8`: which byte sequences are UTF-8 (table 3-7 of the Unicode standard).
use rust_memcache.Prelude.{
  ℕ, Bytes, Bool, true, false, [], ◌∷◌, ◌++◌, ◌≡◌, ◌<◌, refl, All, leb, ◌==◌, ◌&&◌, if◌then◌else◌,
  arith, le→leb,
}
use rust_memcache.Error.{parse_error, string, str}
use rust_memcache.Outcome.{Outcome, ok, err}

-- Between the bytes of a character: how many continuation bytes are missing, and which range the next has.
pub data Utf8State : Type 0 where
  start one two three after_e0 after_ed after_f0 after_f4 bad : Utf8State

abbrev pub in_range : ℕ → ℕ → ℕ → Bool
in_range lo hi b = leb lo b && leb b hi

lead : ℕ → Utf8State
lead b =
    if leb b 0x7f
    then start
    else if in_range 0xc2 0xdf b
    then one
    else if b == 0xe0
    then after_e0
    else if b == 0xed
    then after_ed
    else if in_range 0xe1 0xef b
    then two
    else if b == 0xf0
    then after_f0
    else if in_range 0xf1 0xf3 b
    then three
    else if b == 0xf4
    then after_f4
    else bad

utf8_step : Utf8State → ℕ → Utf8State
unfolding lead
utf8_step start b = lead b
utf8_step one b = if in_range 0x80 0xbf b then start else bad
utf8_step two b = if in_range 0x80 0xbf b then one else bad
utf8_step three b = if in_range 0x80 0xbf b then two else bad
utf8_step after_e0 b = if in_range 0xa0 0xbf b then one else bad
utf8_step after_ed b = if in_range 0x80 0x9f b then one else bad
utf8_step after_f0 b = if in_range 0x90 0xbf b then two else bad
utf8_step after_f4 b = if in_range 0x80 0x8f b then two else bad
utf8_step bad b = bad

utf8_run : Utf8State → Bytes → Utf8State
unfolding utf8_step
utf8_run q [] = q
utf8_run q (b ∷ bs) = utf8_run (utf8_step q b) bs

is_start : Utf8State → Bool
is_start start = true
is_start _ = false

unfoldable pub is_utf8 : Bytes → Bool
unfolding utf8_run is_start
is_utf8 bs = is_start (utf8_run start bs)

-- `std::str::from_utf8(bytes)?`
unfoldable pub str_from_utf8 : Bytes → Outcome Bytes
str_from_utf8 bs = if is_utf8 bs then ok bs else err (parse_error (str bs))

-- `String::from_utf8(bytes)?`
unfoldable pub string_from_utf8 : Bytes → Outcome Bytes
string_from_utf8 bs = if is_utf8 bs then ok bs else err (parse_error (string bs))

utf8_run-append :
    (q : Utf8State) (xs ys : Bytes) → utf8_run q (xs ++ ys) ≡ utf8_run (utf8_run q xs) ys
unfolding utf8_run
utf8_run-append q [] ys = refl
utf8_run-append q (x ∷ xs) ys = utf8_run-append (utf8_step q x) xs ys

is_start→eq : (q : Utf8State) → is_start q ≡ true → q ≡ start
unfolding is_start
is_start→eq start h = refl
is_start→eq q h = cc

-- Texts one after the other are a text.
pub is_utf8-append :
    (xs ys : Bytes) → is_utf8 xs ≡ true → is_utf8 ys ≡ true → is_utf8 (xs ++ ys) ≡ true
unfolding is_utf8
is_utf8-append xs ys h k = rw (utf8_run-append start xs ys, is_start→eq (utf8_run start xs) h) k

ascii_lead : (b : ℕ) → b < 128 → lead b ≡ start
unfolding lead
ascii_lead b h = rw (le→leb b 127 (omega arith))

-- ASCII is UTF-8.
pub ascii-is_utf8 : (bs : Bytes) → All (λ b. b < 128) bs → is_utf8 bs ≡ true
unfolding is_utf8
ascii-is_utf8 [] h = refl
ascii-is_utf8 (b ∷ bs) h = rw (ascii_lead b h.0) (ascii-is_utf8 bs h.1)
