-- ===== src/Text/Words.antt =====
-- Trimming and splitting of the lines that the protocol is made of.
use mathlib.Core.List.{reverse, reverse-append, reverse-cons, reverse-reverse}
use rust_memcache.Prelude.{
  ℕ, ◌≡◌, ◌≢◌, refl, sym, ap, ◌∙◌, Bytes, bytes, [], ◌∷◌, ◌++◌, append_assoc, All, ne→==,
  starts_with,
}
use rust_memcache.Text.{trim_start_matches, trim_end_matches, split_spaces}

-- A word without spaces is split off at the space behind it.
pub split_word :
    (w rest : Bytes) → All (λ c. c ≢ 32) w → split_spaces (w ++ (32 ∷ rest)) ≡ w ∷ split_spaces rest
unfolding split_spaces
split_word [] rest h = refl
split_word (c ∷ w) rest h = rw (ne→== c 32 h.0, split_word w rest h.1)

pub split_last : (w : Bytes) → All (λ c. c ≢ 32) w → split_spaces w ≡ w ∷ []
unfolding split_spaces
split_last [] h = refl
split_last (c ∷ w) h = rw (ne→== c 32 h.0, split_last w h.1)

-- The last character of a text that is not empty.
record Snoc (P : ℕ → Type 0) (xs : Bytes) : Type 0 where
  front : Bytes
  last : ℕ
  split : xs ≡ front ++ (last ∷ [])
  holds : P last

Snoc-view : (P : ℕ → Type 0) (x : ℕ) (xs : Bytes) → All P (x ∷ xs) → Snoc P (x ∷ xs)
Snoc-view P x [] h = record { front = []; last = x; split = refl; holds = h.0 }
Snoc-view P x (y ∷ ys) h =
    let s = Snoc-view P y ys h.1 in
    record { front = x ∷ s.front; last = s.last; split = ap (λ l. x ∷ l) s.split; holds = s.holds }

trim_reversed :
    (c : ℕ) (s : Bytes) → c ≢ 10 → trim_start_matches (10 ∷ 13 ∷ []) (10 ∷ 13 ∷ c ∷ s) ≡ c ∷ s
unfolding trim_start_matches starts_with
trim_reversed c s h = rw (ne→== c 10 h)

reverse_line :
    (p : Bytes) (c : ℕ) → reverse ((p ++ (c ∷ [])) ++ bytes "\r\n") ≡ 10 ∷ 13 ∷ c ∷ reverse p
reverse_line p c = rw (reverse-append, reverse-append)

trim_snoc :
    (p : Bytes) (c : ℕ)
    → c ≢ 10
    → trim_end_matches (bytes "\r\n") ((p ++ (c ∷ [])) ++ bytes "\r\n") ≡ p ++ (c ∷ [])
unfolding trim_end_matches
trim_snoc p c h =
    rw (reverse_line p c, trim_reversed c (reverse p) h, reverse-cons, reverse-reverse)

-- The CR LF at the end of a line is trimmed, and nothing else where no LF stands before it.
pub trim_line :
    (xs : Bytes) (y : ℕ) (ys : Bytes)
    → All (λ c. c ≢ 10) (y ∷ ys)
    → trim_end_matches (bytes "\r\n") ((xs ++ (y ∷ ys)) ++ bytes "\r\n") ≡ xs ++ (y ∷ ys)
trim_line xs y ys h =
    let s = Snoc-view (λ c. c ≢ 10) y ys h in
    let e : xs ++ (y ∷ ys) ≡ (xs ++ s.front) ++ (s.last ∷ []) =
      ap (λ l. xs ++ l) s.split ∙ sym (append_assoc xs s.front _) in
    rw e (trim_snoc (xs ++ s.front) s.last s.holds)
