-- ===== src/Prelude/Lists.antt =====
-- Lists measured by native numbers, under the library's names.
use Prim.Native.Nat.{ℕ, zero, suc, ◌+◌, ◌-◌, ◌≤◌, ◌<◌, min}
use mathlib.Core.Logic.{◌≢◌}
use mathlib.Core.Path.{◌≡◌, refl, ap}
use mathlib.Core.List.{List, [], ◌∷◌, ◌++◌}
use mathlib.Core.Option.{Option, none, some}
use native.Mathlib.Omega.{arith}

module _ {ℓ} {A : Type ℓ} where
  abbrev pub length : List A → ℕ
  length [] = 0
  length (x ∷ xs) = suc (length xs)

  abbrev pub get_elem? : List A → ℕ → Option A
  get_elem? [] i = none
  get_elem? (x ∷ xs) zero = some x
  get_elem? (x ∷ xs) (suc i) = get_elem? xs i

  abbrev pub take : ℕ → List A → List A
  take zero xs = []
  take (suc n) [] = []
  take (suc n) (x ∷ xs) = x ∷ take n xs

  abbrev pub drop : ℕ → List A → List A
  drop zero xs = xs
  drop (suc n) [] = []
  drop (suc n) (x ∷ xs) = drop n xs

  abbrev pub replicate : ℕ → A → List A
  replicate zero a = []
  replicate (suc n) a = a ∷ replicate n a

  pub length-append : (xs ys : List A) → length (xs ++ ys) ≡ length xs + length ys
  length-append [] ys = omega arith
  length-append (x ∷ xs) ys = omega (arith, length-append xs ys)

  pub length-take : (n : ℕ) (xs : List A) → length (take n xs) ≡ min n (length xs)
  length-take zero xs = omega arith
  length-take (suc n) [] = omega arith
  length-take (suc n) (x ∷ xs) = omega (arith, length-take n xs)

  pub length-drop : (n : ℕ) (xs : List A) → length (drop n xs) ≡ length xs - n
  length-drop zero xs = omega arith
  length-drop (suc n) [] = omega arith
  length-drop (suc n) (x ∷ xs) = omega (arith, length-drop n xs)

  pub length-replicate : (n : ℕ) (a : A) → length (replicate n a) ≡ n
  length-replicate zero a = refl
  length-replicate (suc n) a = ap suc (length-replicate n a)

  pub take-append-drop : (n : ℕ) (xs : List A) → take n xs ++ drop n xs ≡ xs
  take-append-drop zero xs = refl
  take-append-drop (suc n) [] = refl
  take-append-drop (suc n) (x ∷ xs) = ap (λ r. x ∷ r) (take-append-drop n xs)

  -- A prefix whose length is known is taken, and dropped, whole.
  pub take_prefix : (n : ℕ) (xs ys : List A) → length xs ≡ n → take n (xs ++ ys) ≡ xs
  take_prefix zero [] ys h = refl
  take_prefix zero (x ∷ xs) ys h = absurd (omega arith)
  take_prefix (suc n) [] ys h = absurd (omega arith)
  take_prefix (suc n) (x ∷ xs) ys h = ap (λ r. x ∷ r) (take_prefix n xs ys (omega arith))

  pub drop_prefix : (n : ℕ) (xs ys : List A) → length xs ≡ n → drop n (xs ++ ys) ≡ ys
  drop_prefix zero [] ys h = refl
  drop_prefix zero (x ∷ xs) ys h = absurd (omega arith)
  drop_prefix (suc n) [] ys h = absurd (omega arith)
  drop_prefix (suc n) (x ∷ xs) ys h = drop_prefix n xs ys (omega arith)

  pub take-append_le : (n : ℕ) (xs ys : List A) → n ≤ length xs → take n (xs ++ ys) ≡ take n xs
  take-append_le zero xs ys h = refl
  take-append_le (suc n) [] ys h = absurd (omega arith)
  take-append_le (suc n) (x ∷ xs) ys h = ap (λ r. x ∷ r) (take-append_le n xs ys (omega arith))

  pub drop-append_le :
      (n : ℕ) (xs ys : List A) → n ≤ length xs → drop n (xs ++ ys) ≡ drop n xs ++ ys
  drop-append_le zero xs ys h = refl
  drop-append_le (suc n) [] ys h = absurd (omega arith)
  drop-append_le (suc n) (x ∷ xs) ys h = drop-append_le n xs ys (omega arith)

  pub take-take : (n m : ℕ) (xs : List A) → n ≤ m → take n (take m xs) ≡ take n xs
  take-take zero m xs h = refl
  take-take (suc n) zero xs h = absurd (omega arith)
  take-take (suc n) (suc m) [] h = refl
  take-take (suc n) (suc m) (x ∷ xs) h = ap (λ r. x ∷ r) (take-take n m xs (omega arith))

  pub take_all : (n : ℕ) (xs : List A) → length xs ≤ n → take n xs ≡ xs
  take_all zero [] h = refl
  take_all zero (x ∷ xs) h = absurd (omega arith)
  take_all (suc n) [] h = refl
  take_all (suc n) (x ∷ xs) h = ap (λ r. x ∷ r) (take_all n xs (omega arith))

  pub drop_all : (n : ℕ) (xs : List A) → length xs ≤ n → drop n xs ≡ []
  drop_all zero [] h = refl
  drop_all zero (x ∷ xs) h = absurd (omega arith)
  drop_all (suc n) [] h = refl
  drop_all (suc n) (x ∷ xs) h = drop_all n xs (omega arith)

  -- Two ways to cut one list: the longer front is the shorter one and a bit more.
  pub append-eq_append :
      (xs ys us vs : List A)
      → xs ++ us ≡ ys ++ vs
      → length xs ≤ length ys
      → (t : List A) × (ys ≡ xs ++ t) × (us ≡ t ++ vs)
  append-eq_append [] ys us vs e h = (ys, refl, e)
  append-eq_append (x ∷ xs) [] us vs e h = absurd (omega arith)
  append-eq_append (x ∷ xs) (y ∷ ys) us vs e h =
      let (t, p, q) = append-eq_append xs ys us vs (cc) (omega arith) in (t, cc (p), q)

  abbrev pub All {κ} : (A → Type κ) → List A → Type κ
  All P [] = Unit {κ}
  All P (x ∷ xs) = P x × All P xs

module _ {A : Type 0} where
  pub All-append : (P : A → Type 0) (xs ys : List A) → All P xs → All P ys → All P (xs ++ ys)
  All-append P [] ys h k = k
  All-append P (x ∷ xs) ys h k = (h.0, All-append P xs ys h.1 k)

  pub All-map : (P Q : A → Type 0) (xs : List A) → ((x : A) → P x → Q x) → All P xs → All Q xs
  All-map P Q [] f h = h
  All-map P Q (x ∷ xs) f h = (f x h.0, All-map P Q xs f h.1)

module _ {ℓ} {A : Type ℓ} where
  -- The list with its element at `i` replaced, if it has one.
  abbrev pub set_at : ℕ → A → List A → List A
  set_at i a [] = []
  set_at zero a (x ∷ xs) = a ∷ xs
  set_at (suc i) a (x ∷ xs) = x ∷ set_at i a xs

  pub length-set_at : (i : ℕ) (a : A) (xs : List A) → length (set_at i a xs) ≡ length xs
  length-set_at i a [] = refl
  length-set_at zero a (x ∷ xs) = refl
  length-set_at (suc i) a (x ∷ xs) = ap suc (length-set_at i a xs)

  pub get_elem?-set_at_ne :
      (i j : ℕ) (a : A) (xs : List A) → i ≢ j → get_elem? (set_at i a xs) j ≡ get_elem? xs j
  get_elem?-set_at_ne i j a [] h = refl
  get_elem?-set_at_ne zero zero a (x ∷ xs) h = absurd (h refl)
  get_elem?-set_at_ne zero (suc j) a (x ∷ xs) h = refl
  get_elem?-set_at_ne (suc i) zero a (x ∷ xs) h = refl
  get_elem?-set_at_ne (suc i) (suc j) a (x ∷ xs) h =
      get_elem?-set_at_ne i j a xs (λ e. h (ap suc e))

  pub get_elem?-set_at_self :
      (i : ℕ) (a : A) (xs : List A) → i < length xs → get_elem? (set_at i a xs) i ≡ some a
  get_elem?-set_at_self i a [] h = absurd (omega arith)
  get_elem?-set_at_self zero a (x ∷ xs) h = refl
  get_elem?-set_at_self (suc i) a (x ∷ xs) h = get_elem?-set_at_self i a xs (omega arith)

  pub get_elem?-lt : (i : ℕ) (xs : List A) (a : A) → get_elem? xs i ≡ some a → i < length xs
  get_elem?-lt i [] a e = cc
  get_elem?-lt zero (x ∷ xs) a e = omega arith
  get_elem?-lt (suc i) (x ∷ xs) a e = let h = get_elem?-lt i xs a e in omega arith

  pub get_elem?-some : (i : ℕ) (xs : List A) → i < length xs → (a : A) × (get_elem? xs i ≡ some a)
  get_elem?-some i [] h = absurd (omega arith)
  get_elem?-some zero (x ∷ xs) h = (x, refl)
  get_elem?-some (suc i) (x ∷ xs) h = get_elem?-some i xs (omega arith)
