-- ===== src/HashMap.antt =====
-- `std::collections::HashMap` as an association list with one entry for each key. No property rests on
-- the order of the entries.
use rust_memcache.Prelude.{
  ℕ, Bytes, ◌≡◌, refl, ◌↔◌, Bool, List, [], ◌∷◌, Option, none, some, if◌then◌else◌, arith, ==_iff,
  bytes_eq, bytes_eq→eq, eq→bytes_eq, true,
}
use rust_memcache.Prelude.{◌==◌ as nat_eq}

pub record Eq (K : Type 0) : Type 0 where
  pub beq : K → K → Bool
  pub beq_iff : (a b : K) → (beq a b ≡ true) ↔ (a ≡ b)

pub bytes_eq_iff : (a b : Bytes) → (bytes_eq a b ≡ true) ↔ (a ≡ b)
bytes_eq_iff a b = (bytes_eq→eq a b, eq→bytes_eq a b)

instance abbrev pub key_ℕ : Eq ℕ
key_ℕ = record { beq = nat_eq; beq_iff = ==_iff }

instance abbrev pub key_bytes : Eq Bytes
key_bytes = record { beq = bytes_eq; beq_iff = bytes_eq_iff }

abbrev pub HashMap : Type 0 → Type 0 → Type 0
HashMap K V = List (K × V)

module _ {K V : Type 0} ⦃e : Eq K⦄ where
  unfoldable pub get : K → HashMap K V → Option V
  get k [] = none
  get k ((j, v) ∷ m) = if e.beq j k then some v else get k m

  unfoldable pub insert : K → V → HashMap K V → HashMap K V
  insert k v [] = (k, v) ∷ []
  insert k v ((j, w) ∷ m) =
      let rest = insert k v m in if e.beq j k then (k, v) ∷ m else (j, w) ∷ rest

  -- `m.extend(other)`
  unfoldable pub extend : HashMap K V → HashMap K V → HashMap K V
  unfolding insert
  extend m [] = m
  extend m ((k, v) ∷ other) = extend (insert k v m) other

  pub get-insert :
      (k j : K) (v : V) (m : HashMap K V)
      → get j (insert k v m) ≡ (if e.beq k j then some v else get j m)
  unfolding get insert
  get-insert k j v [] = refl
  get-insert k j v ((i, w) ∷ m) =
      ground (arith, e.beq_iff k j, e.beq_iff i k, e.beq_iff i j, get-insert k j v m)
