-- ===== src/Url.antt =====
-- The `Url` of the url crate, by what the methods that the code calls give. Parsing a text into a `Url` is
-- a parameter where it is used.
use rust_memcache.Prelude.{
  ℕ, Bytes, bytes_eq, Bool, false, ◌||◌, ◌&&◌, List, [], ◌∷◌, Option, none, some, if◌then◌else◌,
}

pub record Url : Type 0 where
  pub scheme : Bytes
  pub has_authority : Bool
  pub username : Bytes
  pub password : Option Bytes
  -- `host()` and `host_str()`: the host, or its text, if there is one.
  pub host : Option Bytes
  pub port : Option ℕ
  pub path : Bytes
  pub query_pairs : List (Bytes × Bytes)
  pub to_string : Bytes

-- `query_pairs().find(|(k, _)| k == key)`, and then the value.
unfoldable pub find_param : Bytes → List (Bytes × Bytes) → Option Bytes
find_param key [] = none
find_param key ((k, v) ∷ pairs) =
    let rest = find_param key pairs in if bytes_eq k key then some v else rest

-- `query_pairs().any(|(k, v)| k == key && v == value)`
unfoldable pub any_param : Bytes → Bytes → List (Bytes × Bytes) → Bool
any_param key value [] = false
any_param key value ((k, v) ∷ pairs) =
    (bytes_eq k key && bytes_eq v value) || any_param key value pairs
