-- ===== src/Calls.antt =====
-- The calls that are about one key, as values, so that properties can speak of all of them and of sequences
-- of them. Each runs the method of its name.
pub mod Settling
pub mod Udp
pub mod Session
pub mod Servers
pub mod Total
pub mod Lines
use rust_memcache.Prelude.{ℕ, Bytes, Bool, List, [], ◌∷◌, Option}
use rust_memcache.Outcome.{Outcome, map_ok}
use rust_memcache.Exec.{Exec}
use rust_memcache.Value.{ToMemcacheValue, FromMemcacheValueExt}
use rust_memcache.Protocol
use rust_memcache.Protocol.{Protocol}
use rust_memcache.Client
use rust_memcache.Client.{Client}
use rust_memcache.Pool.{R2d2}

pub data Call (V : Type 0) : Type 0 where
  get : Bytes → Call V
  set add replace : Bytes → V → ℕ → Call V
  cas : Bytes → V → ℕ → ℕ → Call V
  append prepend : Bytes → V → Call V
  delete : Bytes → Call V
  increment decrement touch : Bytes → ℕ → Call V

pub data Reply (W : Type 0) : Type 0 where
  done : Unit {0} → Reply W
  flag : Bool → Reply W
  count : ℕ → Reply W
  value : Option W → Reply W

abbrev pub key_of : {V : Type 0} → Call V → Bytes
key_of (Call.get key) = key
key_of (Call.set key v e) = key
key_of (Call.add key v e) = key
key_of (Call.replace key v e) = key
key_of (Call.cas key v e id) = key
key_of (Call.append key v) = key
key_of (Call.prepend key v) = key
key_of (Call.delete key) = key
key_of (Call.increment key n) = key
key_of (Call.decrement key n) = key
key_of (Call.touch key e) = key

-- A method's result as a reply.
abbrev pub replies : {S A W : Type 0} → (A → Reply W) → Exec S A → Exec S (Reply W)
replies f m s = let (r, s') = m s in (map_ok f r, s')

module _ {V W : Type 0} (to : ToMemcacheValue V) (from : FromMemcacheValueExt W) where
  unfoldable pub call_protocol : Call V → Exec Protocol (Reply W)
  call_protocol (Call.get key) = replies value (Protocol.get from key)
  call_protocol (Call.set key v e) = replies done (Protocol.set to key v e)
  call_protocol (Call.add key v e) = replies done (Protocol.add to key v e)
  call_protocol (Call.replace key v e) = replies done (Protocol.replace to key v e)
  call_protocol (Call.cas key v e id) = replies flag (Protocol.cas to key v e id)
  call_protocol (Call.append key v) = replies done (Protocol.append to key v)
  call_protocol (Call.prepend key v) = replies done (Protocol.prepend to key v)
  call_protocol (Call.delete key) = replies flag (Protocol.delete key)
  call_protocol (Call.increment key n) = replies count (Protocol.increment key n)
  call_protocol (Call.decrement key n) = replies count (Protocol.decrement key n)
  call_protocol (Call.touch key e) = replies flag (Protocol.touch key e)

  module _ {Pool : Type 0} (r2d2 : R2d2 Pool) where
    unfoldable pub call_client : Call V → Exec (Client Pool) (Reply W)
    call_client (Call.get key) = replies value (Client.get r2d2 from key)
    call_client (Call.set key v e) = replies done (Client.set r2d2 to key v e)
    call_client (Call.add key v e) = replies done (Client.add r2d2 to key v e)
    call_client (Call.replace key v e) = replies done (Client.replace r2d2 to key v e)
    call_client (Call.cas key v e id) = replies flag (Client.cas r2d2 to key v e id)
    call_client (Call.append key v) = replies done (Client.append r2d2 to key v)
    call_client (Call.prepend key v) = replies done (Client.prepend r2d2 to key v)
    call_client (Call.delete key) = replies flag (Client.delete r2d2 key)
    call_client (Call.increment key n) = replies count (Client.increment r2d2 key n)
    call_client (Call.decrement key n) = replies count (Client.decrement r2d2 key n)
    call_client (Call.touch key e) = replies flag (Client.touch r2d2 key e)

    -- The calls one after the other, whatever their outcomes are.
    unfoldable pub run_client : List (Call V) → Client Pool → List (Outcome (Reply W)) × Client Pool
    run_client [] c = ([], c)
    run_client (call ∷ calls) c =
        let (r, c') = call_client call c in let (rs, c'') = run_client calls c' in (r ∷ rs, c'')
