-- ===== src/Calls/Total.antt =====
-- Whatever the network does, each call of a sequence ends.
use rust_memcache.Prelude.{Bytes, List, [], ◌∷◌, All}
use rust_memcache.Exec.{Exec}
use rust_memcache.Exec.Total.{IsDone, IsDone-map_ok, Total}
use rust_memcache.Value.{ToMemcacheValue, FromMemcacheValueExt}
use rust_memcache.Value.Total.{Encodes, Decodes}
use rust_memcache.Protocol.{Protocol}
use rust_memcache.Protocol.Total as ProtocolTotal
use rust_memcache.Protocol.Total.{IsSound}
use rust_memcache.Pool.{R2d2}
use rust_memcache.Pool.Total.{HoldsFit}
use rust_memcache.Client
use rust_memcache.Client.{Client}
use rust_memcache.Client.Total.{AllHold, Total-with_key}
use rust_memcache.Calls.{Call, Reply, replies, call_protocol, call_client, run_client}

Total-replies :
    {S A W : Type 0} {Inv : S → Type 0} {m : Exec S A} (f : A → Reply W)
    → Total Inv m
    → Total Inv (replies f m)
Total-replies f t = record {
  at = λ s h. let x = t.at s h in record { done = IsDone-map_ok f _ x.done; keeps = x.keeps };
}

module _ {V W : Type 0} (to : ToMemcacheValue V) (from : FromMemcacheValueExt W) (e : Encodes to)
    (d : Decodes from) where
  pub Total-call_protocol : (call : Call V) → Total IsSound (call_protocol to from call)
  unfolding call_protocol
  Total-call_protocol (Call.get key) =
      Total-replies Reply.value (ProtocolTotal.Total-get from d key)
  Total-call_protocol (Call.set key v t) =
      Total-replies Reply.done (ProtocolTotal.Total-set to e key v t)
  Total-call_protocol (Call.add key v t) =
      Total-replies Reply.done (ProtocolTotal.Total-add to e key v t)
  Total-call_protocol (Call.replace key v t) =
      Total-replies Reply.done (ProtocolTotal.Total-replace to e key v t)
  Total-call_protocol (Call.cas key v t id) =
      Total-replies Reply.flag (ProtocolTotal.Total-cas to e key v t id)
  Total-call_protocol (Call.append key v) =
      Total-replies Reply.done (ProtocolTotal.Total-append to e key v)
  Total-call_protocol (Call.prepend key v) =
      Total-replies Reply.done (ProtocolTotal.Total-prepend to e key v)
  Total-call_protocol (Call.delete key) = Total-replies Reply.flag (ProtocolTotal.Total-delete key)
  Total-call_protocol (Call.increment key n) =
      Total-replies Reply.count (ProtocolTotal.Total-increment key n)
  Total-call_protocol (Call.decrement key n) =
      Total-replies Reply.count (ProtocolTotal.Total-decrement key n)
  Total-call_protocol (Call.touch key t) =
      Total-replies Reply.flag (ProtocolTotal.Total-touch key t)

  module _ {Pool : Type 0} (r2d2 : R2d2 Pool) (Holds : Pool → Type 0)
      (h : HoldsFit r2d2 Holds) where
    keyed :
        {A : Type 0} {m : Exec Protocol A} (f : A → Reply W)
        → Total IsSound m
        → (key : Bytes) → Total (AllHold Holds) (replies f (Client.with_key r2d2 key m))
    keyed f t key = Total-replies f (Total-with_key r2d2 Holds h t key)

    Total-call_client : (call : Call V) → Total (AllHold Holds) (call_client to from r2d2 call)
    unfolding call_client Client.get Client.set Client.add Client.replace Client.cas Client.append
        Client.prepend Client.delete Client.increment Client.decrement Client.touch
    Total-call_client (Call.get key) = keyed Reply.value (ProtocolTotal.Total-get from d key) key
    Total-call_client (Call.set key v t) =
        keyed Reply.done (ProtocolTotal.Total-set to e key v t) key
    Total-call_client (Call.add key v t) =
        keyed Reply.done (ProtocolTotal.Total-add to e key v t) key
    Total-call_client (Call.replace key v t) =
        keyed Reply.done (ProtocolTotal.Total-replace to e key v t) key
    Total-call_client (Call.cas key v t id) =
        keyed Reply.flag (ProtocolTotal.Total-cas to e key v t id) key
    Total-call_client (Call.append key v) =
        keyed Reply.done (ProtocolTotal.Total-append to e key v) key
    Total-call_client (Call.prepend key v) =
        keyed Reply.done (ProtocolTotal.Total-prepend to e key v) key
    Total-call_client (Call.delete key) = keyed Reply.flag (ProtocolTotal.Total-delete key) key
    Total-call_client (Call.increment key n) =
        keyed Reply.count (ProtocolTotal.Total-increment key n) key
    Total-call_client (Call.decrement key n) =
        keyed Reply.count (ProtocolTotal.Total-decrement key n) key
    Total-call_client (Call.touch key t) = keyed Reply.flag (ProtocolTotal.Total-touch key t) key

    -- Whatever the network does - reads and writes that fail, are interrupted, are cut short or give
    -- any bytes - each call of any sequence of calls of the client (get, set, add, replace, cas,
    -- append, prepend, delete, increment, decrement, touch), with both protocols and over any stream,
    -- ends with a result, an error or a panic: no loop runs out of the fuel that the model gives it. In
    -- the end the pools hold connections fit for use again: the buffer of each ASCII reader has its
    -- size and is not filled beyond it. The pools give connections that are fit for use, and the
    -- conversions of the values end.
    pub run_client_ends :
        (calls : List (Call V)) (c : Client Pool)
        → AllHold Holds c
        → All IsDone (run_client to from r2d2 calls c).0
          × AllHold Holds (run_client to from r2d2 calls c).1
    unfolding run_client
    run_client_ends [] c v = (tt, v)
    run_client_ends (call ∷ calls) c v =
        let x = (Total-call_client call).at c v in
        let (y, z) = run_client_ends calls (call_client to from r2d2 call c).1 x.keeps in
        ((x.done, y), z)
