-- ===== src/Stream/Udp/Reassembly.antt =====
-- The datagrams of a response, arriving in any order, are put together by their sequence numbers.
use rust_memcache.Prelude.{
  ℕ, zero, suc, ◌+◌, ◌-◌, ◌%◌, ◌^◌, ◌<◌, ◌≤◌, ◌≡◌, refl, sym, ap, ◌∙◌, Bytes, Bool, true, false,
  ◌||◌, List, [], ◌∷◌, ◌++◌, append_assoc, append-nil, none, some, length, arith, le→ltb, ◌==◌,
  ==_refl, ==_iff, suc-==_zero, Bool-cases, Option-cases, inl, inr, All, take_all, take, drop,
  if◌then◌else◌,
}
use rust_memcache.Outcome.{ok, panic}
use rust_memcache.Wire.{to_be, from_be}
use rust_memcache.Wire.RoundTrip.{from_be-to_be}
use rust_memcache.HashMap
use rust_memcache.HashMap.{HashMap, key_ℕ, get-insert}
use rust_memcache.Stream.Udp.{
  UdpStream, Datagrams, DatagramEvent, datagram, udp_header, gather, append_datagrams, assembled,
  assemble, receive, send_event, flush,
}

-- Whether a sequence number is among those that arrive.
unfoldable pub elem : ℕ → List ℕ → Bool
elem i [] = false
elem i (j ∷ order) = (j == i) || elem i order

-- A datagram of the request `id`, with its fields.
record IsPacket (d : Bytes) (id seq total : ℕ) (body : Bytes) : Type 0 where
  whole : take 1400 d ≡ d
  long : 8 ≤ length d
  id_sent : from_be (take 2 d) ≡ id
  seq_sent : from_be (take 2 (drop 2 d)) ≡ seq
  total_sent : from_be (take 2 (drop 4 d)) ≡ total
  body_sent : drop 8 d ≡ body

module _ (d : Bytes) (id seq total : ℕ) (body : Bytes) (p : IsPacket d id seq total body)
    (remaining : ℕ) (got : Datagrams) (ds : List DatagramEvent) where
  gather_last :
      (if remaining == 0 then total else remaining) ≡ 1
      → gather id remaining got (datagram d ∷ ds) ≡ (ok (total, HashMap.insert seq body got), ds)
  unfolding gather
  gather_last e =
      rw
        (
          p.whole,
          le→ltb (length d) 8 p.long,
          p.id_sent,
          p.seq_sent,
          p.total_sent,
          p.body_sent,
          ==_refl id,
          e,
        )
        refl

  gather_more :
      (m : ℕ)
      → (if remaining == 0 then total else remaining) ≡ suc (suc m)
      → gather id remaining got (datagram d ∷ ds)
        ≡ gather id (suc m) (HashMap.insert seq body got) ds
  unfolding gather
  gather_more m e =
      let left : suc (suc m) - 1 ≡ suc m = omega arith in
      rw
        (
          p.whole,
          le→ltb (length d) 8 p.long,
          p.id_sent,
          p.seq_sent,
          p.total_sent,
          p.body_sent,
          ==_refl id,
          e,
          suc-==_zero (suc m),
          left,
          suc-==_zero m,
        )
        refl

append_datagrams-some :
    (k i : ℕ) (got : Datagrams) (buf v : Bytes)
    → HashMap.get i got ≡ some v
    → append_datagrams (suc k) i got buf ≡ append_datagrams k (i + 1) got (buf ++ v)
unfolding append_datagrams
append_datagrams-some k i got buf v h =
    ap (λ o. elim o [ none ↦ panic | some v ↦ append_datagrams k (i + 1) got (buf ++ v) ]) h

append_datagrams-none :
    (k i : ℕ) (got : Datagrams) (buf : Bytes)
    → HashMap.get i got ≡ none
    → append_datagrams (suc k) i got buf ≡ panic
unfolding append_datagrams
append_datagrams-none k i got buf h =
    ap (λ o. elim o [ none ↦ panic | some v ↦ append_datagrams k (i + 1) got (buf ++ v) ]) h

beyond : (i m : ℕ) → i ≤ m → (i == m) ≡ false → i + 1 ≤ m
beyond i m l q = grind (arith, ==_iff i m)

module _ (id n : ℕ) (part : ℕ → Bytes) where
  -- The datagram with the sequence number `i` of `n`.
  abbrev pub packet : ℕ → Bytes
  packet i = to_be 2 id ++ (to_be 2 i ++ (to_be 2 n ++ (to_be 2 0 ++ part i)))

  abbrev pub packets : List ℕ → List DatagramEvent → List DatagramEvent
  packets [] later = later
  packets (i ∷ order) later = datagram (packet i) ∷ packets order later

  -- `k` parts from `i` on, one behind the other.
  abbrev pub parts : ℕ → ℕ → Bytes
  parts zero i = []
  parts (suc k) i = part i ++ parts k (i + 1)

  abbrev collected : Datagrams → List ℕ → Datagrams
  collected got [] = got
  collected got (i ∷ order) = collected (HashMap.insert i (part i) got) order

  insert_keeps :
      (i j : ℕ) (got : Datagrams)
      → HashMap.get i got ≡ some (part i)
      → HashMap.get i (HashMap.insert j (part j) got) ≡ some (part i)
  insert_keeps i j got h = elim (Bool-cases (j == i)) [
    | inl e ↦ get-insert j i (part j) got ∙ rw e (ap (λ k. some (part k)) ((==_iff j i).0 e))
    | inr e ↦ get-insert j i (part j) got ∙ rw e h
  ]

  collected_keeps :
      (i : ℕ) (order : List ℕ) (got : Datagrams)
      → HashMap.get i got ≡ some (part i)
      → HashMap.get i (collected got order) ≡ some (part i)
  collected_keeps i [] got h = h
  collected_keeps i (j ∷ order) got h = collected_keeps i order _ (insert_keeps i j got h)

  get-collected :
      (i : ℕ) (order : List ℕ) (got : Datagrams)
      → elem i order ≡ true
      → HashMap.get i (collected got order) ≡ some (part i)
  unfolding elem
  get-collected i [] got h = cc
  get-collected i (j ∷ order) got h = elim (Bool-cases (j == i)) [
    | inl e ↦
        collected_keeps i order _
          (get-insert j i (part j) got ∙ rw e (ap (λ k. some (part k)) ((==_iff j i).0 e)))
    | inr e ↦ get-collected i order _ (rw e at h)
  ]

  append_datagrams_lem :
      (k i : ℕ) (got : Datagrams) (buf : Bytes)
      → ((j : ℕ) → i ≤ j → j < i + k → HashMap.get j got ≡ some (part j))
      → append_datagrams k i got buf ≡ ok (buf ++ parts k i)
  unfolding append_datagrams
  append_datagrams_lem zero i got buf h = ap ok (sym (append-nil buf))
  append_datagrams_lem (suc k) i got buf h =
      append_datagrams-some k i got buf (part i) (h i (omega arith) (omega arith))
      ∙ append_datagrams_lem k (i + 1) got (buf ++ part i)
          (λ j p q. h j (omega arith) (omega arith))
      ∙ ap ok (append_assoc buf (part i) _)

  collected_lacks :
      (i : ℕ) (order : List ℕ) (got : Datagrams)
      → elem i order ≡ false
      → HashMap.get i got ≡ none
      → HashMap.get i (collected got order) ≡ none
  unfolding elem
  collected_lacks i [] got h g = g
  collected_lacks i (j ∷ order) got h g = elim (Bool-cases (j == i)) [
    | inl e ↦ cc
    | inr e ↦ collected_lacks i order _ (rw e at h) (get-insert j i (part j) got ∙ rw e g)
  ]

  -- A key that is missing is reached, or an earlier one that is missing too.
  append_datagrams-panic :
      (k i m : ℕ) (got : Datagrams) (buf : Bytes)
      → i ≤ m
      → m < i + k
      → HashMap.get m got ≡ none
      → append_datagrams k i got buf ≡ panic
  unfolding append_datagrams
  append_datagrams-panic zero i m got buf l h g = absurd (omega arith)
  append_datagrams-panic (suc k) i m got buf l h g = elim (Bool-cases (i == m)) [
    | inl q ↦ append_datagrams-none k i got buf (ap (λ x. HashMap.get x got) ((==_iff i m).0 q) ∙ g)
    | inr q ↦ elim (Option-cases (HashMap.get i got)) [
      | inl e ↦ append_datagrams-none k i got buf e
      | inr (v, e) ↦
          append_datagrams-some k i got buf v e
          ∙ append_datagrams-panic k (i + 1) m got (buf ++ v) (beyond i m l q) (omega arith) g
    ]
  ]

  module _ (id_fits : id < 2 ^ 16) (n_fits : n < 2 ^ 16)
      (short : (i : ℕ) → length (part i) ≤ 1392) where
    packet-IsPacket : (i : ℕ) → i < n → IsPacket (packet i) id i n (part i)
    unfolding to_be
    packet-IsPacket i h = record {
      whole = take_all 1400 (packet i) (omega (arith, short i));
      long = omega arith;
      id_sent = from_be-to_be 2 id id_fits;
      seq_sent = from_be-to_be 2 i (omega arith);
      total_sent = from_be-to_be 2 n n_fits;
      body_sent = refl;
    }

    gather-packets :
        (order : List ℕ) (remaining : ℕ) (got : Datagrams) (later : List DatagramEvent)
        → All (λ i. i < n) order
        → 0 < length order
        → (if remaining == 0 then n else remaining) ≡ length order
        → gather id remaining got (packets order later) ≡ (ok (n, collected got order), later)
    gather-packets [] remaining got later h pos e = absurd (omega arith)
    gather-packets (i ∷ []) remaining got later h pos e =
        gather_last (packet i) id i n (part i) (packet-IsPacket i h.0) remaining got later e
    gather-packets (i ∷ j ∷ order) remaining got later h pos e =
        gather_more (packet i) id i n (part i) (packet-IsPacket i h.0) remaining got _
          (length order) e
        ∙ gather-packets (j ∷ order) (suc (length order)) (HashMap.insert i (part i) got) later h.1
            (omega arith) (rw (suc-==_zero (length order)) refl)

  -- When a response of `n` datagrams arrives in any order, each once, with the request id, its number and
  -- at most 1392 bytes, and the send works, the UDP `flush` succeeds: it sends one datagram, the header
  -- and what was written; what can be read is exactly the parts in their order; the write buffer is empty
  -- and the request id has moved on.
  pub flush_reassembles :
      (order : List ℕ) (s : UdpStream) (later : List DatagramEvent)
      → s.request_id ≡ id
      → id < 2 ^ 16
      → n < 2 ^ 16
      → ((i : ℕ) → length (part i) ≤ 1392)
      → 0 < n
      → length order ≡ n
      → All (λ i. i < n) order
      → ((i : ℕ) → i < n → elem i order ≡ true)
      → s.socket.send_events ≡ []
      → s.socket.arriving ≡ packets order later
      → flush s ≡ (
        ok tt,
        record s {
          socket = record s.socket {
            arriving = later;
            sent = s.socket.sent ++ ((udp_header id ++ s.write_buf) ∷ []);
          };
          read_buf = parts n 0;
          write_buf = [];
          request_id = id % 65535 + 1;
        },
      )
  unfolding flush receive assemble assembled send_event
  flush_reassembles order s later e f g short pos l h all sends arrives =
      let gathered = gather-packets f g short order 0 [] later h (omega arith) (sym l) in
      let whole =
        append_datagrams_lem n 0 (collected [] order) []
          (λ j p q. get-collected j order [] (all j (omega arith))) in
      rw (sends, arrives, e, gathered, whole) refl

  -- When `n` datagrams of a response of `n` arrive, but one is missing because another came twice, the
  -- UDP `flush` panics. The datagrams have at most 1392 bytes each, and the send works.
  pub flush_panics_on_duplicate :
      (order : List ℕ) (m : ℕ) (s : UdpStream) (later : List DatagramEvent)
      → s.request_id ≡ id
      → id < 2 ^ 16
      → n < 2 ^ 16
      → ((i : ℕ) → length (part i) ≤ 1392)
      → length order ≡ n
      → All (λ i. i < n) order
      → m < n
      → elem m order ≡ false
      → s.socket.send_events ≡ []
      → s.socket.arriving ≡ packets order later
      → (flush s).0 ≡ panic
  unfolding flush receive assemble assembled send_event
  flush_panics_on_duplicate order m s later e f g short l h k lacks sends arrives =
      let gathered = gather-packets f g short order 0 [] later h (omega arith) (sym l) in
      let broken =
        append_datagrams-panic n 0 m (collected [] order) [] (omega arith) (omega arith)
          (collected_lacks m order [] lacks (unfold HashMap.get in refl)) in
      rw (sends, arrives, e, gathered, broken) refl
