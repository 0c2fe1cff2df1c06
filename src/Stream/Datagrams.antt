-- ===== src/Stream/Datagrams.antt =====
-- A request and its response over UDP: what is written before the `flush`, and what is read behind it.
use rust_memcache.Prelude.{
  ℕ, zero, suc, ◌+◌, ◌-◌, ◌%◌, ◌^◌, ◌<◌, ◌≤◌, ◌≡◌, refl, sym, ap, ◌∙◌, Bytes, List, [], ◌∷◌, ◌++◌,
  append-nil, append_assoc, length, length-append, drop, take_prefix, drop_prefix, ltb, le→ltb,
  suc-==_zero, true, false, All, arith, drop_all,
}
use rust_memcache.Outcome.{Outcome, ok}
use rust_memcache.Exec.{Exec, lift, ◌>>=◌}
use rust_memcache.Exec.Talks.{Ends, Talks}
use rust_memcache.Stream
use rust_memcache.Stream.{
  Stream, udp, read, read_exact, read_exact_loop, read_more, write_all, write_all_loop, supply,
}
use rust_memcache.Stream.Channels.{Reads, Writes}
use rust_memcache.Stream.Udp
use rust_memcache.Stream.Udp.{UdpStream, DatagramEvent, udp_header}
use rust_memcache.Stream.Udp.Reassembly.{elem, packets, parts, flush_reassembles}

-- Before the flush: the stream is `k`, but for what was written.
pub record Out (k : UdpStream) (s : Stream) (w a : Bytes) : Type 0 where
  pub here : s ≡ udp (record k { write_buf = w })

-- Behind it: the stream is `k`, but for what is still to be read.
pub record In (k : UdpStream) (s : Stream) (w a : Bytes) : Type 0 where
  pub here : s ≡ udp (record k { read_buf = a })

read_udp :
    (k : UdpStream) (b : ℕ) (bs a : Bytes)
    → read (suc (length bs)) (udp (record k { read_buf = b ∷ (bs ++ a) }))
      ≡ (ok (b ∷ bs), udp (record k { read_buf = a }))
unfolding read Udp.read
read_udp k b bs a =
    let n : ltb (suc (length (bs ++ a))) (suc (length bs)) ≡ false =
      le→ltb _ _ (omega (arith, length-append {0} bs a)) in
    rw (n, take_prefix (length bs) bs a refl, drop_prefix (length bs) bs a refl) refl

read_loop_udp :
    (fuel : ℕ) (k : UdpStream) (b : ℕ) (bs a : Bytes)
    → 1 ≤ fuel
    → read_exact_loop (suc fuel) (suc (length bs)) (udp (record k { read_buf = b ∷ (bs ++ a) }))
      ≡ (ok (b ∷ bs), udp (record k { read_buf = a }))
unfolding read_exact_loop read_more
read_loop_udp zero k b bs a h = absurd (omega arith)
read_loop_udp (suc fuel) k b bs a h =
    let z : suc (length bs) - suc (length bs) ≡ 0 = omega arith in
    rw (read_udp k b bs a, suc-==_zero, z, append-nil bs) refl

read_exact_udp :
    (k : UdpStream) (bs a : Bytes)
    → read_exact (length bs) (udp (record k { read_buf = bs ++ a }))
      ≡ (ok bs, udp (record k { read_buf = a }))
unfolding read_exact read_exact_loop
read_exact_udp k [] a = refl
read_exact_udp k (b ∷ bs) a = read_loop_udp _ k b bs a (omega arith)

instance pub In-Reads : {k : UdpStream} → Reads (In k)
In-Reads {k} = record {
  talks = λ n bs e. record {
    at = λ s w a h.
        rw (h.here, ← e, read_exact_udp k bs a)
          (record { gives = refl; leaves = record { here = refl } });
  };
}

-- The stream after writes of `bs`.
abbrev pub buffered : UdpStream → Bytes → UdpStream
buffered k bs = record k { write_buf = k.write_buf ++ bs }

-- A loop of `n` fuel, where a byte is left to write and a round for the test behind it.
write_all_loop_lem :
    (n b : ℕ) (bs : Bytes) (k : UdpStream)
    → 1 ≤ n
    → write_all_loop (suc n) (b ∷ bs) (udp k) ≡ (ok tt, udp (buffered k (b ∷ bs)))
unfolding write_all_loop Stream.write Udp.write
write_all_loop_lem zero b bs k le = absurd (omega arith)
write_all_loop_lem (suc n) b bs k le =
    finished (drop (length bs) bs) (drop_all (length bs) bs (omega arith))
  where
    finished :
        (l : Bytes)
        → l ≡ []
        → write_all_loop (suc n) l (udp (buffered k (b ∷ bs))) ≡ (ok tt, udp (buffered k (b ∷ bs)))
    finished [] h = refl
    finished (x ∷ l) h = cc

write_nothing : (k : UdpStream) → write_all_loop 1 [] (udp k) ≡ (ok tt, udp (buffered k []))
unfolding write_all_loop
write_nothing k = ap (λ w. (ok tt, udp (record k { write_buf = w }))) (sym (append-nil k.write_buf))

pub write_all_udp :
    (bs : Bytes) (k : UdpStream) → write_all bs (udp k) ≡ (ok tt, udp (buffered k bs))
unfolding write_all Stream.write_supply
write_all_udp [] k = write_nothing k
write_all_udp (b ∷ bs) k = write_all_loop_lem (length (b ∷ bs) + 0) b bs k (omega arith)

instance pub Out-Writes : {k : UdpStream} → Writes (Out k)
Out-Writes {k} = record {
  talks = λ bs. record {
    at = λ s w a h.
        rw (h.here, write_all_udp bs (record k { write_buf = w }))
          (record { gives = refl; leaves = record { here = refl } });
  };
}

-- A response in datagrams, which arrive in any order, each once, in answer to the next request. `later` is
-- what arrives behind it.
pub record Arrives (k : UdpStream) (a : Bytes) : Type 0 where
  pub number : ℕ
  pub part : ℕ → Bytes
  pub order : List ℕ
  pub later : List DatagramEvent
  pub id_fits : k.request_id < 2 ^ 16
  pub number_fits : number < 2 ^ 16
  pub short : (i : ℕ) → length (part i) ≤ 1392
  pub some_part : 0 < number
  pub each : length order ≡ number
  pub none_else : All (λ i. i < number) order
  pub no_gap : (i : ℕ) → i < number → elem i order ≡ true
  pub sends : k.socket.send_events ≡ []
  pub arriving : k.socket.arriving ≡ packets k.request_id number part order later
  pub whole : parts k.request_id number part number 0 ≡ a

-- The stream when `w` was sent and the response has arrived.
abbrev pub answered : (k : UdpStream) (a : Bytes) → Arrives k a → Bytes → UdpStream
answered k a d w = record k {
  socket = record k.socket {
    arriving = d.later;
    sent = k.socket.sent ++ ((udp_header k.request_id ++ w) ∷ []);
  };
  read_buf = a;
  write_buf = [];
  request_id = k.request_id % 65535 + 1;
}

module _ (k : UdpStream) (a : Bytes) (d : Arrives k a) where
  -- A method that sends `u`, behind what is in the write buffer, and waits for the response.
  pub record Sends (m : Exec Stream (Unit {0})) (u : Bytes) : Type 0 where
    pub at :
        (w : Bytes) → m (udp (record k { write_buf = w })) ≡ (ok tt, udp (answered k a d (w ++ u)))

  -- A method that sends `u` in this way, gives `o` by the response, and leaves `rest` of it.
  pub record Exchanges {A : Type 0} (m : Exec Stream A) (o : Outcome A) (u rest : Bytes)
      : Type 0 where
    pub at :
        (w : Bytes)
        → Ends (In (answered k a d (w ++ u))) (m (udp (record k { write_buf = w }))) o [] rest

module _ {k : UdpStream} {a : Bytes} {d : Arrives k a} where
  pub Sends-flush : Sends k a d Stream.flush []
  unfolding Stream.flush
  Sends-flush = record {
    at = λ w.
        ap (λ (x : Outcome (Unit {0}) × UdpStream). (x.0, udp x.1))
          (flush_reassembles k.request_id d.number d.part d.order (record k { write_buf = w })
            d.later refl d.id_fits d.number_fits d.short d.some_part d.each d.none_else d.no_gap
            d.sends d.arriving)
        ∙ rw (append-nil w)
            (ap (λ b. (ok tt, udp (record (answered k a d w) { read_buf = b }))) d.whole);
  }

  pub Sends-write :
      {A : Type 0} {m : Exec Stream A} (f : A → Exec Stream (Unit {0})) {x : A} {u v : Bytes}
      → Talks (Out k) m (ok x) u []
      → Sends k a d (f x) v
      → Sends k a d (m >>= f) (u ++ v)
  unfolding ◌>>=◌
  Sends-write {m} f {x} {u} {v} t n = record {
    at = λ w.
        let first = t.at (udp (record k { write_buf = w })) w [] (record { here = refl }) in
        rw (first.gives, first.leaves.here, ← append_assoc w u v) (n.at (w ++ u));
  }

  pub Sends-subst :
      {m : Exec Stream (Unit {0})} {u v : Bytes} → Sends k a d m u → u ≡ v → Sends k a d m v
  Sends-subst t e = rw (← e) t

  module _ {A : Type 0} where
    pub Exchanges-subst :
        {m : Exec Stream A} {o : Outcome A} {u v rest : Bytes}
        → Exchanges k a d m o u rest
        → u ≡ v
        → Exchanges k a d m o v rest
    Exchanges-subst t e = rw (← e) t

    -- What is read behind the flush.
    pub Exchanges-read :
        {m : Exec Stream (Unit {0})} (f : Unit {0} → Exec Stream A) {o : Outcome A}
        {u bs rest : Bytes}
        → a ≡ bs ++ rest
        → Sends k a d m u
        → ((j : UdpStream) → Talks (In j) (f tt) o [] bs)
        → Exchanges k a d (m >>= f) o u rest
    unfolding ◌>>=◌
    Exchanges-read {m} f {o} {u} {bs} {rest} e n t = record {
      at = λ w.
          let j = answered k a d (w ++ u) in
          rw (n.at w) (
            (t j).at (udp j) [] rest
              (record { here = ap (λ b. udp (record j { read_buf = b })) e }));
    }

  module _ {A B : Type 0} where
    pub Exchanges-write :
        {m : Exec Stream A} (f : A → Exec Stream B) {x : A} {o : Outcome B} {u v rest : Bytes}
        → Talks (Out k) m (ok x) u []
        → Exchanges k a d (f x) o v rest
        → Exchanges k a d (m >>= f) o (u ++ v) rest
    unfolding ◌>>=◌
    Exchanges-write {m} f {x} {o} {u} {v} {rest} t n = record {
      at = λ w.
          let first = t.at (udp (record k { write_buf = w })) w [] (record { here = refl }) in
          rw (first.gives, first.leaves.here, ← append_assoc w u v) (n.at (w ++ u));
    }

    pub Exchanges-lift :
        {r : Outcome A} (f : A → Exec Stream B) {x : A} {o : Outcome B} {u rest : Bytes}
        → r ≡ ok x
        → Exchanges k a d (f x) o u rest
        → Exchanges k a d (lift r >>= f) o u rest
    unfolding ◌>>=◌ lift
    Exchanges-lift f e n = rw e (record { at = n.at })
