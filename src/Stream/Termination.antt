-- ===== src/Stream/Termination.antt =====
-- `read_exact` and `write_all` end on every stream: their fuel never runs out.
use rust_memcache.Prelude.{
  ℕ, zero, suc, ◌+◌, ◌-◌, ◌≤◌, ◌<◌, ◌≡◌, ◌≢◌, refl, Bytes, true, List, [], ◌∷◌, length, length-drop,
  arith, Bool-cases, inl, inr, drop, suc-==_zero,
}
use rust_memcache.Outcome.{Outcome, ok, err, panic, stuck, map_ok}
use rust_memcache.Stream.{
  Stream, tcp, udp, unix, tls, read, write, write_all, write_all_loop, write_more, read_more,
  read_exact, read_exact_loop, supply, write_supply, is_interrupted,
}
use rust_memcache.Stream.Sockets
use rust_memcache.Stream.Udp
use rust_memcache.Stream.Sockets.{Socket, ReadEvent, chunk}

-- What a read does to the bound: an error takes an event.
abbrev Shrinks : {A : Type 0} → Outcome A → ℕ → ℕ → Type 0
Shrinks (ok a) m n = m ≤ n
Shrinks (err e) m n = (is_interrupted e ≡ true → m < n) × (m ≤ n)
Shrinks panic m n = m ≤ n
Shrinks stuck m n = ⊥

socket_read-Shrinks :
    (n : ℕ) (es : List ReadEvent) (k : Socket)
    → k.incoming ≡ es
    → Shrinks
        (Sockets.read_event n es k).0
        (Sockets.supply (Sockets.read_event n es k).1.incoming)
        (Sockets.supply es)
unfolding Sockets.read_event Sockets.supply is_interrupted
socket_read-Shrinks n [] k e = ((λ p. cc), rw e (omega arith))
socket_read-Shrinks n (ReadEvent.fault x ∷ es) k e = ((λ p. omega arith), omega arith)
socket_read-Shrinks n (chunk bs ∷ es) k e = ground (arith, length-drop {0} n bs)

read-Shrinks : (n : ℕ) (s : Stream) → Shrinks (read n s).0 (supply (read n s).1) (supply s)
unfolding read supply Sockets.read Udp.read
read-Shrinks n (tcp k) = socket_read-Shrinks n k.incoming k refl
read-Shrinks n (udp k) =
    ground (arith, length-drop {0} n k.read_buf, length-drop {0} (length k.read_buf) k.read_buf)
read-Shrinks n (unix k) = socket_read-Shrinks n k.incoming k refl
read-Shrinks n (tls k) = socket_read-Shrinks n k.incoming k refl

map_ok-ne-stuck : {A B : Type 0} (f : A → B) (r : Outcome A) → r ≢ stuck → map_ok f r ≢ stuck
map_ok-ne-stuck f (ok a) h e = cc
map_ok-ne-stuck f (err x) h e = cc
map_ok-ne-stuck f panic h e = cc
map_ok-ne-stuck f stuck h e = h refl

-- A round of the loop goes on with a smaller bound.
read_more-ne-stuck :
    (again : ℕ → Stream → Outcome Bytes × Stream) (n m : ℕ) (o : Outcome Bytes) (s : Stream)
    → ((k : ℕ) (t : Stream) → k + supply t < n + m → (again k t).0 ≢ stuck)
    → 0 < n
    → Shrinks o (supply s) m
    → (read_more again n (o, s)).0 ≢ stuck
unfolding read_more
read_more-ne-stuck again n m (ok []) s ih pos h = λ e. cc
read_more-ne-stuck again n m (ok (b ∷ bs)) s ih pos h =
    map_ok-ne-stuck _ _ (ih (n - length (b ∷ bs)) s (omega arith))
read_more-ne-stuck again n m (err x) s ih pos h = elim (Bool-cases (is_interrupted x)) [
  | inl y ↦ rw y (ih n s (omega (arith, h.0 y)))
  | inr y ↦ rw y (λ e. cc)
]
read_more-ne-stuck again n m panic s ih pos h = λ e. cc
read_more-ne-stuck again n m stuck s ih pos h = absurd h

read_exact_loop-ne-stuck :
    (fuel n : ℕ) (s : Stream) → n + supply s < fuel → (read_exact_loop fuel n s).0 ≢ stuck
unfolding read_exact_loop
read_exact_loop-ne-stuck zero n s h = absurd (omega arith)
read_exact_loop-ne-stuck (suc fuel) zero s h = λ e. cc
read_exact_loop-ne-stuck (suc fuel) (suc n) s h = rw suc-==_zero (
    read_more-ne-stuck (read_exact_loop fuel) (suc n) (supply s) (read (suc n) s).0
      (read (suc n) s).1 (λ k t q. read_exact_loop-ne-stuck fuel k t (omega arith)) (omega arith)
      (read-Shrinks (suc n) s))

-- Whatever the network does, `read_exact` on any stream ends: its loop never runs out of the fuel that the
-- model gives it.
pub read_exact-ne-stuck : (n : ℕ) (s : Stream) → (read_exact n s).0 ≢ stuck
unfolding read_exact
read_exact-ne-stuck n s = read_exact_loop-ne-stuck (suc (n + supply s)) n s (omega arith)

socket_write-Shrinks :
    (bs : Bytes) (ws : List Sockets.WriteEvent) (k : Socket)
    → k.write_events ≡ ws
    → Shrinks
        (Sockets.write_event bs ws k).0
        (length (Sockets.write_event bs ws k).1.write_events)
        (length ws)
unfolding Sockets.write_event is_interrupted
socket_write-Shrinks bs [] k e = rw e (omega arith)
socket_write-Shrinks bs (Sockets.accept n ∷ ws) k e = omega arith
socket_write-Shrinks bs (Sockets.WriteEvent.fault x ∷ ws) k e = ((λ p. omega arith), omega arith)

write-Shrinks :
    (bs : Bytes) (s : Stream)
    → Shrinks (write bs s).0 (write_supply (write bs s).1) (write_supply s)
unfolding write write_supply Sockets.write Udp.write
write-Shrinks bs (tcp k) = socket_write-Shrinks bs k.write_events k refl
write-Shrinks bs (udp k) = omega arith
write-Shrinks bs (unix k) = socket_write-Shrinks bs k.write_events k refl
write-Shrinks bs (tls k) = socket_write-Shrinks bs k.write_events k refl

write_more-ne-stuck :
    (again : Bytes → Stream → Outcome (Unit {0}) × Stream) (b : ℕ) (bs : Bytes) (m : ℕ)
    (o : Outcome ℕ) (s : Stream)
    → ((l : Bytes) (t : Stream)
        → length l + write_supply t < length (b ∷ bs) + m
        → (again l t).0 ≢ stuck)
    → Shrinks o (write_supply s) m
    → (write_more again (b ∷ bs) (o, s)).0 ≢ stuck
unfolding write_more
write_more-ne-stuck again b bs m (ok zero) s ih h = λ e. cc
write_more-ne-stuck again b bs m (ok (suc n)) s ih h =
    ih (drop n bs) s (omega (arith, length-drop {0} n bs))
write_more-ne-stuck again b bs m (err x) s ih h = elim (Bool-cases (is_interrupted x)) [
  | inl y ↦ rw y (ih (b ∷ bs) s (omega (arith, h.0 y)))
  | inr y ↦ rw y (λ e. cc)
]
write_more-ne-stuck again b bs m panic s ih h = λ e. cc
write_more-ne-stuck again b bs m stuck s ih h = absurd h

write_all_loop-ne-stuck :
    (fuel : ℕ) (bs : Bytes) (s : Stream)
    → length bs + write_supply s < fuel
    → (write_all_loop fuel bs s).0 ≢ stuck
unfolding write_all_loop
write_all_loop-ne-stuck zero bs s h = absurd (omega arith)
write_all_loop-ne-stuck (suc fuel) [] s h = λ e. cc
write_all_loop-ne-stuck (suc fuel) (b ∷ bs) s h =
    write_more-ne-stuck (write_all_loop fuel) b bs (write_supply s) (write (b ∷ bs) s).0
      (write (b ∷ bs) s).1 (λ l t q. write_all_loop-ne-stuck fuel l t (omega arith))
      (write-Shrinks (b ∷ bs) s)

-- Whatever the network does, `write_all` on any stream ends: its loop never runs out of the fuel that the
-- model gives it.
pub write_all-ne-stuck : (bs : Bytes) (s : Stream) → (write_all bs s).0 ≢ stuck
unfolding write_all
write_all-ne-stuck bs s =
    write_all_loop-ne-stuck (suc (length bs + write_supply s)) bs s (omega arith)
