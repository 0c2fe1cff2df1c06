-- ===== src/Stream/Exact.antt =====
-- `read_exact` and `write_all`: what they do on a socket that is fit for use, and that they end on every
-- stream.
use rust_memcache.Prelude.{
  ℕ, zero, suc, ◌+◌, ◌-◌, ◌≤◌, ◌<◌, ◌≡◌, refl, sym, ap, Bytes, List, [], ◌∷◌, ◌++◌, append-nil,
  length, length-append, append-eq_append, suc-==_zero, drop, drop_all, arith,
}
use mathlib.Core.Path.{subst}
use mathlib.Core.List.{flatten}
use rust_memcache.Outcome.{ok}
use rust_memcache.Exec.Talks.{Ends, Talks, Talks-pure, Talks-bind}
use rust_memcache.Stream.{
  Stream, read, write, write_all, write_all_loop, read_exact, read_exact_loop, supply, write_supply,
  write_fmt,
}
use rust_memcache.Stream.Exchange.{Ready, Ready-read, Ready-write}

-- One round: a read gave the front `x` of `bs`, the rest of the loop reads the rest `y`.
read_round :
    (fuel : ℕ) (s s' : Stream) (c : ℕ) (x y w a : Bytes)
    → read (suc (length (x ++ y))) s ≡ (ok (c ∷ x), s')
    → Ends Ready (read_exact_loop fuel (length y) s') (ok y) w a
    → Ends Ready (read_exact_loop (suc fuel) (length (c ∷ (x ++ y))) s) (ok (c ∷ (x ++ y))) w a
unfolding read_exact_loop
read_round fuel s s' c x y w a e again =
    let n : suc (length (x ++ y)) - suc (length x) ≡ length y =
      omega (arith, length-append {0} x y) in
    rw (e, suc-==_zero, n, again.gives) (record { gives = refl; leaves = again.leaves })

-- Any script that delivers `bs` in chunks of any size.
read_exact_loop-Ready :
    (fuel : ℕ) (s : Stream) (bs w a : Bytes)
    → length bs < fuel
    → Ready s w (bs ++ a)
    → Ends Ready (read_exact_loop fuel (length bs) s) (ok bs) w a
read_exact_loop-Ready zero s bs w a h o = absurd (omega arith)
read_exact_loop-Ready (suc fuel) s [] w a h o =
    unfold read_exact_loop in record { gives = refl; leaves = o }
read_exact_loop-Ready (suc fuel) s (b ∷ bs) w a h o =
    let r = Ready-read s (suc (length bs)) w b (bs ++ a) (omega arith) o in
    let (t, p, q) =
      append-eq_append (r.first ∷ r.more) (b ∷ bs) r.later a r.split (omega (arith, r.fits)) in
    let s' = (read (suc (length bs)) s).1 in
    let found : read (suc (length bs)) s ≡ (ok (r.first ∷ r.more), s') =
      ap (λ o. (o, s')) r.gives in
    subst (λ l. Ends Ready (read_exact_loop (suc fuel) (length l) s) (ok l) w a) (sym p)
      (read_round fuel s s' r.first r.more t w a
        (subst (λ n. read n s ≡ (ok (r.first ∷ r.more), s')) (ap length p) found)
        (read_exact_loop-Ready fuel s' t w a
          (omega (arith, ap length p, length-append {0} r.more t))
          (subst (λ l. Ready s' w l) q r.leaves)))

pub Talks-read_exact :
    (n : ℕ) (bs : Bytes) → length bs ≡ n → Talks Ready (read_exact n) (ok bs) [] bs
unfolding read_exact
Talks-read_exact n bs e = record {
  at = λ s w a h.
      rw (append-nil w, ← e)
        (read_exact_loop-Ready (suc (length bs + supply s)) s bs w a (omega arith) h);
}

-- One write takes all.
write_round :
    (fuel : ℕ) (s s' : Stream) (b : ℕ) (bs : Bytes)
    → write (b ∷ bs) s ≡ (ok (suc (length bs)), s')
    → write_all_loop (suc (suc fuel)) (b ∷ bs) s ≡ (ok tt, s')
unfolding write_all_loop
write_round fuel s s' b bs e =
    rw e (last_round (drop (length bs) bs) (drop_all (length bs) bs (omega arith)))
  where
    last_round : (l : Bytes) → l ≡ [] → write_all_loop (suc fuel) l s' ≡ (ok tt, s')
    last_round [] h = refl
    last_round (x ∷ l) h = cc

write_all_loop-Ready :
    (fuel : ℕ) (s : Stream) (bs w a : Bytes)
    → length bs ≤ fuel
    → Ready s w a
    → Ends Ready (write_all_loop (suc fuel) bs s) (ok tt) (w ++ bs) a
write_all_loop-Ready fuel s [] w a k o =
    unfold write_all_loop in rw (append-nil w) (record { gives = refl; leaves = o })
write_all_loop-Ready zero s (b ∷ bs) w a k o = absurd (omega arith)
write_all_loop-Ready (suc fuel) s (b ∷ bs) w a k o =
    let r = Ready-write s (b ∷ bs) w a o in
    let s' = (write (b ∷ bs) s).1 in
    rw (write_round fuel s s' b bs (ap (λ o. (o, s')) r.gives))
      (record { gives = refl; leaves = r.leaves })

pub Talks-write_all : (bs : Bytes) → Talks Ready (write_all bs) (ok tt) bs []
unfolding write_all
Talks-write_all bs = record {
  at = λ s w a h. write_all_loop-Ready (length bs + write_supply s) s bs w a (omega arith) h;
}

pub Talks-write_fmt :
    (pieces : List Bytes) → Talks Ready (write_fmt pieces) (ok tt) (flatten pieces) []
unfolding write_fmt flatten
Talks-write_fmt [] = Talks-pure tt
Talks-write_fmt (piece ∷ pieces) = Talks-bind _ (Talks-write_all piece) (Talks-write_fmt pieces)

-- When the bytes `bs` arrive next on a ready socket, cut into chunks in any way, `read_exact` for their
-- number gives exactly them and leaves what comes behind; and `write_all` writes all of its bytes and reads
-- nothing.
pub read_exact-write_all :
    (bs cs : Bytes) (s t : Stream) (w a : Bytes)
    → Ready s w (bs ++ a)
    → Ready t w a
    → Ends Ready (read_exact (length bs) s) (ok bs) w a
      × Ends Ready (write_all cs t) (ok tt) (w ++ cs) a
read_exact-write_all bs cs s t w a h k = (
  rw (append-nil w) at ((Talks-read_exact (length bs) bs refl).at s w a h),
  (Talks-write_all cs).at t w a k,
)
