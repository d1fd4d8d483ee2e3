-- ===== src/Wire/Laws.antt =====
-- What is written is what is read: lengths and exact reads.
use are.Base.{
  ℕ, ◌+◌, ◌<◌, ◌≡◌, refl, ap, List, [], ◌∷◌, ◌++◌, none, take, length, length-append, arith, ok,
  false, ltb,
}
use are.Wire.{Writer, Faults, write_all, drop, read_exact, to_be_bytes, from_be_bytes}

take-append : (a b : List ℕ) → take (length a) (a ++ b) ≡ a
take-append [] b = refl
take-append (x ∷ a) b = ap (λ r. x ∷ r) (take-append a b)

drop-append : (a b : List ℕ) → drop (length a) (a ++ b) ≡ b
unfolding drop
drop-append [] [] = refl
drop-append [] (y ∷ b) = refl
drop-append (x ∷ a) b = drop-append a b

long-enough : (a b : List ℕ) → ltb (length (a ++ b)) (length a) ≡ false
long-enough a b = ground (arith, length-append a b)

pub read_exact-append : (a b : List ℕ) → read_exact (length a) (a ++ b) ≡ (ok a, b)
unfolding read_exact
read_exact-append a b = rw (long-enough a b, take-append a b, drop-append a b) refl

pub from_be_bytes-to_be_bytes : (n : ℕ) → n < 4294967296 → from_be_bytes (to_be_bytes n) ≡ n
unfolding from_be_bytes to_be_bytes
from_be_bytes-to_be_bytes n h = omega arith

-- The calls of a writer that do not fail.
pub write_all-sent :
    (faults : Faults) (bytes : List ℕ) (w : Writer)
    → faults w.calls ≡ none
    → write_all faults bytes w ≡ (ok tt, record { sent = w.sent ++ bytes; calls = w.calls + 1 })
unfolding write_all
write_all-sent faults bytes w e = rw (e) refl
