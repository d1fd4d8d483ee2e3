-- ===== src/Daemon/Process/Output.antt =====
-- crates/are-daemon/src/process.rs: the capture of a child's output.
use are.Base.{
  ℕ, zero, suc, ◌-◌, ◌≤◌, ◌<◌, ◌≡◌, refl, sym, ap, ◌∙◌, inl, inr, Bool, true, ◌||◌, List, [], ◌∷◌,
  ◌++◌, arith, take, length, length-append, eqb, ltb, if◌then◌else◌, Bool-cases, str_eq,
}

-- What the loop of a reader works on under the lock of the entry: the buffer of its stream, and the
-- flag `truncated` of the entry, which both readers and `await_drain` set.
pub record Captured : Type 0 where
  pub buffer : List ℕ
  pub truncated : Bool

-- One round of the loop: a read of `n > 0` bytes.
unfoldable pub append_chunk : ℕ → Captured → List ℕ → Captured
append_chunk max_output_bytes c chunk =
    let room = max_output_bytes - length c.buffer in
    if eqb room 0
    then record c { truncated = true }
    else let n = length chunk in
      let taken = if ltb n room then n else room in
      record { buffer = c.buffer ++ take taken chunk; truncated = c.truncated || ltb taken n }

pub take-all_nil : (n : ℕ) → take {A = ℕ} n [] ≡ []
take-all_nil zero = refl
take-all_nil (suc n) = refl

take-all : (n : ℕ) (xs : List ℕ) → length xs ≤ n → take n xs ≡ xs
take-all zero [] h = refl
take-all (suc n) [] h = refl
take-all zero (x ∷ xs) h = absurd (omega (arith, h))
take-all (suc n) (x ∷ xs) h = ap (λ rest. x ∷ rest) (take-all n xs (omega (arith, h)))

pub length-take :
    (n : ℕ) (xs : List ℕ) → length (take n xs) ≡ (if ltb (length xs) n then length xs else n)
length-take zero xs = ground arith
length-take (suc n) [] = ground arith
length-take (suc n) (x ∷ xs) = ground (arith, length-take n xs)

take-append :
    (n : ℕ) (xs ys : List ℕ) → take n (xs ++ ys) ≡ take n xs ++ take (n - length (take n xs)) ys
take-append zero [] ys = refl
take-append (suc n) [] ys = let e : suc n - 0 ≡ suc n = omega arith in rw e refl
take-append zero (x ∷ xs) ys = refl
take-append (suc n) (x ∷ xs) ys =
    let e : suc n - suc (length (take n xs)) ≡ n - length (take n xs) = omega arith in
    rw e (ap (λ rest. x ∷ rest) (take-append n xs ys))

take-min : (n : ℕ) (xs : List ℕ) → take (if ltb (length xs) n then length xs else n) xs ≡ take n xs
take-min n xs = elim (Bool-cases (ltb (length xs) n)) [
  | inl less ↦ rw less (take-all (length xs) xs (omega arith) ∙ sym (take-all n xs (ground arith)))
  | inr more ↦ rw more refl
]

append-nil : (xs : List ℕ) → xs ++ [] ≡ xs
append-nil [] = refl
append-nil (x ∷ xs) = ap (λ rest. x ∷ rest) (append-nil xs)

-- A read of some bytes, after `came`, into the buffer that holds what the bound lets through of
-- them: so does the buffer then, and the flag is set if it was, or if more has come than that.
pub append_chunk-kept :
    (most : ℕ) (came chunk : List ℕ) (c : Captured)
    → 0 < length chunk
    → c.buffer ≡ take most came
    → ((append_chunk most c chunk).buffer ≡ take most (came ++ chunk))
      × ((append_chunk most c chunk).truncated ≡ (c.truncated || ltb most (length (came ++ chunk))))
unfolding append_chunk
append_chunk-kept most came chunk c some_read kept =
    let size = length-take most came in
    let total = length-append came chunk in
    elim (Bool-cases (eqb (most - length (take most came)) 0)) [
      | inl full ↦
          let e : most - length (take most came) ≡ 0 = ground arith in
          rw (kept, full, append_chunk)
            (
              (rw (take-append most came chunk, e) (sym (append-nil (take most came)))),
              ground (arith, size, total),
            )
      | inr room ↦
          rw (kept, room, append_chunk)
            (
              (rw (take-append most came chunk, take-min (most - length (take most came)) chunk)
                  refl),
              ground (arith, size, total),
            )
    ]
