-- ===== src/Daemon/Disk/Logic.antt =====
-- Triples on the operations of a disk: what holds of the result and of the disk that is left, when
-- a condition holds of the disk that is found.
use are.Base.{
  ℕ, ◌≡◌, refl, ◌⊎◌, List, [], ◌∷◌, All, Bool, true, false, Option, none, some, Result, ok, err,
  ensure, if◌then◌else◌,
}
use are.Daemon.Os.{IoError}
use are.Daemon.Disk.{
  Tree, Calls, Disk, Run, ◌>>=◌, ◌>>◌, continue, lift, attempt, attempted, map_error, mapped, call,
  stepped, look, nothing,
}

-- A step that changes nothing.
abbrev pub Still : Tree × Tree → Type 0
Still (before, after) = after ≡ before

-- One step does `C`; those before it do `S`, and those after it change nothing.
abbrev pub Once : (S C : Tree × Tree → Type 0) → List (Tree × Tree) → Type 0
Once S C [] = ⊥
Once S C (step ∷ steps) = (Still step × Once S C steps) ⊎ (C step × All S steps)

-- What a failure leaves, and what a success leaves with its value.
abbrev pub Ends :
    {E A : Type 0} → (Disk → Type 0) → (A → Disk → Type 0) → Result E A → Disk → Type 0
Ends F Q (ok a) d = Q a d
Ends F Q (err e) d = F d

-- From a disk with `I`, a failure of `m` leaves `F`, and a success with `a` leaves `Q a`.
pub record Triple {E A : Type 0} (I : Disk → Type 0) (m : Run E A) (F : Disk → Type 0)
    (Q : A → Disk → Type 0) : Type 0 where
  pub run : (d : Disk) → I d → Ends F Q (m d).0 (m d).1

abbrev continue-Ends :
    {E A B : Type 0} (F : Disk → Type 0) (Q : A → Disk → Type 0) (R : B → Disk → Type 0)
    (x : Result E A × Disk) (f : A → Run E B)
    → Ends F Q x.0 x.1
    → ((a : A) → Triple (Q a) (f a) F R)
    → Ends F R (continue x f).0 (continue x f).1
continue-Ends F Q R (ok a, d) f h next = (next a).run d h
continue-Ends F Q R (err e, d) f h next = h

pub bind :
    {E A B : Type 0} {I F : Disk → Type 0} {Q : A → Disk → Type 0} {R : B → Disk → Type 0}
    {m : Run E A} {f : A → Run E B}
    → Triple I m F Q
    → ((a : A) → Triple (Q a) (f a) F R)
    → Triple I (m >>= f) F R
unfolding ◌>>=◌
bind {F = F} {Q = Q} {R = R} {m = m} {f = f} first next = record {
  run = λ d h. continue-Ends F Q R (m d) f (first.run d h) next;
}

abbrev attempted-Ends :
    {E A : Type 0} (F : Type 0) (Q : Result E A → Disk → Type 0) (G : Disk → Type 0)
    (x : Result E A × Disk)
    → Q x.0 x.1
    → let y : Result F (Result E A) × Disk = attempted x in Ends G Q y.0 y.1
attempted-Ends F Q G (r, d) h = h

pub attempts :
    {E F A : Type 0} {I G H : Disk → Type 0} {Q : A → Disk → Type 0} {m : Run E A}
    → Triple I m G Q
    → let n : Run F (Result E A) = attempt m in Triple I n H (Ends G Q)
unfolding attempt
attempts {F = F} {G = G} {H = H} {Q = Q} {m = m} first = record {
  run = λ d h. attempted-Ends F (Ends G Q) H (m d) (first.run d h);
}

abbrev pub mapped-Ends :
    {E F A : Type 0} (G : Disk → Type 0) (Q : A → Disk → Type 0) (f : E → F) (x : Result E A × Disk)
    → Ends G Q x.0 x.1
    → Ends G Q (mapped f x).0 (mapped f x).1
mapped-Ends G Q f (ok a, d) h = h
mapped-Ends G Q f (err e, d) h = h

pub map_errors :
    {E F A : Type 0} {I G : Disk → Type 0} {Q : A → Disk → Type 0} {m : Run E A} (f : E → F)
    → Triple I m G Q
    → Triple I (map_error f m) G Q
unfolding map_error
map_errors {G = G} {Q = Q} {m = m} f first = record {
  run = λ d h. mapped-Ends G Q f (m d) (first.run d h);
}

pub lifts :
    {E A : Type 0} {I F : Disk → Type 0} {Q : A → Disk → Type 0} (r : Result E A)
    → ((d : Disk) → I d → Ends F Q r d)
    → Triple I (lift r) F Q
unfolding lift
lifts r h = record { run = h }

-- A check, of which the rest knows the outcome.
pub guards :
    {E B : Type 0} {I F : Disk → Type 0} {R : B → Disk → Type 0} {n : Run E B} (test : Bool) (e : E)
    → ((d : Disk) → I d → F d)
    → (test ≡ true → Triple I n F R)
    → Triple I (lift (ensure test e) >> n) F R
unfolding ◌>>=◌ lift
guards true e weaker h = record { run = λ d i. (h refl).run d i }
guards false e weaker h = record { run = λ d i. weaker d i }

-- A branch, of which each side knows the test.
pub branches :
    {E A : Type 0} {I F : Disk → Type 0} {Q : A → Disk → Type 0} {m n : Run E A} (test : Bool)
    → (test ≡ true → Triple I m F Q)
    → (test ≡ false → Triple I n F Q)
    → Triple I (if test then m else n) F Q
branches true yes_case no_case = yes_case refl
branches false yes_case no_case = no_case refl

-- A weaker condition is left, and a stronger one is found.
abbrev pub Ends-weaken :
    {E A : Type 0} {F G : Disk → Type 0} {Q R : A → Disk → Type 0} (r : Result E A) (d : Disk)
    → ((d : Disk) → F d → G d)
    → ((a : A) (d : Disk) → Q a d → R a d)
    → Ends F Q r d
    → Ends G R r d
Ends-weaken (ok a) d bad good h = good a d h
Ends-weaken (err e) d bad good h = bad d h

pub weaken :
    {E A : Type 0} {I J F G : Disk → Type 0} {Q R : A → Disk → Type 0} {m : Run E A}
    → ((d : Disk) → J d → I d)
    → ((d : Disk) → F d → G d)
    → ((a : A) (d : Disk) → Q a d → R a d)
    → Triple I m F Q
    → Triple J m G R
weaken {m = m} found bad good h = record {
  run = λ d j. Ends-weaken (m d).0 (m d).1 bad good (h.run d (found d j));
}

-- The disk after a call that found `before` and left `after`.
abbrev pub after_call : Disk → Tree → Tree → Disk
after_call d before after = (stepped {A = Unit {0}} d before (ok tt, after)).1

-- The tree that the next call finds.
abbrev pub found : Calls → Disk → Tree
found os d = os.others d.calls d.tree

abbrev call-fault :
    {A : Type 0} (F : Disk → Type 0) (Q : A → Disk → Type 0) (d : Disk) (before : Tree)
    (part : ℕ → Tree → Tree) (act : Tree → Result IoError A × Tree) (fault : Option (IoError × ℕ))
    → ((n : ℕ) → F (after_call d before (part n before)))
    → Ends F Q (act before).0 (after_call d before (act before).1)
    → let x : Result IoError A × Disk = elim fault [
      | some (e, n) ↦ stepped d before (err e, part n before)
      | none ↦ stepped d before (act before)
    ] in
      Ends F Q x.0 x.1
call-fault F Q d before part act none bad good = good
call-fault F Q d before part act (some (e, n)) bad good = bad n

pub calls_once :
    {A : Type 0} {I F : Disk → Type 0} {Q : A → Disk → Type 0} (os : Calls) (part : ℕ → Tree → Tree)
    (act : Tree → Result IoError A × Tree)
    → ((d : Disk) (n : ℕ) → I d → F (after_call d (found os d) (part n (found os d))))
    → ((d : Disk)
        → I d
        → Ends F Q (act (found os d)).0 (after_call d (found os d) (act (found os d)).1))
    → Triple I (call os part act) F Q
unfolding call
calls_once {F = F} {Q = Q} os part act bad good = record {
  run =
      λ d h. call-fault F Q d (found os d) part act (os.fault d.calls) (λ n. bad d n h) (good d h);
}

abbrev pub Ends-const :
    {E A : Type 0} (I : Disk → Type 0) (r : Result E A) (d : Disk) → I d → Ends I (λ a. I) r d
Ends-const I (ok a) d h = h
Ends-const I (err e) d h = h

-- A call that changes nothing leaves what is stable under it.
pub looks :
    {A : Type 0} {I : Disk → Type 0} (os : Calls) (f : Tree → Result IoError A)
    → ((d : Disk) → I d → I (after_call d (found os d) (found os d)))
    → Triple I (look os f) I (λ a. I)
looks {I = I} os f stable =
    calls_once os nothing (λ tree. (f tree, tree)) (λ d n h. stable d h)
      (λ d h. Ends-const I (f (found os d)) (after_call d (found os d) (found os d)) (stable d h))

pub Ends-either :
    {E A : Type 0} (I : Disk → Type 0) (r : Result E A) (d : Disk) → Ends I (λ a. I) r d → I d
Ends-either I (ok a) d h = h
Ends-either I (err e) d h = h

-- A value that is known.
pub knows :
    {E A B : Type 0} {I F : Disk → Type 0} {Q : B → Disk → Type 0} (a : A) (f : A → Run E B)
    → Triple I (f a) F Q
    → let m : Run E A = lift (ok a) in Triple I (m >>= f) F Q
unfolding ◌>>=◌ lift
knows a f h = record { run = h.run }
