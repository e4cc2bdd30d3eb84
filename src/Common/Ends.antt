-- ===== src/Common/Ends.antt =====
-- How an operation ends: with a value, or with the end of the process through `global_die(111)`.
-- The constructors of `Fault` are the places from which the source ends the process.
use mathlib.Core.Path.{◌≡◌, refl, subst}
use mathlib.Core.Logic.{◌⊎◌, inl, inr}
use mathlib.Core.Bool.{Bool, true, false}
use tinyssh.Common.Tests.{if◌then◌else◌}

pub data Fault : Type 0 where
  -- `bug_inval`, `bug_nomem`, `bug_proto` and the plain `bug` of bug.h
  inval nomem proto bug : Fault
  -- messages logged with `log_f1` or `log_f4` just before the end of the process
  send_overflow receive_overflow packet_too_long strict_ignored too_many_messages : Fault
  unexpected_type : Fault
  -- `die_fatal` of main_tinysshd.c
  fatal : Fault
  -- the model's own: a loop that has no fuel left
  out_of_fuel : Fault

pub data Outcome {ℓ} (A : Type ℓ) : Type ℓ where
  ok : A → Outcome A
  die : Fault → Outcome A

-- `if (test) bug_...();`
abbrev pub die_if : Bool → Fault → Outcome (Unit {0})
die_if true e = die e
die_if false e = ok tt

-- The first operation, and if it gives a value the second with that value.
infixl 5 ◌>>=◌
abbrev pub ◌>>=◌ {ℓ κ} :
    {A : Type ℓ} {B : Type κ} (first : Outcome A) → (second : A → Outcome B) → Outcome B
die e >>= second = die e
ok a >>= second = second a

infixl 5 ◌>>◌
abbrev pub ◌>>◌ {ℓ} : {B : Type ℓ} (first : Outcome (Unit {0})) (second : Outcome B) → Outcome B
first >> second = first >>= λ done. second

pub Outcome-cases {ℓ} :
    {A : Type ℓ} (m : Outcome A) → ((a : A) × (m ≡ ok a)) ⊎ ((e : Fault) × (m ≡ die e))
Outcome-cases (ok a) = inl (a, refl)
Outcome-cases (die e) = inr (e, refl)

-- Two operations that end well, one after the other.
pub >>=-eq-ok {ℓ κ} :
    {A : Type ℓ} {B : Type κ} (m : Outcome A) (f : A → Outcome B) {b : B}
    → (m >>= f) ≡ ok b
    → (a : A) × (m ≡ ok a) × (f a ≡ ok b)
>>=-eq-ok (die e) f h = absurd (cc)
>>=-eq-ok (ok a) f h = (a, refl, h)

-- A property of the value, where there is one.
abbrev pub Returns {ℓ κ} : {A : Type ℓ} → Outcome A → (A → Type κ) → Type κ
Returns (ok a) P = P a
Returns (die e) P = Unit

-- A property of the fault, where there is one.
abbrev pub Dies {ℓ κ} : {A : Type ℓ} → Outcome A → (Fault → Type κ) → Type κ
Dies (ok a) P = Unit
Dies (die e) P = P e

pub Returns_ok {ℓ κ} :
    {A : Type ℓ} (P : A → Type κ) (m : Outcome A) {a : A} → Returns m P → m ≡ ok a → P a
Returns_ok P (ok b) h e = subst P (cc) h
Returns_ok P (die f) h e = absurd (cc)

-- A property of the end of a sequence, from its parts.
pub Returns-bind {ℓ κ μ} :
    {A : Type ℓ} {B : Type κ} (P : B → Type μ) (m : Outcome A) (f : A → Outcome B)
    → ((a : A) → m ≡ ok a → Returns (f a) P)
    → Returns (m >>= f) P
Returns-bind P (ok a) f h = h a refl
Returns-bind P (die e) f h = tt

pub Returns_intro {ℓ κ} :
    {A : Type ℓ} (P : A → Type κ) (m : Outcome A) → ((a : A) → m ≡ ok a → P a) → Returns m P
Returns_intro P (ok a) h = h a refl
Returns_intro P (die e) h = tt

-- A property behind a check.
pub Returns-check {ℓ κ} :
    {A : Type ℓ} (P : A → Type κ) (t : Bool) (e : Fault) (m : Outcome A)
    → Returns m P
    → Returns (die_if t e >> m) P
Returns-check P true e m h = tt
Returns-check P false e m h = h

-- A property behind a check that has passed.
pub Returns_checked {ℓ κ} :
    {A : Type ℓ} (P : A → Type κ) (t : Bool) (e : Fault) (m : Outcome A)
    → (t ≡ false → Returns m P)
    → Returns (die_if t e >> m) P
Returns_checked P true e m h = tt
Returns_checked P false e m h = h refl

-- A property of either branch.
pub Returns-if {ℓ κ} :
    {A : Type ℓ} (P : A → Type κ) (t : Bool) (m n : Outcome A)
    → (t ≡ true → Returns m P)
    → (t ≡ false → Returns n P)
    → Returns (if t then m else n) P
Returns-if P true m n h k = h refl
Returns-if P false m n h k = k refl

pub Returns_map {ℓ κ μ} :
    {A : Type ℓ} {P : A → Type κ} {Q : A → Type μ} (f : (a : A) → P a → Q a) (m : Outcome A)
    → Returns m P
    → Returns m Q
Returns_map f (ok a) h = f a h
Returns_map f (die e) h = tt
