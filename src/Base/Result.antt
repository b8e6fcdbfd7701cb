-- ===== src/Base/Result.antt =====
-- The results of the program's functions. `panic` is a Rust panic: an index or a slice out of range.

use mathlib.Core.Bool.{Bool, true, false}

-- A function that mutates nothing: `Result<A, E>`, or a panic.
pub data Outcome {ℓ} (E : Type 0) (A : Type ℓ) : Type ℓ where
  ok : A → Outcome E A
  err : E → Outcome E A
  panic : Outcome E A

infixl 5 ◌>>=◌ ◌>>◌
abbrev pub ◌>>=◌ {ℓ κ} :
    {E : Type 0} {A : Type ℓ} {B : Type κ} → Outcome E A → (A → Outcome E B) → Outcome E B
ok a >>= f = f a
err e >>= f = err e
panic >>= f = panic

abbrev pub ◌>>◌ {ℓ} : {E : Type 0} {B : Type ℓ} → Outcome E (Unit {0}) → Outcome E B → Outcome E B
m >> k = m >>= λ _. k

-- An early `return Err(e)`.
abbrev pub check : {E : Type 0} → Bool → E → Outcome E (Unit {0})
check true e = err e
check false e = ok tt

-- `map_err(|_| e)?`
abbrev pub or_err {ℓ} : {E F : Type 0} {A : Type ℓ} → Outcome F A → E → Outcome E A
or_err (ok a) e = ok a
or_err (err _) e = err e
or_err panic e = panic

-- A method that takes `&mut self`: the object after the call, with its result or its error.
pub data Step (S E A : Type 0) : Type 0 where
  done : S → A → Step S E A
  fail : S → E → Step S E A
  crash : Step S E A

-- A call on a part of an object, or with its error mapped.
abbrev pub map_step : {S S' E E' A : Type 0} → (S → S') → (E → E') → Step S E A → Step S' E' A
map_step f g (done s a) = done (f s) a
map_step f g (fail s e) = fail (f s) (g e)
map_step f g crash = crash

-- The next statement after a call that ends in `?`.
abbrev pub then_step : {S E A B : Type 0} → Step S E A → (S → A → Step S E B) → Step S E B
then_step (done s a) k = k s a
then_step (fail s e) k = fail s e
then_step crash k = crash

-- The call does not panic, and the object satisfies `P` after it, also where an error is returned.
abbrev pub After : {S E A : Type 0} → (S → Type 0) → Step S E A → Type 0
After P (done s a) = P s
After P (fail s e) = P s
After P crash = ⊥

pub After-map_step :
    {S S' E E' A : Type 0} (P : S → Type 0) (Q : S' → Type 0) (f : S → S') (g : E → E')
    (m : Step S E A)
    → ((s : S) → P s → Q (f s))
    → After P m
    → After Q (map_step f g m)
After-map_step P Q f g (done s a) k h = k s h
After-map_step P Q f g (fail s e) k h = k s h
After-map_step P Q f g crash k h = h

pub After-then_step :
    {S E A B : Type 0} (P Q : S → Type 0) (m : Step S E A) (k : S → A → Step S E B)
    → After P m
    → ((s : S) → P s → Q s)
    → ((s : S) (a : A) → P s → After Q (k s a))
    → After Q (then_step m k)
After-then_step P Q (done s a) k h on_fail on_done = on_done s a h
After-then_step P Q (fail s e) k h on_fail on_done = on_fail s h
After-then_step P Q crash k h on_fail on_done = h
