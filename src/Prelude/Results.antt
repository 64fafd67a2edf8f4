-- ===== src/Prelude/Results.antt =====
-- Code that may raise: a value or an error, with `do` blocks.
use mathlib.Core.Path.{◌≡◌, refl, subst}
use mathlib.Core.Bool.{Bool, true, false}

pub data Result {ℓ} (E : Type 0) (A : Type ℓ) : Type ℓ where
  ok : A → Result E A
  err : E → Result E A

-- `err` stops a block; `m >> k` is for an `m` that only may raise.
infixl 5 ◌>>=◌ ◌>>◌
abbrev pub ◌>>=◌ {ℓ κ} :
    {E : Type 0} {X : Type ℓ} {Y : Type κ} → Result E X → (X → Result E Y) → Result E Y
err reason >>= next = err reason
ok value >>= next = next value

abbrev pub ◌>>◌ {κ} : {E : Type 0} {Y : Type κ} → Result E (Unit {0}) → Result E Y → Result E Y
may_raise >> next = may_raise >>= λ _. next

-- `if test: raise e`
abbrev pub raise_if : {E : Type 0} → Bool → E → Result E (Unit {0})
raise_if true e = err e
raise_if false e = ok tt

-- `try: m / except Error as e: raise f(e)`
abbrev pub map_err {ℓ} : {E F : Type 0} {A : Type ℓ} → (E → F) → Result E A → Result F A
map_err f (ok a) = ok a
map_err f (err e) = err (f e)

pub map_err_returned {ℓ} :
    {E F : Type 0} {A : Type ℓ} (f : E → F) (m : Result E A) (a : A) → map_err f m ≡ ok a → m ≡ ok a
map_err_returned f (ok x) a e = cc
map_err_returned f (err x) a e = cc

-- What came before the result of a block.
pub bind_returned {ℓ κ} :
    {E : Type 0} {X : Type ℓ} {Y : Type κ} {y : Y} (next : X → Result E Y) (m : Result E X)
    → m >>= next ≡ ok y
    → (x : X) × (next x ≡ ok y) × (m ≡ ok x)
bind_returned next (err reason) returned = cc
bind_returned next (ok x) returned = (x, returned, refl)

-- Whatever `m` returns satisfies `P`.
pub record Ensures {ℓ κ} {E : Type 0} {A : Type ℓ} (P : A → Type κ) (m : Result E A)
    : Type (ℓ ⊔ κ) where
  pub at : (a : A) → m ≡ ok a → P a

-- The rule for a step of a `do` block.
pub Ensures-bind {ℓ κ μ} :
    {E : Type 0} {A : Type ℓ} {B : Type κ} {P : B → Type μ} (m : Result E A) (f : A → Result E B)
    → ((a : A) → m ≡ ok a → Ensures P (f a))
    → Ensures P (m >>= f)
Ensures-bind (ok a) f h = h a refl
Ensures-bind (err e) f h = record { at = λ b p. cc }

pub Ensures-ok {ℓ κ} :
    {E : Type 0} {A : Type ℓ} {P : A → Type κ} (a : A) → P a → Ensures {E = E} P (ok a)
Ensures-ok {P} a h = record { at = λ b e. let same : a ≡ b = cc in subst P same h }

-- Whatever `m` raises satisfies `P`.
pub record Fails {ℓ κ} {E : Type 0} {A : Type ℓ} (P : E → Type κ) (m : Result E A)
    : Type (ℓ ⊔ κ) where
  pub because : (e : E) → m ≡ err e → P e

pub Fails-ok {ℓ κ} : {E : Type 0} {A : Type ℓ} {P : E → Type κ} (a : A) → Fails P (ok a)
Fails-ok a = record { because = λ e p. cc }

pub Fails-err {ℓ κ} :
    {E : Type 0} {A : Type ℓ} {P : E → Type κ} (e : E) → P e → Fails {A = A} P (err e)
Fails-err {P} e h = record { because = λ b p. let same : e ≡ b = cc in subst P same h }

pub Fails-bind {ℓ κ μ} :
    {E : Type 0} {A : Type ℓ} {B : Type κ} {P : E → Type μ} (m : Result E A) (f : A → Result E B)
    → Fails P m
    → ((a : A) → m ≡ ok a → Fails P (f a))
    → Fails P (m >>= f)
Fails-bind (ok a) f none_yet h = h a refl
Fails-bind (err e) f raised h = Fails-err e (raised.because e refl)

pub Fails-raise_if {κ} :
    {E : Type 0} {P : E → Type κ} (test : Bool) (e : E) → P e → Fails P (raise_if test e)
Fails-raise_if true e h = Fails-err e h
Fails-raise_if false e h = Fails-ok tt
