-- ===== src/Base/Results.antt =====
-- Code that raises: a value or the exception.
use mathlib.Core.Path.{◌≡◌, refl}
use mathlib.Core.Bool.{Bool, true, false}

pub data Result {ℓ} (E A : Type ℓ) : Type ℓ where
  err : E → Result E A
  ok : A → Result E A

infixl 5 ◌>>=◌
abbrev pub ◌>>=◌ {ℓ} : {E A B : Type ℓ} → Result E A → (A → Result E B) → Result E B
err raised >>= rest = err raised
ok value >>= rest = rest value

-- A block that returns: its first statement returned, and the rest returned from there.
pub >>=-eq-ok {ℓ} :
    {E A B : Type ℓ} (first : Result E A) (rest : A → Result E B) {result : B}
    → (first >>= rest) ≡ ok result
    → (value : A) × (first ≡ ok value) × (rest value ≡ ok result)
>>=-eq-ok (err raised) rest h = cc
>>=-eq-ok (ok value) rest h = (value, refl, h)

pub ok-injective {ℓ} : {E A : Type ℓ} {a b : A} → ◌≡◌ {A = Result E A} (ok a) (ok b) → a ≡ b
ok-injective h = cc

-- `if test: raise error`
abbrev pub raise_if : {E : Type 0} → Bool → E → Result E (Unit {0})
raise_if false error = ok tt
raise_if true error = err error

pub raise_if-eq-ok :
    {E : Type 0} (test : Bool) (error : E) (u : Unit {0})
    → raise_if test error ≡ ok u
    → test ≡ false
raise_if-eq-ok false error u h = refl
raise_if-eq-ok true error u h = cc

infixl 5 ◌>>◌
abbrev pub ◌>>◌ : {E B : Type 0} → Result E (Unit {0}) → Result E B → Result E B
statement >> rest = statement >>= λ _. rest

-- A block that returns has passed its first test.
pub passed :
    {E A : Type 0} (test : Bool) (error : E) (rest : Result E A) {a : A}
    → (raise_if test error >> rest) ≡ ok a
    → (test ≡ false) × (rest ≡ ok a)
passed false error rest h = (refl, h)
passed true error rest h = cc
