-- ===== src/Base/Digests.antt =====
-- Digests: `hexdigest`, `int.from_bytes(…, "big")`, the decimal text of an integer, and the test
-- for a lowercase SHA-256 digest. SHA-256 itself, of the UTF-8 bytes of a text, is a parameter of
-- what uses it: `Text → List ℕ`.
use Prim.Native.Nat.{ℕ, zero, suc, ◌+◌, ◌*◌, ◌/◌, ◌%◌, ◌<◌}
use mathlib.Core.Path.{◌≡◌, refl, ap}
use mathlib.Core.Logic.{inl, inr}
use mathlib.Core.Bool.{Bool, true, ◌&&◌, ◌||◌}
use mathlib.Core.List.{List, [], ◌∷◌, ◌++◌}
use native.Mathlib.Omega.{arith}
use nodelm.Base.Tests.{ltb, leb, eqb, if◌then◌else◌, Bool-cases}
use nodelm.Base.Lists.{length}
use nodelm.Base.Texts.{Text}

hex_digit : ℕ → ℕ
hex_digit n = if ltb n 10 then 48 + n else 87 + n

unfoldable pub hexdigest : List ℕ → Text
unfolding hex_digit
hexdigest [] = []
hexdigest (byte ∷ bytes) = hex_digit (byte / 16) ∷ hex_digit (byte % 16) ∷ hexdigest bytes

unfoldable pub from_bytes : ℕ → List ℕ → ℕ
from_bytes high [] = high
from_bytes high (byte ∷ bytes) = from_bytes (high * 256 + byte) bytes

unfoldable pub first_bytes : ℕ → List ℕ → List ℕ
first_bytes zero bytes = []
first_bytes (suc n) [] = []
first_bytes (suc n) (byte ∷ bytes) = byte ∷ first_bytes n bytes

-- The digits of `n`, with fuel above `n`.
decimal_fuel : ℕ → ℕ → Text
decimal_fuel zero n = []
decimal_fuel (suc fuel) n =
    let rest = decimal_fuel fuel (n / 10) ++ (48 + n % 10) ∷ [] in
    if ltb n 10 then (48 + n) ∷ [] else rest

unfoldable pub decimal : ℕ → Text
unfolding decimal_fuel
decimal n = decimal_fuel (suc n) n

decimal_fuel-enough : (f g n : ℕ) → n < f → n < g → decimal_fuel f n ≡ decimal_fuel g n
unfolding decimal_fuel
decimal_fuel-enough zero g n h k = absurd (omega arith)
decimal_fuel-enough (suc f) zero n h k = absurd (omega arith)
decimal_fuel-enough (suc f) (suc g) n h k = elim (Bool-cases (ltb n 10)) [
  | inl t ↦ rw t
  | inr t ↦ rw t (
      ap (λ s. s ++ (48 + n % 10) ∷ [])
        (decimal_fuel-enough f g (n / 10) (ground arith) (ground arith)))
]

-- The digits of a number below ten, and of any other from those of its tenth.
pub decimal_lem :
    (n : ℕ)
    → decimal n ≡ (if ltb n 10 then (48 + n) ∷ [] else decimal (n / 10) ++ (48 + n % 10) ∷ [])
unfolding decimal
decimal_lem n = elim (Bool-cases (ltb n 10)) [
  | inl t ↦ rw t
  | inr t ↦ rw t (
      ap (λ s. s ++ (48 + n % 10) ∷ [])
        (decimal_fuel-enough n (suc (n / 10)) (n / 10) (ground arith) (omega arith)))
]

is_lower_hex : ℕ → Bool
is_lower_hex c = (leb 48 c && leb c 57) || (leb 97 c && leb c 102)

all_lower_hex : Text → Bool
unfolding is_lower_hex
all_lower_hex [] = true
all_lower_hex (c ∷ s) = is_lower_hex c && all_lower_hex s

-- `len(value) == 64` and every character in "0123456789abcdef"
unfoldable pub is_digest : Text → Bool
unfolding all_lower_hex
is_digest value = eqb (length value) 64 && all_lower_hex value

-- Every byte is below 256.
abbrev pub AreBytes : List ℕ → Type 0
AreBytes [] = Unit {0}
AreBytes (byte ∷ bytes) = (byte < 256) × AreBytes bytes

hex_digit-lower : (n : ℕ) → n < 16 → is_lower_hex (hex_digit n) ≡ true
unfolding hex_digit is_lower_hex
hex_digit-lower n h = ground arith

all_lower_hex-hexdigest : (bytes : List ℕ) → AreBytes bytes → all_lower_hex (hexdigest bytes) ≡ true
unfolding all_lower_hex hexdigest
all_lower_hex-hexdigest [] h = refl
all_lower_hex-hexdigest (byte ∷ bytes) (b, h) =
    rw (hex_digit-lower (byte / 16) (omega arith))
      (rw (hex_digit-lower (byte % 16) (omega arith)) (all_lower_hex-hexdigest bytes h))

length-hexdigest : (bytes : List ℕ) → length (hexdigest bytes) ≡ 2 * length bytes
unfolding hexdigest
length-hexdigest [] = omega arith
length-hexdigest (byte ∷ bytes) = omega (arith, length-hexdigest bytes)

-- What SHA-256 gives has the form of a digest: 32 bytes.
pub hexdigest-is_digest :
    (bytes : List ℕ) → length bytes ≡ 32 → AreBytes bytes → is_digest (hexdigest bytes) ≡ true
unfolding is_digest
hexdigest-is_digest bytes n h =
    let two = length-hexdigest bytes in let all = all_lower_hex-hexdigest bytes h in ground arith
