-- ===== src/Common/Bytes.antt =====
-- Unsigned integers as big-endian bytes: the standard library's `to_be_bytes` and
-- `from_be_bytes`. A byte is a number below 256.
use Prim.Native.Nat.{ℕ, zero, suc, ◌+◌, ◌*◌, ◌/◌, ◌%◌, ◌^◌, ◌<◌}
use mathlib.Core.Path.{◌≡◌, refl, sym, ap, ◌∙◌}
use mathlib.Core.List.{List, [], ◌∷◌, ◌++◌}
use native.Mathlib.Omega.{arith}
use native.Mathlib.Nat.{pow-suc}
use lockframe.Common.Lists.{length, length-append, All, take, drop, take_left, drop_left}

abbrev pub IsByte : ℕ → Type 0
IsByte b = b < 256

-- The width is counted in bytes.
unfoldable pub to_be_bytes : ℕ → ℕ → List ℕ
to_be_bytes zero n = []
to_be_bytes (suc k) n = to_be_bytes k (n / 256) ++ n % 256 ∷ []

from_be : ℕ → List ℕ → ℕ
from_be acc [] = acc
from_be acc (b ∷ bs) = from_be (acc * 256 + b) bs

unfoldable pub from_be_bytes : List ℕ → ℕ
unfolding from_be
from_be_bytes bs = from_be 0 bs

pub length-to_be_bytes : (k n : ℕ) → length (to_be_bytes k n) ≡ k
unfolding to_be_bytes
length-to_be_bytes zero n = refl
length-to_be_bytes (suc k) n =
    omega (
      arith,
      length-append (to_be_bytes k (n / 256)) (n % 256 ∷ []),
      length-to_be_bytes k (n / 256),
    )

append-IsByte : (bs cs : List ℕ) → All IsByte bs → All IsByte cs → All IsByte (bs ++ cs)
append-IsByte [] cs before after = after
append-IsByte (b ∷ bs) cs (this, before) after = (this, append-IsByte bs cs before after)

pub to_be_bytes-IsByte : (k n : ℕ) → All IsByte (to_be_bytes k n)
unfolding to_be_bytes
to_be_bytes-IsByte zero n = tt
to_be_bytes-IsByte (suc k) n =
    append-IsByte (to_be_bytes k (n / 256)) _ (to_be_bytes-IsByte k (n / 256)) (omega arith, tt)

from_be_snoc :
    (acc : ℕ) (bs : List ℕ) (b : ℕ) → from_be acc (bs ++ b ∷ []) ≡ from_be acc bs * 256 + b
unfolding from_be
from_be_snoc acc [] b = refl
from_be_snoc acc (x ∷ bs) b = from_be_snoc (acc * 256 + x) bs b

-- Reading back what was written gives the number, if it fits the width.
pub from_be_bytes-to_be_bytes : (k n : ℕ) → n < 256 ^ k → from_be_bytes (to_be_bytes k n) ≡ n
unfolding from_be_bytes to_be_bytes
from_be_bytes-to_be_bytes zero n h = omega arith
from_be_bytes-to_be_bytes (suc k) n h =
    from_be_snoc 0 (to_be_bytes k (n / 256)) (n % 256)
    ∙ omega
        (arith, pow-suc 256 k, from_be_bytes-to_be_bytes k (n / 256) (omega (arith, pow-suc 256 k)))

pub to_be_bytes-injective :
    (k m n : ℕ) → m < 256 ^ k → n < 256 ^ k → to_be_bytes k m ≡ to_be_bytes k n → m ≡ n
to_be_bytes-injective k m n p q e =
    sym (from_be_bytes-to_be_bytes k m p) ∙ ap from_be_bytes e ∙ from_be_bytes-to_be_bytes k n q

-- A number written before other bytes can be told apart.
pub to_be_bytes-append-injective :
    (k m n : ℕ) (xs ys : List ℕ)
    → m < 256 ^ k
    → n < 256 ^ k
    → to_be_bytes k m ++ xs ≡ to_be_bytes k n ++ ys
    → (m ≡ n) × (xs ≡ ys)
to_be_bytes-append-injective k m n xs ys p q e = (
  to_be_bytes-injective k m n p q (
      sym (take_left k (to_be_bytes k m) xs (length-to_be_bytes k m))
      ∙ ap (take k) e
      ∙ take_left k (to_be_bytes k n) ys (length-to_be_bytes k n)),
  sym (drop_left k (to_be_bytes k m) xs (length-to_be_bytes k m))
      ∙ ap (drop k) e
      ∙ drop_left k (to_be_bytes k n) ys (length-to_be_bytes k n),
)
