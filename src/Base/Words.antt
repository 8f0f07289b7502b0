-- ===== src/Base/Words.antt =====
-- Integers in network byte order: what memcpy of a value of cold/net/Endian.h leaves in a buffer.
use Prim.Native.Nat.{ℕ, zero, suc, ◌+◌, ◌*◌, ◌/◌, ◌%◌, ◌^◌, ◌<◌}
use mathlib.Core.Path.{◌≡◌, refl, ap}
use mathlib.Core.List.{List, [], ◌∷◌, ◌++◌}
use native.Mathlib.Omega.{arith}
use native.Mathlib.Nat.{pow-suc}
use libcold.Base.Lists.{length, length-append, Every-append}
use libcold.Base.Text.{AreBytes}

-- The n bytes of v, the most significant first.
unfoldable pub be_bytes : ℕ → ℕ → List ℕ
be_bytes zero v = []
be_bytes (suc n) v = be_bytes n (v / 256) ++ v % 256 ∷ []

-- Bytes read behind the number `acc`.
unfoldable pub be_fold : ℕ → List ℕ → ℕ
be_fold acc [] = acc
be_fold acc (b ∷ s) = be_fold (acc * 256 + b) s

unfoldable pub be_value : List ℕ → ℕ
unfolding be_fold
be_value s = be_fold 0 s

be_fold-append :
    (acc : ℕ) (s : List ℕ) (b : ℕ) → be_fold acc (s ++ b ∷ []) ≡ be_fold acc s * 256 + b
unfolding be_fold
be_fold-append acc [] b = refl
be_fold-append acc (c ∷ s) b = be_fold-append (acc * 256 + c) s b

pub length-be_bytes : (n v : ℕ) → length (be_bytes n v) ≡ n
unfolding be_bytes
length-be_bytes zero v = refl
length-be_bytes (suc n) v =
    omega (arith, length-append (be_bytes n (v / 256)) (v % 256 ∷ []), length-be_bytes n (v / 256))

pub be_bytes-AreBytes : (n v : ℕ) → AreBytes (be_bytes n v)
unfolding be_bytes
be_bytes-AreBytes zero v = tt
be_bytes-AreBytes (suc n) v =
    Every-append (λ b. b < 256) (be_bytes n (v / 256)) (v % 256 ∷ [])
      (be_bytes-AreBytes n (v / 256)) (omega arith)

-- Reading back what was written.
pub be_value-be_bytes : (n v : ℕ) → v < 256 ^ n → be_value (be_bytes n v) ≡ v
unfolding be_bytes be_value
be_value-be_bytes zero v h = omega arith
be_value-be_bytes (suc n) v h = omega (
  arith,
  be_fold-append 0 (be_bytes n (v / 256)) (v % 256),
  be_value-be_bytes n (v / 256) (omega (arith, pow-suc 256 n)),
)

be_fold-bound : (s : List ℕ) (acc m : ℕ) → AreBytes s → acc < m → be_fold acc s < m * 256 ^ length s
unfolding be_fold
be_fold-bound [] acc m h k = omega arith
be_fold-bound (b ∷ s) acc m h k = omega (
  arith,
  be_fold-bound s (acc * 256 + b) (m * 256) h.1 (omega arith),
  ap (λ (t : ℕ). m * t) (pow-suc 256 (length s)),
)

-- A value that was read fits its width.
pub be_value-bound : (s : List ℕ) → AreBytes s → be_value s < 256 ^ length s
unfolding be_value
be_value-bound s h = omega (arith, be_fold-bound s 0 1 h (omega arith))
