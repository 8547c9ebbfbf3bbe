-- ===== src/Prelude/Bytes.antt =====
-- Fixed-width integers as bytes: encoding/binary's little-endian and big-endian forms.
use gokv.Prelude.{
  ℕ, zero, suc, ◌+◌, ◌*◌, ◌/◌, ◌%◌, ◌^◌, ◌<◌, ◌≡◌, refl, ap, ◌∙◌, List, [], ◌∷◌, arith, length,
  length-reverse, reverse, reverse-reverse, All,
}
use native.Mathlib.Nat.{pow-suc}

abbrev pub IsByte : ℕ → Type 0
IsByte b = b < 256

abbrev pub u32_mod : ℕ
u32_mod = 2 ^ 32

abbrev pub u64_mod : ℕ
u64_mod = 2 ^ 64

-- The low `k` bytes of `n`, lowest first.
unfoldable pub le : ℕ → ℕ → List ℕ
le zero n = []
le (suc k) n = (n % 256) ∷ le k (n / 256)

unfoldable pub un_le : List ℕ → ℕ
un_le [] = 0
un_le (b ∷ bs) = b + 256 * un_le bs

unfoldable pub be : ℕ → ℕ → List ℕ
unfolding le
be k n = reverse (le k n)

unfoldable pub un_be : List ℕ → ℕ
unfolding un_le
un_be bs = un_le (reverse bs)

pub length-le : (k n : ℕ) → length (le k n) ≡ k
unfolding le
length-le zero n = refl
length-le (suc k) n = ap suc (length-le k (n / 256))

pub le-IsByte : (k n : ℕ) → All IsByte (le k n)
unfolding le
le-IsByte zero n = tt
le-IsByte (suc k) n = (omega arith, le-IsByte k (n / 256))

-- Reading back what was written, for a number that fits.
pub un_le-le : (k n : ℕ) → n < 256 ^ k → un_le (le k n) ≡ n
unfolding le un_le
un_le-le zero n h = omega arith
un_le-le (suc k) n h = omega (arith, un_le-le k (n / 256) (omega (arith, pow-suc 256 k)))

pub un_be-be : (k n : ℕ) → n < 256 ^ k → un_be (be k n) ≡ n
unfolding be un_be
un_be-be k n h = rw reverse-reverse (unfold un_le le in un_le-le k n h)

pub length-be : (k n : ℕ) → length (be k n) ≡ k
unfolding be
length-be k n = length-reverse (le k n) ∙ length-le k n

pub un_le-lt : (bs : List ℕ) → All IsByte bs → un_le bs < 256 ^ length bs
unfolding un_le
un_le-lt [] h = omega arith
un_le-lt (b ∷ bs) h = omega (arith, un_le-lt bs h.1, pow-suc 256 (length bs), h.0)

-- Writing again what was read.
pub le-un_le : (bs : List ℕ) → All IsByte bs → le (length bs) (un_le bs) ≡ bs
unfolding le un_le
le-un_le [] h = refl
le-un_le (b ∷ bs) h =
    let low : (b + 256 * un_le bs) % 256 ≡ b = omega (arith, h.0) in
    let high : (b + 256 * un_le bs) / 256 ≡ un_le bs = omega (arith, h.0) in
    rw (low, high, le-un_le bs h.1)
