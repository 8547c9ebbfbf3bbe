-- ===== src/Prelude/Bits.antt =====
-- Facts about the bits of one byte, by a table of its 256 values.
use gokv.Prelude.{ℕ, zero, suc, ◌<◌, ◌≡◌, Bool, true, ◌&&◌, arith}

-- Whether the first `n` entries of a table are all set.
unfoldable pub table : (ℕ → Bool) → ℕ → Bool
table entry (suc n) = table entry n && entry n
table entry zero = true

pub entry-table :
    (entry : ℕ → Bool) (byte n : ℕ) → byte < n → table entry n ≡ true → entry byte ≡ true
unfolding table
entry-table entry byte (suc n) below full = ground (arith, entry-table entry byte n)
entry-table entry byte zero below full = absurd (omega arith)
