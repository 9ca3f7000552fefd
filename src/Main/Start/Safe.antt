-- ===== src/Main/Start/Safe.antt =====
-- The files that targetd/main.py takes for TLS.
use targetd.Prelude.{
  ◌≡◌, refl, arith, ℕ, zero, suc, ◌<◌, true, false, ◌==◌, ==_iff, Option, none, some, bit_and,
}
use targetd.Prelude.Bits.{bit, bit-bit_and, bit-zero, bit_and-pow_iff}
use targetd.Main.Start.{Stat, is_regular, is_private, verify_ssl_file}

-- Nobody but the owner has a permission, and the owner may read.
abbrev pub IsPrivate : ℕ → Type 0
IsPrivate mode = ((k : ℕ) → k < 6 → bit k mode ≡ false) × (bit 8 mode ≡ true)

low_bits : (k : ℕ) → k < 6 → bit k 0o077 ≡ true
unfolding bit
low_bits zero h = refl
low_bits (suc zero) h = refl
low_bits (suc (suc zero)) h = refl
low_bits (suc (suc (suc zero))) h = refl
low_bits (suc (suc (suc (suc zero)))) h = refl
low_bits (suc (suc (suc (suc (suc zero))))) h = refl
low_bits (suc (suc (suc (suc (suc (suc k)))))) h = absurd (omega arith)

is_private-IsPrivate : (mode : ℕ) → is_private mode ≡ true → IsPrivate mode
is_private-IsPrivate mode h = (
  λ k l.
      ground
        (arith, bit-bit_and k mode 0o077, low_bits k l, bit-zero k, masked (ground (arith, h))),
  ground (arith, h, bit_and-pow_iff mode 8),
)
  where
    masked : (bit_and mode 0o077 == 0) ≡ true → bit_and mode 0o077 ≡ 0
    masked e = (==_iff (bit_and mode 0o077) 0).0 e

-- A regular file of root that only root can use.
abbrev pub IsSafe : Stat → Type 0
IsSafe ss = (is_regular ss.st_mode ≡ true) × (ss.st_uid ≡ 0) × IsPrivate ss.st_mode

pub verified-IsSafe :
    (o : Option Stat) → verify_ssl_file o ≡ true → (ss : Stat) × (o ≡ some ss) × IsSafe ss
unfolding verify_ssl_file
verified-IsSafe none h = cc
verified-IsSafe (some ss) h = (
  ss,
  refl,
  (
    ground (arith, h),
    (==_iff ss.st_uid 0).0 (ground (arith, h)),
    is_private-IsPrivate ss.st_mode (ground (arith, h)),
  ),
)
