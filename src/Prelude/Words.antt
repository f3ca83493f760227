-- ===== src/Prelude/Words.antt =====
-- `uint64_t` counters. SQLite's signed 64-bit integers are read back through the same type, so a
-- column that is counted up and down is modelled by its bit pattern too.
use Prim.Native.Nat.{ℕ, ◌+◌, ◌-◌, ◌%◌, ◌^◌, ◌<◌, ◌≤◌}
use mathlib.Core.Path.{◌≡◌}
use native.Mathlib.Omega.{arith}

abbrev pub u64_mod : ℕ
u64_mod = 2 ^ 64

-- ++n and --n, with their wrap-around.
pub inc64 : ℕ → ℕ
inc64 n = (n + 1) % u64_mod

pub dec64 : ℕ → ℕ
dec64 n = (n + u64_mod - 1) % u64_mod

pub inc64_lem : (n : ℕ) → inc64 n ≡ (n + 1) % 2 ^ 64
unfolding inc64
inc64_lem n = omega arith

pub dec64-inc64 : (n : ℕ) → n < u64_mod → dec64 (inc64 n) ≡ n
unfolding inc64 dec64
dec64-inc64 n h = omega arith

pub inc64-eq : (n : ℕ) → n + 1 < u64_mod → inc64 n ≡ n + 1
unfolding inc64
inc64-eq n h = omega arith

-- A counter that holds a count modulo 2^64 follows the count.
pub inc64-mod : (n : ℕ) → inc64 (n % u64_mod) ≡ (n + 1) % u64_mod
unfolding inc64
inc64-mod n = omega arith

pub dec64-mod : (n : ℕ) → 1 ≤ n → dec64 (n % u64_mod) ≡ (n - 1) % u64_mod
unfolding dec64
dec64-mod n h = omega arith
