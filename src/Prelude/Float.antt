-- ===== src/Prelude/Float.antt =====
-- `int(n / d * 1000)` in binary64, to the nearest with ties to even, as Python computes it for naturals
-- n with n / d below 2^53.
use Prim.Native.Nat.{ℕ, zero, suc, ◌+◌, ◌*◌, ◌/◌, ◌%◌, ◌^◌}
use neuro_voice.Prelude.Tests.{ltb, leb, if◌then◌else◌}

-- The natural nearest to n / d.
pub nearest : ℕ → ℕ → ℕ
nearest n d =
    let q = n / d in
    let r = n % d in if ltb (2 * r) d then q else if ltb d (2 * r) then q + 1 else q + q % 2

-- How often n is doubled until n / d has 53 bits.
pub doublings : ℕ → ℕ → ℕ → ℕ
doublings zero n d = 0
doublings (suc fuel) n d =
    let rest = doublings fuel (n * 2) d in if leb (2 ^ 52 * d) n then 0 else suc rest

-- How many of the last bits of p are lost when it is cut to 53.
pub lost_bits : ℕ → ℕ → ℕ
lost_bits zero p = 0
lost_bits (suc fuel) p = let rest = lost_bits fuel (p / 2) in if ltb p (2 ^ 53) then 0 else suc rest

-- The quotient is `nearest (n * 2 ^ s) d / 2 ^ s`, and its product with 1000 is rounded again; the fuel
-- is enough for d below 2^76, and for a product below 2^63.
unfoldable pub thousandths : ℕ → ℕ → ℕ
unfolding nearest doublings lost_bits
thousandths n d =
    let s = doublings 128 n d in
    let p = nearest (n * 2 ^ s) d * 1000 in
    let t = lost_bits 11 p in nearest p (2 ^ t) * 2 ^ t / 2 ^ s
