-- ===== src/Bloom/Bits.antt =====
-- utils/bloom.ts: single bits of the array.
use Prim.Native.Nat.{bit_and, bit_or}
use multi_tenant_project_man.Base.{
  ℕ, zero, suc, Bool, true, List, [], ◌∷◌, ◌/◌, ◌%◌, ◌^◌, ◌≤◌, ◌<◌, ◌≡◌, refl, arith, ◌||◌, ◌&&◌,
  not, nat_eq, leb, ltb, ap, if◌then◌else◌, length,
}
use multi_tenant_project_man.Bloom.{byte, set_byte, set_bit, test_bit}

-- A test of all numbers below a bound.
all_below : ℕ → (ℕ → Bool) → Bool
all_below zero p = true
all_below (suc n) p = p n && all_below n p

all_below_lem : (n : ℕ) (p : ℕ → Bool) (k : ℕ) → all_below n p ≡ true → k < n → p k ≡ true
unfolding all_below
all_below_lem zero p k h less = absurd (omega arith)
all_below_lem (suc n) p k h less = ground (arith, all_below_lem n p k)

-- A bit that is set in a byte is set, those that were set stay, and the result is a byte.
abbrev bit_is_set : (b i j : ℕ) → Bool
bit_is_set b i j =
    leb (bit_or b (2 ^ i)) 255
    && (not (nat_eq (bit_and (bit_or b (2 ^ i)) (2 ^ i)) 0)
        && (nat_eq (bit_and b (2 ^ j)) 0 || not (nat_eq (bit_and (bit_or b (2 ^ i)) (2 ^ j)) 0)))

all_bits : all_below 256 (λ b. all_below 8 (λ i. all_below 8 (λ j. bit_is_set b i j))) ≡ true
unfolding all_below
all_bits = refl

bit_lem : (b i j : ℕ) → b ≤ 255 → i < 8 → j < 8 → bit_is_set b i j ≡ true
bit_lem b i j small bit_i bit_j =
    let at_b = all_below_lem 256 _ b all_bits (omega arith) in
    let at_i = all_below_lem 8 _ i at_b bit_i in all_below_lem 8 _ j at_i bit_j

abbrev pub IsBytes : List ℕ → Type 0
IsBytes bits = (i : ℕ) → byte bits i ≤ 255

pub length-set_byte : (bits : List ℕ) (i v : ℕ) → length (set_byte bits i v) ≡ length bits
unfolding set_byte
length-set_byte [] i v = refl
length-set_byte (b ∷ bits) zero v = refl
length-set_byte (b ∷ bits) (suc i) v = ap suc (length-set_byte bits i v)

byte-set_byte :
    (bits : List ℕ) (i j v : ℕ)
    → byte (set_byte bits i v) j
      ≡ (if nat_eq i j && ltb i (length bits) then v % 256 else byte bits j)
unfolding byte set_byte
byte-set_byte [] i j v = ground arith
byte-set_byte (b ∷ bits) zero zero v = ground arith
byte-set_byte (b ∷ bits) zero (suc j) v = ground arith
byte-set_byte (b ∷ bits) (suc i) zero v = ground arith
byte-set_byte (b ∷ bits) (suc i) (suc j) v = ground (arith, byte-set_byte bits i j v)

module _ (bits : List ℕ) (i : ℕ) (bytes : IsBytes bits) where
  pub set_bit-IsBytes : IsBytes (set_bit i bits)
  unfolding set_bit
  set_bit-IsBytes j =
      ground
        (arith, byte-set_byte bits (i / 8) j (bit_or (byte bits (i / 8)) (2 ^ (i % 8))), bytes j)

  pub test_bit-set_bit : (j : ℕ) → test_bit j bits ≡ true → test_bit j (set_bit i bits) ≡ true
  unfolding set_bit test_bit
  test_bit-set_bit j h =
      let table =
        bit_lem (byte bits (i / 8)) (i % 8) (j % 8) (bytes (i / 8)) (omega arith) (omega arith) in
      ground (
        arith,
        table,
        byte-set_byte bits (i / 8) (j / 8) (bit_or (byte bits (i / 8)) (2 ^ (i % 8))),
      )

  pub test_bit_self : i / 8 < length bits → test_bit i (set_bit i bits) ≡ true
  unfolding set_bit test_bit
  test_bit_self inside =
      let table =
        bit_lem (byte bits (i / 8)) (i % 8) (i % 8) (bytes (i / 8)) (omega arith) (omega arith) in
      ground (
        arith,
        table,
        byte-set_byte bits (i / 8) (i / 8) (bit_or (byte bits (i / 8)) (2 ^ (i % 8))),
      )
