-- ===== src/Bloom/Filter.antt =====
-- utils/bloom.ts: a Bloom filter forgets nothing that was added.
use Prim.Native.String
use Prim.Native.String.append
use Prim.Native.Char.{code}
use multi_tenant_project_man.Base.{
  ℕ, zero, suc, String, true, false, List, [], ◌∷◌, ◌+◌, ◌*◌, ◌/◌, ◌==◌, ◌≤◌, ◌<◌, ◌≡◌, ◌≢◌, refl,
  sym, ap, arith, nat_eq, leb, eq_iff, Bool-cases, if◌then◌else◌, length, All, ◌⊎◌, inl, inr, ◌∙◌,
}
use multi_tenant_project_man.Totp.{codes}
use multi_tenant_project_man.Bloom.{
  entity_key, Digests, BloomFilter, bloom_filter, zeros, byte, indexes_from, get_indexes, set_bit,
  test_bit, set_bits, test_bits, add, has, clear, register, definitely_does_not_exist,
}
use multi_tenant_project_man.Bloom.Bits.{
  IsBytes, length-set_byte, set_bit-IsBytes, test_bit-set_bit, test_bit_self,
}

-- Every position below the size has a bit.
pub record IsWellFormed (f : BloomFilter) : Type 0 where
  pub nonempty : 1 ≤ f.size
  pub covered : f.size ≤ 8 * length f.bit_array
  pub bytes : IsBytes f.bit_array

length-zeros : (n : ℕ) → length (zeros n) ≡ n
unfolding zeros
length-zeros zero = refl
length-zeros (suc n) = omega (arith, length-zeros n)

byte-zeros : (n i : ℕ) → byte (zeros n) i ≡ 0
unfolding zeros byte
byte-zeros zero i = refl
byte-zeros (suc n) zero = refl
byte-zeros (suc n) (suc i) = byte-zeros n i

pub new_IsWellFormed :
    (optimal_size optimal_count : ℕ) → IsWellFormed (bloom_filter optimal_size optimal_count)
unfolding bloom_filter
new_IsWellFormed optimal_size optimal_count = record {
  nonempty = ground arith;
  covered =
      ground (arith, length-zeros ((if leb optimal_size 1024 then 1024 else optimal_size + 7) / 8));
  bytes = λ i.
      ground (arith, byte-zeros ((if leb optimal_size 1024 then 1024 else optimal_size + 7) / 8) i);
}

length-set_bit : (i : ℕ) (bits : List ℕ) → length (set_bit i bits) ≡ length bits
unfolding set_bit
length-set_bit i bits = length-set_byte bits (i / 8) _

pub length-set_bits : (is bits : List ℕ) → length (set_bits is bits) ≡ length bits
unfolding set_bits
length-set_bits [] bits = refl
length-set_bits (i ∷ is) bits = length-set_bits is (set_bit i bits) ∙ length-set_bit i bits

set_bits-IsBytes : (is bits : List ℕ) → IsBytes bits → IsBytes (set_bits is bits)
unfolding set_bits
set_bits-IsBytes [] bits bytes = bytes
set_bits-IsBytes (i ∷ is) bits bytes =
    set_bits-IsBytes is (set_bit i bits) (set_bit-IsBytes bits i bytes)

test_bit-set_bits :
    (is bits : List ℕ) (j : ℕ)
    → IsBytes bits
    → test_bit j bits ≡ true
    → test_bit j (set_bits is bits) ≡ true
unfolding set_bits
test_bit-set_bits [] bits j bytes h = h
test_bit-set_bits (i ∷ is) bits j bytes h =
    test_bit-set_bits is (set_bit i bits) j (set_bit-IsBytes bits i bytes)
      (test_bit-set_bit bits i bytes j h)

test_bits-set_bits :
    (is js bits : List ℕ)
    → IsBytes bits
    → test_bits js bits ≡ true
    → test_bits js (set_bits is bits) ≡ true
unfolding test_bits
test_bits-set_bits is [] bits bytes h = refl
test_bits-set_bits is (j ∷ js) bits bytes h =
    ground (arith, test_bit-set_bits is bits j bytes, test_bits-set_bits is js bits bytes)

test_bits_self :
    (is bits : List ℕ)
    → IsBytes bits
    → All (λ i. i < 8 * length bits) is
    → test_bits is (set_bits is bits) ≡ true
unfolding test_bits set_bits
test_bits_self [] bits bytes inside = refl
test_bits_self (i ∷ is) bits bytes (here, there) =
    let set = set_bit-IsBytes bits i bytes in
    let first = test_bit_self bits i bytes (omega arith) in
    let rest = test_bits_self is (set_bit i bits) set (rw (length-set_bit i bits) there) in
    ground (arith, test_bit-set_bits is (set_bit i bits) i set first, rest)

indexes_in_range :
    (h1 h2 size rounds i bound : ℕ)
    → 1 ≤ size
    → size ≤ bound
    → All (λ index. index < bound) (indexes_from h1 h2 size rounds i)
unfolding indexes_from
indexes_in_range h1 h2 size zero i bound some_bit covered = tt
indexes_in_range h1 h2 size (suc rounds) i bound some_bit covered =
    (grind arith, indexes_in_range h1 h2 size rounds (i + 1) bound some_bit covered)

module _ (d : Digests) (f : BloomFilter) (well_formed : IsWellFormed f) where
  pub add-IsWellFormed : (x : String) → IsWellFormed (add d x f)
  unfolding add
  add-IsWellFormed x = elim (Bool-cases (x == "")) [
    | inl empty ↦ rw empty well_formed
    | inr given ↦ rw given (record {
      nonempty = well_formed.nonempty;
      covered = omega (arith, well_formed.covered, length-set_bits (get_indexes d f x) f.bit_array);
      bytes = set_bits-IsBytes (get_indexes d f x) f.bit_array well_formed.bytes;
    })
  ]

  -- What is added is found, and what was found is still found.
  pub has-add : (x y : String) → x ≢ "" → (x ≡ y) ⊎ (has d y f ≡ true) → has d y (add d x f) ≡ true
  unfolding add has get_indexes
  has-add x y given (inl same) =
      let h2 = if nat_eq (d.md5_word x) 0 then 1 else d.md5_word x in
      let inside =
        indexes_in_range (d.sha256_word x) h2 f.size f.hash_count 0 (8 * length f.bit_array)
          well_formed.nonempty well_formed.covered in
      let found =
        test_bits_self (indexes_from (d.sha256_word x) h2 f.size f.hash_count 0) f.bit_array
          well_formed.bytes inside in
      ground (arith, found, eq_iff x "")
  has-add x y given (inr before) = ground (
    arith,
    eq_iff x "",
    test_bits-set_bits (get_indexes d f x) (get_indexes d f y) f.bit_array well_formed.bytes,
  )

pub clear-IsWellFormed : (f : BloomFilter) → IsWellFormed f → IsWellFormed (clear f)
unfolding clear
clear-IsWellFormed f well_formed = record {
  nonempty = well_formed.nonempty;
  covered = omega (arith, well_formed.covered, length-zeros (length f.bit_array));
  bytes = λ i. omega (arith, byte-zeros (length f.bit_array) i);
}

entity_key_nonempty : (entity_type entity_id : String) → entity_key entity_type entity_id ≢ ""
entity_key_nonempty String.[] entity_id same =
    let same_codes : 58 ∷ codes (String.◌++◌ "" entity_id) ≡ [] =
      ap codes (
        sym (append.cons ":" "" entity_id) ∙ sym (append.nil (String.◌++◌ ":" entity_id)) ∙ same) in
    absurd cc
entity_key_nonempty (String.◌∷◌ c s) entity_id same =
    let rest = String.◌++◌ s (String.◌++◌ ":" entity_id) in
    let same_codes : code c ∷ codes rest ≡ [] =
      ap codes (sym (append.cons c s (String.◌++◌ ":" entity_id)) ∙ same) in
    absurd cc

-- For a filter whose bits cover its size, an entity with an id that is not empty is not called
-- missing after it was registered, and one that was not called missing is not called so after
-- any other registration.
pub register_known :
    (d : Digests) (f : BloomFilter)
    → IsWellFormed f
    → (entity_type entity_id later_type later_id : String) → entity_id ≢ ""
    → (definitely_does_not_exist d entity_type entity_id (register d entity_type entity_id f)
        ≡ false)
      × (definitely_does_not_exist d entity_type entity_id f ≡ false
          → definitely_does_not_exist d entity_type entity_id (register d later_type later_id f)
            ≡ false)
unfolding register definitely_does_not_exist
register_known d f well_formed entity_type entity_id later_type later_id given =
    let key = entity_key_nonempty entity_type entity_id in
    let later_key = entity_key_nonempty later_type later_id in
    let known =
      has-add d f well_formed (entity_key entity_type entity_id) (entity_key entity_type entity_id)
        key in
    let kept =
      has-add d f well_formed (entity_key later_type later_id) (entity_key entity_type entity_id)
        later_key in
    (
      ground (arith, known (inl refl), eq_iff entity_id ""),
      λ before. elim (Bool-cases (has d (entity_key entity_type entity_id) f)) [
        | inl there ↦ ground (arith, kept (inr there), eq_iff entity_id "")
        | inr absent ↦ absurd (ground (arith, eq_iff entity_id ""))
      ],
    )
