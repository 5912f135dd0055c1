-- ===== src/Bloom.antt =====
-- utils/bloom.ts: Bloom filters, the denylist of access tokens and the guard of the caches. A
-- Uint8Array is the list of its bytes.
pub mod Bits
pub mod Filter
pub mod Denylist
use Prim.Native.String
use Prim.Native.Nat.{bit_and, bit_or}
use multi_tenant_project_man.Base.{
  ℕ, zero, suc, String, Bool, true, false, Option, none, some, List, [], ◌∷◌, ◌+◌, ◌*◌, ◌/◌, ◌%◌,
  ◌^◌, ◌==◌, ◌||◌, ◌&&◌, not, nat_eq, leb, ltb, if◌then◌else◌, length, any,
}

-- The words of the two digests of a text: `readUInt32BE(0)` of its SHA-256 and of its MD5.
pub record Digests : Type 0 where
  pub sha256_word : String → ℕ
  pub md5_word : String → ℕ

pub record BloomFilter : Type 0 where
  pub size : ℕ
  pub hash_count : ℕ
  pub bit_array : List ℕ

unfoldable pub zeros : ℕ → List ℕ
zeros zero = []
zeros (suc n) = 0 ∷ zeros n

-- The constructor. The logarithms give the optimal size and count of hashes, which come in here.
unfoldable pub bloom_filter : (optimal_size optimal_count : ℕ) → BloomFilter
bloom_filter optimal_size optimal_count =
    let size = if leb optimal_size 1024 then 1024 else optimal_size in
    record {
      size = size;
      hash_count =
          if leb optimal_count 1 then 1 else if leb 16 optimal_count then 16 else optimal_count;
      bit_array = zeros ((size + 7) / 8);
    }

-- `bitArray[index] ?? 0`
unfoldable pub byte : List ℕ → ℕ → ℕ
byte [] index = 0
byte (b ∷ bs) zero = b
byte (b ∷ bs) (suc index) = byte bs index

-- `bitArray[index] = value`: a byte is kept of the value, and a write beyond the end is ignored.
unfoldable pub set_byte : List ℕ → ℕ → ℕ → List ℕ
set_byte [] index value = []
set_byte (b ∷ bs) zero value = value % 256 ∷ bs
set_byte (b ∷ bs) (suc index) value = b ∷ set_byte bs index value

-- The loop of `getIndexes`, from round `i` on.
unfoldable pub indexes_from : (h1 h2 size rounds i : ℕ) → List ℕ
indexes_from h1 h2 size zero i = []
indexes_from h1 h2 size (suc rounds) i =
    (h1 + i * h2) % 2 ^ 32 % size ∷ indexes_from h1 h2 size rounds (i + 1)

unfoldable pub get_indexes : Digests → BloomFilter → String → List ℕ
unfolding indexes_from
get_indexes d f item =
    indexes_from (d.sha256_word item) (if nat_eq (d.md5_word item) 0 then 1 else d.md5_word item)
      f.size f.hash_count 0

-- The bodies of the loops of `add` and `has`.
unfoldable pub set_bit : ℕ → List ℕ → List ℕ
unfolding byte set_byte
set_bit index bits = set_byte bits (index / 8) (bit_or (byte bits (index / 8)) (2 ^ (index % 8)))

unfoldable pub test_bit : ℕ → List ℕ → Bool
unfolding byte
test_bit index bits = not (nat_eq (bit_and (byte bits (index / 8)) (2 ^ (index % 8))) 0)

unfoldable pub set_bits : List ℕ → List ℕ → List ℕ
unfolding set_bit
set_bits [] bits = bits
set_bits (index ∷ indexes) bits = set_bits indexes (set_bit index bits)

unfoldable pub test_bits : List ℕ → List ℕ → Bool
unfolding test_bit
test_bits [] bits = true
test_bits (index ∷ indexes) bits = if test_bit index bits then test_bits indexes bits else false

unfoldable pub add : Digests → String → BloomFilter → BloomFilter
unfolding get_indexes set_bits
add d item f =
    if item == "" then f else record f { bit_array = set_bits (get_indexes d f item) f.bit_array }

unfoldable pub has : Digests → String → BloomFilter → Bool
unfolding get_indexes test_bits
has d item f = if item == "" then false else test_bits (get_indexes d f item) f.bit_array

-- `bitArray.fill(0)`
unfoldable pub clear : BloomFilter → BloomFilter
unfolding zeros
clear f = record f { bit_array = zeros (length f.bit_array) }

-- The process's part of TokenRevocationBloomService: the filter and the set of the revoked ids.
pub record Revoked : Type 0 where
  pub bloom : BloomFilter
  pub authoritative_set : List String

-- `authoritativeSet.has(jti)`
abbrev pub contains : List String → String → Bool
contains ids jti = any (λ id. id == jti) ids

-- `authoritativeSet.add(jti)`
abbrev pub insert : String → List String → List String
insert jti ids = if contains ids jti then ids else jti ∷ ids

abbrev pub remember : Digests → String → Revoked → Revoked
remember d jti s = record {
  bloom = add d jti s.bloom;
  authoritative_set = insert jti s.authoritative_set;
}

-- `revoke`: the new state, and the lifetime of the key in Redis, if there is one to set.
unfoldable pub revoke : Digests → String → (ttl_seconds : ℕ) → Revoked → Option ℕ × Revoked
revoke d jti ttl_seconds s =
    if jti == ""
    then (none, s)
    else (some (if leb ttl_seconds 1 then 1 else ttl_seconds), remember d jti s)

-- `isRevoked`
unfoldable pub is_revoked : Digests → String → Revoked → Bool
is_revoked d jti s =
    if jti == ""
    then false
    else if not (has d jti s.bloom)
    then false
    else contains s.authoritative_set jti

-- `isRevokedDistributed`, by what `redis.exists` answers, none if it fails; the result is none where
-- the error is thrown on.
unfoldable pub is_revoked_distributed :
    Digests → String → (exists : Option Bool) → Revoked → Option Bool × Revoked
unfolding is_revoked
is_revoked_distributed d jti exists s =
    if jti == ""
    then (some false, s)
    else if is_revoked d jti s
    then (some true, s)
    else elim exists [
      | none ↦ (none, s)
      | some e ↦ if e then (some true, remember d jti s) else (some false, s)
    ]

-- `clearLocalState`
unfoldable pub clear_local_state : Revoked → Revoked
unfolding clear
clear_local_state s = record { bloom = clear s.bloom; authoritative_set = [] }

-- `prune`
unfoldable pub prune : Revoked → Revoked
unfolding clear_local_state
prune s = if ltb 200000 (length s.authoritative_set) then clear_local_state s else s

-- EntityCacheBloomService
abbrev pub entity_key : (entity_type entity_id : String) → String
entity_key entity_type entity_id = String.◌++◌ entity_type (String.◌++◌ ":" entity_id)

unfoldable pub register : Digests → (entity_type entity_id : String) → BloomFilter → BloomFilter
unfolding add
register d entity_type entity_id f =
    if entity_id == "" then f else add d (entity_key entity_type entity_id) f

unfoldable pub definitely_does_not_exist :
    Digests → (entity_type entity_id : String) → BloomFilter → Bool
unfolding has
definitely_does_not_exist d entity_type entity_id f =
    if entity_id == "" then true else not (has d (entity_key entity_type entity_id) f)
