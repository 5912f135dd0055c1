-- ===== src/Totp.antt =====
-- utils/totp.ts: time-based one-time codes. Texts are read as lists of character codes, buffers are
-- lists of bytes.
pub mod Window
use Prim.Native.Char.{code}
use multi_tenant_project_man.Base.{
  ℕ, zero, suc, String, Bool, true, false, Option, none, some, List, [], ◌∷◌, ◌++◌, ◌+◌, ◌-◌, ◌*◌,
  ◌/◌, ◌%◌, ◌^◌, ◌==◌, ◌&&◌, ◌||◌, not, if◌then◌else◌, leb, nat_eq, length,
}
use multi_tenant_project_man.World.{Runtime}

-- The character codes of a text.
abbrev pub codes : String → List ℕ
codes String.[] = []
codes (String.◌∷◌ c s) = code c ∷ codes s

-- `s === t` on character codes
unfoldable pub same_codes : List ℕ → List ℕ → Bool
same_codes [] [] = true
same_codes (x ∷ xs) (y ∷ ys) = nat_eq x y && same_codes xs ys
same_codes _ _ = false

-- A character of the Base32 alphabet, `A` to `Z` and `2` to `7`, as its value.
unfoldable pub base32_value : ℕ → Option ℕ
base32_value c =
    if leb b'A' c && leb c b'Z'
    then some (c - b'A')
    else if leb b'2' c && leb c b'7'
    then some (c - b'2' + 26)
    else none

-- One round of the loop of `base32Decode`: `value` is a 32-bit word, of which `bits` are pending.
-- Other characters have been removed.
unfoldable pub decode_from : (value bits : ℕ) → List ℕ → List ℕ
unfolding base32_value
decode_from value bits [] = []
decode_from value bits (c ∷ cs) = elim (base32_value c) [
  | none ↦ decode_from value bits cs
  | some v ↦
      let next = (value * 32 + v) % 2 ^ 32 in
      let rest = decode_from next (if leb 8 (bits + 5) then bits + 5 - 8 else bits + 5) cs in
      if leb 8 (bits + 5) then next / 2 ^ (bits + 5 - 8) % 256 ∷ rest else rest
]

unfoldable pub base32_decode : Runtime → String → List ℕ
unfolding decode_from
base32_decode rt input = decode_from 0 0 (rt.upper_codes input)

-- The `n` bytes of a number, the highest first.
unfoldable pub big_endian : (n : ℕ) → ℕ → List ℕ
big_endian zero x = []
big_endian (suc n) x = x / 256 ^ n % 256 ∷ big_endian n x

-- `buffer[i] ?? 0`
unfoldable pub byte_at : List ℕ → ℕ → ℕ
byte_at [] i = 0
byte_at (b ∷ bs) zero = b
byte_at (b ∷ bs) (suc i) = byte_at bs i

-- `toString().padStart(6, '0')` of a number below a million
unfoldable pub six_digits : ℕ → List ℕ
six_digits n =
    (n / 100000 % 10 + 48)
    ∷ (n / 10000 % 10 + 48)
    ∷ (n / 1000 % 10 + 48)
    ∷ (n / 100 % 10 + 48)
    ∷ (n / 10 % 10 + 48)
    ∷ (n % 10 + 48)
    ∷ []

-- `hmac` truncated at `offset`: 31 bits.
unfoldable pub truncated : List ℕ → ℕ → ℕ
unfolding byte_at
truncated hmac offset =
    byte_at hmac offset % 128 * 2 ^ 24
    + byte_at hmac (offset + 1) % 256 * 2 ^ 16
    + byte_at hmac (offset + 2) % 256 * 2 ^ 8
    + byte_at hmac (offset + 3) % 256

-- `generateHOTP`; the counter is that of a signed 64-bit word.
unfoldable pub generate_hotp : Runtime → List ℕ → (counter : ℕ) → List ℕ
unfolding big_endian byte_at truncated six_digits
generate_hotp rt secret counter =
    let hmac = rt.hmac_sha1 secret (big_endian 8 (counter % 2 ^ 64)) in
    let offset = byte_at hmac (length hmac - 1) % 16 in six_digits (truncated hmac offset % 1000000)

-- `/^\d+$/`, of a text that is not empty
unfoldable pub all_digits : List ℕ → Bool
all_digits [] = true
all_digits (c ∷ cs) = leb b'0' c && (leb c b'9' && all_digits cs)

-- `generateTotpCode` at a time in seconds
unfoldable pub generate_totp_code : Runtime → String → ℕ → List ℕ
generate_totp_code rt secret now = generate_hotp rt (base32_decode rt secret) (now / 30)

-- The loop of `verifyTotpCode` over `delta`, from `first` on for `rounds` rounds; the counter
-- `currentStep + delta` is shifted by 2 ^ 64 lest it be negative.
unfoldable pub any_step : Runtime → List ℕ → List ℕ → (rounds first : ℕ) → Bool
any_step rt secret token zero first = false
any_step rt secret token (suc rounds) first =
    same_codes (generate_hotp rt secret first) token || any_step rt secret token rounds (first + 1)

-- `verifyTotpCode` with a window of one step of 30 seconds and 6 digits, at a time in seconds
unfoldable pub verify_totp_code : Runtime → (now : ℕ) → (secret token : String) → Bool
unfolding all_digits
verify_totp_code rt now secret token =
    if (secret == "" || token == "")
      || (not (nat_eq (length (codes token)) 6) || not (all_digits (codes token)))
    then false
    else any_step rt (base32_decode rt secret) (codes token) 3 (now / 30 + 2 ^ 64 - 1)
