-- ===== src/Encryption.antt =====
-- utils/encryption.ts: the payload of an encrypted token. Bytes are natural numbers. The cipher of
-- node:crypto, the random vector and base64 are parameters.
use mathlib.Core.List.{append_assoc}
use multi_tenant_project_man.Base.{
  ℕ, suc, zero, String, false, Option, none, some, List, [], ◌∷◌, ◌++◌, ◌≡◌, ◌≤◌, ◌+◌, refl, ◌==◌,
  eq_iff, arith, ltb, ap, Bool-cases, sym, ◌∙◌, inl, inr, length, length-append, if◌then◌else◌,
}
use multi_tenant_project_man.Base.Lists.{take, drop}

-- What node:crypto and Buffer compute, for the key of the configuration.
pub record Cipher : Type 0 where
  -- `createCipheriv('aes-256-gcm', key, iv)` on the UTF-8 of a text: the bytes and the tag
  pub encrypt : (iv : List ℕ) → String → List ℕ × List ℕ
  -- `createDecipheriv` with the tag, and none where `final()` throws
  pub decrypt : (iv tag bytes : List ℕ) → Option String
  -- `buffer.toString('base64')` and `Buffer.from(text, 'base64')`
  pub to_base64 : List ℕ → String
  pub from_base64 : String → List ℕ

-- What is documented of them, for a vector and a text: decryption undoes encryption, a tag has 16
-- bytes, and base64 is undone.
pub record IsCipher (c : Cipher) (iv : List ℕ) (text : String) : Type 0 where
  -- Decrypting an encrypted token gives the token back, the empty one included, for every
  -- vector of 12 bytes. Decryption is taken to undo encryption, a tag to have 16 bytes, and
  -- base64 to be undone.
  pub decrypt-encrypt : c.decrypt iv (c.encrypt iv text).1 (c.encrypt iv text).0 ≡ some text
  pub length-tag : length (c.encrypt iv text).1 ≡ 16
  pub from_base64-to_base64 :
      let bytes = iv ++ ((c.encrypt iv text).1 ++ (c.encrypt iv text).0) in
      c.from_base64 (c.to_base64 bytes) ≡ bytes
  pub from_base64-empty : c.from_base64 "" ≡ []

abbrev pub iv_length : ℕ
iv_length = 12

abbrev pub auth_tag_length : ℕ
auth_tag_length = 16

-- `encryptToken`, with the random vector
unfoldable pub encrypt_token : Cipher → (iv : List ℕ) → String → String
encrypt_token c iv plaintext =
    if plaintext == ""
    then ""
    else let (encrypted, auth_tag) = c.encrypt iv plaintext in
      c.to_base64 (iv ++ (auth_tag ++ encrypted))

-- `decryptToken`, and none where it throws
unfoldable pub decrypt_token : Cipher → String → Option String
decrypt_token c encrypted_base64 =
    let combined = c.from_base64 encrypted_base64 in
    if encrypted_base64 == ""
    then some ""
    else if ltb (length combined) (iv_length + auth_tag_length)
    then none
    else c.decrypt (take iv_length combined) (take auth_tag_length (drop iv_length combined))
        (drop (iv_length + auth_tag_length) combined)

module _ {ℓ} {A : Type ℓ} where
  take-append : (n : ℕ) (xs ys : List A) → length xs ≡ n → take n (xs ++ ys) ≡ xs
  take-append zero [] ys h = refl
  take-append zero (x ∷ xs) ys h = absurd (omega (arith, h))
  take-append (suc n) [] ys h = absurd (omega (arith, h))
  take-append (suc n) (x ∷ xs) ys h = ap (λ zs. x ∷ zs) (take-append n xs ys (omega (arith, h)))

  drop-append : (n : ℕ) (xs ys : List A) → length xs ≡ n → drop n (xs ++ ys) ≡ ys
  drop-append zero [] ys h = refl
  drop-append zero (x ∷ xs) ys h = absurd (omega (arith, h))
  drop-append (suc n) [] ys h = absurd (omega (arith, h))
  drop-append (suc n) (x ∷ xs) ys h = drop-append n xs ys (omega (arith, h))

-- The parts of a payload are where they are looked for.
framed :
    (iv tag bytes : List ℕ)
    → length iv ≡ iv_length
    → length tag ≡ auth_tag_length
    → (take iv_length (iv ++ (tag ++ bytes)) ≡ iv)
      × (take auth_tag_length (drop iv_length (iv ++ (tag ++ bytes))) ≡ tag)
      × (drop (iv_length + auth_tag_length) (iv ++ (tag ++ bytes)) ≡ bytes)
      × (iv_length + auth_tag_length ≤ length (iv ++ (tag ++ bytes)))
framed iv tag bytes h h' = (
  take-append iv_length iv (tag ++ bytes) h,
  ap (take auth_tag_length) (drop-append iv_length iv (tag ++ bytes) h)
      ∙ take-append auth_tag_length tag bytes h',
  ap (drop (iv_length + auth_tag_length)) (sym (append_assoc iv tag bytes))
      ∙ drop-append (iv_length + auth_tag_length) (iv ++ tag) bytes
          (omega (arith, length-append iv tag, h, h')),
  omega (arith, length-append iv (tag ++ bytes), length-append tag bytes, h, h'),
)

payload-ne-empty :
    (c : Cipher) (bytes : List ℕ)
    → c.from_base64 (c.to_base64 bytes) ≡ bytes
    → c.from_base64 "" ≡ []
    → 1 ≤ length bytes
    → (c.to_base64 bytes == "") ≡ false
payload-ne-empty c bytes h empty_too long = elim (Bool-cases (c.to_base64 bytes == "")) [
  | inr full ↦ full
  | inl empty ↦
      let same = (eq_iff (c.to_base64 bytes) "").0 empty in
      let none_left : bytes ≡ [] = sym h ∙ ap c.from_base64 same ∙ empty_too in
      absurd (omega (arith, long, ap length none_left))
]

-- Decrypting an encrypted token gives the token back, the empty one included, for every vector of
-- 12 bytes. Decryption is taken to undo encryption, a tag to have 16 bytes, and base64 to be undone.
pub decrypt-encrypt :
    (c : Cipher) (iv : List ℕ) (plaintext : String)
    → IsCipher c iv plaintext
    → length iv ≡ iv_length
    → decrypt_token c (encrypt_token c iv plaintext) ≡ some plaintext
unfolding decrypt_token encrypt_token
decrypt-encrypt c iv plaintext h h12 = elim (Bool-cases (plaintext == "")) [
  | inl empty ↦ ground (arith, eq_iff plaintext "")
  | inr full ↦
      let (encrypted, tag) = c.encrypt iv plaintext in
      let (is_iv, is_tag, is_rest, long) = framed iv tag encrypted h12 h.length-tag in
      let present =
        payload-ne-empty c (iv ++ (tag ++ encrypted)) h.from_base64-to_base64 h.from_base64-empty
          (omega (arith, long)) in
      let enough : ltb (length (iv ++ (tag ++ encrypted))) (iv_length + auth_tag_length) ≡ false =
        ground (arith, long) in
      rw (full, present, h.from_base64-to_base64, enough, is_iv, is_tag, is_rest) h.decrypt-encrypt
]
