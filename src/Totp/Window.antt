-- ===== src/Totp/Window.antt =====
-- Which codes are accepted at what time.
use multi_tenant_project_man.Base.{
  ℕ, String, Bool, true, false, List, [], ◌∷◌, ◌+◌, ◌-◌, ◌/◌, ◌%◌, ◌^◌, ◌≤◌, ◌≡◌, ◌≢◌, refl, ◌==◌,
  eq_iff, arith, leb, ◌&&◌, ◌||◌, length, ◌⊎◌,
}
use multi_tenant_project_man.World.{Runtime}
use multi_tenant_project_man.Totp.{
  codes, same_codes, base32_decode, generate_hotp, all_digits, generate_totp_code, any_step,
  verify_totp_code,
}

same_codes_self : (xs : List ℕ) → same_codes xs xs ≡ true
unfolding same_codes
same_codes_self [] = refl
same_codes_self (x ∷ xs) = ground (arith, same_codes_self xs)

same_codes_eq : (xs ys : List ℕ) → same_codes xs ys ≡ true → xs ≡ ys
unfolding same_codes
same_codes_eq [] [] h = refl
same_codes_eq (x ∷ xs) (y ∷ ys) h = ground (arith, same_codes_eq xs ys)
same_codes_eq [] (y ∷ ys) h = cc
same_codes_eq (x ∷ xs) [] h = cc

-- The counter counts modulo 2 ^ 64.
generate_hotp_mod :
    (rt : Runtime) (secret : List ℕ) (counter : ℕ)
    → generate_hotp rt secret (counter + 2 ^ 64) ≡ generate_hotp rt secret counter
unfolding generate_hotp
generate_hotp_mod rt secret counter =
    let same : (counter + 2 ^ 64) % 2 ^ 64 ≡ counter % 2 ^ 64 = omega arith in rw same refl

digit_ok :
    (x : ℕ) (rest : Bool) → (leb b'0' (x % 10 + 48) && (leb (x % 10 + 48) b'9' && rest)) ≡ rest
digit_ok x rest = ground arith

generate_hotp_form :
    (rt : Runtime) (secret : List ℕ) (counter : ℕ)
    → (length (generate_hotp rt secret counter) ≡ 6)
      × (all_digits (generate_hotp rt secret counter) ≡ true)
unfolding generate_hotp all_digits
generate_hotp_form rt secret counter = (refl, simp digit_ok)

-- The three rounds of the loop.
any_step_three :
    (rt : Runtime) (secret token : List ℕ) (first : ℕ)
    → any_step rt secret token 3 first ≡ (
        same_codes (generate_hotp rt secret first) token
        || (same_codes (generate_hotp rt secret (first + 1)) token
            || (same_codes (generate_hotp rt secret (first + 2)) token || false)))
unfolding any_step
any_step_three rt secret token first =
    let twice : first + 1 + 1 ≡ first + 2 = omega arith in rw twice refl

codes-empty : (token : String) → (token == "") ≡ true → length (codes token) ≡ 0
codes-empty token h = rw ((eq_iff token "").0 h) refl

near_steps :
    (made now : ℕ)
    → made ≤ now + 30
    → now ≤ made + 30
    → (now / 30 + 2 ^ 64 - 1 ≡ made / 30 + 2 ^ 64)
      ⊎ ((now / 30 + 2 ^ 64 - 1 + 1 ≡ made / 30 + 2 ^ 64)
          ⊎ (now / 30 + 2 ^ 64 - 1 + 2 ≡ made / 30 + 2 ^ 64))
near_steps made now early late = grind arith

any_step_hit :
    (rt : Runtime) (secret token : List ℕ) (first counter : ℕ)
    → token ≡ generate_hotp rt secret counter
    → (first ≡ counter + 2 ^ 64) ⊎ ((first + 1 ≡ counter + 2 ^ 64) ⊎ (first + 2 ≡ counter + 2 ^ 64))
    → any_step rt secret token 3 first ≡ true
any_step_hit rt secret token first counter same hit =
    let matches : same_codes (generate_hotp rt secret (counter + 2 ^ 64)) token ≡ true =
      rw (generate_hotp_mod rt secret counter, same) (same_codes_self _) in
    ground (arith, any_step_three rt secret token first, matches)

-- For a secret that is not empty, the code that was made for it at most 30 seconds before or
-- after the present time is accepted.
pub verify_recent :
    (rt : Runtime) (secret token : String) (made now : ℕ)
    → secret ≢ ""
    → codes token ≡ generate_totp_code rt secret made
    → made ≤ now + 30
    → now ≤ made + 30
    → verify_totp_code rt now secret token ≡ true
unfolding verify_totp_code generate_totp_code
verify_recent rt secret token made now set same early late =
    let key = base32_decode rt secret in
    let form = generate_hotp_form rt key (made / 30) in
    let hit =
      any_step_hit rt key (codes token) (now / 30 + 2 ^ 64 - 1) (made / 30) same
        (near_steps made now early late) in
    ground (arith, hit, form, codes-empty token, eq_iff secret "")

-- A code that is accepted is the one of the current step of 30 seconds, of the one before or
-- of the one after.
pub verify_sound :
    (rt : Runtime) (secret token : String) (now : ℕ)
    → verify_totp_code rt now secret token ≡ true
    → (codes token ≡ generate_hotp rt (base32_decode rt secret) (now / 30 + 2 ^ 64 - 1))
      ⊎ ((codes token ≡ generate_hotp rt (base32_decode rt secret) (now / 30))
          ⊎ (codes token ≡ generate_hotp rt (base32_decode rt secret) (now / 30 + 1)))
unfolding verify_totp_code
verify_sound rt secret token now accepted =
    let key = base32_decode rt secret in
    let first = now / 30 + 2 ^ 64 - 1 in
    ground (
      arith,
      any_step_three rt key (codes token) first,
      generate_hotp_mod rt key (now / 30),
      generate_hotp_mod rt key (now / 30 + 1),
      same_codes_eq (generate_hotp rt key first) (codes token),
      same_codes_eq (generate_hotp rt key (first + 1)) (codes token),
      same_codes_eq (generate_hotp rt key (first + 2)) (codes token),
    )
