-- ===== src/Assistant/Sanitizer.antt =====
-- modules/ai/guardrails/sensitive-data.sanitizer.ts.
use multi_tenant_project_man.Base.{
  String, Bool, List, [], ◌∷◌, ◌==◌, ◌&&◌, ◌||◌, not, nat_eq, if◌then◌else◌,
}
use multi_tenant_project_man.Base.Lists.{contains}
use multi_tenant_project_man.Projects.Keys.{keep}

-- A value of JSON; a number or a Boolean is given by its text.
mutual
  pub data Json : Type 0 where
    null : Json
    scalar : String → Json
    text : String → Json
    array : Items → Json
    object : Fields → Json

  pub data Items : Type 0 where
    nil : Items
    cons : Json → Items → Items

  pub data Fields : Type 0 where
    end : Fields
    field : String → Json → Fields → Fields

-- The regular expressions of the sanitizer.
pub data Pattern : Type 0 where
  thinking open_thinking think_tag private_key db_uri bearer_jwt raw_jwt api_key bcrypt argon2 :
      Pattern

-- What JavaScript computes: `s.replace(pattern, replacement)`, all of them, `s.trim()` and
-- `s.toLowerCase()`.
pub record Texts : Type 0 where
  pub replace : Pattern → (replacement : String) → String → String
  pub trim : String → String
  pub to_lower_case : String → String

abbrev redacted : String
redacted = "[REDACTED]"

-- SENSITIVE_KEY_NAMES
abbrev sensitive_key_names : List String
sensitive_key_names =
    "password" ∷ "passwordhash" ∷ "refreshtoken" ∷ "accesstoken" ∷ "clientsecret" ∷ "privatekey"
    ∷ "secretkey" ∷ "secret" ∷ "authorization" ∷ []

module _ (js : Texts) where
  -- The reasoning of the model is taken out; where nothing else is there, its tags alone.
  unfoldable pub without_thinking : String → String
  without_thinking s =
      let cleaned = js.trim (js.replace open_thinking "" (js.replace thinking "" s)) in
      if cleaned == "" && not (js.trim s == "")
      then js.trim (js.replace think_tag "" s)
      else cleaned

  unfoldable pub sanitize_text : String → String
  unfolding without_thinking
  sanitize_text s =
      if s == ""
      then s
      else js.replace argon2 "[REDACTED_PASSWORD_HASH]" (
          js.replace bcrypt "[REDACTED_PASSWORD_HASH]" (
            js.replace api_key "[REDACTED_API_KEY]" (
              js.replace raw_jwt "[REDACTED_JWT]" (
                js.replace bearer_jwt "Bearer [REDACTED_JWT]" (
                  js.replace db_uri "[REDACTED_DB_URI]"
                    (js.replace private_key "[REDACTED_PRIVATE_KEY]" (without_thinking s)))))))

  -- Whether the value of a key is hidden: letter case, `-` and `_` do not count.
  unfoldable pub is_sensitive : String → Bool
  is_sensitive key =
      contains sensitive_key_names
        (keep (λ c. not (nat_eq c b'-' || nat_eq c b'_')) (js.to_lower_case key))

  unfoldable mutual
    unfolding sanitize_text is_sensitive

    pub sanitize_value : Json → Json
    sanitize_value null = null
    sanitize_value (scalar s) = scalar s
    sanitize_value (text s) = text (sanitize_text s)
    sanitize_value (array items) = array (sanitize_items items)
    sanitize_value (object fields) = object (sanitize_fields fields)

    pub sanitize_items : Items → Items
    sanitize_items nil = nil
    sanitize_items (cons v items) = cons (sanitize_value v) (sanitize_items items)

    pub sanitize_fields : Fields → Fields
    sanitize_fields end = end
    sanitize_fields (field key v fields) =
        let v' = sanitize_value v in
        field key (if is_sensitive key then text redacted else v') (sanitize_fields fields)
