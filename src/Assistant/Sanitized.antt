-- ===== src/Assistant/Sanitized.antt =====
-- sensitive-data.sanitizer.ts: what a value is free of once it was sanitized.
use multi_tenant_project_man.Base.{
  Bool, true, false, ◌≡◌, ◌&&◌, ◌==◌, arith, refl, if◌then◌else◌, Bool-cases, inl, inr, eq_refl,
}
use multi_tenant_project_man.Assistant.Sanitizer.{
  Json, null, scalar, text, array, object, Items, nil, cons, Fields, end, field, Texts,
  is_sensitive, sanitize_value, sanitize_items, sanitize_fields,
}

-- Whether a value is the text that stands for what is hidden.
abbrev is_redacted : Json → Bool
is_redacted (text s) = s == "[REDACTED]"
is_redacted _ = false

module _ (js : Texts) where
  -- Whether every value under a sensitive key, at any depth, is hidden.
  unfoldable mutual
    pub hides_secrets : Json → Bool
    hides_secrets null = true
    hides_secrets (scalar s) = true
    hides_secrets (text s) = true
    hides_secrets (array items) = items_hide items
    hides_secrets (object fields) = fields_hide fields

    pub items_hide : Items → Bool
    items_hide nil = true
    items_hide (cons v items) = hides_secrets v && items_hide items

    pub fields_hide : Fields → Bool
    fields_hide end = true
    fields_hide (field key v fields) =
        let hidden = hides_secrets v in
        (if is_sensitive js key then is_redacted v else hidden) && fields_hide fields

  mutual
    unfolding sanitize_value hides_secrets

    value_hides : (v : Json) → hides_secrets (sanitize_value js v) ≡ true
    value_hides null = refl
    value_hides (scalar s) = refl
    value_hides (text s) = refl
    value_hides (array items) = items_hide_lem items
    value_hides (object fields) = fields_hide_lem fields

    items_hide_lem : (items : Items) → items_hide (sanitize_items js items) ≡ true
    items_hide_lem nil = refl
    items_hide_lem (cons v items) = ground (arith, value_hides v, items_hide_lem items)

    fields_hide_lem : (fields : Fields) → fields_hide (sanitize_fields js fields) ≡ true
    fields_hide_lem end = refl
    fields_hide_lem (field key v fields) = elim (Bool-cases (is_sensitive js key)) [
      | inl hidden ↦ ground (arith, fields_hide_lem fields, eq_refl "[REDACTED]")
      | inr shown ↦ ground (arith, value_hides v, fields_hide_lem fields)
    ]

  -- In a sanitized value, whatever stands under a sensitive key, at any depth, is hidden.
  pub sanitize_value-hides : (v : Json) → hides_secrets (sanitize_value js v) ≡ true
  sanitize_value-hides v = value_hides v
