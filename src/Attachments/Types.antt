-- ===== src/Attachments/Types.antt =====
-- attachment.storage.ts: the types that files are served with.
use multi_tenant_project_man.Base.{
  String, true, false, Option, ◌≡◌, ◌⊎◌, arith, subst, or_default, Bool-cases, inl, inr,
}
use multi_tenant_project_man.Base.Lists.{contains}
use multi_tenant_project_man.Attachments.Storage.{
  Paths, disallowed_extensions, disallowed_mime_types, safe_download_mime_map, extensions_of,
  normalized_mime, extension, get_safe_download_content_type,
}

module _ (paths : Paths) where
  -- A file is served as plain bytes, or with a type that is not disallowed and that the map of
  -- safe types gives for its extension, which is not disallowed either.
  pub safe_content_type :
      (original_name : String) (stored_mime_type : Option String) (t : String)
      → get_safe_download_content_type paths original_name stored_mime_type ≡ t
      → (t ≡ "application/octet-stream")
        ⊎ ((contains (extensions_of t safe_download_mime_map) (extension paths original_name)
              ≡ true)
            × (contains disallowed_mime_types t ≡ false)
            × (contains disallowed_extensions (extension paths original_name) ≡ false))
  unfolding get_safe_download_content_type
  safe_content_type original_name stored_mime_type t served =
      let mime = normalized_mime paths (or_default stored_mime_type "") in
      let ext = extension paths original_name in
      elim (Bool-cases (contains disallowed_extensions ext)) [
        | inl active ↦ inl (ground arith)
        | inr passive ↦ elim (Bool-cases (contains disallowed_mime_types mime)) [
          | inl active ↦ inl (ground arith)
          | inr fine ↦
              elim (Bool-cases (contains (extensions_of mime safe_download_mime_map) ext)) [
                | inr unknown ↦ inl (ground arith)
                | inl known ↦
                    let same : mime ≡ t = ground arith in
                    inr (
                      subst
                        (λ u.
                          (contains (extensions_of u safe_download_mime_map) ext ≡ true)
                          × (contains disallowed_mime_types u ≡ false)
                          × (contains disallowed_extensions ext ≡ false))
                        same (known, fine, passive))
              ]
        ]
      ]
