-- ===== src/Tests/Files.antt =====
-- Files that are uploaded and served.
use Prim.Native.String
use multi_tenant_project_man.Base.{String, true, false, some, none, ◌≡◌, ◌⊎◌, refl}
use multi_tenant_project_man.Base.Lists.{contains}
use multi_tenant_project_man.Projects.Keys.{prefix}
use multi_tenant_project_man.Edge.Platform.{strip_prefix}
use multi_tenant_project_man.Attachments.Storage.{
  Paths, UploadedFile, disallowed_extensions, disallowed_mime_types, safe_download_mime_map,
  extensions_of, extension, get_safe_download_content_type, refusal_of, includes_text,
  before_semicolon, normalized_mime, sanitized_ext, storage_key_of,
}
use multi_tenant_project_man.Attachments.Types.{safe_content_type}

-- The extension of a name is taken to be its first characters, five at most.
abbrev paths : Paths
paths = record {
  extname = prefix 5;
  resolve = λ s. String.◌++◌ "/uploads/" s;
  is_absolute = λ s. false;
  upload_dir = "/uploads";
  to_lower_case = λ s. s;
  trim = λ s. s;
}

abbrev script : UploadedFile
script = record {
  originalname = ".p-hp";
  mimetype = "application/octet-stream";
  size = 100;
  buffer_length = 100;
  snippet = "text";
}

let_through : refusal_of paths script ≡ none
unfolding refusal_of normalized_mime before_semicolon includes_text strip_prefix prefix
let_through = refl

stored_as_php : storage_key_of paths "k" script ≡ "k.php"
unfolding storage_key_of sanitized_ext prefix
stored_as_php = refl

abbrev served : String
served = get_safe_download_content_type paths ".pdf" (some "application/pdf; charset=x")

safe_content_type_example :
    (served ≡ "application/octet-stream")
    ⊎ ((contains (extensions_of served safe_download_mime_map) (extension paths ".pdf") ≡ true)
        × (contains disallowed_mime_types served ≡ false)
        × (contains disallowed_extensions (extension paths ".pdf") ≡ false))
safe_content_type_example =
    safe_content_type paths ".pdf" (some "application/pdf; charset=x") served refl
