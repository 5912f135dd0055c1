-- ===== src/Attachments/Storage.antt =====
-- modules/attachments/attachment.storage.ts. Paths are those of node:path, a parameter.
use Prim.Native.Char.{code}
use Prim.Native.String
use multi_tenant_project_man.Base.{
  ℕ, String, Bool, Option, none, some, List, [], ◌∷◌, ◌==◌, ◌&&◌, ◌||◌, not, ltb, leb, nat_eq, any,
  is_some, or_default, if◌then◌else◌,
}
use multi_tenant_project_man.Base.Error.{AppError, bad_request}
use multi_tenant_project_man.Base.Lists.{contains}
use multi_tenant_project_man.Edge.Platform.{strip_prefix}
use multi_tenant_project_man.Projects.Keys.{keep, prefix}

-- `path.extname`, `path.resolve(UPLOAD_DIR, key)`, `path.isAbsolute`, the normalized upload
-- directory, and the functions of JavaScript on texts
pub record Paths : Type 0 where
  pub extname : String → String
  pub resolve : String → String
  pub is_absolute : String → Bool
  pub upload_dir : String
  pub to_lower_case : String → String
  pub trim : String → String

-- Express.Multer.File; of the content, its length and the start of its text in lower case.
pub record UploadedFile : Type 0 where
  pub originalname : String
  pub mimetype : String
  pub size : ℕ
  pub buffer_length : ℕ
  pub snippet : String

abbrev pub max_attachment_size_bytes : ℕ
max_attachment_size_bytes = 10485760

-- DISALLOWED_EXTENSIONS
abbrev pub disallowed_extensions : List String
disallowed_extensions =
    ".exe" ∷ ".bat" ∷ ".cmd" ∷ ".sh" ∷ ".php" ∷ ".phtml" ∷ ".js" ∷ ".mjs" ∷ ".vbs" ∷ ".msi" ∷ ".dll"
    ∷ ".com" ∷ ".scr" ∷ ".jar" ∷ ".html" ∷ ".htm" ∷ ".svg" ∷ ".xml" ∷ ".xhtml" ∷ ".shtml" ∷ ".jsp"
    ∷ ".asp" ∷ ".aspx" ∷ []

-- DISALLOWED_MIME_TYPES
abbrev pub disallowed_mime_types : List String
disallowed_mime_types =
    "text/html" ∷ "text/xml" ∷ "application/xml" ∷ "application/xhtml+xml" ∷ "image/svg+xml"
    ∷ "text/javascript" ∷ "application/javascript" ∷ "application/x-javascript"
    ∷ "application/x-msdownload" ∷ "application/x-sh" ∷ "application/x-php"
    ∷ "application/x-httpd-php" ∷ []

-- SAFE_DOWNLOAD_MIME_MAP
abbrev pub safe_download_mime_map : List (String × List String)
safe_download_mime_map =
    ("text/plain", ".txt" ∷ ".log" ∷ ".md" ∷ ".csv" ∷ ".json" ∷ [])
    ∷ ("text/csv", ".csv" ∷ [])
    ∷ ("application/json", ".json" ∷ [])
    ∷ ("application/pdf", ".pdf" ∷ [])
    ∷ ("image/png", ".png" ∷ [])
    ∷ ("image/jpeg", ".jpg" ∷ ".jpeg" ∷ [])
    ∷ ("image/gif", ".gif" ∷ [])
    ∷ ("image/webp", ".webp" ∷ [])
    ∷ ("audio/mpeg", ".mp3" ∷ [])
    ∷ ("audio/wav", ".wav" ∷ [])
    ∷ ("audio/ogg", ".ogg" ∷ [])
    ∷ ("video/mp4", ".mp4" ∷ [])
    ∷ ("video/webm", ".webm" ∷ [])
    ∷ ("application/zip", ".zip" ∷ [])
    ∷ ("application/x-zip-compressed", ".zip" ∷ [])
    ∷ ("application/gzip", ".gz" ∷ [])
    ∷ []

-- `s.includes(part)`
unfoldable pub includes_text : (part s : String) → Bool
unfolding strip_prefix
includes_text part String.[] = part == ""
includes_text part (String.◌∷◌ c s) =
    is_some (strip_prefix part (String.◌∷◌ c s)) || includes_text part s

-- `s.split(';')[0]`
unfoldable pub before_semicolon : String → String
before_semicolon String.[] = String.[]
before_semicolon (String.◌∷◌ c s) =
    let rest = String.◌∷◌ c (before_semicolon s) in if nat_eq (code c) b';' then "" else rest

-- The extensions that a type of the map may have; none for a type that is not in it.
unfoldable pub extensions_of : String → List (String × List String) → List String
extensions_of mime [] = []
extensions_of mime ((known, extensions) ∷ rest) =
    let later = extensions_of mime rest in if known == mime then extensions else later

module _ (paths : Paths) where
  unfoldable pub normalized_mime : String → String
  unfolding before_semicolon
  normalized_mime mimetype = paths.trim (before_semicolon (paths.to_lower_case mimetype))

  abbrev pub extension : String → String
  extension name = paths.to_lower_case (paths.extname name)

  -- `getSafeFilePath`: the path, or none where it throws PATH_TRAVERSAL_DETECTED
  unfoldable pub get_safe_file_path : (storage_key : String) → Option String
  unfolding includes_text strip_prefix
  get_safe_file_path storage_key =
      if storage_key == ""
        || (includes_text ".." storage_key
            || (includes_text "/" storage_key
                || (includes_text "\\" storage_key || paths.is_absolute storage_key)))
      then none
      else if is_some (strip_prefix paths.upload_dir (paths.resolve storage_key))
      then some (paths.resolve storage_key)
      else none

  -- `getSafeDownloadContentType`
  unfoldable pub get_safe_download_content_type :
      (original_name : String) → (stored_mime_type : Option String) → String
  unfolding normalized_mime extensions_of
  get_safe_download_content_type original_name stored_mime_type =
      let mime = normalized_mime (or_default stored_mime_type "") in
      if contains disallowed_extensions (extension original_name)
      then "application/octet-stream"
      else if contains disallowed_mime_types mime
      then "application/octet-stream"
      else if contains (extensions_of mime safe_download_mime_map) (extension original_name)
      then mime
      else "application/octet-stream"

  abbrev pub has_active_web_markup : String → Bool
  has_active_web_markup snippet =
      any (λ tag. includes_text tag snippet)
        ("<script" ∷ "<svg" ∷ "<?xml" ∷ "<html" ∷ "<!doctype html" ∷ [])

  abbrev is_plain_text : String → Bool
  is_plain_text ext = contains (".txt" ∷ ".log" ∷ ".md" ∷ []) ext

  -- `validateAttachmentFile`: the error that is thrown, if any
  unfoldable pub refusal_of : UploadedFile → Option AppError
  unfolding normalized_mime includes_text
  refusal_of file =
      let ext = paths.trim (extension file.originalname) in
      if nat_eq file.buffer_length 0
      then some (bad_request "FILE_REQUIRED")
      else if ltb max_attachment_size_bytes file.size
      then some (bad_request "FILE_TOO_LARGE")
      else if contains disallowed_extensions ext
      then some (bad_request "DISALLOWED_FILE_TYPE")
      else if paths.trim file.mimetype == ""
      then some (bad_request "INVALID_MIME_TYPE")
      else if contains disallowed_mime_types (normalized_mime file.mimetype)
      then some (bad_request "DISALLOWED_FILE_TYPE")
      else if has_active_web_markup file.snippet && not (is_plain_text ext)
      then some (bad_request "DISALLOWED_FILE_TYPE")
      else none

  abbrev between : ℕ → ℕ → ℕ → Bool
  between low high c = leb low c && leb c high

  -- `/[a-z0-9.]/i`
  abbrev pub is_kept : ℕ → Bool
  is_kept c = between b'a' b'z' c || (between b'A' b'Z' c || (between b'0' b'9' c || nat_eq c b'.'))

  -- The extension of the file on the disk
  unfoldable pub sanitized_ext : String → String
  unfolding prefix
  sanitized_ext originalname = keep is_kept (prefix 16 (extension originalname))

  unfoldable pub storage_key_of : (random_id : String) → UploadedFile → String
  unfolding sanitized_ext
  storage_key_of random_id file = String.◌++◌ random_id (sanitized_ext file.originalname)
