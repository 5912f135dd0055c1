-- ===== src/Attachments/Service.antt =====
-- attachment.service.ts and attachment.repository.ts. What is written to the disk and removed from
-- it are calls; whether a file is there is an argument.
use multi_tenant_project_man.Base.{
  ℕ, String, Bool, Option, none, some, List, [], ◌∷◌, ◌==◌, ◌&&◌, ◌||◌, not, if◌then◌else◌,
}
use multi_tenant_project_man.Base.Error.{AppError, bad_request, not_found, forbidden}
use multi_tenant_project_man.Base.Monad.{Action, pure, throw, ◌>>=◌, ◌>>◌, gets, require, throw_if}
use multi_tenant_project_man.Pagination.Pages.{PaginatedResponse, paginate}
use multi_tenant_project_man.Prisma.{Prisma}
use multi_tenant_project_man.Prisma.Where.{delete_where}
use multi_tenant_project_man.Schema.{OrganizationRole, owner, admin, same_role}
use multi_tenant_project_man.Schema.Work.{Attachment, attachments_model}
use multi_tenant_project_man.World.{
  World, Call, write, call, call_all, save_file, delete_file, log_activity, task_entity, updated,
}
use multi_tenant_project_man.Comments.{validate_task_in_org}
use multi_tenant_project_man.Attachments.Storage.{
  Paths, UploadedFile, refusal_of, storage_key_of, get_safe_file_path,
}

pub record DownloadedFile : Type 0 where
  pub file_path : String
  pub original_name : String
  pub mime_type : String
  pub size : ℕ

-- `value || other`
abbrev or_text : String → String → String
or_text value other = if value == "" then other else value

-- the file of an attachment, where its path is a safe one
abbrev removal : Option String → List Call
removal none = []
removal (some path) = delete_file path ∷ []

module _ {db : Prisma} where
  unfoldable pub find_attachment_by_id :
      (task_id attachment_id : String) → World db → Option Attachment
  find_attachment_by_id task_id attachment_id w =
      db.find_first attachments_model (λ a. a.id == attachment_id && a.task_id == task_id)
        w.attachments

  unfoldable pub create_attachment : Attachment → Action (World db) Attachment
  create_attachment a w =
      write (db.create attachments_model a w.attachments) (λ t v. record v { attachments = t }) a w

  unfoldable pub delete_attachment_row : String → Action (World db) (Unit {0})
  delete_attachment_row attachment_id w =
      write
        (delete_where db attachments_model attachment_id (λ a. a.id == attachment_id) w.attachments)
        (λ t v. record v { attachments = t }) tt w

  -- `if (refused) throw`
  abbrev refuse : Option AppError → Action (World db) (Unit {0})
  refuse none = pure tt
  refuse (some e) = throw e

  abbrev log_attachment : String → String → String → Action (World db) (Unit {0})
  log_attachment organization_id user_id task_id = call (
      log_activity (record {
        organization_id = organization_id;
        user_id = user_id;
        entity_type = task_entity;
        entity_id = task_id;
        action = updated;
      }))

  -- `getAttachments`; the rows are ordered as the query asks.
  unfoldable pub get_attachments :
      (order : List Attachment → List Attachment)
      → (organization_id project_id task_id : String) → (page limit : Option ℕ)
      → Action (World db) (PaginatedResponse Attachment)
  unfolding validate_task_in_org paginate
  get_attachments order organization_id project_id task_id page limit = do
    validate_task_in_org organization_id project_id task_id
    items ← gets (λ w. db.find_many attachments_model (λ a. a.task_id == task_id) w.attachments)
    pure (paginate order items page limit)

module _ {db : Prisma} (paths : Paths) where
  -- `saveAttachmentToDisk`: the storage key
  unfoldable pub save_attachment_to_disk :
      (random_id : String) → UploadedFile → Action (World db) String
  unfolding refusal_of storage_key_of get_safe_file_path
  save_attachment_to_disk random_id file = do
    refuse (refusal_of paths file)
    path ←
        require (get_safe_file_path paths (storage_key_of paths random_id file))
          (bad_request "PATH_TRAVERSAL_DETECTED")
    call (save_file path)
    pure (storage_key_of paths random_id file)

  -- `uploadAttachment`; the database chooses the id.
  unfoldable pub upload_attachment :
      (new_id random_id organization_id project_id task_id user_id : String)
      → UploadedFile
      → Action (World db) Attachment
  unfolding validate_task_in_org save_attachment_to_disk create_attachment
  upload_attachment new_id random_id organization_id project_id task_id user_id file = do
    validate_task_in_org organization_id project_id task_id
    storage_key ← save_attachment_to_disk random_id file
    attachment ← create_attachment (record {
      id = new_id;
      task_id = task_id;
      uploaded_by_id = user_id;
      original_name = or_text file.originalname "attachment";
      storage_key = storage_key;
      mime_type = or_text file.mimetype "application/octet-stream";
      size = file.size;
    })
    log_attachment organization_id user_id task_id
    pure attachment

  -- `downloadAttachment`
  unfoldable pub download_attachment :
      (is_on_disk : String → Bool)
      → (organization_id project_id task_id attachment_id : String)
      → Action (World db) DownloadedFile
  unfolding validate_task_in_org find_attachment_by_id get_safe_file_path
  download_attachment is_on_disk organization_id project_id task_id attachment_id = do
    validate_task_in_org organization_id project_id task_id
    found ← gets (find_attachment_by_id task_id attachment_id)
    attachment ← require found (not_found "ATTACHMENT_NOT_FOUND")
    path ←
        require (get_safe_file_path paths attachment.storage_key)
          (bad_request "PATH_TRAVERSAL_DETECTED")
    throw_if (not (is_on_disk path)) (not_found "FILE_NOT_FOUND_ON_DISK")
    pure (record {
      file_path = path;
      original_name = attachment.original_name;
      mime_type = attachment.mime_type;
      size = attachment.size;
    })

  -- `deleteAttachment`; a failure to remove the file is only logged.
  unfoldable pub delete_attachment :
      (organization_id project_id task_id attachment_id user_id : String)
      → OrganizationRole
      → Action (World db) (Unit {0})
  unfolding validate_task_in_org find_attachment_by_id delete_attachment_row get_safe_file_path
  delete_attachment organization_id project_id task_id attachment_id user_id role = do
    validate_task_in_org organization_id project_id task_id
    found ← gets (find_attachment_by_id task_id attachment_id)
    attachment ← require found (not_found "ATTACHMENT_NOT_FOUND")
    throw_if
        (not (attachment.uploaded_by_id == user_id)
          && not (same_role role owner || same_role role admin))
        (forbidden "INSUFFICIENT_PERMISSIONS")
    delete_attachment_row attachment_id
    call_all (removal (get_safe_file_path paths attachment.storage_key))
    log_attachment organization_id user_id task_id
