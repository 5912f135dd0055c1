-- ===== src/Comments/Moderation.antt =====
-- comment.service.ts: who may change or delete a comment.
use multi_tenant_project_man.Base.{
  String, true, false, none, some, ◌≡◌, ◌≢◌, refl, ◌==◌, ◌||◌, eq_iff, arith, Option-cases,
  Bool-cases, inl, inr,
}
use multi_tenant_project_man.Base.Monad.{ok}
use multi_tenant_project_man.Prisma.{Prisma}
use multi_tenant_project_man.Prisma.Where.{delete_where, update_where_keeps, delete_where_keeps}
use multi_tenant_project_man.Schema.{OrganizationRole, owner, admin, same_role}
use multi_tenant_project_man.Schema.Work.{Task, Comment, comments_model}
use multi_tenant_project_man.World.{Runtime, World}
use multi_tenant_project_man.Comments.{
  find_task, find_comment_by_id, update_row, delete_row, update_comment, delete_comment,
  get_comment, validate_task_in_org,
}

module _ {db : Prisma} (organization_id project_id task_id comment_id user_id : String)
    (w : World db) (k : String) (c : Comment)
    (stored : db.find_id comments_model k w.comments ≡ some c) where
  found_comment :
      (d : Comment)
      → find_comment_by_id task_id comment_id w ≡ some d
      → (db.find_id comments_model comment_id w.comments ≡ some d) × (d.task_id ≡ task_id)
  unfolding find_comment_by_id
  found_comment d found =
      let (holds, row) = db.find_first_sound comments_model _ w.comments d found in
      (ground (arith, eq_iff d.id comment_id), ground (arith, eq_iff d.task_id task_id))

  -- Whatever change of a comment a user asks for, a comment by someone else stays as it is.
  pub others_after_update :
      (rt : Runtime) (content : String)
      → c.user_id ≢ user_id
      → db.find_id comments_model k
          (update_comment rt organization_id project_id task_id comment_id user_id content
            w).1.comments
        ≡ some c
  unfolding update_comment get_comment validate_task_in_org update_row
  others_after_update rt content other =
      elim (Option-cases (find_comment_by_id task_id comment_id w)) [
        | inl absent ↦ ground arith
        | inr (d, found) ↦ elim (Bool-cases (k == comment_id)) [
          | inl same ↦ ground (
            arith,
            found_comment d found,
            eq_iff k comment_id,
            eq_iff d.user_id user_id,
            eq_iff c.user_id user_id,
          )
          | inr apart ↦ ground (
            arith,
            update_where_keeps db comments_model comment_id (λ e. e.task_id == task_id)
                (λ e. record e { content = rt.trim content }) w.comments k c (λ e. refl) stored,
          )
        ]
      ]

  -- Whatever deletion of a comment is asked for by a user who is neither an owner nor an
  -- admin, a comment by someone else stays as it is.
  pub others_after_delete :
      (role : OrganizationRole)
      → c.user_id ≢ user_id
      → (same_role role owner || same_role role admin) ≡ false
      → db.find_id comments_model k
          (delete_comment organization_id project_id task_id comment_id user_id role w).1.comments
        ≡ some c
  unfolding delete_comment get_comment validate_task_in_org delete_row
  others_after_delete role other plain =
      elim (Option-cases (find_comment_by_id task_id comment_id w)) [
        | inl absent ↦ ground arith
        | inr (d, found) ↦ elim (Bool-cases (k == comment_id)) [
          | inl same ↦ ground (
            arith,
            found_comment d found,
            eq_iff k comment_id,
            eq_iff d.user_id user_id,
            eq_iff c.user_id user_id,
          )
          | inr apart ↦ ground (
            arith,
            delete_where_keeps db comments_model comment_id (λ e. e.task_id == task_id) w.comments k
                c stored,
          )
        ]
      ]

-- The author of a comment, and an owner or admin, can delete it: the deletion succeeds and the
-- comment is no longer there.
pub delete_comment_allowed :
    {db : Prisma} (organization_id project_id task_id comment_id user_id : String)
    (role : OrganizationRole) (w : World db) (t : Task) (c : Comment)
    → find_task organization_id project_id task_id w ≡ some t
    → find_comment_by_id task_id comment_id w ≡ some c
    → (c.user_id == user_id || (same_role role owner || same_role role admin)) ≡ true
    → ((delete_comment organization_id project_id task_id comment_id user_id role w).0 ≡ ok tt)
      × (db.find_id comments_model comment_id
            (delete_comment organization_id project_id task_id comment_id user_id role w).1.comments
          ≡ none)
unfolding delete_comment get_comment validate_task_in_org delete_row delete_where find_comment_by_id
delete_comment_allowed {db = db} organization_id project_id task_id comment_id user_id role w t c
      on_task found allowed =
    let (holds, stored) = db.find_first_sound comments_model _ w.comments c found in
    (
      ground (arith, eq_iff c.id comment_id),
      ground (
        arith,
        eq_iff c.id comment_id,
        db.find_id-delete_many comments_model (λ d. d.id == comment_id) w.comments comment_id,
      ),
    )
