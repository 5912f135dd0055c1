-- ===== src/Notifications.antt =====
-- modules/notifications: the notifications of a user. The column `metadata` is left out.
use multi_tenant_project_man.Base.{
  false, none, ℕ, String, Bool, true, Option, some, List, ◌≡◌, ◌≢◌, refl, ◌==◌, ◌&&◌, eq_iff, arith,
  not, length, All, [], ◌∷◌,
}
use multi_tenant_project_man.Base.Error.{not_found, forbidden}
use multi_tenant_project_man.Base.Monad.{Action, pure, ◌>>=◌, ◌>>◌, gets, require, throw_if}
use multi_tenant_project_man.Pagination.Pages.{PaginatedResponse, paginate}
use multi_tenant_project_man.Prisma.{Prisma, IsPlain}
use multi_tenant_project_man.Prisma.Where.{update_where, update_where_keeps}
use multi_tenant_project_man.Schema.Work.{
  StoredNotification, NotificationType, same_type, notifications_model,
}
use multi_tenant_project_man.World.{Runtime, World, write}

abbrev pub unread : String → StoredNotification → Bool
unread user_id n = n.user_id == user_id && not n.is_read

abbrev pub read_now : ℕ → StoredNotification → StoredNotification
read_now now n = record n { is_read = true; read_at = some now }

read_now-IsPlain : (now : ℕ) → IsPlain notifications_model (read_now now)
read_now-IsPlain now = record {
  id = λ m. refl;
  clash_left = λ m l. refl;
  clash_right = λ m l. refl;
}

abbrev same_bool : Bool → Bool → Bool
same_bool true b = b
same_bool false b = not b

-- The object `where` of `findPaginated`
unfoldable pub is_asked_for :
    String → Option Bool → Option NotificationType → StoredNotification → Bool
unfolding same_type
is_asked_for user_id is_read type n =
    n.user_id == user_id
    && (elim is_read [ none ↦ true | some b ↦ same_bool n.is_read b ]
        && elim type [ none ↦ true | some t ↦ same_type n.type t ])

module _ {db : Prisma} where
  unfoldable pub find_by_id : String → World db → Option StoredNotification
  find_by_id id w = db.find_id notifications_model id w.notifications

  -- `create`, with its texts trimmed
  unfoldable pub create : Runtime → StoredNotification → Action (World db) StoredNotification
  create rt n w =
      let row = record n { title = rt.trim n.title; message = rt.trim n.message } in
      write (db.create notifications_model row w.notifications)
        (λ t v. record v { notifications = t }) row w

  unfoldable pub count_unread : String → World db → ℕ
  count_unread user_id w =
      length (db.find_many notifications_model (unread user_id) w.notifications)

  unfoldable pub mark_row :
      ℕ → (id user_id : String) → StoredNotification → Action (World db) StoredNotification
  mark_row now id user_id n w =
      write
        (update_where db notifications_model id (λ m. m.user_id == user_id) (read_now now)
          w.notifications)
        (λ t v. record v { notifications = t }) (read_now now n) w

  -- `markAsRead`
  unfoldable pub mark_as_read : ℕ → (id user_id : String) → Action (World db) StoredNotification
  unfolding find_by_id mark_row
  mark_as_read now id user_id = do
    found ← gets (find_by_id id)
    existing ← require found (not_found "NOTIFICATION_NOT_FOUND")
    throw_if (not (existing.user_id == user_id)) (forbidden "INSUFFICIENT_PERMISSIONS")
    mark_row now id user_id existing

  -- `markAllAsRead`: how many were unread
  unfoldable pub mark_all_as_read : ℕ → String → Action (World db) ℕ
  unfolding count_unread
  mark_all_as_read now user_id w = pure (count_unread user_id w) (record w {
    notifications =
        db.update_many notifications_model (unread user_id) (read_now now) w.notifications;
  })

  -- `getUserNotifications` with `findPaginated`; the order of the rows is a parameter.
  unfoldable pub get_user_notifications :
      (order : List StoredNotification → List StoredNotification)
      → (user_id : String) → (is_read : Option Bool) → (type : Option NotificationType)
      → (page limit : Option ℕ) → Action (World db) (PaginatedResponse StoredNotification)
  unfolding is_asked_for paginate
  get_user_notifications order user_id is_read type page limit = do
    rows ←
        gets (λ w.
          db.find_many notifications_model (is_asked_for user_id is_read type) w.notifications)
    pure (paginate order rows page limit)

  -- A notification of another user is neither read nor changed by what a user marks.
  pub others_unread :
      (now : ℕ) (id user_id k : String) (w : World db) (n : StoredNotification)
      → db.find_id notifications_model k w.notifications ≡ some n
      → n.user_id ≢ user_id
      → (db.find_id notifications_model k (mark_as_read now id user_id w).1.notifications ≡ some n)
        × (db.find_id notifications_model k (mark_all_as_read now user_id w).1.notifications
            ≡ some n)
  unfolding mark_as_read mark_all_as_read mark_row find_by_id
  others_unread now id user_id k w n stored other = (
    ground (
      arith,
      update_where_keeps db notifications_model id (λ m. m.user_id == user_id) (read_now now)
          w.notifications k n (λ m. refl) stored,
      eq_iff n.user_id user_id,
    ),
    ground (
      arith,
      db.find_id-update_many notifications_model (unread user_id) (read_now now) w.notifications k
          (read_now-IsPlain now),
      eq_iff n.user_id user_id,
    ),
  )

  -- After a user has marked all notifications as read, none of that user's is unread.
  pub none_unread :
      (now : ℕ) (user_id : String) (w : World db)
      → count_unread user_id (mark_all_as_read now user_id w).1 ≡ 0
  unfolding count_unread mark_all_as_read
  none_unread now user_id w =
      let t = (mark_all_as_read now user_id w).1.notifications in
      nothing_found _ (db.find_many_sound notifications_model (unread user_id) t)
    where
      nothing_found :
          (ns : List StoredNotification)
          → All
              (λ n.
                (unread user_id n ≡ true)
                × (db.find_id notifications_model n.id
                      (mark_all_as_read now user_id w).1.notifications
                    ≡ some n))
              ns
          → length ns ≡ 0
      nothing_found [] all = refl
      nothing_found (n ∷ ns) all = absurd (
          ground (
            arith,
            all.0,
            db.find_id-update_many notifications_model (unread user_id) (read_now now)
                w.notifications n.id (read_now-IsPlain now),
          ))
