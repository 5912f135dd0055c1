-- ===== src/World.antt =====
-- The state that the services share: the tables, and the calls made of the other components, in
-- order. The cache, the activity log, the notification queue and the email queue are collaborators
-- that a service gets in its constructor.
use multi_tenant_project_man.Base.{ℕ, String, Bool, true, false, Option, List, [], ◌∷◌, ◌++◌}
use multi_tenant_project_man.Base.Error.{unique_violation, record_not_found}
use multi_tenant_project_man.Base.Monad.{Action, ok, err}
use multi_tenant_project_man.Prisma.{Prisma, Write, done, missing, duplicate}
use multi_tenant_project_man.Schema.{
  OrganizationRole, users_model, sessions_model, organizations_model, members_model,
  invitations_model,
}
use multi_tenant_project_man.Schema.Work.{
  NotificationType, projects_model, tasks_model, assignees_model, teams_model, team_members_model,
  comments_model, attachments_model, notifications_model, meetings_model, attendees_model,
}

-- The claims of a signed token: AccessTokenPayload, RefreshTokenPayload and the MFA challenge. A
-- token that was signed for another use lacks some of them.
pub record Claims : Type 0 where
  pub user_id : Option String
  pub email : Option String
  pub jti : Option String
  pub exp : Option ℕ
  pub purpose : Option String
  pub token_id : Option String

-- What JavaScript and the libraries jsonwebtoken, node:crypto and bcryptjs compute.
pub record Runtime : Type 0 where
  -- `s.toLowerCase()`, `s.trim()`, `s.split(/\s+/)`
  pub to_lower_case : String → String
  pub trim : String → String
  pub split_spaces : String → List String
  -- `s.toUpperCase()`, `String(n)`
  pub to_upper_case : String → String
  pub number_text : ℕ → String
  -- `s.length`, in UTF-16 units
  pub text_length : String → ℕ
  -- SHA-256 in hexadecimal
  pub sha256_hex : String → String
  -- `jwt.sign(claims, secret, { expiresIn })` at a time in seconds; `jwt.verify(token, secret)` at
  -- a time, with none where it throws; `jwt.decode(token)`
  pub sign : (secret : String) → (issued_at expires_in : ℕ) → Claims → String
  pub verify : (secret : String) → (now : ℕ) → String → Option Claims
  pub decode : String → Option Claims
  -- whether `jwt.verify(token, secret)` throws a TokenExpiredError
  pub is_expired : (secret : String) → (now : ℕ) → String → Bool
  -- `bcrypt.hash(password, 12)` with its random salt, `bcrypt.compare(password, hash)`
  pub bcrypt_hash : (salt : String) → String → String
  pub bcrypt_compare : String → String → Bool
  -- `s.toUpperCase()`, as character codes
  pub upper_codes : String → List ℕ
  -- `createHmac('sha1', key).update(message).digest()`, as bytes
  pub hmac_sha1 : List ℕ → List ℕ → List ℕ
  -- config/env.ts
  pub jwt_secret : String
  pub jwt_refresh_secret : String
  pub jwt_expires_in : ℕ
  pub jwt_refresh_expires_in : ℕ

-- constants/activity.ts
pub data EntityType : Type 0 where
  organization_entity project_entity task_entity comment_entity user_entity meeting_entity :
      EntityType

pub data ActivityAction : Type 0 where
  created updated deleted task_status_changed task_assigned : ActivityAction
  member_added member_removed meet_link_created : ActivityAction

pub record Activity : Type 0 where
  pub organization_id : String
  pub user_id : String
  pub entity_type : EntityType
  pub entity_id : String
  pub action : ActivityAction

-- What `queueNotification` is given; its texts are left out.
pub record Notification : Type 0 where
  pub user_id : String
  pub organization_id : String
  pub type : NotificationType

pub data Call : Type 0 where
  -- `cache.del(keys)`
  cache_del : List String → Call
  -- `cache.set(key, value, ttlSeconds)`, without the value
  cache_set : (key : String) → (ttl_seconds : ℕ) → Call
  log_activity : Activity → Call
  queue_notification : Notification → Call
  -- `addEmailJob`, with the token of the invitation link; a failure to queue it is only logged.
  invitation_email : (to raw_token org_name : String) → OrganizationRole → Call
  -- `cache.delByPattern(pattern)`
  cache_del_pattern : (pattern : String) → Call
  -- `email.queueEmail` on an assignment
  assignment_email : (to : String) → (user_id : String) → Call
  -- `emitToProject`, `emitToTask`: the room and the event, without the payload
  emit_to_project : (organization_id project_id event : String) → Call
  emit_to_task : (organization_id task_id event : String) → Call
  -- `calService.createEvent`, `updateEvent` and `deleteEvent`: the user whose calendar it is, and the
  -- event; what is told of it is left out.
  calendar_create : (user_id : String) → Call
  calendar_update calendar_delete : (user_id event_id : String) → Call
  -- a file that is written to the upload directory, or removed from it
  save_file delete_file : (path : String) → Call
  -- `tokenRevocationBloom.revoke(jti, ttlSeconds)`
  revoke_token : (jti : String) → (ttl_seconds : ℕ) → Call

pub record World (db : Prisma) : Type 0 where
  pub users : db.Table users_model
  pub sessions : db.Table sessions_model
  pub organizations : db.Table organizations_model
  pub members : db.Table members_model
  pub invitations : db.Table invitations_model
  pub projects : db.Table projects_model
  pub tasks : db.Table tasks_model
  pub assignees : db.Table assignees_model
  pub teams : db.Table teams_model
  pub team_members : db.Table team_members_model
  pub comments : db.Table comments_model
  pub attachments : db.Table attachments_model
  pub notifications : db.Table notifications_model
  pub meetings : db.Table meetings_model
  pub attendees : db.Table attendees_model
  pub calls : List Call

-- `if (test) step;` and `for (const x of xs) steps`, for steps that are calls.
abbrev pub calls_if : Bool → List Call → List Call
calls_if true cs = cs
calls_if false cs = []

abbrev pub each_call : {A : Type 0} → (A → List Call) → List A → List Call
each_call f [] = []
each_call f (x ∷ xs) = f x ++ each_call f xs

module _ {db : Prisma} where
  abbrev pub call : Call → Action (World db) (Unit {0})
  call c w = (ok tt, record w { calls = w.calls ++ c ∷ [] })

  -- Several calls, one after the other.
  abbrev pub call_all : List Call → Action (World db) (Unit {0})
  call_all cs w = (ok tt, record w { calls = w.calls ++ cs })

  -- A write of one table; P2025 and P2002 are thrown and change nothing.
  abbrev pub write : {A T : Type 0} → Write T → (T → World db → World db) → A → Action (World db) A
  write (done t) set a w = (ok a, set t w)
  write missing set a w = (err record_not_found, w)
  write duplicate set a w = (err unique_violation, w)
