-- ===== src/Tests/Data.antt =====
-- A team with an owner, an admin and an invited colleague, and a runtime for it.
use Prim.Native.String
use multi_tenant_project_man.Base.{
  String, Bool, true, false, Option, none, some, List, [], ◌∷◌, ◌++◌, ◌==◌, ◌≡◌, refl, or_default,
  if◌then◌else◌, ℕ, zero, suc,
}
use multi_tenant_project_man.Base.Double.{whole}
use multi_tenant_project_man.Prisma.Rows.Lists.{check, fits}
use multi_tenant_project_man.Prisma.Rows.Client.{rows}
use multi_tenant_project_man.Schema.{
  owner, admin, member, pending, User, RefreshSession, Organization, OrganizationMember,
  OrganizationInvitation, users_model, sessions_model, organizations_model, members_model,
  invitations_model,
}
use multi_tenant_project_man.Schema.Work.{
  StoredNotification, NotificationType, Project, Task, TaskAssignee, Comment, active, todo, low,
  projects_model, tasks_model, assignees_model, teams_model, team_members_model, comments_model,
  notifications_model, meetings_model, attendees_model, Meeting, Attachment, attachments_model,
}
use multi_tenant_project_man.Prisma.{Model}
use multi_tenant_project_man.World.{Runtime, Claims, World}
use multi_tenant_project_man.Meetings.Input.{no_google}
use multi_tenant_project_man.Totp.{codes}
use multi_tenant_project_man.Sessions.{AuthContext}

abbrev pub claims : Claims
claims = record {
  user_id = some "u3";
  email = none;
  jti = none;
  exp = none;
  purpose = some "mfa_challenge";
  token_id = none;
}

-- As many strokes as the number says.
abbrev pub number_text : ℕ → String
number_text zero = ""
number_text (suc n) = String.◌∷◌ "1" (number_text n)

-- A token is its secret and the name of its claims.
abbrev pub rt : Runtime
rt = record {
  to_lower_case = λ s. s;
  trim = λ s. s;
  split_spaces = λ s. "Bearer" ∷ s ∷ [];
  to_upper_case = λ s. s;
  number_text = number_text;
  text_length = λ s. 8;
  sha256_hex = λ s. s;
  sign = λ secret now lifetime c. String.◌++◌ secret (or_default c.token_id (or_default c.jti ""));
  verify = λ secret now token. if token == "" then none else some claims;
  decode = λ token. none;
  is_expired = λ secret now token. false;
  bcrypt_hash = λ salt password. password;
  bcrypt_compare = λ password hash. password == hash;
  upper_codes = λ s. codes s;
  hmac_sha1 = λ key message. message ++ message ++ 1 ∷ 2 ∷ 3 ∷ 4 ∷ [];
  jwt_secret = "access-";
  jwt_refresh_secret = "refresh-";
  jwt_expires_in = 900;
  jwt_refresh_expires_in = 604800;
}

abbrev pub user : (id name email : String) → Option String → Bool → User
user id name email secret enabled = record {
  id = id;
  name = name;
  email = email;
  password_hash = "password";
  avatar_url = none;
  is_email_verified = true;
  totp_secret = secret;
  totp_enabled = enabled;
}

abbrev pub ann : OrganizationMember
ann = record { id = "m1"; organization_id = "o1"; user_id = "u1"; role = owner }

abbrev pub bob : OrganizationMember
bob = record { id = "m2"; organization_id = "o1"; user_id = "u2"; role = admin }

abbrev pub invitation : OrganizationInvitation
invitation = record {
  id = "i1";
  organization_id = "o1";
  email = "cy@x.io";
  role = member;
  token_hash = "secret-link";
  invited_by_id = "u1";
  status = pending;
  expires_at = 5000;
  accepted_at = none;
}

-- An invitation of another organization to the same address.
abbrev pub other_invitation : OrganizationInvitation
other_invitation = record invitation {
  id = "i2";
  organization_id = "o2";
  token_hash = "other-link";
  invited_by_id = "u4";
}

abbrev pub session : RefreshSession
session = record {
  id = "s1";
  user_id = "u3";
  token_hash = "refresh-t1";
  expires_at = 9000;
  revoked_at = none;
  user_agent = none;
  ip_address = none;
}

abbrev pub context : AuthContext
context = record { user_agent = none; ip_address = none }

abbrev pub users_of_team : List User
users_of_team =
    user "u1" "Ann" "ann@x.io" none false
    ∷ user "u2" "Bob" "bob@x.io" none false
    ∷ user "u3" "Cy" "cy@x.io" (some "ABCDEFGH") false
    ∷ []

abbrev pub organizations_of_team : List Organization
organizations_of_team = record { id = "o1"; name = "X"; slug = "x"; owner_id = "u1" } ∷ []

pub users_fit : check users_model users_of_team ≡ true
unfolding check fits
users_fit = refl

pub sessions_fit : check sessions_model (session ∷ []) ≡ true
unfolding check fits
sessions_fit = refl

pub organizations_fit : check organizations_model organizations_of_team ≡ true
unfolding check fits
organizations_fit = refl

pub members_fit : check members_model (ann ∷ bob ∷ []) ≡ true
unfolding check fits
members_fit = refl

pub invitations_fit : check invitations_model (invitation ∷ other_invitation ∷ []) ≡ true
unfolding check fits
invitations_fit = refl

pub empty_fits : {Row : Type 0} (m : Model Row) → check m [] ≡ true
unfolding check
empty_fits m = refl

abbrev pub project : Project
project = record {
  id = "p1";
  organization_id = "o1";
  name = "Press";
  key = "PRES";
  description = none;
  status = active;
  created_by_id = "u1";
}

-- A project of another organization, and its task.
abbrev pub other_project : Project
other_project = record project { id = "p9"; organization_id = "o2" }

abbrev pub task : Task
task = record {
  id = "t1";
  project_id = "p1";
  title = "Print";
  description = none;
  status = todo;
  priority = low;
  assignee_id = some "u1";
  team_id = none;
  created_by_id = "u1";
  due_date = none;
  position = whole 1000;
}

abbrev pub other_task : Task
other_task = record task { id = "t9"; project_id = "p9" }

abbrev pub assignee : TaskAssignee
assignee = record { id = "a1"; task_id = "t1"; user_id = "u1" }

abbrev pub comment : Comment
comment = record { id = "c1"; task_id = "t1"; user_id = "u2"; content = "Done?" }

pub projects_fit : check projects_model (project ∷ other_project ∷ []) ≡ true
unfolding check fits
projects_fit = refl

pub tasks_fit : check tasks_model (task ∷ other_task ∷ []) ≡ true
unfolding check fits
tasks_fit = refl

pub assignees_fit : check assignees_model (assignee ∷ []) ≡ true
unfolding check fits
assignees_fit = refl

pub comments_fit : check comments_model (comment ∷ []) ≡ true
unfolding check fits
comments_fit = refl

abbrev pub message : StoredNotification
message = record {
  id = "n1";
  user_id = "u1";
  organization_id = some "o1";
  type = NotificationType.general;
  title = "New";
  message = "Read me";
  is_read = false;
  read_at = none;
}

pub notifications_fit : check notifications_model (message ∷ []) ≡ true
unfolding check fits
notifications_fit = refl

abbrev pub attachment : Attachment
attachment = record {
  id = "f1";
  task_id = "t1";
  uploaded_by_id = "u2";
  original_name = "plan.pdf";
  storage_key = "k1.pdf";
  mime_type = "application/pdf";
  size = 100;
}

pub attachments_fit : check attachments_model (attachment ∷ []) ≡ true
unfolding check fits
attachments_fit = refl

abbrev pub meeting : Meeting
meeting = record {
  id = "g1";
  organization_id = "o1";
  project_id = none;
  task_id = none;
  created_by_id = "u1";
  title = "Stand-up";
  description = none;
  start_time = 100;
  end_time = 200;
  location = none;
  google = no_google;
}

-- A meeting of another organization
abbrev pub other_meeting : Meeting
other_meeting = record meeting { id = "g9"; organization_id = "o2" }

pub meetings_fit : check meetings_model (meeting ∷ other_meeting ∷ []) ≡ true
unfolding check fits
meetings_fit = refl

abbrev pub team : World rows
team = record {
  users = (users_of_team, users_fit);
  sessions = (session ∷ [], sessions_fit);
  organizations = (organizations_of_team, organizations_fit);
  members = (ann ∷ bob ∷ [], members_fit);
  invitations = (invitation ∷ other_invitation ∷ [], invitations_fit);
  projects = (project ∷ other_project ∷ [], projects_fit);
  tasks = (task ∷ other_task ∷ [], tasks_fit);
  assignees = (assignee ∷ [], assignees_fit);
  teams = ([], empty_fits teams_model);
  team_members = ([], empty_fits team_members_model);
  comments = (comment ∷ [], comments_fit);
  attachments = (attachment ∷ [], attachments_fit);
  notifications = (message ∷ [], notifications_fit);
  meetings = (meeting ∷ other_meeting ∷ [], meetings_fit);
  attendees = ([], empty_fits attendees_model);
  calls = [];
}
