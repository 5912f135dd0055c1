-- ===== src/Schema/Work.antt =====
-- prisma/schema.prisma: the rows of projects, tasks, teams, comments, notifications and meetings.
-- Dates are milliseconds.
use multi_tenant_project_man.Base.{ℕ, String, Bool, true, false, Option, ◌==◌, ◌&&◌}
use multi_tenant_project_man.Base.Double.{Double}
use multi_tenant_project_man.Prisma.{Model}

-- constants/notification.ts
pub data NotificationType : Type 0 where
  task_assigned task_status_changed member_added member_removed : NotificationType
  project_updated comment_added general : NotificationType

unfoldable pub same_type : NotificationType → NotificationType → Bool
same_type task_assigned task_assigned = true
same_type task_status_changed task_status_changed = true
same_type member_added member_added = true
same_type member_removed member_removed = true
same_type project_updated project_updated = true
same_type comment_added comment_added = true
same_type general general = true
same_type _ _ = false

pub data ProjectStatus : Type 0 where
  active archived : ProjectStatus

-- constants/task.ts
pub data TaskStatus : Type 0 where
  todo in_progress in_review done cancelled : TaskStatus

pub data TaskPriority : Type 0 where
  low medium high urgent : TaskPriority

-- `===` on the states of a task.
unfoldable pub same_status : TaskStatus → TaskStatus → Bool
same_status todo todo = true
same_status in_progress in_progress = true
same_status in_review in_review = true
same_status done done = true
same_status cancelled cancelled = true
same_status _ _ = false

unfoldable pub same_priority : TaskPriority → TaskPriority → Bool
same_priority low low = true
same_priority medium medium = true
same_priority high high = true
same_priority urgent urgent = true
same_priority _ _ = false

pub record Project : Type 0 where
  pub id : String
  pub organization_id : String
  pub name : String
  pub key : String
  pub description : Option String
  pub status : ProjectStatus
  pub created_by_id : String

pub record Task : Type 0 where
  pub id : String
  pub project_id : String
  pub title : String
  pub description : Option String
  pub status : TaskStatus
  pub priority : TaskPriority
  pub assignee_id : Option String
  pub team_id : Option String
  pub created_by_id : String
  pub due_date : Option ℕ
  pub position : Double

pub record TaskAssignee : Type 0 where
  pub id : String
  pub task_id : String
  pub user_id : String

pub record Team : Type 0 where
  pub id : String
  pub organization_id : String
  pub name : String
  pub description : Option String

pub record TeamMember : Type 0 where
  pub id : String
  pub team_id : String
  pub user_id : String

pub record Comment : Type 0 where
  pub id : String
  pub task_id : String
  pub user_id : String
  pub content : String

pub record Attachment : Type 0 where
  pub id : String
  pub task_id : String
  pub uploaded_by_id : String
  pub original_name : String
  pub storage_key : String
  pub mime_type : String
  pub size : ℕ

-- A row of the table `notifications`.
pub record StoredNotification : Type 0 where
  pub id : String
  pub user_id : String
  pub organization_id : Option String
  pub type : NotificationType
  pub title : String
  pub message : String
  pub is_read : Bool
  pub read_at : Option ℕ

-- The columns of a meeting that the Google integration fills; `googleCalendarId` is always
-- "primary".
pub record GoogleColumns : Type 0 where
  pub event_id : Option String
  pub html_link : Option String
  pub synced_at : Option ℕ
  pub meet_link : Option String
  pub meet_id : Option String
  pub is_meet_enabled : Bool

pub record Meeting : Type 0 where
  pub id : String
  pub organization_id : String
  pub project_id : Option String
  pub task_id : Option String
  pub created_by_id : String
  pub title : String
  pub description : Option String
  pub start_time : ℕ
  pub end_time : ℕ
  pub location : Option String
  pub google : GoogleColumns

pub record MeetingAttendee : Type 0 where
  pub id : String
  pub meeting_id : String
  pub user_id : String

abbrev pub projects_model : Model Project
projects_model = record {
  id = λ p. p.id;
  clash = λ p q. p.organization_id == q.organization_id && p.key == q.key;
}

abbrev pub tasks_model : Model Task
tasks_model = record { id = λ t. t.id; clash = λ t u. false }

abbrev pub assignees_model : Model TaskAssignee
assignees_model = record {
  id = λ a. a.id;
  clash = λ a b. a.task_id == b.task_id && a.user_id == b.user_id;
}

abbrev pub teams_model : Model Team
teams_model = record {
  id = λ t. t.id;
  clash = λ t u. t.organization_id == u.organization_id && t.name == u.name;
}

abbrev pub team_members_model : Model TeamMember
team_members_model = record {
  id = λ m. m.id;
  clash = λ m n. m.team_id == n.team_id && m.user_id == n.user_id;
}

abbrev pub comments_model : Model Comment
comments_model = record { id = λ c. c.id; clash = λ c d. false }

abbrev pub attachments_model : Model Attachment
attachments_model = record { id = λ a. a.id; clash = λ a b. a.storage_key == b.storage_key }

abbrev pub notifications_model : Model StoredNotification
notifications_model = record { id = λ n. n.id; clash = λ n m. false }

abbrev pub meetings_model : Model Meeting
meetings_model = record { id = λ m. m.id; clash = λ m n. false }

abbrev pub attendees_model : Model MeetingAttendee
attendees_model = record {
  id = λ a. a.id;
  clash = λ a b. a.meeting_id == b.meeting_id && a.user_id == b.user_id;
}
