-- ===== src/Meetings/Input.antt =====
-- meeting.service.ts and meeting.schema.ts: what is asked for, and what the calendar answers.
use Prim.Native.String
use multi_tenant_project_man.Base.{
  ℕ, String, Bool, true, false, Option, none, some, List, ◌==◌, ◌&&◌, not, is_some, ltb, or_default,
  present, if◌then◌else◌, map,
}
use multi_tenant_project_man.Base.Lists.{filter}
use multi_tenant_project_man.Schema.Work.{GoogleColumns}
use multi_tenant_project_man.World.{Runtime}
use multi_tenant_project_man.Meetings.Repository.{UpdateMeetingRepoData}

pub record CreateMeetingInput : Type 0 where
  pub title : String
  pub description : Option String
  pub start_time : ℕ
  pub end_time : ℕ
  pub location : Option String
  pub project_id : Option String
  pub task_id : Option String
  pub attendee_user_ids : Option (List String)
  pub sync_with_google : Bool
  pub create_google_meet : Bool

-- A field that may be left out is an option; one that may also be null is an option of an option.
pub record UpdateMeetingInput : Type 0 where
  pub title : Option String
  pub description : Option (Option String)
  pub start_time : Option ℕ
  pub end_time : Option ℕ
  pub location : Option (Option String)
  pub project_id : Option (Option String)
  pub task_id : Option (Option String)
  pub attendee_user_ids : Option (List String)
  pub sync_with_google : Option Bool
  pub create_google_meet : Option Bool

-- The refinements of the two schemas: the end is after the start, where both are given.
unfoldable pub create_times_ok : CreateMeetingInput → Bool
create_times_ok input = ltb input.start_time input.end_time

unfoldable pub update_times_ok : UpdateMeetingInput → Bool
update_times_ok input =
    if is_some input.start_time && is_some input.end_time
    then ltb (or_default input.start_time 0) (or_default input.end_time 0)
    else true

-- CalendarEventOutput, as far as it is read
pub record CalendarEventOutput : Type 0 where
  pub id : String
  pub html_link : Option String
  pub meet_link : Option String
  pub conference_id : Option String

abbrev pub no_google : GoogleColumns
no_google = record {
  event_id = none;
  html_link = none;
  synced_at = none;
  meet_link = none;
  meet_id = none;
  is_meet_enabled = false;
}

-- `value ?? other`, for an optional text
abbrev pub or_else : Option String → Option String → Option String
or_else none other = other
or_else (some a) other = some a

-- The columns after an event was created.
unfoldable pub of_new_event : ℕ → CalendarEventOutput → GoogleColumns
of_new_event now e = record {
  event_id = some e.id;
  html_link = e.html_link;
  synced_at = some now;
  meet_link = e.meet_link;
  meet_id = e.conference_id;
  is_meet_enabled = present e.meet_link;
}

-- The columns after the event of a meeting was changed.
unfoldable pub of_changed_event : ℕ → CalendarEventOutput → GoogleColumns → GoogleColumns
of_changed_event now e old =
    let synced = record old {
      html_link = or_else e.html_link old.html_link;
      synced_at = some now;
    } in
    if present e.meet_link
    then record synced {
      meet_link = e.meet_link;
      meet_id = or_else e.conference_id old.meet_id;
      is_meet_enabled = true;
    }
    else synced

-- The columns after a link was asked for.
unfoldable pub of_linked_event :
    ℕ → CalendarEventOutput → (event_id html_link : Option String) → GoogleColumns
of_linked_event now e event_id html_link = record {
  event_id = event_id;
  html_link = html_link;
  synced_at = some now;
  meet_link = some (or_default e.meet_link (String.◌++◌ "https://meet.google.com/" e.id));
  meet_id = some (or_default e.conference_id e.id);
  is_meet_enabled = true;
}

-- `attendeeUserIds.map((id) => id.trim()).filter(Boolean)`
unfoldable pub cleaned_ids : Runtime → List String → List String
cleaned_ids rt ids = filter (λ id. not (id == "")) (map rt.trim ids)

-- The fields that `updateMeeting` gives to the repository.
unfoldable pub to_fields :
    UpdateMeetingInput → GoogleColumns → Option (List String) → UpdateMeetingRepoData
to_fields input google attendees = record {
  title = input.title;
  description = input.description;
  start_time = input.start_time;
  end_time = input.end_time;
  location = input.location;
  project_id = input.project_id;
  task_id = input.task_id;
  google = some google;
  attendee_user_ids = attendees;
}

-- Those of `generateMeetLink`
unfoldable pub google_fields : GoogleColumns → UpdateMeetingRepoData
google_fields google = record {
  title = none;
  description = none;
  start_time = none;
  end_time = none;
  location = none;
  project_id = none;
  task_id = none;
  google = some google;
  attendee_user_ids = none;
}
