-- ===== src/Tests/Calendar.antt =====
-- Meetings of the team.
use multi_tenant_project_man.Base.{
  String, true, false, some, none, ◌≡◌, ◌≤◌, ◌∷◌, [], refl, is_some, Bool-cases, ne_of_==, arith,
}
use multi_tenant_project_man.Base.Error.{app, bad_request}
use multi_tenant_project_man.Base.Monad.{Result, ok, err}
use multi_tenant_project_man.Prisma.Rows.Client.{
  rows, create, update, update_if, or_same, store_or, store_if,
}
use multi_tenant_project_man.Prisma.Rows.Lists.{find, first, select, check, fits, apart, change}
use multi_tenant_project_man.Prisma.Where.{create_many, update_where}
use multi_tenant_project_man.Base.Lists.{unique, contains, filter}
use multi_tenant_project_man.Validation.{validate_members, org_members}
use multi_tenant_project_man.Projects.Repository.{find_by_id as find_project}
use multi_tenant_project_man.Meetings.Repository.{
  find_by_id, create_row, insert_meeting, insert_attendees, update_row, write_meeting,
  replace_attendees, with_fields,
}
use multi_tenant_project_man.Schema.Work.{Meeting}
use multi_tenant_project_man.Organizations.Repository.{find_member}
use multi_tenant_project_man.Meetings.Input.{
  CreateMeetingInput, UpdateMeetingInput, CalendarEventOutput, update_times_ok, of_new_event,
  cleaned_ids, to_fields,
}
use multi_tenant_project_man.Meetings.Service.{
  create_meeting, update_meeting, delete_meeting, validate_project, validate_attendees, sync_new,
  sync_changed, apply_update, get_meeting_by_id,
}
use multi_tenant_project_man.Meetings.Creation.{create_meeting_checked}
use multi_tenant_project_man.Meetings.Tenancy.{
  meeting_at, delete_meeting_exact, other_meetings_after_update,
}
use multi_tenant_project_man.Meetings.Times.{update_unordered}
use multi_tenant_project_man.Tests.Data.{rt, team, meeting, other_meeting}

abbrev drawn : String → String
drawn u = u

abbrev event : Result CalendarEventOutput
event =
    ok (record { id = "e1"; html_link = none; meet_link = some "https://m"; conference_id = none })

abbrev review : CreateMeetingInput
review = record {
  title = "Review";
  description = none;
  start_time = 300;
  end_time = 400;
  location = none;
  project_id = some "p1";
  task_id = none;
  attendee_user_ids = some ("u1" ∷ "u2" ∷ "u1" ∷ []);
  sync_with_google = false;
  create_google_meet = true;
}

-- An update of the end alone.
abbrev cut_short : UpdateMeetingInput
cut_short = record {
  title = none;
  description = none;
  start_time = none;
  end_time = some 50;
  location = none;
  project_id = none;
  task_id = none;
  attendee_user_ids = none;
  sync_with_google = none;
  create_google_meet = none;
}

-- The calendar throws.
abbrev unreachable : Result (Unit {0})
unreachable = err (app (bad_request "GOOGLE_CALENDAR_ERROR"))

delete_meeting_exact_example :
    (delete_meeting {db = rows} "o1" "u1" "g1" unreachable team).0 ≡ ok tt
delete_meeting_exact_example = (delete_meeting_exact {db = rows} "o1" "u1" "g1" unreachable team).0

other_meetings_after_update_example :
    meeting_at {db = rows} "o1" "g9"
      (update_meeting {db = rows} rt 9 drawn "o1" "u1" "g1" cut_short event team).1
    ≡ some other_meeting
unfolding find
other_meetings_after_update_example =
    other_meetings_after_update {db = rows} "o1" rt 9 drawn "u1" "g1" cut_short event team "g9"
      other_meeting refl (ne_of_== "o2" "o1" refl)

abbrev planned : Result Meeting
planned = (create_meeting {db = rows} rt 9 "g2" drawn "o1" "u1" review event team).0

abbrev cut : Result Meeting
cut = (update_meeting {db = rows} rt 9 drawn "o1" "u1" "g1" cut_short event team).0

abbrev planned_meeting : Meeting
planned_meeting = record {
  id = "g2";
  organization_id = "o1";
  project_id = some "p1";
  task_id = none;
  created_by_id = "u1";
  title = "Review";
  description = none;
  start_time = 300;
  end_time = 400;
  location = none;
  google =
      of_new_event 9 (record {
        id = "e1";
        html_link = none;
        meet_link = some "https://m";
        conference_id = none;
      });
}

review_planned : planned ≡ ok planned_meeting
unfolding create_meeting validate_project find_project validate_attendees validate_members
    org_members cleaned_ids filter unique contains sync_new of_new_event create_row insert_meeting
    insert_attendees create_many create update update_if or_same store_or store_if find first select
    check fits apart Bool-cases
review_planned = refl

cut_done : cut ≡ ok (record meeting { end_time = 50 })
unfolding update_meeting get_meeting_by_id find_by_id validate_project validate_attendees
    validate_members apply_update sync_changed update_row write_meeting replace_attendees
    with_fields to_fields update_where create update update_if or_same store_or store_if find first
    select check fits apart Bool-cases change
cut_done = refl

create_meeting_checked_example : is_some (find_member {db = rows} "o1" "u2" team) ≡ true
unfolding cleaned_ids filter contains
create_meeting_checked_example =
    (create_meeting_checked {db = rows} "o1" rt 9 "g2" drawn "u1" review event team planned_meeting
        review_planned).3
      "u2" refl

update_unordered_example : (update_times_ok cut_short ≡ true) × (50 ≤ (meeting.start_time))
unfolding find_by_id first
update_unordered_example =
    update_unordered {db = rows} drawn "o1" rt 9 "u1" "g1" cut_short event team meeting
      (record meeting { end_time = 50 }) 50 refl refl refl (omega arith) cut_done
