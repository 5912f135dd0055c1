-- ===== src/Meetings/Repository.antt =====
-- meeting.repository.ts.
use multi_tenant_project_man.Base.{
  ℕ, String, Bool, true, Option, none, some, List, ◌==◌, ◌&&◌, or_default, present, is_value,
  is_some, leb, map, if◌then◌else◌,
}
use multi_tenant_project_man.Base.Monad.{Action, pure, ◌>>=◌, ◌>>◌, transaction}
use multi_tenant_project_man.Prisma.{Prisma}
use multi_tenant_project_man.Prisma.Where.{update_where, create_many}
use multi_tenant_project_man.Schema.Work.{
  Meeting, GoogleColumns, MeetingAttendee, meetings_model, attendees_model,
}
use multi_tenant_project_man.World.{World, write}

-- A field that may be left out is an option; one that may also be null is an option of an option.
-- The columns of Google are given together, or none of them.
pub record UpdateMeetingRepoData : Type 0 where
  pub title : Option String
  pub description : Option (Option String)
  pub start_time : Option ℕ
  pub end_time : Option ℕ
  pub location : Option (Option String)
  pub project_id : Option (Option String)
  pub task_id : Option (Option String)
  pub google : Option GoogleColumns
  pub attendee_user_ids : Option (List String)

pub record FindMeetingsFilter : Type 0 where
  pub project_id : Option String
  pub from : Option ℕ
  pub to : Option ℕ

unfoldable pub with_fields : UpdateMeetingRepoData → Meeting → Meeting
with_fields fields m = record m {
  title = or_default fields.title m.title;
  description = or_default fields.description m.description;
  start_time = or_default fields.start_time m.start_time;
  end_time = or_default fields.end_time m.end_time;
  location = or_default fields.location m.location;
  project_id = or_default fields.project_id m.project_id;
  task_id = or_default fields.task_id m.task_id;
  google = or_default fields.google m.google;
}

-- `gte` and `lte`, each where it is given
unfoldable pub in_range : Option ℕ → Option ℕ → ℕ → Bool
in_range none none t = true
in_range (some from) none t = leb from t
in_range none (some to) t = leb t to
in_range (some from) (some to) t = leb from t && leb t to

-- The rows of a meeting's attendees; the database chooses their ids.
abbrev attendee_rows : (new_ids : String → String) → String → List String → List MeetingAttendee
attendee_rows new_ids meeting_id user_ids =
    map (λ u. record { id = new_ids u; meeting_id = meeting_id; user_id = u }) user_ids

module _ {db : Prisma} where
  unfoldable pub insert_attendees :
      (new_ids : String → String) → String → List String → Action (World db) (Unit {0})
  insert_attendees new_ids meeting_id user_ids w =
      write (create_many db attendees_model (attendee_rows new_ids meeting_id user_ids) w.attendees)
        (λ t v. record v { attendees = t }) tt w

  unfoldable pub insert_meeting : Meeting → Action (World db) Meeting
  insert_meeting m w =
      write (db.create meetings_model m w.meetings) (λ t v. record v { meetings = t }) m w

  -- `create`: the row with its attendees, in one transaction
  unfoldable pub create_row :
      (new_ids : String → String) → Meeting → List String → Action (World db) Meeting
  unfolding insert_meeting insert_attendees
  create_row new_ids m attendee_user_ids =
      transaction (do
        meeting ← insert_meeting m
        insert_attendees new_ids m.id attendee_user_ids
        pure meeting)

  unfoldable pub find_by_id : (organization_id id : String) → World db → Option Meeting
  find_by_id organization_id id w =
      db.find_first meetings_model (λ m. m.id == id && m.organization_id == organization_id)
        w.meetings

  -- `findByOrganization`, before the page is taken
  unfoldable pub find_by_organization : String → FindMeetingsFilter → World db → List Meeting
  unfolding in_range
  find_by_organization organization_id f w =
      db.find_many meetings_model
        (λ m.
          m.organization_id == organization_id
          && ((if present f.project_id
                then is_value m.project_id (or_default f.project_id "")
                else true)
              && in_range f.from f.to m.start_time))
        w.meetings

  unfoldable pub write_meeting :
      (organization_id id : String) → UpdateMeetingRepoData → Meeting → Action (World db) Meeting
  unfolding with_fields
  write_meeting organization_id id fields m w =
      write
        (update_where db meetings_model id (λ n. n.organization_id == organization_id)
          (with_fields fields) w.meetings)
        (λ t v. record v { meetings = t }) (with_fields fields m) w

  unfoldable pub replace_attendees :
      (new_ids : String → String) → String → Option (List String) → Action (World db) (Unit {0})
  unfolding insert_attendees
  replace_attendees new_ids id none w = pure tt w
  replace_attendees new_ids id (some ids) w = insert_attendees new_ids id ids (record w {
    attendees = db.delete_many attendees_model (λ a. a.meeting_id == id) w.attendees;
  })

  -- `update`, of the meeting that was found, with the nested writes of its attendees
  unfoldable pub update_row :
      (new_ids : String → String)
      → (organization_id id : String) → UpdateMeetingRepoData
      → Meeting
      → Action (World db) Meeting
  unfolding write_meeting replace_attendees
  update_row new_ids organization_id id fields m = transaction (do
    meeting ← write_meeting organization_id id fields m
    replace_attendees new_ids id fields.attendee_user_ids
    pure meeting)

  -- `delete`: deleteMany, with the attendees of the meeting that is gone
  unfoldable pub delete_row : (organization_id id : String) → Action (World db) (Unit {0})
  unfolding find_by_id
  delete_row organization_id id w = pure tt (record w {
    meetings =
        db.delete_many meetings_model (λ m. m.id == id && m.organization_id == organization_id)
          w.meetings;
    attendees =
        db.delete_many attendees_model
          (λ a. a.meeting_id == id && is_some (find_by_id organization_id id w)) w.attendees;
  })
