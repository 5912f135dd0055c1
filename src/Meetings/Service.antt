-- ===== src/Meetings/Service.antt =====
-- meeting.service.ts. What the calendar answers to a request is an argument: an event, or what it
-- throws. A failure to log an activity is caught, so the log is a call like elsewhere.
use multi_tenant_project_man.Base.{
  ℕ, String, Bool, true, false, Option, none, some, List, [], ◌∷◌, ◌&&◌, ◌||◌, not, is_some,
  or_default, present, if◌then◌else◌, map_option,
}
use multi_tenant_project_man.Base.Error.{bad_request, not_found}
use multi_tenant_project_man.Base.Monad.{
  Action, Result, ok, err, pure, ◌>>=◌, ◌>>◌, gets, require, throw_if, when,
}
use multi_tenant_project_man.Pagination.Pages.{PaginatedResponse, paginate}
use multi_tenant_project_man.Prisma.{Prisma}
use multi_tenant_project_man.Schema.{OrganizationMember}
use multi_tenant_project_man.Schema.Work.{Meeting, GoogleColumns}
use multi_tenant_project_man.World.{
  Runtime, World, Call, call, call_all, calls_if, log_activity, calendar_create, calendar_update,
  calendar_delete, meeting_entity, created, updated, deleted, ActivityAction,
}
use multi_tenant_project_man.Validation.{validate_members}
use multi_tenant_project_man.Projects.Repository.{find_by_id as find_project}
use multi_tenant_project_man.Meetings.Repository.{
  FindMeetingsFilter, find_by_id, find_by_organization, create_row, update_row, delete_row,
}
use multi_tenant_project_man.Meetings.Input.{
  CreateMeetingInput, UpdateMeetingInput, CalendarEventOutput, no_google, of_new_event,
  of_changed_event, of_linked_event, or_else, cleaned_ids, to_fields, google_fields,
}

abbrev pub log_meeting : String → String → String → ActivityAction → Call
log_meeting organization_id user_id meeting_id action = log_activity (record {
  organization_id = organization_id;
  user_id = user_id;
  entity_type = meeting_entity;
  entity_id = meeting_id;
  action = action;
})

module _ {db : Prisma} where
  -- A request to the calendar and its answer.
  abbrev ask : Call → Result CalendarEventOutput → Action (World db) CalendarEventOutput
  ask c answer = call c >> λ w. (answer, w)

  -- `try { ... } catch (err) { logger.warn(...) }`
  abbrev caught : Result (Unit {0}) × World db → Result (Unit {0}) × World db
  caught (ok done, w) = (ok tt, w)
  caught (err e, w) = (ok tt, w)

  unfoldable pub validate_attendees :
      Runtime
      → String
      → Option (List String)
      → Action (World db) (List String × List OrganizationMember)
  unfolding validate_members cleaned_ids
  validate_attendees rt organization_id ids =
      validate_members (bad_request "INVALID_ATTENDEE") organization_id
        (map_option (cleaned_ids rt) ids)

  unfoldable pub validate_project : String → Option String → Action (World db) (Unit {0})
  unfolding find_project
  validate_project organization_id project_id w =
      throw_if
        (present project_id
          && not (is_some (find_project organization_id (or_default project_id "") w)))
        (not_found "PROJECT_NOT_FOUND") w

  -- `if (input.syncWithGoogle || input.createGoogleMeet)` of `createMeeting`
  unfoldable pub sync_new :
      ℕ → String → Bool → Result CalendarEventOutput → Action (World db) GoogleColumns
  unfolding of_new_event
  sync_new now user_id false answer = pure no_google
  sync_new now user_id true answer = do
    event ← ask (calendar_create user_id) answer
    pure (of_new_event now event)

  -- `createMeeting`; the database chooses the ids.
  unfoldable pub create_meeting :
      Runtime
      → ℕ
      → (new_id : String) → (new_ids : String → String) → (organization_id user_id : String)
      → CreateMeetingInput
      → Result CalendarEventOutput
      → Action (World db) Meeting
  unfolding validate_project validate_attendees sync_new create_row
  create_meeting rt now new_id new_ids organization_id user_id input answer = do
    validate_project organization_id input.project_id
    valid ← validate_attendees rt organization_id input.attendee_user_ids
    google ← sync_new now user_id (input.sync_with_google || input.create_google_meet) answer
    meeting ←
        create_row new_ids
          (record {
            id = new_id;
            organization_id = organization_id;
            project_id = input.project_id;
            task_id = input.task_id;
            created_by_id = user_id;
            title = input.title;
            description = input.description;
            start_time = input.start_time;
            end_time = input.end_time;
            location = input.location;
            google = google;
          })
          valid.0
    call_all (
        log_meeting organization_id user_id new_id created
        ∷ calls_if (google.is_meet_enabled && present google.meet_link)
            (log_meeting organization_id user_id new_id ActivityAction.meet_link_created ∷ []))
    pure meeting

  -- `getMeetings`; the rows are ordered by their start.
  unfoldable pub get_meetings :
      (order : List Meeting → List Meeting)
      → String
      → FindMeetingsFilter
      → (page limit : Option ℕ) → Action (World db) (PaginatedResponse Meeting)
  unfolding find_by_organization paginate
  get_meetings order organization_id f page limit = do
    meetings ← gets (find_by_organization organization_id f)
    pure (paginate order meetings page limit)

  unfoldable pub get_meeting_by_id :
      (organization_id meeting_id : String) → Action (World db) Meeting
  unfolding find_by_id
  get_meeting_by_id organization_id meeting_id = do
    found ← gets (find_by_id organization_id meeting_id)
    require found (not_found "MEETING_NOT_FOUND")

  -- The event of the meeting is changed, or a new one is made where it is asked for.
  unfoldable pub sync_changed :
      ℕ
      → String
      → GoogleColumns
      → (asked : Bool) → Result CalendarEventOutput
      → Action (World db) GoogleColumns
  unfolding of_changed_event of_new_event
  sync_changed now user_id old asked answer =
      if present old.event_id
      then (do
        event ← ask (calendar_update user_id (or_default old.event_id "")) answer
        pure (of_changed_event now event old))
      else if asked
      then (do event ← ask (calendar_create user_id) answer; pure (of_new_event now event))
      else pure old

  -- The second half of `updateMeeting`: the calendar, then the tables, then the log.
  unfoldable pub apply_update :
      ℕ
      → (new_ids : String → String) → (organization_id user_id meeting_id : String)
      → UpdateMeetingInput
      → Result CalendarEventOutput
      → Meeting
      → (attendees : List String) → Action (World db) Meeting
  unfolding sync_changed update_row to_fields
  apply_update now new_ids organization_id user_id meeting_id input answer existing attendees = do
    google ←
        sync_changed now user_id existing.google
          (or_default input.sync_with_google false || or_default input.create_google_meet false)
          answer
    meeting ←
        update_row new_ids organization_id meeting_id
          (to_fields input google (map_option (λ ids. attendees) input.attendee_user_ids)) existing
    call (log_meeting organization_id user_id meeting_id updated)
    pure meeting

  -- `updateMeeting`
  unfoldable pub update_meeting :
      Runtime
      → ℕ
      → (new_ids : String → String) → (organization_id user_id meeting_id : String)
      → UpdateMeetingInput
      → Result CalendarEventOutput
      → Action (World db) Meeting
  unfolding get_meeting_by_id validate_project validate_attendees apply_update
  update_meeting rt now new_ids organization_id user_id meeting_id input answer = do
    existing ← get_meeting_by_id organization_id meeting_id
    validate_project organization_id (or_default input.project_id none)
    valid ← validate_attendees rt organization_id input.attendee_user_ids
    apply_update now new_ids organization_id user_id meeting_id input answer existing valid.0

  -- `generateMeetLink`
  unfoldable pub generate_meet_link :
      ℕ
      → (new_ids : String → String) → (organization_id user_id meeting_id : String)
      → Result CalendarEventOutput
      → Action (World db) Meeting
  unfolding get_meeting_by_id of_linked_event update_row google_fields
  generate_meet_link now new_ids organization_id user_id meeting_id answer = do
    existing ← get_meeting_by_id organization_id meeting_id
    let old = existing.google
    event ←
        ask
          (if present old.event_id
            then calendar_update user_id (or_default old.event_id "")
            else calendar_create user_id)
          answer
    let google =
        if present old.event_id
        then of_linked_event now event old.event_id (or_else event.html_link old.html_link)
        else of_linked_event now event (some event.id) event.html_link
    meeting ← update_row new_ids organization_id meeting_id (google_fields google) existing
    call (log_meeting organization_id user_id meeting_id ActivityAction.meet_link_created)
    pure meeting

  -- The event of the calendar is deleted; what that throws is caught, and only logged.
  unfoldable pub delete_event :
      (user_id event_id : String) → (answer : Result (Unit {0})) → Action (World db) (Unit {0})
  delete_event user_id event_id answer w =
      caught ((call (calendar_delete user_id event_id) >> λ v. (answer, v)) w)

  -- `deleteMeeting`: a meeting that is not there counts as deleted, and a failure of the calendar
  -- is only logged.
  unfoldable pub delete_meeting :
      (organization_id user_id meeting_id : String)
      → (answer : Result (Unit {0})) → Action (World db) (Unit {0})
  unfolding find_by_id delete_event delete_row
  delete_meeting organization_id user_id meeting_id answer w =
      elim (find_by_id organization_id meeting_id w) [
        | none ↦ pure tt w
        | some existing ↦
            (when (present existing.google.event_id)
                  (delete_event user_id (or_default existing.google.event_id "") answer)
                >> delete_row organization_id meeting_id
                >> call (log_meeting organization_id user_id meeting_id deleted))
              w
      ]
