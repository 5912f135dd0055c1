-- ===== src/Meetings/Times.antt =====
-- meeting.service.ts and meeting.schema.ts: the times of a meeting after an update.
use multi_tenant_project_man.Base.{
  ℕ, String, true, some, none, List, ◌≡◌, ◌≤◌, arith, inl, inr, or_default, ◌||◌, false, map_option,
}
use multi_tenant_project_man.Base.Monad.{Result, ok, Result-cases}
use multi_tenant_project_man.Prisma.{Prisma}
use multi_tenant_project_man.Schema.Work.{Meeting, GoogleColumns}
use multi_tenant_project_man.World.{Runtime, World}
use multi_tenant_project_man.Meetings.Repository.{
  UpdateMeetingRepoData, find_by_id, update_row, write_meeting, replace_attendees, insert_attendees,
  with_fields,
}
use multi_tenant_project_man.Meetings.Input.{
  UpdateMeetingInput, CalendarEventOutput, to_fields, update_times_ok,
}
use multi_tenant_project_man.Meetings.Service.{
  validate_attendees, validate_project, sync_changed, apply_update, update_meeting,
  get_meeting_by_id,
}
use multi_tenant_project_man.Meetings.Tenancy.{validate_attendees_reads}

module _ {db : Prisma} (new_ids : String → String) (organization_id : String) where
  pub update_row_ok :
      (id : String) (fields : UpdateMeetingRepoData) (n m : Meeting) (v : World db)
      → (update_row new_ids organization_id id fields n v).0 ≡ ok m
      → m ≡ with_fields fields n
  unfolding update_row write_meeting replace_attendees insert_attendees
  update_row_ok id fields n m v passed = ground arith

  apply_update_ok :
      (now : ℕ) (user_id id : String) (input : UpdateMeetingInput)
      (answer : Result CalendarEventOutput) (n m : Meeting) (ids : List String) (v : World db)
      → (apply_update now new_ids organization_id user_id id input answer n ids v).0 ≡ ok m
      → (google : GoogleColumns) × (m
          ≡ with_fields
              (to_fields input google (map_option (λ given. ids) input.attendee_user_ids))
              n)
  unfolding apply_update
  apply_update_ok now user_id id input answer n m ids v passed =
      let synced =
        sync_changed now user_id n.google
          (or_default input.sync_with_google false || or_default input.create_google_meet false)
          answer v in
      elim (Result-cases synced.0) [
        | inr (e, failed) ↦ absurd (ground arith)
        | inl (google, answered) ↦ (
          google,
          update_row_ok id
              (to_fields input google (map_option (λ given. ids) input.attendee_user_ids)) n m
              synced.1 (ground arith),
        )
      ]

  apply_update_times :
      (now : ℕ) (user_id id : String) (input : UpdateMeetingInput)
      (answer : Result CalendarEventOutput) (n m : Meeting) (ids : List String) (v : World db)
      → (apply_update now new_ids organization_id user_id id input answer n ids v).0 ≡ ok m
      → (m.start_time ≡ or_default input.start_time n.start_time)
        × (m.end_time ≡ or_default input.end_time n.end_time)
  unfolding with_fields to_fields
  apply_update_times now user_id id input answer n m ids v passed =
      let (google, same) = apply_update_ok now user_id id input answer n m ids v passed in
      (ground arith, ground arith)

  update_ok :
      (rt : Runtime) (now : ℕ) (user_id id : String) (input : UpdateMeetingInput)
      (answer : Result CalendarEventOutput) (w : World db) (n m : Meeting)
      → find_by_id organization_id id w ≡ some n
      → (update_meeting rt now new_ids organization_id user_id id input answer w).0 ≡ ok m
      → (ids : List String) × ((apply_update now new_ids organization_id user_id id input answer n
            ids w).0
          ≡ ok m)
  unfolding update_meeting get_meeting_by_id validate_project
  update_ok rt now user_id id input answer w n m found passed =
      elim (Result-cases (validate_attendees rt organization_id input.attendee_user_ids w).0) [
        | inr (e, refused) ↦
            absurd (
              ground (arith, validate_attendees_reads organization_id rt input.attendee_user_ids w))
        | inl (valid, passes) ↦ (
          valid.0,
          ground (arith, validate_attendees_reads organization_id rt input.attendee_user_ids w),
        )
      ]

  -- After an update that succeeds, a meeting starts and ends when the update says, and where it
  -- says nothing, when it did before.
  pub update_times :
      (rt : Runtime) (now : ℕ) (user_id id : String) (input : UpdateMeetingInput)
      (answer : Result CalendarEventOutput) (w : World db) (n m : Meeting)
      → find_by_id organization_id id w ≡ some n
      → (update_meeting rt now new_ids organization_id user_id id input answer w).0 ≡ ok m
      → (m.start_time ≡ or_default input.start_time n.start_time)
        × (m.end_time ≡ or_default input.end_time n.end_time)
  update_times rt now user_id id input answer w n m found passed =
      let (ids, applied) = update_ok rt now user_id id input answer w n m found passed in
      apply_update_times now user_id id input answer n m ids w applied

  -- An update that gives an end alone passes the check of its times, also where the end is not
  -- after the start that the meeting has; if it succeeds, the meeting ends no later than it
  -- starts.
  pub update_unordered :
      (rt : Runtime) (now : ℕ) (user_id id : String) (input : UpdateMeetingInput)
      (answer : Result CalendarEventOutput) (w : World db) (n m : Meeting) (until : ℕ)
      → find_by_id organization_id id w ≡ some n
      → input.start_time ≡ none
      → input.end_time ≡ some until
      → until ≤ n.start_time
      → (update_meeting rt now new_ids organization_id user_id id input answer w).0 ≡ ok m
      → (update_times_ok input ≡ true) × (m.end_time ≤ m.start_time)
  unfolding update_times_ok
  update_unordered rt now user_id id input answer w n m until found unstarted ended early passed =
      let (starts, ends) = update_times rt now user_id id input answer w n m found passed in
      (ground arith, ground arith)
