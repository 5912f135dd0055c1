-- ===== src/Meetings/Creation.antt =====
-- meeting.service.ts: what holds of a meeting that was created.
use multi_tenant_project_man.Base.{
  ℕ, String, Bool, true, false, Option, some, List, [], ◌≡◌, ◌&&◌, ◌||◌, not, eq_iff, arith, inl,
  inr, is_some, or_default, present, map_option, ◌∙◌, ap, sym,
}
use multi_tenant_project_man.Base.Error.{bad_request}
use multi_tenant_project_man.Base.Lists.{contains}
use multi_tenant_project_man.Base.Monad.{Result, ok, throw_if_ok, Result-cases}
use multi_tenant_project_man.Prisma.{Prisma}
use multi_tenant_project_man.Prisma.Where.{Write-cases}
use multi_tenant_project_man.Schema.{OrganizationMember}
use multi_tenant_project_man.Schema.Work.{Meeting, GoogleColumns, meetings_model}
use multi_tenant_project_man.World.{Runtime, World}
use multi_tenant_project_man.Organizations.Repository.{find_member}
use multi_tenant_project_man.Projects.Repository.{find_by_id as find_project}
use multi_tenant_project_man.Validation.Sound.{validated}
use multi_tenant_project_man.Meetings.Repository.{create_row, insert_meeting, insert_attendees}
use multi_tenant_project_man.Meetings.Input.{CreateMeetingInput, CalendarEventOutput, cleaned_ids}
use multi_tenant_project_man.Meetings.Service.{
  validate_attendees, validate_project, sync_new, create_meeting,
}
use multi_tenant_project_man.Meetings.Tenancy.{meeting_at, validate_attendees_reads}

module _ {db : Prisma} (organization_id : String) where
  create_row_ok :
      (new_ids : String → String) (u t : Meeting) (ids : List String) (v : World db)
      → (create_row new_ids u ids v).0 ≡ ok t
      → (t ≡ u) × (meeting_at organization_id u.id (create_row new_ids u ids v).1 ≡ some u)
  unfolding create_row insert_meeting insert_attendees
  create_row_ok new_ids u t ids v passed =
      elim (Write-cases (db.create meetings_model u v.meetings)) [
        | inl (t', stored) ↦ (
          ground arith,
          ground (
            arith,
            db.find_id-create meetings_model u v.meetings t' u.id stored,
            eq_iff u.id u.id,
          ),
        )
        | inr (inl none_there) ↦ (ground arith, ground arith)
        | inr (inr taken) ↦ (ground arith, ground arith)
      ]

  validate_project_ok :
      (project_id : Option String) (w : World db)
      → (validate_project organization_id project_id w).0 ≡ ok tt
      → (present project_id
          && not (is_some (find_project organization_id (or_default project_id "") w)))
        ≡ false
  unfolding validate_project
  validate_project_ok project_id w passed = throw_if_ok _ _ _ passed

  sync_new_keeps :
      (now : ℕ) (user_id : String) (asked : Bool) (answer : Result CalendarEventOutput)
      (w : World db)
      → (sync_new now user_id asked answer w).1.meetings ≡ w.meetings
  unfolding sync_new
  sync_new_keeps now user_id asked answer w = ground arith

  module _ (rt : Runtime) (now : ℕ) (new_id : String) (new_ids : String → String) (user_id : String)
      (input : CreateMeetingInput) (answer : Result CalendarEventOutput) (w : World db) where
    abbrev new_meeting : GoogleColumns → Meeting
    new_meeting google = record {
      id = new_id;
      organization_id = organization_id;
      project_id = input.project_id;
      task_id = input.task_id;
      created_by_id = user_id;
      title = input.title;
      description = input.description;
      start_time = input.start_time;
      end_time = input.end_time;
      location = input.location;
      google = google;
    }

    abbrev synced : Result GoogleColumns × World db
    synced = sync_new now user_id (input.sync_with_google || input.create_google_meet) answer w

    created_row :
        (m : Meeting) (valid : List String × List OrganizationMember)
        → (validate_project organization_id input.project_id w).0 ≡ ok tt
        → (validate_attendees rt organization_id input.attendee_user_ids w).0 ≡ ok valid
        → (create_meeting rt now new_id new_ids organization_id user_id input answer w).0 ≡ ok m
        → (google : GoogleColumns) × (synced.0 ≡ ok google)
          × ((create_row new_ids (new_meeting google) valid.0 synced.1).0 ≡ ok m)
          × ((create_meeting rt now new_id new_ids organization_id user_id input answer
                w).1.meetings
              ≡ (create_row new_ids (new_meeting google) valid.0 synced.1).1.meetings)
    unfolding create_meeting validate_project
    created_row m valid fine passes passed = elim (Result-cases synced.0) [
      | inr (e, failed) ↦
          absurd
            (ground (arith, validate_attendees_reads organization_id rt input.attendee_user_ids w))
      | inl (google, answered) ↦ (
        google,
        answered,
        ground (arith, validate_attendees_reads organization_id rt input.attendee_user_ids w),
        ground (arith, validate_attendees_reads organization_id rt input.attendee_user_ids w),
      )
    ]

    checks_passed :
        (m : Meeting)
        → (create_meeting rt now new_id new_ids organization_id user_id input answer w).0 ≡ ok m
        → ((validate_project organization_id input.project_id w).0 ≡ ok tt)
          × (valid : List String × List OrganizationMember) × ((validate_attendees rt
                organization_id input.attendee_user_ids w).0
              ≡ ok valid)
    unfolding create_meeting validate_project
    checks_passed m passed =
        elim (Result-cases (validate_attendees rt organization_id input.attendee_user_ids w).0) [
          | inr (e, refused) ↦ absurd (ground arith)
          | inl (valid, passes) ↦ (
            ground (arith, validate_attendees_reads organization_id rt input.attendee_user_ids w),
            valid,
            passes,
          )
        ]

    -- When a meeting is created, a project that is given is one of the organization, and every
    -- attendee, less the blanks around the id, is a member of it; the meeting is stored.
    pub create_meeting_checked :
        (m : Meeting)
        → (create_meeting rt now new_id new_ids organization_id user_id input answer w).0 ≡ ok m
        → (m.organization_id ≡ organization_id)
          × (m.project_id ≡ input.project_id)
          × ((present input.project_id
                && not (is_some (find_project organization_id (or_default input.project_id "") w)))
              ≡ false)
          × ((z : String)
              → contains (or_default (map_option (cleaned_ids rt) input.attendee_user_ids) []) z
                ≡ true
              → is_some (find_member organization_id z w) ≡ true)
          × (meeting_at organization_id new_id
                (create_meeting rt now new_id new_ids organization_id user_id input answer w).1
              ≡ some m)
    unfolding validate_attendees
    create_meeting_checked m passed =
        let (fine, (ids, members), passes) = checks_passed m passed in
        let (google, answered, done_row, table) = created_row m (ids, members) fine passes passed in
        let (same, stored) = create_row_ok new_ids (new_meeting google) m ids synced.1 done_row in
        (
          ap (λ n. n.organization_id) same,
          ap (λ n. n.project_id) same,
          validate_project_ok input.project_id w fine,
          (validated organization_id w (bad_request "INVALID_ATTENDEE")
              (map_option (cleaned_ids rt) input.attendee_user_ids) ids members passes).1,
          ap (db.find_id meetings_model new_id) table ∙ stored ∙ ap some (sym same),
        )
