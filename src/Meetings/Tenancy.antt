-- ===== src/Meetings/Tenancy.antt =====
-- meeting.service.ts: whose meetings are changed.
use multi_tenant_project_man.Base.{
  ℕ, String, Bool, false, Option, some, none, List, ◌≡◌, ◌≢◌, refl, ◌==◌, ◌&&◌, ◌||◌, eq_iff, arith,
  Option-cases, inl, inr, or_default, map_option, ◌∙◌, ap,
}
use multi_tenant_project_man.Base.Monad.{Result, ok, Result-cases}
use multi_tenant_project_man.Prisma.{Prisma}
use multi_tenant_project_man.Prisma.Where.{update_where_keeps}
use multi_tenant_project_man.Schema.Work.{Meeting, GoogleColumns, meetings_model}
use multi_tenant_project_man.World.{Runtime, World}
use multi_tenant_project_man.Validation.{validate_members}
use multi_tenant_project_man.Meetings.Repository.{
  UpdateMeetingRepoData, find_by_id, insert_attendees, write_meeting, replace_attendees, update_row,
  delete_row, with_fields,
}
use multi_tenant_project_man.Meetings.Input.{UpdateMeetingInput, CalendarEventOutput, to_fields}
use multi_tenant_project_man.Meetings.Service.{
  validate_attendees, validate_project, sync_changed, apply_update, update_meeting, delete_event,
  delete_meeting, get_meeting_by_id,
}

module _ {db : Prisma} (organization_id : String) where
  abbrev pub meeting_at : String → World db → Option Meeting
  meeting_at k v = db.find_id meetings_model k v.meetings

  -- A deletion succeeds whether the meeting is there or not, and whatever the calendar answers
  -- or throws; afterwards the organization has no such meeting, and every meeting of another
  -- organization is as it was.
  pub delete_meeting_exact :
      (user_id meeting_id : String) (answer : Result (Unit {0})) (w : World db)
      → ((delete_meeting organization_id user_id meeting_id answer w).0 ≡ ok tt)
        × (find_by_id organization_id meeting_id
              (delete_meeting organization_id user_id meeting_id answer w).1
            ≡ none)
        × ((k : String) (m : Meeting)
            → meeting_at k w ≡ some m
            → m.organization_id ≢ organization_id
            → meeting_at k (delete_meeting organization_id user_id meeting_id answer w).1 ≡ some m)
  unfolding delete_meeting delete_event find_by_id delete_row
  delete_meeting_exact user_id meeting_id answer w =
      let v = (delete_meeting organization_id user_id meeting_id answer w).1 in
      elim (Option-cases (find_by_id organization_id meeting_id w)) [
        | inl absent ↦ (ground arith, ground arith, λ k m stored other. ground arith)
        | inr (n, found) ↦ (
          ground arith,
          elim (Option-cases (find_by_id organization_id meeting_id v)) [
            | inl absent ↦ absent
            | inr (m, left) ↦
                let (holds, stored) = db.find_first_sound meetings_model _ v.meetings m left in
                absurd (
                  ground (
                    arith,
                    db.find_id-delete_many meetings_model
                        (λ q. q.id == meeting_id && q.organization_id == organization_id) w.meetings
                        m.id,
                  ))
          ],
          λ k m stored other. ground (
            arith,
            db.find_id-delete_many meetings_model
                (λ q. q.id == meeting_id && q.organization_id == organization_id) w.meetings k,
            eq_iff m.organization_id organization_id,
          ),
        )
      ]

  update_row_keeps :
      (new_ids : String → String) (id : String) (fields : UpdateMeetingRepoData) (n : Meeting)
      (v : World db) (k : String) (m : Meeting)
      → meeting_at k v ≡ some m
      → m.organization_id ≢ organization_id
      → meeting_at k (update_row new_ids organization_id id fields n v).1 ≡ some m
  unfolding update_row write_meeting replace_attendees insert_attendees
  update_row_keeps new_ids id fields n v k m stored other = ground (
    arith,
    update_where_keeps db meetings_model id (λ q. q.organization_id == organization_id)
        (with_fields fields) v.meetings k m (λ q. unfold with_fields in refl) stored,
    eq_iff m.organization_id organization_id,
  )

  pub validate_attendees_reads :
      (rt : Runtime) (ids : Option (List String)) (w : World db)
      → (validate_attendees rt organization_id ids w).1 ≡ w
  unfolding validate_attendees validate_members
  validate_attendees_reads rt ids w = ground arith

  sync_changed_keeps :
      (now : ℕ) (user_id : String) (old : GoogleColumns) (asked : Bool)
      (answer : Result CalendarEventOutput) (w : World db)
      → (sync_changed now user_id old asked answer w).1.meetings ≡ w.meetings
  unfolding sync_changed
  sync_changed_keeps now user_id old asked answer w = ground arith

  apply_update_keeps :
      (now : ℕ) (new_ids : String → String) (user_id id : String) (input : UpdateMeetingInput)
      (answer : Result CalendarEventOutput) (n : Meeting) (ids : List String) (v : World db)
      (k : String) (m : Meeting)
      → meeting_at k v ≡ some m
      → m.organization_id ≢ organization_id
      → meeting_at k (apply_update now new_ids organization_id user_id id input answer n ids v).1
        ≡ some m
  unfolding apply_update
  apply_update_keeps now new_ids user_id id input answer n ids v k m stored other =
      let asked =
        or_default input.sync_with_google false || or_default input.create_google_meet false in
      let synced = sync_changed now user_id n.google asked answer v in
      let kept =
        ap (db.find_id meetings_model k) (sync_changed_keeps now user_id n.google asked answer v)
        ∙ stored in
      elim (Result-cases synced.0) [
        | inr (e, failed) ↦ ground arith
        | inl (google, answered) ↦ ground (
          arith,
          update_row_keeps new_ids id
              (to_fields input google (map_option (λ is. ids) input.attendee_user_ids)) n synced.1 k
              m kept other,
        )
      ]

  -- Whatever change of a meeting is asked for in an organization, and whatever the calendar
  -- answers, the meetings of every other organization stay as they are.
  pub other_meetings_after_update :
      (rt : Runtime) (now : ℕ) (new_ids : String → String) (user_id meeting_id : String)
      (input : UpdateMeetingInput) (answer : Result CalendarEventOutput) (w : World db) (k : String)
      (m : Meeting)
      → meeting_at k w ≡ some m
      → m.organization_id ≢ organization_id
      → meeting_at k
          (update_meeting rt now new_ids organization_id user_id meeting_id input answer w).1
        ≡ some m
  unfolding update_meeting get_meeting_by_id validate_project
  other_meetings_after_update rt now new_ids user_id meeting_id input answer w k m stored other =
      elim (Option-cases (find_by_id organization_id meeting_id w)) [
        | inl absent ↦ ground arith
        | inr (n, found) ↦
            elim (Result-cases
              (validate_attendees rt organization_id input.attendee_user_ids w).0) [
                | inr (e, refused) ↦
                    ground (arith, validate_attendees_reads rt input.attendee_user_ids w)
                | inl (valid, passes) ↦ ground (
                  arith,
                  validate_attendees_reads rt input.attendee_user_ids w,
                  apply_update_keeps now new_ids user_id meeting_id input answer n valid.0 w k m
                      stored other,
                )
              ]
      ]
