-- ===== src/Teams/Tenancy.antt =====
-- team.service.ts: whose teams are changed, and who is put into them.
use multi_tenant_project_man.Base.{
  String, some, ◌≡◌, ◌≢◌, ◌==◌, eq_iff, arith, Option-cases, Bool-cases, inl, inr,
}
use multi_tenant_project_man.Prisma.{Prisma}
use multi_tenant_project_man.Prisma.Where.{delete_where_keeps}
use multi_tenant_project_man.Schema.Work.{Team, teams_model}
use multi_tenant_project_man.World.{World}
use multi_tenant_project_man.Teams.{find_by_id, delete_row, get_team_by_id, delete_team}

module _ {db : Prisma} (organization_id : String) (w : World db) where
  found_team :
      (team_id : String) (t : Team)
      → find_by_id organization_id team_id w ≡ some t
      → (db.find_id teams_model team_id w.teams ≡ some t) × (t.organization_id ≡ organization_id)
  unfolding find_by_id
  found_team team_id t found =
      let (holds, stored) = db.find_first_sound teams_model _ w.teams t found in
      (
        ground (arith, eq_iff t.id team_id),
        ground (arith, eq_iff t.organization_id organization_id),
      )

  -- Whatever deletion of a team is asked for in an organization, the teams of every other
  -- organization stay as they are.
  pub other_teams_after_delete :
      (team_id k : String) (t : Team)
      → db.find_id teams_model k w.teams ≡ some t
      → t.organization_id ≢ organization_id
      → db.find_id teams_model k (delete_team organization_id team_id w).1.teams ≡ some t
  unfolding delete_team get_team_by_id delete_row
  other_teams_after_delete team_id k t stored other =
      elim (Option-cases (find_by_id organization_id team_id w)) [
        | inl absent ↦ ground arith
        | inr (u, found) ↦ elim (Bool-cases (k == team_id)) [
          | inl same ↦ absurd (ground (arith, found_team team_id u found, eq_iff k team_id))
          | inr apart ↦ ground (
            arith,
            delete_where_keeps db teams_model team_id (λ v. v.id == team_id) w.teams k t stored,
          )
        ]
      ]
