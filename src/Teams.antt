-- ===== src/Teams.antt =====
-- modules/teams: team.repository.ts and team.service.ts.
pub mod Tenancy
use multi_tenant_project_man.Base.{
  String, Bool, Option, none, some, List, [], ◌∷◌, ◌==◌, ◌&&◌, not, is_some, is_value, or_default,
  present, map, map_option, if◌then◌else◌,
}
use multi_tenant_project_man.Base.Error.{not_found, conflict, bad_request}
use multi_tenant_project_man.Base.Monad.{
  Action, pure, ◌>>=◌, ◌>>◌, gets, require, throw_if, transaction,
}
use multi_tenant_project_man.Prisma.{Prisma}
use multi_tenant_project_man.Prisma.Where.{update_where, delete_where, create_many}
use multi_tenant_project_man.Schema.{OrganizationMember}
use multi_tenant_project_man.Schema.Work.{
  Team, TeamMember, teams_model, team_members_model, tasks_model,
}
use multi_tenant_project_man.World.{Runtime, World, write}
use multi_tenant_project_man.Validation.{validate_members}

pub record CreateTeamInput : Type 0 where
  pub name : String
  pub description : Option String
  pub member_user_ids : Option (List String)

-- A field that may be left out is an option; one that may also be null is an option of an option.
pub record UpdateTeamInput : Type 0 where
  pub name : Option String
  pub description : Option (Option String)
  pub member_user_ids : Option (List String)

-- `{ ...(name ? { name } : {}), ...(description !== undefined ? { description } : {}) }`
unfoldable pub with_fields : Option String → Option (Option String) → Team → Team
with_fields name description t = record t {
  name = if present name then or_default name "" else t.name;
  description = or_default description t.description;
}

-- The rows of a team's members; the database chooses their ids.
abbrev member_rows : (new_ids : String → String) → String → List String → List TeamMember
member_rows new_ids team_id user_ids =
    map (λ u. record { id = new_ids u; team_id = team_id; user_id = u }) user_ids

module _ {db : Prisma} where
  unfoldable pub list_teams : String → World db → List Team
  list_teams organization_id w =
      db.find_many teams_model (λ t. t.organization_id == organization_id) w.teams

  unfoldable pub find_by_id : (organization_id team_id : String) → World db → Option Team
  find_by_id organization_id team_id w =
      db.find_first teams_model (λ t. t.id == team_id && t.organization_id == organization_id)
        w.teams

  unfoldable pub find_by_name : (organization_id name : String) → World db → Option Team
  find_by_name organization_id name w =
      db.find_first teams_model (λ t. t.organization_id == organization_id && t.name == name)
        w.teams

  unfoldable pub insert_members :
      (new_ids : String → String) → String → List String → Action (World db) (Unit {0})
  insert_members new_ids team_id user_ids w =
      write
        (create_many db team_members_model (member_rows new_ids team_id user_ids) w.team_members)
        (λ t v. record v { team_members = t }) tt w

  unfoldable pub clear_members : String → Action (World db) (Unit {0})
  clear_members team_id w = pure tt (record w {
    team_members = db.delete_many team_members_model (λ m. m.team_id == team_id) w.team_members;
  })

  unfoldable pub insert_team : Team → Action (World db) Team
  insert_team t w = write (db.create teams_model t w.teams) (λ ts v. record v { teams = ts }) t w

  -- `createTeam` of the repository: the row with its members, in one transaction
  unfoldable pub create_row :
      (new_ids : String → String) → Team → (member_user_ids : List String) → Action (World db) Team
  unfolding insert_team insert_members
  create_row new_ids t member_user_ids =
      transaction (do team ← insert_team t; insert_members new_ids t.id member_user_ids; pure team)

  unfoldable pub replace_members :
      (new_ids : String → String) → String → Option (List String) → Action (World db) (Unit {0})
  unfolding clear_members insert_members
  replace_members new_ids team_id none = pure tt
  replace_members new_ids team_id (some ids) =
      clear_members team_id >> insert_members new_ids team_id ids

  unfoldable pub write_team : String → (Team → Team) → Team → Action (World db) Team
  write_team team_id change t w =
      write (db.update teams_model team_id change w.teams) (λ ts v. record v { teams = ts })
        (change t) w

  -- `updateTeam` of the repository
  unfoldable pub update_row :
      (new_ids : String → String)
      → (team_id : String) → (Team → Team)
      → Option (List String)
      → Team
      → Action (World db) Team
  unfolding replace_members write_team
  update_row new_ids team_id change member_user_ids t =
      transaction (do replace_members new_ids team_id member_user_ids; write_team team_id change t)

  -- `deleteTeam` of the repository, with what the foreign keys of schema.prisma do: members go
  -- with the team, and its tasks forget it. A team that is gone makes it throw.
  unfoldable pub delete_row : String → Action (World db) (Unit {0})
  delete_row team_id w =
      write (delete_where db teams_model team_id (λ t. t.id == team_id) w.teams)
        (λ ts v. record v {
          teams = ts;
          team_members =
              db.delete_many team_members_model (λ m. m.team_id == team_id) v.team_members;
          tasks =
              db.update_many tasks_model (λ t. is_value t.team_id team_id)
                (λ t. record t { team_id = none }) v.tasks;
        })
        tt w

  unfoldable pub validate_member_user_ids :
      String → Option (List String) → Action (World db) (List String × List OrganizationMember)
  unfolding validate_members
  validate_member_user_ids = validate_members (bad_request "INVALID_TEAM_MEMBER")

  unfoldable pub get_team_by_id : (organization_id team_id : String) → Action (World db) Team
  unfolding find_by_id
  get_team_by_id organization_id team_id = do
    found ← gets (find_by_id organization_id team_id)
    require found (not_found "TEAM_NOT_FOUND")

  -- `createTeam`; the database chooses the ids.
  unfoldable pub create_team :
      Runtime
      → (new_id : String) → (new_ids : String → String) → (organization_id : String)
      → CreateTeamInput
      → Action (World db) Team
  unfolding find_by_name validate_member_user_ids create_row
  create_team rt new_id new_ids organization_id input = do
    existing ← gets (find_by_name organization_id (rt.trim input.name))
    throw_if (is_some existing) (conflict "TEAM_NAME_EXISTS")
    valid ← validate_member_user_ids organization_id input.member_user_ids
    create_row new_ids
        (record {
          id = new_id;
          organization_id = organization_id;
          name = rt.trim input.name;
          description = map_option rt.trim input.description;
        })
        valid.0

  -- `updateTeam`
  unfoldable pub update_team :
      Runtime
      → (new_ids : String → String) → (organization_id team_id : String) → UpdateTeamInput
      → Action (World db) Team
  unfolding get_team_by_id find_by_name validate_member_user_ids update_row with_fields
  update_team rt new_ids organization_id team_id input = do
    team ← get_team_by_id organization_id team_id
    let name = map_option rt.trim input.name
    existing ← gets (find_by_name organization_id (or_default name ""))
    throw_if (present name && (not (or_default name "" == team.name) && is_some existing))
        (conflict "TEAM_NAME_EXISTS")
    valid ← validate_member_user_ids organization_id input.member_user_ids
    update_row new_ids team_id
        (with_fields name (map_option (map_option rt.trim) input.description))
        (map_option (λ ids. valid.0) input.member_user_ids) team

  -- `deleteTeam`
  unfoldable pub delete_team : (organization_id team_id : String) → Action (World db) (Unit {0})
  unfolding get_team_by_id delete_row
  delete_team organization_id team_id = do
    get_team_by_id organization_id team_id
    delete_row team_id
