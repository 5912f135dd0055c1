-- ===== src/Assistant/Policy.antt =====
-- modules/ai: guardrails/agent-security.policy.ts and tools/tool-registry.ts. The tools act on a
-- state of their own, and a schema of zod is a function that parses.
use multi_tenant_project_man.Base.{
  ℕ, String, Bool, true, false, Option, none, some, List, [], ◌∷◌, ◌==◌, ◌&&◌, ◌||◌, not, leb, any,
  if◌then◌else◌,
}
use multi_tenant_project_man.Base.Error.{validation_error, forbidden}
use multi_tenant_project_man.Base.Lists.{filter}
use multi_tenant_project_man.Base.Monad.{Action, Result, ok, err, pure, ◌>>◌, throw_if}
use multi_tenant_project_man.Schema.{OrganizationRole, owner, admin, member, viewer, role_name}
use multi_tenant_project_man.Assistant.Sanitizer.{Json, null, object, end, Texts, sanitize_value}

pub data ToolRiskLevel : Type 0 where
  read write destructive external_side_effect : ToolRiskLevel

pub record ToolResult : Type 0 where
  pub success : Bool
  pub value : Option Json
  pub error : Option String

-- The role is the text that the token carries.
pub record AiRequestContext : Type 0 where
  pub organization_id : String
  pub user_id : String
  pub user_role : String

pub record AgentTool (S : Type 0) : Type 0 where
  pub name : String
  pub required_roles : List OrganizationRole
  pub risk_level : ToolRiskLevel
  pub requires_confirmation : Bool
  pub is_mutation : Bool
  -- `schema.safeParse`, with none where it fails
  pub schema : Json → Option Json
  pub execute : AiRequestContext → Json → Action S ToolResult

-- Why a tool is not executed; the sentence that says so is left out.
pub data Refusal : Type 0 where
  unknown_tool no_context not_authorized needs_confirmation too_many_mutations : Refusal

pub data ToolSecurityEvaluationResult : Type 0 where
  allowed : (sanitized_input : Json) → ToolSecurityEvaluationResult
  refused : Refusal → ToolSecurityEvaluationResult

abbrev pub default_max_mutations : ℕ
default_max_mutations = 3

abbrev pub is_destructive : ToolRiskLevel → Bool
is_destructive destructive = true
is_destructive _ = false

abbrev changes_data : ToolRiskLevel → Bool
changes_data write = true
changes_data external_side_effect = true
changes_data _ = false

-- `!context.organizationId || !context.userId`
abbrev pub lacks_context : AiRequestContext → Bool
lacks_context context = context.organization_id == "" || context.user_id == ""

-- `requiredRoles.includes(userRole)`
abbrev pub includes : List OrganizationRole → String → Bool
includes roles user_role = any (λ r. role_name r == user_role) roles

-- `validateRequestContext`
unfoldable pub validate_request_context : {S : Type 0} → AiRequestContext → Action S (Unit {0})
validate_request_context context = do
  throw_if (lacks_context context) validation_error
  throw_if (not (includes (owner ∷ admin ∷ member ∷ viewer ∷ []) context.user_role))
      (forbidden "FORBIDDEN")

-- `rawInput ?? {}`
abbrev pub or_empty : Json → Json
or_empty null = object end
or_empty input = input

-- A result without success; the sentences are shortened.
abbrev pub failed : String → ToolResult
failed error = record { success = false; value = none; error = some error }

module _ {S : Type 0} where
  -- `tool.isMutation || riskLevel === 'WRITE' || riskLevel === 'EXTERNAL_SIDE_EFFECT'`
  unfoldable pub counts_as_mutation : AgentTool S → Bool
  counts_as_mutation tool = tool.is_mutation || changes_data tool.risk_level

  unfoldable pub evaluate_tool_execution :
      Texts
      → Option (AgentTool S)
      → AiRequestContext
      → Json
      → (mutation_calls : ℕ) → ToolSecurityEvaluationResult
  unfolding counts_as_mutation
  evaluate_tool_execution js none context input mutation_calls = refused unknown_tool
  evaluate_tool_execution js (some tool) context input mutation_calls =
      if lacks_context context
      then refused no_context
      else if not (includes tool.required_roles context.user_role)
      then refused not_authorized
      else if is_destructive tool.risk_level || tool.requires_confirmation
      then refused needs_confirmation
      else if counts_as_mutation tool && leb default_max_mutations mutation_calls
      then refused too_many_mutations
      else allowed (sanitize_value js input)

  -- `getTool`: the tools are registered under their names, and a later one replaces an earlier.
  unfoldable pub get_tool : String → List (AgentTool S) → Option (AgentTool S)
  get_tool name [] = none
  get_tool name (tool ∷ tools) =
      let later = get_tool name tools in
      elim later [ some t ↦ some t | none ↦ if tool.name == name then some tool else none ]

  -- `getToolDefinitions`, as the tools
  unfoldable pub get_tool_definitions : AiRequestContext → List (AgentTool S) → List (AgentTool S)
  get_tool_definitions context tools =
      filter (λ tool. includes tool.required_roles context.user_role) tools

  -- A tool that throws has failed; what it wrote before stays.
  abbrev pub caught : Result ToolResult × S → Result ToolResult × S
  caught (ok result, s) = (ok result, s)
  caught (err e, s) = (ok (failed "Tool execution encountered an error"), s)

  -- What a tool's input is parsed to, and then done.
  abbrev pub execute_parsed : AgentTool S → AiRequestContext → Option Json → Action S ToolResult
  execute_parsed tool context none s = pure (failed "Tool argument validation failed") s
  execute_parsed tool context (some input) s = caught (tool.execute context input s)

  -- `executeTool`
  unfoldable pub execute_tool : Option (AgentTool S) → AiRequestContext → Json → Action S ToolResult
  execute_tool none context raw_input =
      if lacks_context context
      then pure (failed "Authentication and organization context required for tool execution")
      else pure (failed "Tool is not recognized or not available")
  execute_tool (some tool) context raw_input =
      if lacks_context context
      then pure (failed "Authentication and organization context required for tool execution")
      else if not (includes tool.required_roles context.user_role)
      then pure (failed "Role is not authorized to execute tool")
      else execute_parsed tool context (tool.schema (or_empty raw_input))
