-- ===== src/Assistant/Orchestrator.antt =====
-- modules/ai/agent.orchestrator.ts. The state is that of the tools and of the language model, whose
-- answer may depend on all that went before. The system prompt is a parameter, as are the texts
-- that stand for a refusal and for a value of JSON.
use multi_tenant_project_man.Base.{
  ℕ, zero, suc, String, Bool, false, Option, none, some, List, [], ◌∷◌, ◌++◌, ◌+◌, ◌==◌, ◌||◌, ltb,
  length, map_option, if◌then◌else◌,
}
use multi_tenant_project_man.Base.Error.{validation_error}
use multi_tenant_project_man.Base.Lists.{contains, unique}
use multi_tenant_project_man.Base.Monad.{Action, Result, ok, err, pure, ◌>>=◌, ◌>>◌, throw_if}
use multi_tenant_project_man.Assistant.Sanitizer.{Json, Texts, sanitize_text, sanitize_value}
use multi_tenant_project_man.Assistant.Policy.{
  AgentTool, ToolResult, AiRequestContext, Refusal, ToolSecurityEvaluationResult, allowed, refused,
  failed, validate_request_context, evaluate_tool_execution, get_tool, get_tool_definitions,
  execute_tool, counts_as_mutation,
}

pub data LlmMessageRole : Type 0 where
  system user assistant tool : LlmMessageRole

pub record LlmMessage : Type 0 where
  pub role : LlmMessageRole
  pub content : String
  pub name : Option String
  pub tool_call_id : Option String

pub record LlmToolCall : Type 0 where
  pub id : String
  pub name : String
  pub arguments : Json

-- Without tool calls, the list is empty. `usage` is left out.
pub record LlmResponse : Type 0 where
  pub content : String
  pub tool_calls : List LlmToolCall

pub record AiSourceReference : Type 0 where
  pub id : String
  pub source_type : String
  pub source_id : String
  pub title : Option String

pub record AgentRunRequest : Type 0 where
  pub message : String
  pub include_rag_context : Bool
  pub max_steps : ℕ
  pub max_tool_calls : ℕ

pub record AgentRunResponse : Type 0 where
  pub answer : String
  pub steps_count : ℕ
  pub tool_calls_count : ℕ
  pub tools_used : List String
  pub sources : List AiSourceReference

-- The constructor's arguments, and the texts.
pub record Services (S : Type 0) : Type 0 where
  pub js : Texts
  pub tools : List (AgentTool S)
  -- `llmProvider.generate(messages, { tools })`
  pub generate : List LlmMessage → (tools : List (AgentTool S)) → Action S LlmResponse
  -- `rag.retrieve`, with what is cited of the results, and their texts where there are any
  pub retrieve :
      (organization_id query : String) → Action S (Option String × List AiSourceReference)
  pub system_prompt : (sources_context : Option String) → String
  pub refusal_text : Refusal → String
  pub stringify : ToolResult → String
  -- `${call.name}:${JSON.stringify(call.arguments)}`
  pub signature : LlmToolCall → String

-- The variables of the loop. `call_signatures` has an entry for each call that was counted.
pub record Progress : Type 0 where
  pub messages : List LlmMessage
  pub total_tool_calls : ℕ
  pub mutation_calls : ℕ
  pub tools_used : List String
  pub call_signatures : List String

abbrev pub said : LlmMessageRole → String → LlmMessage
said role content = record { role = role; content = content; name = none; tool_call_id = none }

-- `response.content || text`
abbrev pub or_text : String → String → String
or_text content other = if content == "" then other else content

-- Whether the tool of a call counts as one that changes something.
abbrev pub is_mutating : {S : Type 0} → Option (AgentTool S) → Bool
is_mutating none = false
is_mutating (some t) = counts_as_mutation t

module _ {S : Type 0} (services : Services S) (context : AiRequestContext) where
  -- What a call that the policy allows ends with; a call that was made before is not made again.
  unfoldable pub execute_approved :
      Option (AgentTool S)
      → LlmToolCall
      → (sanitized_input : Json) → Progress
      → Action S (ToolResult × Progress)
  unfolding execute_tool counts_as_mutation
  execute_approved found c input p =
      let counted = record p { call_signatures = services.signature c ∷ p.call_signatures } in
      if contains p.call_signatures (services.signature c)
      then pure (failed "You have already called this tool with these exact parameters", counted)
      else (do
        result ← execute_tool found context input
        pure (
          result,
          (if is_mutating found
              then record counted { mutation_calls = suc p.mutation_calls }
              else counted),
        ))

  -- Of the policy's answer
  unfoldable pub execute_evaluated :
      Option (AgentTool S)
      → LlmToolCall
      → ToolSecurityEvaluationResult
      → Progress
      → Action S (ToolResult × Progress)
  unfolding execute_approved
  execute_evaluated found c (refused reason) p = pure (failed (services.refusal_text reason), p)
  execute_evaluated found c (allowed input) p = execute_approved found c input p

  -- `sanitizeValue(toolResult)`
  unfoldable pub sanitized_result : ToolResult → ToolResult
  sanitized_result result = record result {
    value = map_option (sanitize_value services.js) result.value;
    error = map_option (sanitize_text services.js) result.error;
  }

  abbrev pub told : LlmToolCall → ToolResult → Progress → Progress
  told c result p = record p {
    total_tool_calls = suc p.total_tool_calls;
    tools_used = p.tools_used ++ c.name ∷ [];
    messages =
        p.messages
        ++ record {
          role = tool;
          content = services.stringify (sanitized_result result);
          name = some c.name;
          tool_call_id = some c.id;
        }
          ∷ [];
  }

  -- One round of `for (const call of response.toolCalls)`
  unfoldable pub run_call : LlmToolCall → Progress → Action S Progress
  unfolding get_tool evaluate_tool_execution execute_evaluated
  run_call c p = do
    outcome ←
        execute_evaluated (get_tool c.name services.tools) c
          (evaluate_tool_execution services.js (get_tool c.name services.tools) context c.arguments
            p.mutation_calls)
          p
    pure (told c outcome.0 outcome.1)

  unfoldable pub run_calls : List LlmToolCall → Progress → Action S Progress
  unfolding run_call
  run_calls [] p = pure p
  run_calls (c ∷ cs) p = run_call c p >>= run_calls cs

  abbrev answered :
      (answer : String) → (step : ℕ) → List AiSourceReference → Progress → AgentRunResponse
  answered answer step sources p = record {
    answer = sanitize_text services.js answer;
    steps_count = step;
    tool_calls_count = p.total_tool_calls;
    tools_used = unique p.tools_used;
    sources = sources;
  }

  -- The last answer is asked for without tools.
  unfoldable pub conclude :
      (asked otherwise : String)
      → (step : ℕ) → List AiSourceReference
      → Progress
      → Action S AgentRunResponse
  conclude asked otherwise step sources p = do
    response ← services.generate (p.messages ++ said user asked ∷ []) []
    pure (answered (or_text response.content otherwise) step sources p)

  -- `while (step < maxSteps)`, with the steps that are left
  unfoldable pub run_steps :
      (max_tool_calls : ℕ)
      → List AiSourceReference
      → (left step : ℕ) → Progress
      → Action S AgentRunResponse
  unfolding run_calls conclude get_tool_definitions
  run_steps max_tool_calls sources zero step p =
      conclude "Maximum reasoning steps reached."
        "Reasoning limit reached before completing full analysis." step sources p
  run_steps max_tool_calls sources (suc left) step p = do
    response ← services.generate p.messages (get_tool_definitions context services.tools)
    elim response.tool_calls [
      | [] ↦ pure (
          answered (or_text response.content "I was unable to find an answer to your query.")
            (suc step) sources p)
      | c ∷ cs ↦
          if ltb max_tool_calls (p.total_tool_calls + length (c ∷ cs))
          then conclude "Maximum tool execution limit reached."
              "Tool execution limit reached. Please refine your query." (suc step) sources
              (record p {
                messages =
                    p.messages
                    ++ said assistant (
                        or_text response.content
                          "I have reached the maximum allowed tool call limit.")
                      ∷ [];
              })
          else (run_calls (c ∷ cs)
                (record p { messages = p.messages ++ said assistant response.content ∷ [] })
              >>= run_steps max_tool_calls sources left (suc step))
    ]

  -- A failure of the retrieval is caught.
  abbrev or_nothing :
      Result (Option String × List AiSourceReference) × S
      → Result (Option String × List AiSourceReference) × S
  or_nothing (ok found, s) = (ok found, s)
  or_nothing (err e, s) = (ok (none, []), s)

  unfoldable pub retrieved : AgentRunRequest → Action S (Option String × List AiSourceReference)
  retrieved request s =
      if request.include_rag_context
      then or_nothing (services.retrieve context.organization_id request.message s)
      else (ok (none, []), s)

  abbrev pub starting : AgentRunRequest → Option String → Progress
  starting request sources_context = record {
    messages =
        said system (services.system_prompt sources_context)
        ∷ said user (sanitize_text services.js request.message)
        ∷ [];
    total_tool_calls = 0;
    mutation_calls = 0;
    tools_used = [];
    call_signatures = [];
  }

  -- `run`
  unfoldable pub run : AgentRunRequest → Action S AgentRunResponse
  unfolding validate_request_context retrieved run_steps
  run request = do
    validate_request_context context
    throw_if (request.message == "" || services.js.trim request.message == "") validation_error
    found ← retrieved request
    run_steps request.max_tool_calls found.1 request.max_steps 0 (starting request found.0)
