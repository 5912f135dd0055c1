-- ===== src/Tests/Agent.antt =====
-- An assistant with one tool, whose state is the number of tasks that were made.
use multi_tenant_project_man.Base.{
  ℕ, suc, String, Bool, true, false, none, some, [], ◌∷◌, ◌≡◌, ◌≤◌, ◌≢◌, arith, refl, subst, sym,
}
use multi_tenant_project_man.Base.Monad.{ok, pure}
use multi_tenant_project_man.Schema.{owner, admin, member}
use multi_tenant_project_man.Assistant.Sanitizer.{
  null, text, object, field, end, Texts, sanitize_value,
}
use multi_tenant_project_man.Assistant.Sanitized.{hides_secrets, sanitize_value-hides}
use multi_tenant_project_man.Assistant.Policy.{
  AgentTool, AiRequestContext, write, counts_as_mutation, get_tool,
}
use multi_tenant_project_man.Assistant.Orchestrator.{LlmToolCall, AgentRunRequest, Services, run}
use multi_tenant_project_man.Assistant.Calls.{Counted, Within}
use multi_tenant_project_man.Assistant.Safety.{run_contained}

abbrev js : Texts
js = record { replace = λ p by s. s; trim = λ s. s; to_lower_case = λ s. s }

abbrev create_task : AgentTool ℕ
create_task = record {
  name = "createTask";
  required_roles = owner ∷ admin ∷ member ∷ [];
  risk_level = write;
  requires_confirmation = false;
  is_mutation = true;
  schema = λ input. some input;
  execute = λ context input s. (ok (record { success = true; value = none; error = none }), suc s);
}

abbrev asked : LlmToolCall
asked = record { id = "1"; name = "createTask"; arguments = null }

-- The model asks for the same two tasks again and again.
abbrev services : Services ℕ
services = record {
  js = js;
  tools = create_task ∷ [];
  generate =
      λ ms ts. pure (record { content = ""; tool_calls = asked ∷ record asked { id = "2" } ∷ [] });
  retrieve = λ organization_id query. pure (none, []);
  system_prompt = λ sources. "You are an assistant.";
  refusal_text = λ reason. "No.";
  stringify = λ result. "";
  signature = λ c. c.id;
}

abbrev context : AiRequestContext
context = record { organization_id = "o1"; user_id = "u1"; user_role = "MEMBER" }

abbrev request : AgentRunRequest
request = record {
  message = "Make two tasks";
  include_rag_context = true;
  max_steps = 10;
  max_tool_calls = 5;
}

tool_found :
    (name : String) (t : AgentTool ℕ) → get_tool name services.tools ≡ some t → t ≡ create_task
unfolding get_tool
tool_found name t found = ground arith

true_ne_false : ◌≢◌ {A = Bool} true false
true_ne_false same = cc

-- The state is at most what the mutations made of it.
abbrev Made : (asked executed changed : ℕ) → ℕ → Type 0
Made a m n s = (s ≤ n) × (n ≤ m)

only_made : Counted services context Made
unfolding counts_as_mutation
only_made = record {
  generate_adds = λ ms ts a m n s h. h;
  retrieve_keeps = λ query a m n s h. h;
  read_adds = λ name t input a m n s found fine reads h.
      absurd
        (true_ne_false (subst (λ u. counts_as_mutation u ≡ false) (tool_found name t found) reads));
  mutation_adds = λ name t input a m n s found fine counts h.
      subst (λ u. Made a (suc m) (suc n) (u.execute context input s).1)
        (sym (tool_found name t found)) (omega (arith, h.0), omega (arith, h.1));
}

run_contained_example :
    (a : ℕ) × (a ≤ 11)
    × Within services context Made only_made a 5 3 (run services context request 0).1
run_contained_example =
    (run_contained services context Made only_made request 0 (omega arith, omega arith)).0

two_made : (run services context request 0).1 ≡ 2
unfolding run
two_made = refl

sanitize_value-hides_example :
    hides_secrets js
      (sanitize_value js (object (field "user" (object (field "password" (text "x") end)) end)))
    ≡ true
sanitize_value-hides_example =
    sanitize_value-hides js (object (field "user" (object (field "password" (text "x") end)) end))
