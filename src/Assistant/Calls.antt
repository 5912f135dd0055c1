-- ===== src/Assistant/Calls.antt =====
-- agent.orchestrator.ts: what the tool calls of one answer do to the state of the tools.
use multi_tenant_project_man.Base.{
  ℕ, suc, String, true, false, Option, none, some, List, [], ◌∷◌, ◌≡◌, ◌≤◌, ◌<◌, ◌+◌, arith, refl,
  Bool-cases, inl, inr, length, if◌then◌else◌, subst, sym, ap,
}
use multi_tenant_project_man.Base.Lists.{contains}
use multi_tenant_project_man.Base.Monad.{Result, ok, err, Result-cases}
use multi_tenant_project_man.Assistant.Sanitizer.{Json, Texts}
use multi_tenant_project_man.Assistant.Policy.{
  AgentTool, ToolResult, AiRequestContext, ToolSecurityEvaluationResult, allowed, refused, failed,
  unknown_tool, evaluate_tool_execution, get_tool, execute_tool, counts_as_mutation, includes,
  execute_parsed, is_destructive, lacks_context, caught, or_empty,
}
use multi_tenant_project_man.Assistant.Orchestrator.{
  LlmMessage, LlmToolCall, Services, Progress, execute_approved, execute_evaluated, run_call,
  run_calls, told,
}

-- What the policy asks of a tool before it is executed.
abbrev pub Permitted : {S : Type 0} → AiRequestContext → AgentTool S → Type 0
Permitted context t =
    (includes t.required_roles context.user_role ≡ true)
    × (is_destructive t.risk_level ≡ false)
    × (t.requires_confirmation ≡ false)

allowed-Permitted :
    {S : Type 0} (js : Texts) (t : AgentTool S) (context : AiRequestContext) (input input' : Json)
    (n : ℕ)
    → evaluate_tool_execution js (some t) context input n ≡ allowed input'
    → Permitted context t × ((counts_as_mutation t ≡ true) → n < 3)
unfolding evaluate_tool_execution
allowed-Permitted js t context input input' n passed = (ground arith, λ counts. ground arith)

-- A reading of the state that counts what happens: the answers that the model was asked for, the
-- tools that were executed, and those of them that count as mutations. It holds after as many as
-- it says, and only permitted tools that are registered are asked to keep to it.
pub record Counted {S : Type 0} (services : Services S) (context : AiRequestContext)
    (I : (asked executed changed : ℕ) → S → Type 0) : Type 0 where
  pub generate_adds :
      (ms : List LlmMessage) (ts : List (AgentTool S)) (a m n : ℕ) (s : S)
      → I a m n s
      → I (suc a) m n (services.generate ms ts s).1
  pub retrieve_keeps :
      (query : String) (a m n : ℕ) (s : S)
      → I a m n s
      → I a m n (services.retrieve context.organization_id query s).1
  pub read_adds :
      (name : String) (t : AgentTool S) (input : Json) (a m n : ℕ) (s : S)
      → get_tool name services.tools ≡ some t
      → Permitted context t
      → counts_as_mutation t ≡ false
      → I a m n s
      → I a (suc m) n (t.execute context input s).1
  pub mutation_adds :
      (name : String) (t : AgentTool S) (input : Json) (a m n : ℕ) (s : S)
      → get_tool name services.tools ≡ some t
      → Permitted context t
      → counts_as_mutation t ≡ true
      → I a m n s
      → I a (suc m) (suc n) (t.execute context input s).1

module _ {S : Type 0} (services : Services S) (context : AiRequestContext)
    (I : (asked executed changed : ℕ) → S → Type 0) (laws : Counted services context I) where
  -- The state after so many answers, at most so many executions and at most so many mutations.
  abbrev pub Within : (asked executed changed : ℕ) → S → Type 0
  Within a total k s = (m : ℕ) × (n : ℕ) × (m ≤ total) × (n ≤ k) × I a m n s

  abbrev pub Good : (asked : ℕ) → Progress → S → Type 0
  Good a p s = (p.mutation_calls ≤ 3) × Within a p.total_tool_calls p.mutation_calls s

  abbrev counted : AgentTool S → ℕ
  counted t = if counts_as_mutation t then 1 else 0

  parsed_ok :
      (t : AgentTool S) (input : Option Json) (s : S)
      → (r : ToolResult) × ((execute_parsed t context input s).0 ≡ ok r)
  parsed_ok t none s = (failed "Tool argument validation failed", refl)
  parsed_ok t (some input) s = elim (Result-cases (t.execute context input s).0) [
    | inl (r, done) ↦ (r, ground arith)
    | inr (e, thrown) ↦ (failed "Tool execution encountered an error", ground arith)
  ]

  caught_state : (r : Result ToolResult × S) → (caught r).1 ≡ r.1
  caught_state (ok r, s) = refl
  caught_state (err e, s) = refl

  executed_ok :
      (t : AgentTool S) (input : Json) (s : S)
      → (r : ToolResult) × ((execute_tool (some t) context input s).0 ≡ ok r)
  unfolding execute_tool
  executed_ok t input s =
      let (r, done) = parsed_ok t (t.schema (or_empty input)) s in
      elim (Bool-cases (lacks_context context)) [
        | inl lacks ↦ (
          failed "Authentication and organization context required for tool execution",
          ground arith,
        )
        | inr fine ↦ elim (Bool-cases (includes t.required_roles context.user_role)) [
          | inl within ↦ (r, ground arith)
          | inr outside ↦ (failed "Role is not authorized to execute tool", ground arith)
        ]
      ]

  parsed_keeps :
      (name : String) (t : AgentTool S) (input : Option Json) (a m n : ℕ) (s : S)
      → get_tool name services.tools ≡ some t
      → Permitted context t
      → I a m n s
      → Within a (suc m) (n + counted t) (execute_parsed t context input s).1
  parsed_keeps name t none a m n s found fine held = (m, n, omega arith, omega arith, held)
  parsed_keeps name t (some input) a m n s found fine held =
      let same = sym (caught_state (t.execute context input s)) in
      elim (Bool-cases (counts_as_mutation t)) [
        | inl counts ↦ (
          suc m,
          suc n,
          omega arith,
          ground arith,
          subst (I a (suc m) (suc n)) same
              (laws.mutation_adds name t input a m n s found fine counts held),
        )
        | inr reads ↦ (
          suc m,
          n,
          omega arith,
          ground arith,
          subst (I a (suc m) n) same (laws.read_adds name t input a m n s found fine reads held),
        )
      ]

  executed_keeps :
      (name : String) (t : AgentTool S) (input : Json) (a m n : ℕ) (s : S)
      → get_tool name services.tools ≡ some t
      → Permitted context t
      → I a m n s
      → Within a (suc m) (n + counted t) (execute_tool (some t) context input s).1
  unfolding execute_tool
  executed_keeps name t input a m n s found fine held = elim (Bool-cases (lacks_context context)) [
    | inl lacks ↦ (m, n, omega arith, omega arith, subst (λ v. I a m n v) (ground arith) held)
    | inr has ↦
        let kept = parsed_keeps name t (t.schema (or_empty input)) a m n s found fine held in
        subst (λ v. Within a (suc m) (n + counted t) v) (ground arith) kept
  ]

  -- What a call ends with: a result, in a state after at most one execution more, which is not
  -- yet counted.
  abbrev Outcome : ℕ → Progress → Result (ToolResult × Progress) × S → Type 0
  Outcome a p r =
      (q : ToolResult × Progress) × (r.0 ≡ ok q)
      × (q.1.total_tool_calls ≡ p.total_tool_calls)
      × (q.1.mutation_calls ≤ 3)
      × Within a (suc p.total_tool_calls) q.1.mutation_calls r.1

  pub more-Within :
      (a total total' k k' : ℕ) (s s' : S)
      → total ≤ total'
      → k ≤ k'
      → s' ≡ s
      → Within a total k s
      → Within a total' k' s'
  more-Within a total total' k k' s s' more more' same (m, n, few, low, held) =
      (m, n, omega arith, omega arith, subst (I a m n) (sym same) held)

  approved-Good :
      (name : String) (t : AgentTool S) (c : LlmToolCall) (input : Json) (a : ℕ) (p : Progress)
      (s : S)
      → get_tool name services.tools ≡ some t
      → Permitted context t
      → ((counts_as_mutation t ≡ true) → p.mutation_calls < 3)
      → Good a p s
      → Outcome a p (execute_approved services context (some t) c input p s)
  unfolding execute_approved
  approved-Good name t c input a p s found fine room (below, (m, n, few, low, held)) =
      let seen = services.signature c ∷ p.call_signatures in
      elim (Bool-cases (contains p.call_signatures (services.signature c))) [
        | inl again ↦ (
          (
            failed "You have already called this tool with these exact parameters",
            record p { call_signatures = seen },
          ),
          ground arith,
          refl,
          below,
          more-Within a m (suc p.total_tool_calls) n p.mutation_calls s _ (omega arith)
              (omega arith) (ground arith) (m, n, omega arith, omega arith, held),
        )
        | inr new ↦
            let (r, done) = executed_ok t input s in
            let kept = executed_keeps name t input a m n s found fine held in
            let v = (execute_tool (some t) context input s).1 in
            elim (Bool-cases (counts_as_mutation t)) [
              | inl counts ↦ (
                (r, record p { call_signatures = seen; mutation_calls = suc p.mutation_calls }),
                ground arith,
                refl,
                omega (arith, room counts),
                more-Within a (suc m) (suc p.total_tool_calls) (n + counted t)
                    (suc p.mutation_calls) v _ (omega arith) (ground arith) (ground arith) kept,
              )
              | inr reads ↦ (
                (r, record p { call_signatures = seen }),
                ground arith,
                refl,
                below,
                more-Within a (suc m) (suc p.total_tool_calls) (n + counted t) p.mutation_calls v _
                    (omega arith) (ground arith) (ground arith) kept,
              )
            ]
      ]

  refused-Good :
      (r : ToolResult) (a : ℕ) (p : Progress) (s : S) → Good a p s → Outcome a p (ok (r, p), s)
  refused-Good r a p s (below, (m, n, few, low, held)) =
      ((r, p), refl, refl, below, (m, n, omega arith, low, held))

  of_evaluation :
      (name : String) (t : AgentTool S) (c : LlmToolCall) (a : ℕ) (p : Progress) (s : S)
      (e : ToolSecurityEvaluationResult)
      → get_tool name services.tools ≡ some t
      → evaluate_tool_execution services.js (some t) context c.arguments p.mutation_calls ≡ e
      → Good a p s
      → Outcome a p (execute_evaluated services context (some t) c e p s)
  unfolding execute_evaluated
  of_evaluation name t c a p s (refused reason) found result good =
      refused-Good (failed (services.refusal_text reason)) a p s good
  of_evaluation name t c a p s (allowed input) found result good =
      let (fine, room) =
        allowed-Permitted services.js t context c.arguments input p.mutation_calls result in
      approved-Good name t c input a p s found fine room good

  of_found :
      (name : String) (found : Option (AgentTool S)) (c : LlmToolCall) (a : ℕ) (p : Progress)
      (s : S)
      → get_tool name services.tools ≡ found
      → Good a p s
      → Outcome a p (
          execute_evaluated services context found c
            (evaluate_tool_execution services.js found context c.arguments p.mutation_calls)
            p
            s)
  unfolding execute_evaluated evaluate_tool_execution
  of_found name none c a p s same good =
      refused-Good (failed (services.refusal_text unknown_tool)) a p s good
  of_found name (some t) c a p s same good = of_evaluation name t c a p s _ same refl good

  evaluated-Good :
      (c : LlmToolCall) (a : ℕ) (p : Progress) (s : S)
      → Good a p s
      → Outcome a p (
          execute_evaluated services context
            (get_tool c.name services.tools)
            c
            (evaluate_tool_execution services.js
              (get_tool c.name services.tools)
              context
              c.arguments
              p.mutation_calls)
            p
            s)
  evaluated-Good c a p s good = of_found c.name (get_tool c.name services.tools) c a p s refl good

  -- The calls of one answer are all answered, each counted once.
  called-Good :
      (c : LlmToolCall) (a : ℕ) (p : Progress) (s : S)
      → Good a p s
      → (q : Progress) × ((run_call services context c p s).0 ≡ ok q)
        × Good a q (run_call services context c p s).1
        × (q.total_tool_calls ≡ suc p.total_tool_calls)
  unfolding run_call
  called-Good c a p s good =
      let (q, done, same, below, held) = evaluated-Good c a p s good in
      (
        told services context c q.0 q.1,
        ground arith,
        (
          below,
          more-Within a (suc p.total_tool_calls) (suc q.1.total_tool_calls) q.1.mutation_calls
              q.1.mutation_calls _ _ (omega (arith, same)) (omega arith) (ground arith) held,
        ),
        ap suc same,
      )

  pub calls-Good :
      (cs : List LlmToolCall) (a : ℕ) (p : Progress) (s : S)
      → Good a p s
      → (q : Progress) × ((run_calls services context cs p s).0 ≡ ok q)
        × Good a q (run_calls services context cs p s).1
        × (q.total_tool_calls ≡ p.total_tool_calls + length cs)
  unfolding run_calls
  calls-Good [] a p s good = (p, refl, good, omega arith)
  calls-Good (c ∷ cs) a p s good =
      let (q, done, good', one) = called-Good c a p s good in
      let (r, done', good'', more) = calls-Good cs a q (run_call services context c p s).1 good' in
      (
        r,
        ground arith,
        (
          good''.0,
          more-Within a r.total_tool_calls r.total_tool_calls r.mutation_calls r.mutation_calls _ _
              (omega arith) (omega arith) (ground arith) good''.1,
        ),
        omega (arith, one, more),
      )
