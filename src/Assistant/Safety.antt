-- ===== src/Assistant/Safety.antt =====
-- agent.orchestrator.ts: what an agent run does to the state of the tools, whatever the language
-- model asks for.
use multi_tenant_project_man.Base.{
  ℕ, zero, suc, String, Option, none, List, [], ◌∷◌, ◌++◌, ◌≡◌, ◌≤◌, ◌+◌, ◌==◌, ◌||◌, arith,
  Bool-cases, List-cases, inl, inr, ltb, length, subst, sym,
}
use multi_tenant_project_man.Base.Error.{Failure, app, validation_error}
use multi_tenant_project_man.Base.Monad.{Result, ok, err, Result-cases}
use multi_tenant_project_man.Assistant.Policy.{
  AgentTool, AiRequestContext, failed, validate_request_context, get_tool_definitions,
}
use multi_tenant_project_man.Assistant.Orchestrator.{
  LlmMessage, AiSourceReference, AgentRunRequest, AgentRunResponse, Services, Progress, run_calls,
  conclude, run_steps, retrieved, run, said, user, assistant, or_text, starting,
}
use multi_tenant_project_man.Assistant.Calls.{Counted, Good, Within, more-Within, calls-Good}

module _ {S : Type 0} (services : Services S) (context : AiRequestContext)
    (I : (asked executed changed : ℕ) → S → Type 0) (laws : Counted services context I) where
  -- What a run ends with: at most one answer more than there are steps, no more executions than
  -- are allowed and at most three mutations, and no more steps and calls in what is reported.
  abbrev pub Ended : (steps max_tool_calls : ℕ) → Result AgentRunResponse × S → Type 0
  Ended steps max_tool_calls r =
      ((a : ℕ) × (a ≤ suc steps) × Within services context I laws a max_tool_calls 3 r.1)
      × ((b : AgentRunResponse)
          → r.0 ≡ ok b
          → (b.steps_count ≤ steps) × (b.tool_calls_count ≤ max_tool_calls))

  weakened :
      (steps steps' max_tool_calls : ℕ) (r r' : Result AgentRunResponse × S)
      → steps ≤ steps'
      → r' ≡ r
      → Ended steps max_tool_calls r
      → Ended steps' max_tool_calls r'
  weakened steps steps' max_tool_calls r r' fewer same ((a, few, within), told) =
      subst (Ended steps' max_tool_calls) (sym same) (
        (a, omega (arith, few, fewer), within),
        λ b done. (omega (arith, (told b done).0, fewer), (told b done).1),
      )

  -- The state after one answer more.
  abbrev Answered : ℕ → Progress → (ms : List LlmMessage) → (ts : List (AgentTool S)) → S → Type 0
  Answered a p ms ts s = Good services context I laws (suc a) p (services.generate ms ts s).1

  Answered-Good :
      (ms : List LlmMessage) (ts : List (AgentTool S)) (a : ℕ) (p : Progress) (s : S)
      → Good services context I laws a p s
      → Answered a p ms ts s
  Answered-Good ms ts a p s (below, (m, n, few, low, held)) =
      (below, (m, n, few, low, laws.generate_adds ms ts a m n s held))

  -- A state that is good is one that a run may end with.
  ended-Within :
      (a steps max_tool_calls : ℕ) (p : Progress) (s s' : S)
      → a ≤ suc steps
      → p.total_tool_calls ≤ max_tool_calls
      → s' ≡ s
      → Good services context I laws a p s
      → (b : ℕ) × (b ≤ suc steps) × Within services context I laws b max_tool_calls 3 s'
  ended-Within a steps max_tool_calls p s s' early total same (below, within) = (
    a,
    early,
    more-Within services context I laws a p.total_tool_calls max_tool_calls p.mutation_calls 3 s s'
        total below same within,
  )

  concluded-Good :
      (asked otherwise : String) (step a max_tool_calls : ℕ) (sources : List AiSourceReference)
      (p : Progress) (s : S)
      → Good services context I laws a p s
      → a ≤ step
      → p.total_tool_calls ≤ max_tool_calls
      → Ended step max_tool_calls (conclude services context asked otherwise step sources p s)
  unfolding conclude
  concluded-Good asked otherwise step a max_tool_calls sources p s good early few =
      let ms = p.messages ++ said user asked ∷ [] in
      let kept = Answered-Good ms [] a p s good in
      let v = (services.generate ms [] s).1 in
      elim (Result-cases (services.generate ms [] s).0) [
        | inl (response, given) ↦ (
          ended-Within (suc a) step max_tool_calls p v _ (omega arith) few (ground arith) kept,
          λ b done. (ground arith, ground arith),
        )
        | inr (e, failed) ↦ (
          ended-Within (suc a) step max_tool_calls p v _ (omega arith) few (ground arith) kept,
          λ b done. (absurd (ground arith), absurd (ground arith)),
        )
      ]

  steps-Good :
      (max_tool_calls : ℕ) (sources : List AiSourceReference) (left step : ℕ) (p : Progress) (s : S)
      → Good services context I laws step p s
      → p.total_tool_calls ≤ max_tool_calls
      → Ended
          (step + left)
          max_tool_calls
          (run_steps services context max_tool_calls sources left step p s)
  unfolding run_steps
  steps-Good max_tool_calls sources zero step p s good few =
      weakened step (step + 0) max_tool_calls _ _ (omega arith) (ground arith) (
        concluded-Good "Maximum reasoning steps reached."
          "Reasoning limit reached before completing full analysis." step step max_tool_calls
          sources p s good (omega arith) few)
  steps-Good max_tool_calls sources (suc left) step p s good few =
      let ts = get_tool_definitions context services.tools in
      let held = Answered-Good p.messages ts step p s good in
      let s' = (services.generate p.messages ts s).1 in
      elim (Result-cases (services.generate p.messages ts s).0) [
        | inr (e, failed) ↦ (
          ended-Within (suc step) (step + suc left) max_tool_calls p s' _ (omega arith) few
              (ground arith) held,
          λ b done. (absurd (ground arith), absurd (ground arith)),
        )
        | inl (response, given) ↦ elim (List-cases response.tool_calls) [
          | inl none_asked ↦ (
            ended-Within (suc step) (step + suc left) max_tool_calls p s' _ (omega arith) few
                (ground arith) held,
            λ b done. (ground arith, ground arith),
          )
          | inr (c, cs, asked) ↦
              let stopped = record p {
                messages =
                    p.messages
                    ++ said assistant (
                        or_text response.content
                          "I have reached the maximum allowed tool call limit.")
                      ∷ [];
              } in
              let called = record p {
                messages = p.messages ++ said assistant response.content ∷ [];
              } in
              elim (Bool-cases (ltb max_tool_calls (p.total_tool_calls + length (c ∷ cs)))) [
                | inl over ↦
                    weakened (suc step) (step + suc left) max_tool_calls _ _ (omega arith)
                      (ground arith)
                      (concluded-Good "Maximum tool execution limit reached."
                        "Tool execution limit reached. Please refine your query." (suc step)
                        (suc step) max_tool_calls sources stopped s' held (omega arith) few)
                | inr fits ↦
                    let (q, done, good', total) =
                      calls-Good services context I laws (c ∷ cs) (suc step) called s' held in
                    weakened (suc step + left) (step + suc left) max_tool_calls _ _ (omega arith)
                      (ground arith)
                      (steps-Good max_tool_calls sources left (suc step) q
                        (run_calls services context (c ∷ cs) called s').1 good'
                        (ground (arith, total)))
              ]
        ]
      ]

  validate_reads : (s : S) → (validate_request_context context s).1 ≡ s
  unfolding validate_request_context
  validate_reads s = ground arith

  retrieved_keeps :
      (request : AgentRunRequest) (s : S)
      → I 0 0 0 s
      → (found : Option String × List AiSourceReference) × ((retrieved services context request s).0
          ≡ ok found)
        × I 0 0 0 (retrieved services context request s).1
  unfolding retrieved
  retrieved_keeps request s held =
      let kept = laws.retrieve_keeps request.message 0 0 0 s held in
      elim (Bool-cases request.include_rag_context) [
        | inr without ↦ ((none, []), ground arith, subst (I 0 0 0) (ground arith) held)
        | inl with_rag ↦
            elim (Result-cases (services.retrieve context.organization_id request.message s).0) [
              | inl (found, given) ↦ (found, ground arith, subst (I 0 0 0) (ground arith) kept)
              | inr (e, failed) ↦ ((none, []), ground arith, subst (I 0 0 0) (ground arith) kept)
            ]
      ]

  refused_run :
      (request : AgentRunRequest) (e : Failure) (s : S)
      → run services context request s ≡ (err e, s)
      → I 0 0 0 s
      → Ended request.max_steps request.max_tool_calls (run services context request s)
  refused_run request e s same held = (
    (0, omega arith, (0, 0, omega arith, omega arith, subst (I 0 0 0) (ground arith) held)),
    λ a done. (absurd (ground arith), absurd (ground arith)),
  )

  -- Whatever the language model asks for, an agent run asks it for at most one answer more
  -- than it may take steps, executes no more tools than calls are allowed, only registered
  -- ones that the user's role may use and that neither destroy nor need a confirmation, and at
  -- most three that change something: a reading of the state that counts the answers, the
  -- executions and the changes ends within these bounds. The steps and calls that are reported
  -- are no more than are allowed.
  pub run_contained :
      (request : AgentRunRequest) (s : S)
      → I 0 0 0 s
      → Ended request.max_steps request.max_tool_calls (run services context request s)
  unfolding run
  run_contained request s held = elim (Result-cases (validate_request_context context s).0) [
    | inr (e, invalid) ↦ refused_run request e s (ground (arith, validate_reads s)) held
    | inl (u, valid) ↦
        elim (Bool-cases (request.message == "" || services.js.trim request.message == "")) [
          | inl empty ↦
              refused_run request (app validation_error) s (ground (arith, validate_reads s)) held
          | inr asked ↦
              let (found, given, kept) = retrieved_keeps request s held in
              weakened (0 + request.max_steps) request.max_steps request.max_tool_calls _ _
                (omega arith) (ground (arith, validate_reads s))
                (steps-Good request.max_tool_calls found.1 request.max_steps 0
                  (starting services context request found.0)
                  (retrieved services context request s).1
                  (omega arith, (0, 0, omega arith, omega arith, kept)) (omega arith))
        ]
  ]
