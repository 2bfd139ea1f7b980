-- ===== src/Agents/Tests.antt =====
-- Runs of agents, and calls within a minute (services/api/src/tkp_api/agents).
use tkp_platform.Base.{
  ℕ, ◌≤◌, ◌≡◌, refl, Bool, true, false, Option, none, some, List, [], ◌∷◌, ◌==◌, All, filter,
  length, arith, if◌then◌else◌,
}
use tkp_platform.Base.Result.{Result, ok, err}
use tkp_platform.Base.Text.{Text, codes, text_eq}
use tkp_platform.Agents.Guardrail.{
  Patterns, Pattern, Issue, dict, missing_code, check_tool_call, check_input, check_output,
  redact_all, found_issues, History, ValueError, empty_min, check_rate_limit, validate_agent_input,
}
use tkp_platform.Agents.Window.{allowed_times, near_start, calls_per_minute}
use tkp_platform.Agents.Orchestrator.{
  Reply, Message, RunStatus, AgentRun, Orchestrator, raised, may_call, use_tool, finish, take_turn,
  iterate, run_agent,
}
use tkp_platform.Agents.Runs.{is_final, SafeStep, run_ends, tools_are_allowed}

-- Finds and replaces exactly the text.
abbrev exactly : Text → Pattern
exactly secret = record {
  search = text_eq secret;
  findall = λ t. if text_eq secret t then t ∷ [] else [];
  redact = λ t. if text_eq secret t then codes "[REDACTED]" else t;
}

abbrev patterns : Patterns
patterns = record {
  sensitive_patterns = exactly (codes "pwd: x") ∷ [];
  dangerous_patterns = exactly (codes "rm -rf /") ∷ [];
}

abbrev no_calls : History
no_calls user = []

-- Calls the calculator first, and answers then.
abbrev answers : Option Text → ℕ → List Message → Result Text Reply
answers content i messages =
    if i == 1
    then ok (record { content = none; function_call = some (codes "calculator", codes "{}") })
    else ok (record { content = content; function_call = none })

abbrev agent : Bool → Option Text → Orchestrator
agent guarded content = record {
  allowed_tools = none;
  guardrail = guarded;
  max_iterations = 3;
  patterns = patterns;
  complete = answers content;
  eval_arguments = λ t. ok (dict []);
  execute = λ name arguments. ok (codes "2");
}

abbrev nobody : AgentRun
nobody = record { task = []; status = RunStatus.running; steps = []; result = none; error = none }

abbrev run_of : Result ValueError AgentRun → AgentRun
run_of (err e) = nobody
run_of (ok run) = run

abbrev silent : AgentRun
silent = run_of ((run_agent (agent true none) (codes "u") 5 (codes "add") no_calls).0)

needs_code :
    check_tool_call (codes "execute_code" ∷ []) (codes "execute_code") (dict []) ≡ some missing_code
unfolding check_tool_call
needs_code = refl

redacted :
    check_output patterns (codes "pwd: x")
    ≡ (Issue.sensitive_info_in_output ∷ [], codes "[REDACTED]")
unfolding check_output redact_all
redacted = refl

dangerous : check_input patterns (codes "rm -rf /") ≡ Issue.dangerous_operation ∷ []
unfolding check_input found_issues
dangerous = refl

-- A limit of zero calls raises.
zero_limit : (check_rate_limit 0 (codes "u") 5 no_calls).0 ≡ err empty_min
unfolding check_rate_limit
zero_limit = refl

-- Without a guardrail the answer is returned; with one, the run fails for want of a method.
unguarded :
    (run_of
      ((run_agent (agent false (some (codes "2"))) (codes "u") 5 (codes "add") no_calls).0)).result
    ≡ some (codes "2")
unfolding run_agent iterate take_turn may_call use_tool finish
unguarded = refl

guarded :
    (run_of
      ((run_agent (agent true (some (codes "2"))) (codes "u") 5 (codes "add") no_calls).0)).error
    ≡ some (raised (codes "'GuardrailService' object has no attribute 'validate_agent_output'"))
unfolding run_agent validate_agent_input check_rate_limit check_input found_issues check_tool_call
    iterate take_turn may_call use_tool finish
guarded = refl

silent_run : (run_agent (agent true none) (codes "u") 5 (codes "add") no_calls).0 ≡ ok silent
unfolding run_agent validate_agent_input check_rate_limit check_input found_issues
silent_run = refl

silent_done : silent.status ≡ RunStatus.completed
unfolding run_agent validate_agent_input check_rate_limit check_input found_issues check_tool_call
    iterate take_turn may_call use_tool finish
silent_done = refl

calls_per_minute_example :
    length (
      filter (near_start 0) (
        allowed_times 2
          (codes "u")
          ((codes "u", 1)
            ∷ (codes "v", 2)
            ∷ (codes "u", 30)
            ∷ (codes "u", 50)
            ∷ (codes "u", 61)
            ∷ [])
          (λ u. [])))
    ≤ 2
calls_per_minute_example =
    calls_per_minute 2 (codes "u")
      ((codes "u", 1) ∷ (codes "v", 2) ∷ (codes "u", 30) ∷ (codes "u", 50) ∷ (codes "u", 61) ∷ []) 0
      0 (omega arith, (omega arith, (omega arith, (omega arith, (omega arith, tt)))))

run_ends_example :
    (run : AgentRun) × ((run_agent (agent true none) (codes "u") 5 (codes "add") no_calls).0
      ≡ ok run)
    × (is_final run.status ≡ true)
    × (length run.steps ≤ 3)
run_ends_example = run_ends (agent true none) (codes "u") 5 (codes "add") no_calls

tools_are_allowed_example : All (SafeStep (agent true none)) silent.steps
tools_are_allowed_example =
    tools_are_allowed (agent true none) (codes "u") 5 (codes "add") no_calls silent silent_run
