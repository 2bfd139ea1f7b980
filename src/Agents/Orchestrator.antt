-- ===== src/Agents/Orchestrator.antt =====
-- services/api/src/tkp_api/agents/orchestrator.py: a run of an agent. The language model, the `eval` of
-- the arguments and the tools are parameters, each of which may raise; a text stands for an exception.
use tkp_platform.Base.{
  ℕ, zero, suc, Bool, true, false, Option, none, some, List, [], ◌∷◌, ◌++◌, if◌then◌else◌, any,
  filter,
}
use tkp_platform.Base.Result.{Result, ok, err}
use tkp_platform.Base.Text.{Text, codes, text_eq}
use tkp_platform.Agents.Guardrail.{
  Patterns, Issue, no_issues, Arguments, Refusal, check_tool_call, History, ValueError,
  validate_agent_input,
}

-- `message.function_call` has the name and the arguments as a text.
pub record Reply : Type 0 where
  pub content : Option Text
  pub function_call : Option (Text × Text)

pub data Message : Type 0 where
  system : Message
  user : (task : Text) → Message
  assistant : Reply → Message
  function : (name : Text) → (result : Text) → Message

pub record Step : Type 0 where
  pub iteration : ℕ
  pub content : Option Text
  pub function_call : Option (Text × Arguments)
  pub tool_result : Option Text
  pub tool_error : Option Text

pub data RunStatus : Type 0 where
  running completed failed max_iterations_reached : RunStatus

pub data RunError : Type 0 where
  invalid_input : List Issue → RunError
  raised : Text → RunError
  reached_maximum : ℕ → RunError

pub record AgentRun : Type 0 where
  pub task : Text
  pub status : RunStatus
  pub steps : List Step
  pub result : Option Text
  pub error : Option RunError

-- What an orchestrator is made of; `guardrail` tells whether it has one.
pub record Orchestrator : Type 0 where
  pub allowed_tools : Option (List Text)
  pub guardrail : Bool
  pub max_iterations : ℕ
  pub patterns : Patterns
  pub complete : ℕ → List Message → Result Text Reply
  pub eval_arguments : Text → Result Text Arguments
  pub execute : Text → Arguments → Result Text Text

-- The names of `create_default_tools`.
abbrev pub default_tools : List Text
default_tools = codes "retrieval" ∷ codes "calculator" ∷ codes "web_search" ∷ codes "datetime" ∷ []

abbrev pub selected_tools : Option (List Text) → List Text
selected_tools none = default_tools
selected_tools (some names) = filter (λ tool. any (text_eq tool) names) default_tools

-- `allowed_tools or [...]`: an empty list is as good as none.
abbrev pub guarded_tools : Option (List Text) → List Text
guarded_tools none = default_tools
guarded_tools (some []) = default_tools
guarded_tools (some (name ∷ names)) = name ∷ names

-- `if self.guardrail and message.content`
abbrev pub has_text : Option Text → Bool
has_text none = false
has_text (some []) = false
has_text (some (c ∷ cs)) = true

pub data Turn : Type 0 where
  stop : AgentRun → Turn
  proceed : List Message → AgentRun → Turn

abbrev pub fail : RunError → AgentRun → AgentRun
fail e run = record run { status = RunStatus.failed; error = some e }

abbrev pub add_step : Step → AgentRun → AgentRun
add_step step run = record run { steps = run.steps ++ step ∷ [] }

-- `return`, or on to the next iteration
abbrev pub after_turn : Turn → (List Message → AgentRun → AgentRun) → AgentRun
after_turn (stop run) next = run
after_turn (proceed messages run) next = next messages run

module _ (o : Orchestrator) where
  abbrev pub is_refused : Option Refusal → Bool
  is_refused none = false
  is_refused (some r) = true

  unfoldable pub may_call : Text → Arguments → Bool
  may_call name arguments =
      if o.guardrail
      then (if is_refused (check_tool_call (guarded_tools o.allowed_tools) name arguments)
          then false
          else true)
      else true

  abbrev pub call_step : ℕ → Reply → Text → Arguments → Step
  call_step iteration reply name arguments = record {
    iteration = iteration;
    content = reply.content;
    function_call = some (name, arguments);
    tool_result = none;
    tool_error = none;
  }

  abbrev pub use_result : Step → List Message → Reply → Text → AgentRun → Result Text Text → Turn
  use_result step messages reply name run (ok result) =
      proceed (messages ++ Message.assistant reply ∷ Message.function name result ∷ [])
        (add_step (record step { tool_result = some result }) run)
  use_result step messages reply name run (err e) =
      proceed
        (messages ++ Message.assistant reply ∷ Message.function name (codes "Error: " ++ e) ∷ [])
        (add_step (record step { tool_error = some e }) run)

  -- A tool that is not found is only noted in the step.
  unfoldable pub use_tool : Step → List Message → Reply → Text → Arguments → AgentRun → Turn
  use_tool step messages reply name arguments run =
      if any (text_eq name) (selected_tools o.allowed_tools)
      then use_result step messages reply name run (o.execute name arguments)
      else proceed messages (
          add_step
            (record step { tool_error = some (codes "Tool '" ++ name ++ codes "' not found") }) run)

  -- On a refusal the code reads `issues` of the answer, which has none; the handler of the iteration
  -- takes the KeyError.
  abbrev pub call_tool : ℕ → List Message → AgentRun → Reply → Text → Result Text Arguments → Turn
  call_tool iteration messages run reply name (err e) = stop (fail (raised e) run)
  call_tool iteration messages run reply name (ok arguments) =
      if may_call name arguments
      then use_tool (call_step iteration reply name arguments) messages reply name arguments run
      else stop (fail (raised (codes "'issues'")) run)

  abbrev pub no_method : Text
  no_method = codes "'GuardrailService' object has no attribute 'validate_agent_output'"

  -- The guardrail has no `validate_agent_output`; the handler takes the AttributeError.
  unfoldable pub finish : ℕ → AgentRun → Reply → AgentRun
  finish iteration run reply =
      let step : Step = record {
        iteration = iteration;
        content = reply.content;
        function_call = none;
        tool_result = none;
        tool_error = none;
      } in
      let noted = add_step step run in
      if (if o.guardrail then has_text reply.content else false)
      then fail (raised no_method) noted
      else record noted { result = reply.content; status = RunStatus.completed }

  abbrev pub take_reply : ℕ → List Message → AgentRun → Reply → Option (Text × Text) → Turn
  take_reply iteration messages run reply none = stop (finish iteration run reply)
  take_reply iteration messages run reply (some (name, source)) =
      call_tool iteration messages run reply name (o.eval_arguments source)

  abbrev pub take_answer : ℕ → List Message → AgentRun → Result Text Reply → Turn
  take_answer iteration messages run (err e) = stop (fail (raised e) run)
  take_answer iteration messages run (ok reply) =
      take_reply iteration messages run reply reply.function_call

  unfoldable pub take_turn : ℕ → List Message → AgentRun → Turn
  take_turn iteration messages run =
      take_answer iteration messages run (o.complete iteration messages)

  -- The loop over `range(max_iterations)`: the iterations that are left, and the number of the next.
  unfoldable pub iterate : ℕ → ℕ → List Message → AgentRun → AgentRun
  iterate zero iteration messages run = record run {
    status = RunStatus.max_iterations_reached;
    error = some (reached_maximum o.max_iterations);
  }
  iterate (suc left) iteration messages run =
      after_turn (take_turn iteration messages run)
        (λ later noted. iterate left (suc iteration) later noted)

  abbrev pub new_run : Text → AgentRun
  new_run task = record {
    task = task;
    status = RunStatus.running;
    steps = [];
    result = none;
    error = none;
  }

  abbrev pub start : Text → AgentRun
  start task = iterate o.max_iterations 1 (Message.system ∷ Message.user task ∷ []) (new_run task)

  abbrev pub run_valid : Text → Result ValueError (List Issue) → Result ValueError AgentRun
  run_valid task (err e) = err e
  run_valid task (ok issues) =
      if no_issues issues then ok (start task) else ok (fail (invalid_input issues) (new_run task))

  -- `run`; a call without an answer raises. The limit of the guardrail is sixty calls per minute.
  unfoldable pub run_agent : Text → ℕ → Text → History → Result ValueError AgentRun × History
  run_agent user_id now task history =
      let (checked, after) = validate_agent_input o.patterns 60 user_id now task history in
      if◌then◌else◌ {A = Result ValueError AgentRun × History} o.guardrail
        (run_valid task checked, after) (ok (start task), history)
