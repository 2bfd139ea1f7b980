-- ===== src/Agents/Runs.antt =====
-- How a run of an agent ends (services/api/src/tkp_api/agents/orchestrator.py).
use tkp_platform.Base.{
  ℕ, zero, suc, ◌+◌, ◌-◌, ◌≤◌, ◌≡◌, ◌⊎◌, refl, sym, ap, ◌∙◌, subst, inl, inr, Bool, true, false,
  Option, none, some, List, [], ◌∷◌, ◌++◌, leb, any, All, All-append, filter, length, length-append,
  arith, Bool-cases, Option-cases, some_inj,
}
use tkp_platform.Base.Result.{Result, ok, err, Result-cases, ok_inj}
use tkp_platform.Base.Text.{Text, text_eq, codes}
use tkp_platform.Agents.Guardrail.{
  RateAnswer, Arguments, dict, not_a_dict, check_arguments, no_issues, check_input, rate_issues,
  check_tool_call, History, exceeded, is_fresh, check_rate_limit, validate_agent_input,
}
use tkp_platform.Agents.Orchestrator.{
  Reply, Message, Step, RunStatus, RunError, AgentRun, Orchestrator, selected_tools, guarded_tools,
  has_text, Turn, stop, proceed, may_call, call_step, finish, use_tool, call_tool, take_reply,
  take_turn, iterate, run_agent, new_run, start, fail,
}

abbrev pub is_final : RunStatus → Bool
is_final RunStatus.running = false
is_final _ = true

refused : (calls : List ℕ) → 1 ≤ length calls → (answer : RateAnswer) × (exceeded calls ≡ ok answer)
refused [] h = ground (arith, h)
refused (t ∷ ts) h = (_, refl)

-- Sixty fresh calls have an oldest one, so that the check of the rate does not raise.
rate_answers :
    (user : Text) (now : ℕ) (history : History)
    → (answer : RateAnswer) × ((check_rate_limit 60 user now history).0 ≡ ok answer)
unfolding check_rate_limit
rate_answers user now history =
    elim (Bool-cases (leb 60 (length (filter (is_fresh now) (history user))))) [
      | inr f ↦
          let calls = filter (is_fresh now) (history user) in
          (
            record { allowed = true; remaining = 60 - length calls - 1; reset_at = now + 60 },
            rw f refl,
          )
      | inl t ↦
          let (answer, e) = refused (filter (is_fresh now) (history user)) (ground (arith, t)) in
          (answer, rw t e)
    ]

module _ (o : Orchestrator) where
  -- A result comes from a tool that is registered.
  abbrev pub is_safe : Option Text → Option (Text × Arguments) → Bool
  is_safe none call = true
  is_safe (some result) none = false
  is_safe (some result) (some (name, arguments)) =
      any (text_eq name) (selected_tools o.allowed_tools)

  -- The tool is in the list of the guardrail, its arguments are a dict, and code is given to run code.
  abbrev pub LetThrough : Text → Arguments → Type 0
  LetThrough name arguments =
      (any (text_eq name) (guarded_tools o.allowed_tools) ≡ true)
      × (keys : List Text) × (arguments ≡ dict keys)
      × (text_eq name (codes "execute_code") ≡ true → any (text_eq (codes "code")) keys ≡ true)

  abbrev pub SafeStep : Step → Type 0
  SafeStep step =
      ((name : Text) (arguments : Arguments)
        → step.function_call ≡ some (name, arguments)
        → o.guardrail ≡ true
        → LetThrough name arguments)
      × (is_safe step.tool_result step.function_call ≡ true)

  abbrev Ended : AgentRun → Type 0
  Ended run =
      (is_final run.status ≡ true)
      × (o.guardrail ≡ true → run.status ≡ RunStatus.completed → has_text run.result ≡ false)

  abbrev Grown : AgentRun → AgentRun → Type 0
  Grown before after =
      (after.steps ≡ before.steps)
      ⊎ ((step : Step) × (after.steps ≡ before.steps ++ step ∷ []) × SafeStep step)

  abbrev Taken : AgentRun → Turn → Type 0
  Taken run (stop after) = Ended after × Grown run after
  Taken run (proceed messages after) = Grown run after

  arguments-LetThrough :
      (name : Text) (arguments : Arguments)
      → any (text_eq name) (guarded_tools o.allowed_tools) ≡ true
      → check_arguments name arguments ≡ none
      → LetThrough name arguments
  arguments-LetThrough name not_a_dict listed h = cc h
  arguments-LetThrough name (dict keys) listed h = (
    listed,
    keys,
    refl,
    λ code. elim (Bool-cases (any (text_eq (codes "code")) keys)) [
      | inl t ↦ t
      | inr f ↦ cc (rw (code, f) at h)
    ],
  )

  may_call-LetThrough :
      (name : Text) (arguments : Arguments)
      → may_call o name arguments ≡ true
      → o.guardrail ≡ true
      → LetThrough name arguments
  unfolding may_call check_tool_call
  may_call-LetThrough name arguments may on =
      elim (Bool-cases (any (text_eq name) (guarded_tools o.allowed_tools))) [
        | inr f ↦ cc (rw (on, f) at may)
        | inl t ↦ elim (Option-cases (check_arguments name arguments)) [
          | inl passed ↦ arguments-LetThrough name arguments t passed
          | inr (r, refused) ↦ cc (rw (on, t, refused) at may)
        ]
      ]

  -- A call that the guardrail has let through is let through as the step notes it.
  noted-LetThrough :
      (name : Text) (arguments : Arguments)
      → may_call o name arguments ≡ true
      → (n : Text) (a : Arguments)
      → ◌≡◌ {A = Option (Text × Arguments)} (some (name, arguments)) (some (n, a))
      → o.guardrail ≡ true
      → LetThrough n a
  noted-LetThrough name arguments may n a same on =
      subst (λ (call : Text × Arguments). LetThrough call.0 call.1) (some_inj same)
        (may_call-LetThrough name arguments may on)

  use_tool-Taken :
      (iteration : ℕ) (messages : List Message) (reply : Reply) (name : Text)
      (arguments : Arguments) (run : AgentRun)
      → may_call o name arguments ≡ true
      → Taken run (
          use_tool o (call_step o iteration reply name arguments) messages reply name arguments run)
  unfolding use_tool
  use_tool-Taken iteration messages reply name arguments run may =
      let noted = noted-LetThrough name arguments may in
      elim (Bool-cases (any (text_eq name) (selected_tools o.allowed_tools))) [
        | inr n ↦ rw n (inr (_, refl, (noted, refl)))
        | inl t ↦ elim (Result-cases (o.execute name arguments)) [
          | inr (e, h) ↦ rw (t, h) (inr (_, refl, (noted, refl)))
          | inl (r, h) ↦ rw (t, h) (inr (_, refl, (noted, t)))
        ]
      ]

  finish-Taken :
      (iteration : ℕ) (run : AgentRun) (reply : Reply)
      → Taken run (stop (finish o iteration run reply))
  unfolding finish
  finish-Taken iteration run reply = elim (Bool-cases o.guardrail) [
    | inr off ↦ rw off ((refl, λ on done. cc), inr (_, refl, (λ n a same g. cc same, refl)))
    | inl on ↦ elim (Bool-cases (has_text reply.content)) [
      | inl t ↦ rw (on, t) ((refl, λ same done. cc), inr (_, refl, (λ n a same g. cc same, refl)))
      | inr f ↦ rw (on, f) ((refl, λ same done. f), inr (_, refl, (λ n a same g. cc same, refl)))
    ]
  ]

  call_tool-Taken :
      (iteration : ℕ) (messages : List Message) (run : AgentRun) (reply : Reply) (name : Text)
      (arguments : Result Text Arguments)
      → Taken run (call_tool o iteration messages run reply name arguments)
  call_tool-Taken iteration messages run reply name (err e) = ((refl, λ on done. cc), inl refl)
  call_tool-Taken iteration messages run reply name (ok arguments) =
      elim (Bool-cases (may_call o name arguments)) [
        | inl t ↦ rw t (use_tool-Taken iteration messages reply name arguments run t)
        | inr f ↦ rw f ((refl, λ on done. cc), inl refl)
      ]

  take_reply-Taken :
      (iteration : ℕ) (messages : List Message) (run : AgentRun) (reply : Reply)
      (call : Option (Text × Text))
      → Taken run (take_reply o iteration messages run reply call)
  take_reply-Taken iteration messages run reply none = finish-Taken iteration run reply
  take_reply-Taken iteration messages run reply (some (name, source)) =
      call_tool-Taken iteration messages run reply name (o.eval_arguments source)

  take_turn-Taken :
      (iteration : ℕ) (messages : List Message) (run : AgentRun)
      → Taken run (take_turn o iteration messages run)
  unfolding take_turn
  take_turn-Taken iteration messages run = elim (Result-cases (o.complete iteration messages)) [
    | inr (e, h) ↦ rw h ((refl, λ on done. cc), inl refl)
    | inl (reply, h) ↦ rw h (take_reply-Taken iteration messages run reply reply.function_call)
  ]

  -- At most so many steps are added, each of them safe.
  abbrev Within : ℕ → AgentRun → AgentRun → Type 0
  Within left before after =
      (length after.steps ≤ length before.steps + left) × All SafeStep after.steps

  Grown-Within :
      (left : ℕ) (before after : AgentRun)
      → Grown before after
      → All SafeStep before.steps
      → Within (suc left) before after × (length after.steps ≤ suc (length before.steps))
  Grown-Within left before after (inl same) safe =
      let n = ap length same in
      ((omega (arith, n), subst (All SafeStep) (sym same) safe), omega (arith, n))
  Grown-Within left before after (inr (step, same, one)) safe =
      let n = ap length same ∙ length-append before.steps (step ∷ []) in
      (
        (
          omega (arith, n),
          subst (All SafeStep) (sym same)
              (All-append SafeStep before.steps (step ∷ []) safe (one, tt)),
        ),
        omega (arith, n),
      )

  turn_cases :
      (t : Turn)
      → ((r : AgentRun) × (t ≡ stop r))
        ⊎ ((ms : List Message) × (r : AgentRun) × (t ≡ proceed ms r))
  turn_cases (stop r) = inl (r, refl)
  turn_cases (proceed ms r) = inr (ms, r, refl)

  iterate-Ended :
      (left iteration : ℕ) (messages : List Message) (run : AgentRun)
      → All SafeStep run.steps
      → Ended (iterate o left iteration messages run)
        × Within left run (iterate o left iteration messages run)
  unfolding iterate
  iterate-Ended zero iteration messages run safe = ((refl, λ on done. cc), (omega arith, safe))
  iterate-Ended (suc left) iteration messages run safe =
      let taken = take_turn-Taken iteration messages run in
      elim (turn_cases (take_turn o iteration messages run)) [
        | inl (r, e) ↦
            let (ended, grown) = subst (Taken run) e taken in
            rw e (ended, (Grown-Within left run r grown safe).0)
        | inr (ms, r, e) ↦
            let (within, more) = Grown-Within left run r (subst (Taken run) e taken) safe in
            let (ended, rest) = iterate-Ended left (suc iteration) ms r within.1 in
            rw e (ended, (omega (arith, more, rest.0), rest.1))
      ]

  start-Ended :
      (task : Text) → Ended (start o task) × Within o.max_iterations (new_run o task) (start o task)
  start-Ended task =
      iterate-Ended o.max_iterations 1 (Message.system ∷ Message.user task ∷ []) (new_run o task) tt

  -- What a run returns: it has ended in at most `max_iterations` steps, in which only tools are used that
  -- are registered and calls made that are let through, and under a guardrail it has no text to show if it is completed.
  abbrev pub Finished : AgentRun → Type 0
  Finished run = Ended run × (length run.steps ≤ o.max_iterations) × All SafeStep run.steps

  run_result :
      (user : Text) (now : ℕ) (task : Text) (history : History)
      → (run : AgentRun) × ((run_agent o user now task history).0 ≡ ok run) × Finished run
  unfolding run_agent validate_agent_input
  run_result user now task history =
      let (ended, steps) = start-Ended task in
      elim (Bool-cases o.guardrail) [
        | inr off ↦ (start o task, rw off refl, (ended, omega (arith, steps.0), steps.1))
        | inl on ↦
            let (answer, e) = rate_answers user now history in
            let issues = rate_issues answer ++ check_input o.patterns task in
            elim (Bool-cases (no_issues issues)) [
              | inl t ↦ (start o task, rw (on, e, t) refl, (ended, omega (arith, steps.0), steps.1))
              | inr f ↦ (
                fail (RunError.invalid_input issues) (new_run o task),
                rw (on, e, f) refl,
                ((refl, λ same done. cc), omega arith, tt),
              )
            ]
      ]

-- A run always ends: whatever the model, the tools and the user do, it returns a run that is not running
-- any more, after at most `max_iterations` steps.
pub run_ends :
    (o : Orchestrator) (user : Text) (now : ℕ) (task : Text) (history : History)
    → (run : AgentRun) × ((run_agent o user now task history).0 ≡ ok run)
      × (is_final run.status ≡ true)
      × (length run.steps ≤ o.max_iterations)
run_ends o user now task history =
    let (run, e, finished) = run_result o user now task history in
    (run, e, (finished.0).0, finished.1)

-- Under a guardrail, every call of a tool that a run has carried out is one that the guardrail lets through:
-- the tool is in its list, the arguments are a dict, and execute_code is given code. With or without one, every
-- result of a tool is one of a tool that the orchestrator has registered.
pub tools_are_allowed :
    (o : Orchestrator) (user : Text) (now : ℕ) (task : Text) (history : History) (run : AgentRun)
    → (run_agent o user now task history).0 ≡ ok run
    → All (SafeStep o) run.steps
tools_are_allowed o user now task history run h =
    let (other, e, finished) = run_result o user now task history in
    subst (λ r. All (SafeStep o) r.steps) (ok_inj (sym e ∙ h)) (finished.2)

-- Under a guardrail, a run that is completed has no text as its result, whatever the model answered.
guarded_run_has_no_text :
    (o : Orchestrator) (user : Text) (now : ℕ) (task : Text) (history : History) (run : AgentRun)
    → o.guardrail ≡ true
    → (run_agent o user now task history).0 ≡ ok run
    → run.status ≡ RunStatus.completed
    → has_text run.result ≡ false
guarded_run_has_no_text o user now task history run on h done =
    let (other, e, finished) = run_result o user now task history in
    let same = ok_inj (sym e ∙ h) in
    subst (λ r. has_text r.result ≡ false) same
      ((finished.0).1 on (subst (λ r. r.status ≡ RunStatus.completed) (sym same) done))
