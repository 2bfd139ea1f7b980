-- ===== src/Agents/Guardrail.antt =====
-- services/api/src/tkp_api/agents/guardrail.py. Times are in seconds; the compiled patterns are a
-- parameter, with what `search`, `findall` and `sub` of each yield.
use tkp_platform.Base.{
  ℕ, ◌+◌, ◌-◌, Bool, true, false, Option, none, some, List, [], ◌∷◌, ◌++◌, ltb, leb, if◌then◌else◌,
  any, filter, length, min,
}
use tkp_platform.Base.Result.{Result, ok, err}
use tkp_platform.Base.Text.{Text, codes, text_eq}

pub record Pattern : Type 0 where
  pub search : Text → Bool
  pub findall : Text → List Text
  pub redact : Text → Text

pub record Patterns : Type 0 where
  pub sensitive_patterns : List Pattern
  pub dangerous_patterns : List Pattern

pub data Issue : Type 0 where
  rate_limit : (reset_at : ℕ) → Issue
  sensitive_info dangerous_operation sensitive_info_in_output : Issue

abbrev pub no_issues : List Issue → Bool
no_issues [] = true
no_issues (i ∷ is) = false

-- `issues.append(issue)` for each pattern that is found in the text
unfoldable pub found_issues : Issue → List Pattern → Text → List Issue
found_issues issue [] text = []
found_issues issue (p ∷ ps) text =
    let rest = found_issues issue ps text in if p.search text then issue ∷ rest else rest

unfoldable pub check_input : Patterns → Text → List Issue
check_input patterns text =
    found_issues Issue.sensitive_info patterns.sensitive_patterns text
    ++ found_issues Issue.dangerous_operation patterns.dangerous_patterns text

abbrev none_found : List Text → Bool
none_found [] = true
none_found (m ∷ ms) = false

-- The patterns are sought in the text, and replaced in what the ones before have left.
unfoldable pub redact_all : List Pattern → Text → List Issue → Text → List Issue × Text
redact_all [] text issues sanitized = (issues, sanitized)
redact_all (p ∷ ps) text issues sanitized =
    let step : List Issue × Text =
      if none_found (p.findall text)
      then (issues, sanitized)
      else (issues ++ Issue.sensitive_info_in_output ∷ [], p.redact sanitized) in
    redact_all ps text step.0 step.1

unfoldable pub check_output : Patterns → Text → List Issue × Text
check_output patterns text = redact_all patterns.sensitive_patterns text [] text

-- What a tool is called with: a dict, of which the keys are given, or another value.
pub data Arguments : Type 0 where
  dict : (keys : List Text) → Arguments
  not_a_dict : Arguments

pub data Refusal : Type 0 where
  not_allowed arguments_not_dict missing_code : Refusal

abbrev pub check_arguments : Text → Arguments → Option Refusal
check_arguments tool not_a_dict = some Refusal.arguments_not_dict
check_arguments tool (dict keys) =
    if text_eq tool (codes "execute_code")
    then (if any (text_eq (codes "code")) keys then none else some Refusal.missing_code)
    else none

unfoldable pub check_tool_call : List Text → Text → Arguments → Option Refusal
check_tool_call allowed tool arguments =
    if any (text_eq tool) allowed then check_arguments tool arguments else some Refusal.not_allowed

-- The times of the calls of each user; a user who is no key has none.
abbrev pub History : Type 0
History = Text → List ℕ

abbrev pub put_calls : Text → List ℕ → History → History
put_calls user calls history = λ u. if text_eq u user then calls else history u

-- `t > current_time - 60`
abbrev pub is_fresh : ℕ → ℕ → Bool
is_fresh now t = ltb now (t + 60)

pub record RateAnswer : Type 0 where
  pub allowed : Bool
  pub remaining : ℕ
  pub reset_at : ℕ

-- `min` of an empty list raises.
pub data ValueError : Type 0 where
  empty_min : ValueError

abbrev least : ℕ → List ℕ → ℕ
least a [] = a
least a (b ∷ bs) = least (min a b) bs

abbrev pub exceeded : List ℕ → Result ValueError RateAnswer
exceeded [] = err empty_min
exceeded (t ∷ ts) = ok (record { allowed = false; remaining = 0; reset_at = least t ts + 60 })

abbrev pub within_limit : ℕ → Text → ℕ → List ℕ → History → Result ValueError RateAnswer × History
within_limit max_calls user now calls history =
    if leb max_calls (length calls) then (exceeded calls, put_calls user calls history) else (
      ok (record { allowed = true; remaining = max_calls - length calls - 1; reset_at = now + 60 }),
      put_calls user (calls ++ now ∷ []) history,
    )

unfoldable pub check_rate_limit : ℕ → Text → ℕ → History → Result ValueError RateAnswer × History
check_rate_limit max_calls user now history =
    within_limit max_calls user now (filter (is_fresh now) (history user)) history

abbrev pub rate_issues : RateAnswer → List Issue
rate_issues answer = if answer.allowed then [] else Issue.rate_limit answer.reset_at ∷ []

abbrev pub with_content : List Issue → Result ValueError RateAnswer → Result ValueError (List Issue)
with_content issues (err e) = err e
with_content issues (ok answer) = ok (rate_issues answer ++ issues)

-- The input is valid if there are no issues.
unfoldable pub validate_agent_input :
    Patterns → ℕ → Text → ℕ → Text → History → Result ValueError (List Issue) × History
validate_agent_input patterns max_calls user now text history =
    let (answer, after) = check_rate_limit max_calls user now history in
    (with_content (check_input patterns text) answer, after)
