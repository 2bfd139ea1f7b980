-- ===== src/Worker/Failures.antt =====
-- What a failed round does (`_mark_failure` and `main` of
-- services/worker/src/tkp_worker/main.py).
use tkp_platform.Base.{
  ℕ, ◌+◌, ◌-◌, ◌≤◌, ◌≡◌, refl, sym, ap, ◌∙◌, true, false, ◌++◌, arith, append_assoc, length, take,
}
use tkp_platform.Base.Result.{err}
use tkp_platform.Base.TextLaws.{
  is_infix-append_left, is_infix-append_right, lower-append, any_mono, take-append,
}
use tkp_platform.Base.Text.{Text, codes, is_infix, lower}
use tkp_platform.Worker.Claim.{ClaimedJob}
use tkp_platform.Worker.Outcome.{non_retryable_markers, is_non_retryable, should_retry}
use tkp_platform.Worker.Process.{Environment, parse_or_raise}

-- A marker in a part of a message is one in the whole message.
is_non_retryable-within :
    (before part after : Text)
    → is_non_retryable part ≡ true
    → is_non_retryable (before ++ (part ++ after)) ≡ true
unfolding is_non_retryable
is_non_retryable-within before part after h =
    any_mono (λ m. is_infix m (lower part)) (λ m. is_infix m (lower (before ++ (part ++ after))))
      non_retryable_markers
      (λ m e.
        rw (lower-append, lower-append)
          (is_infix-append_left m (lower part ++ lower after) (lower before)
            (is_infix-append_right m (lower part) (lower after) e)))
      h

abbrev parse_prefix : Text
parse_prefix = codes "Document parsing failed for "

-- The part of the message that is stored, with the filename whole.
stored_message :
    (n : ℕ) (filename rest : Text)
    → length (parse_prefix ++ filename) ≤ n
    → take n (parse_prefix ++ (filename ++ rest))
      ≡ parse_prefix ++ (filename ++ take (n - length (parse_prefix ++ filename)) rest)
stored_message n filename rest h =
    ap (take n) (sym (append_assoc parse_prefix filename rest))
    ∙ take-append n (parse_prefix ++ filename) rest h
    ∙ append_assoc parse_prefix filename _

gives_up_with : (c : ClaimedJob) (e : Text) → is_non_retryable e ≡ true → should_retry c e ≡ false
unfolding should_retry
gives_up_with c e h = ground arith

-- A document whose name holds one of the markers of errors that are not retried, such as
-- "authentication", is given up when it cannot be parsed, whatever the reason and however many
-- attempts are left: the marker is found in the name, which the message quotes.
filename_prevents_retry :
    (env : Environment) (c : ClaimedJob) (bytes filename e : Text) (n : ℕ)
    → env.parse bytes filename ≡ err e
    → is_non_retryable filename ≡ true
    → length filename + 28 ≤ n
    → (message : Text) × (parse_or_raise env bytes filename ≡ err message)
      × (should_retry c (take n message) ≡ false)
filename_prevents_retry env c bytes filename e n failed marker short = (
  parse_prefix ++ (filename ++ (codes ": " ++ e)),
  rw (failed, parse_or_raise) refl,
  gives_up_with c _ (
      rw (stored_message n filename (codes ": " ++ e) (omega arith))
        (is_non_retryable-within parse_prefix filename _ marker)),
)
