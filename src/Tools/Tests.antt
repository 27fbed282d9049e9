-- ===== src/Tools/Tests.antt =====
-- A tool that writes a note, called under a receipt, twice in one run, and by two tasks at once.
use study_loop.Base.{
  List, [], false, none, refl, some, suc, sym, true, zero, ℕ, ◌∙◌, ◌∷◌, ◌≡◌, ◌≢◌, ◌≤◌, ◌⊎◌,
}
use study_loop.Base.Result.{ok}
use study_loop.Json.{end, field, str}
use study_loop.Receipts.Begin.{begin_sync}
use study_loop.Receipts.History.{abort, run}
use study_loop.Receipts.Owner.{mark_effect_started_sync}
use study_loop.Receipts.Receipt.{Receipt, ReceiptLease, granted, pending_v2}
use study_loop.Table.{find, put, remove}
use study_loop.Tools.Admission.{Invocation, admit}
use study_loop.Tools.Invocations.{Runs, effect_closes_key, invoke-Runs}
use study_loop.Tools.Invoke.{Answer, Barrier, Handlers, World, invoke, policy_violation, text}
use study_loop.Tools.Once.{effect_passes_once}
use study_loop.Tools.Registry.{
  Tool, ToolRegistry, non_idempotent, release_effect_digest, reserved, write_record,
}
use study_loop.Tools.Reservations.{ToolCodec, semantic_reservation}
use study_loop.Tools.Retry.{
  AllPass, Attempt, last_result, passes, raised, result, returned, timed_out, transient, with_retry,
  with_retry_ends,
}
use study_loop.Tools.Tasks.{
  Event, Pool, barrier_passes, barrier_raises, call, holders, never_cleared, play,
}

abbrev codec : ToolCodec
codec = record { digit_index = λ s. none; digest = λ j. some "digest" }

abbrev write_note : Tool
write_note = record {
  identity = 1;
  name = "write_note";
  required = "text" ∷ [];
  properties = "text" ∷ "user_id" ∷ [];
  closed = true;
  binds = λ fs. true;
  handler = 7;
  metadata = record {
    max_retries = 2;
    effect_mode = non_idempotent;
    owner_argument = some "user_id";
    dedupe_within_run = true;
    dedupe_argument_paths = "text" ∷ [];
    dedupe_normalizer = none;
    argument_bindings = [];
  };
}

abbrev notes : ToolRegistry
notes = record {
  tools = ("write_note", write_note) ∷ [];
  audit_log = [];
  run_effect_digests = [];
  run_effect_attempts = [];
  run_untrusted_content = [];
}

abbrev receipt : Receipt
receipt = record {
  operation = "chat";
  fingerprint = "f";
  state = pending_v2;
  response_json = none;
  effect_tool = none;
  owner_token = some "token";
  recovery_token = some "recovery";
  lease_expires_at = some 50;
  created_at = 10;
  updated_at = 10;
}

abbrev lease : ReceiptLease
lease = record { key = "key"; owner_token = "token"; recovery_token = "recovery"; expires_at = 50 }

abbrev hello : Invocation
hello = record {
  name = "write_note";
  arguments = field "text" (str "hello") (field "user_id" (str "ada") end);
  run_id = some "run";
  user_id = some "ada";
  idempotency_key = some "key";
  idempotency_lease = some lease;
}

abbrev handlers : Handlers
handlers = record { attempt = λ h fs n. returned "written"; reads_exceeded = λ e. false }

abbrev no_barrier : Barrier
no_barrier w = (none, w)

abbrev before : World
before = record { registry = notes; receipts = ("key", receipt) ∷ []; runs = [] }

abbrev after : Answer × World
after = invoke codec handlers no_barrier hello 20 before

written : after.0 ≡ text "written"
unfolding invoke find put semantic_reservation reserved mark_effect_started_sync with_retry
    write_record
written = refl

one_run : after.1.runs ≡ record { tool = write_note; arguments = hello.arguments; calls = 1 } ∷ []
unfolding invoke find put semantic_reservation reserved mark_effect_started_sync with_retry
    write_record
one_run = refl

again :
    (invoke codec handlers no_barrier hello 30 after.1).0 ≡ policy_violation "duplicate_within_run"
unfolding invoke find put semantic_reservation reserved mark_effect_started_sync with_retry
    write_record
again = refl

stranger :
    (invoke codec handlers no_barrier (record hello { user_id = some "bob" }) 20 before).0
    ≡ policy_violation "owner_mismatch"
unfolding invoke find put semantic_reservation reserved mark_effect_started_sync with_retry
    write_record
stranger = refl

-- A function that fails twice before it answers.
abbrev flaky : ℕ → Attempt ℕ
flaky zero = raised (transient "RateLimitError")
flaky (suc zero) = raised timed_out
flaky n = returned n

third_time : with_retry 3 flaky ≡ (result 2, 3)
unfolding with_retry
third_time = refl

with_retry_ends_example :
    (n : ℕ) × ((with_retry 3 flaky).1 ≡ suc n)
    × (n ≤ 3)
    × AllPass flaky 0 n
    × ((with_retry 3 flaky).0 ≡ last_result (flaky n))
    × ((n ≡ 3) ⊎ (passes (flaky n) ≡ false))
with_retry_ends_example = with_retry_ends 3 flaky

invoke-Runs_example : Runs codec handlers no_barrier hello 20 before after.1
invoke-Runs_example = invoke-Runs codec handlers no_barrier hello 20 before

ran : after.1.runs ≢ []
ran e = cc (sym one_run ∙ e)

effect_closes_key_example :
    (begin_sync
      (λ u. u)
      90
      60
      (record { key = "key"; operation = "chat"; fingerprint = "f" })
      "token-2"
      "recovery-2"
      90
      (run 60 after.1.receipts ((70, abort "key" "token") ∷ []))).0
    ≢ ok (
        granted (record {
          key = "key";
          owner_token = "token-2";
          recovery_token = "recovery-2";
          expires_at = 150;
        }))
effect_closes_key_example =
    effect_closes_key codec handlers no_barrier hello 20 before
      (record { key = "key"; operation = "chat"; fingerprint = "f" }) write_note 60
      ((70, abort "key" "token") ∷ []) "token-2" "recovery-2" 90
      (record {
        key = "key";
        owner_token = "token-2";
        recovery_token = "recovery-2";
        expires_at = 150;
      })
      (unfold find in refl) refl refl ran ran

-- Two tasks of one run write the same note, the first fails at its barrier, and a third succeeds.
abbrev schedule : List Event
schedule =
    call hello
    ∷ call hello
    ∷ barrier_raises 0
    ∷ call hello
    ∷ call hello
    ∷ barrier_passes 0
    ∷ call hello
    ∷ []

abbrev played : Pool
played = play codec (record { registry = notes; waiting = []; passed = [] }) schedule

one_passes : holders "run" ("write_note", "digest") played.passed ≡ 1
unfolding play study_loop.Tools.Tasks.step admit find put semantic_reservation reserved write_record
    release_effect_digest remove holders
one_passes = refl

effect_passes_once_example : holders "run" ("write_note", "digest") played.passed ≤ 1
effect_passes_once_example =
    effect_passes_once codec notes schedule "run" ("write_note", "digest")
      (unfold never_cleared in refl)
