-- ===== src/Rounds/Tests.antt =====
-- A round of two searches, one of which leaves the document of its request, and a control tool.
use study_loop.Base.{
  List, Option, String, [], false, if◌then◌else◌, none, refl, some, str_eq, true, ◌∷◌, ◌≡◌,
}
use study_loop.Json.{Fields, Json, end, field, obj, str}
use study_loop.Rounds.Prepare.{RoundRequest}
use study_loop.Rounds.Round.{
  RoundContext, RoundEnd, RoundState, handle_call, reraised, run_tool_round,
}
use study_loop.Rounds.Scoped.{scope_guard}
use study_loop.Rounds.Transcript.{
  ToolCall, assistant, observation, other_message, refusal, tool_message,
}
use study_loop.Scope.{guard}
use study_loop.Table.{find}
use study_loop.Tools.Registry.{Tool, ToolRegistry, read_only}
use study_loop.Tools.Retry.{returned, with_retry}

abbrev search_tool : Tool
search_tool = record {
  identity = 1;
  name = "search_document";
  required = "query" ∷ [];
  properties = "query" ∷ "document_id" ∷ [];
  closed = true;
  binds = λ fs. true;
  handler = 1;
  metadata = record {
    max_retries = 1;
    effect_mode = read_only;
    owner_argument = none;
    dedupe_within_run = false;
    dedupe_argument_paths = [];
    dedupe_normalizer = none;
    argument_bindings = [];
  };
}

abbrev registry_ : ToolRegistry
registry_ = record {
  tools = ("search_document", search_tool) ∷ [];
  audit_log = [];
  run_effect_digests = [];
  run_effect_attempts = [];
  run_untrusted_content = [];
}

abbrev query : String → Fields
query document = field "document_id" (str document) (field "query" (str "sums") end)

abbrev loads : String → Option Json
loads s =
    if str_eq s "inside"
    then some (obj (query "sums"))
    else if str_eq s "outside"
    then some (obj (query "diary"))
    else some (obj end)

abbrev request_ : RoundRequest
request_ = record {
  control_tools = "finalize" ∷ [];
  business_tool_allowlist = none;
  business_tool_guard = some (scope_guard (λ s. s) "ada" (some "sums") false);
  run_id = some "run";
  user_id = some "ada";
  idempotency_key = none;
  idempotency_lease = none;
}

abbrev context : RoundContext
context = record {
  codec = record {
    tools = record { digit_index = λ s. none; digest = λ j. none };
    loads_text = loads;
  };
  handlers = record { attempt = λ h fs n. returned "chunks"; reads_exceeded = λ e. false };
  before_dispatch = λ w. (none, w);
  before_calls = λ w. (none, w);
  handling = λ e. reraised;
  now = λ id. 10;
}

abbrev search_call : String → String → ToolCall
search_call id arguments = record { id = some id; name = "search_document"; arguments = arguments }

abbrev finalize : String → ToolCall
finalize id = record { id = some id; name = "finalize"; arguments = "answer" }

abbrev start : RoundState
start = record {
  messages = other_message ∷ [];
  outcomes = [];
  world = record { registry = registry_; receipts = []; runs = [] };
  dispatches = [];
}

abbrev two_searches : List ToolCall
two_searches = search_call "c1" "inside" ∷ search_call "c2" "outside" ∷ []

abbrev round : RoundEnd × RoundState
round = run_tool_round context request_ registry_ none two_searches start

one_dispatch :
    round.1.dispatches
    ≡ record {
      name = "search_document";
      arguments = query "sums";
      run_id = some "run";
      user_id = some "ada";
      idempotency_key = none;
      idempotency_lease = none;
    }
      ∷ []
unfolding run_tool_round guard find handle_call with_retry
one_dispatch = refl

two_replies :
    round.1.messages
    ≡ other_message
      ∷ assistant none two_searches
      ∷ tool_message (some "c1") (observation "chunks")
      ∷ tool_message (some "c2") (refusal "scope" "document_scope_mismatch")
      ∷ []
unfolding run_tool_round guard find handle_call with_retry
two_replies = refl

-- A control tool beside another call: nothing is dispatched.
mixed_round :
    (run_tool_round context request_ registry_ none
      (search_call "c1" "inside" ∷ finalize "c2" ∷ [])
      start).1.dispatches
    ≡ []
unfolding run_tool_round guard find handle_call with_retry
mixed_round = refl
