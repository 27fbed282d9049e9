-- ===== src/Rounds/Round.antt =====
-- services/tool_loop.py: `run_tool_round` from the barrier on: the transcript, the outcomes and the dispatch
-- of each call.
use study_loop.Base.{
  Bool, List, Option, String, [], false, if◌then◌else◌, is_some, map, none, not, some, str_eq, true,
  ℕ, ◌&&◌, ◌++◌, ◌∷◌,
}
use study_loop.Json.{Fields, Json, bool, dict_get, end, obj}
use study_loop.Rounds.Prepare.{
  Call, RoundRequest, allowed, binding_stands, dispatch_may_start, ids_ok, is_control, is_mixed,
  parsed, prepare, text_id,
}
use study_loop.Rounds.Transcript.{
  Content, LoopCodec, Message, ToolCall, assistant, failure, not_listed, observation, refusal,
  successful_tool_results, tool_message,
}
use study_loop.Tools.Admission.{Invocation}
use study_loop.Tools.Invoke.{
  Answer, Barrier, Handlers, World, arguments_invalid, barrier_raised, handler_raised, invoke,
  policy_violation, retry_exhausted, side_effect_ambiguous, text, tool_unknown,
}
use study_loop.Tools.Registry.{ToolRegistry, mark_run_untrusted_content, member}
use study_loop.Tools.Retry.{Fault}

pub data Kind : Type 0 where
  control dispatched blocked_ : Kind

-- ToolCallOutcome, less its result.
pub record ToolCallOutcome : Type 0 where
  pub call_id : String
  pub name : String
  pub arguments : Fields
  pub kind : Kind
  pub blocked_reason : Option String

-- `dispatches` are the calls that went to the registry, the last one first.
pub record RoundState : Type 0 where
  pub messages : List Message
  pub outcomes : List ToolCallOutcome
  pub world : World
  pub dispatches : List Invocation

-- How a round ends: a text without calls, the outcomes, or an exception.
pub data RoundEnd : Type 0 where
  plain : RoundEnd
  rejected : List ToolCallOutcome → RoundEnd
  finished : RoundEnd
  raised_ : RoundEnd

-- Which `except` clause takes an exception that comes out of the registry: the last carries the type's name.
pub data Handling : Type 0 where
  reraised : Handling
  as_policy : String → Handling
  as_failure : String → Handling

-- `now` is the time of a mark in the receipts, by the call's id.
pub record RoundContext : Type 0 where
  pub codec : LoopCodec
  pub handlers : Handlers
  pub before_dispatch : Barrier
  pub before_calls : Barrier
  pub handling : Fault → Handling
  pub now : String → ℕ

abbrev pub invocation : RoundRequest → Call → Invocation
invocation rq c = record {
  name = c.name;
  arguments = c.args;
  run_id = rq.run_id;
  user_id = rq.user_id;
  idempotency_key = rq.idempotency_key;
  idempotency_lease = rq.idempotency_lease;
}

-- A tool message and its outcome are written together.
abbrev pub append : Call → Content → Kind → Option String → RoundState → RoundState
append c content kind reason s = record s {
  messages = s.messages ++ tool_message (some c.id) content ∷ [];
  outcomes =
      s.outcomes
      ++ record {
        call_id = c.id;
        name = c.name;
        arguments = c.args;
        kind = kind;
        blocked_reason = reason;
      }
        ∷ [];
}

-- `_block_tool_call`.
abbrev pub block_tool_call : Call → String → String → RoundState → RoundState
block_tool_call c message reason s = append c (refusal message reason) blocked_ (some reason) s

abbrev pub hand_back : Call → RoundState → RoundState
hand_back c s = record s {
  outcomes =
      s.outcomes
      ++ record {
        call_id = c.id;
        name = c.name;
        arguments = c.args;
        kind = control;
        blocked_reason = none;
      }
        ∷ [];
}

-- `payload.get("injection_flagged") is True`.
abbrev is_true : Json → Bool
is_true (bool true) = true
is_true _ = false

abbrev flagged : Option Json → Bool
flagged (some (obj fs)) = is_true (dict_get "injection_flagged" fs)
flagged _ = false

-- `_mark_untrusted_observation`, with `none` where it raises.
unfoldable pub mark_untrusted_observation :
    LoopCodec → Option String → String → ToolRegistry → Option ToolRegistry
unfolding dict_get
mark_untrusted_observation cx none answer g = some g
mark_untrusted_observation cx (some run_id) answer g =
    if flagged (cx.loads_text answer) then mark_run_untrusted_content run_id g else some g

-- The calls go on, or the round raises.
abbrev pub Step : Type 0
Step = Bool × RoundState

abbrev pub observed : Call → String → RoundState → Option ToolRegistry → Step
observed c answer s (some g) = (
  true,
  append c (observation answer) dispatched none
      (record s { world = record (s.world) { registry = g } }),
)
observed c answer s none =
    (true, append c (failure "ValueError") dispatched (some "dispatch_exception: ValueError") s)

abbrev pub handled : Call → RoundState → Handling → Step
handled c s reraised = (false, s)
handled c s (as_policy reason) = (true, block_tool_call c "policy" reason s)
handled c s (as_failure name) = (true, append c (failure name) dispatched (some name) s)

-- What is done with the answer of the registry.
unfoldable pub after_dispatch : RoundContext → RoundRequest → Call → Answer → RoundState → Step
unfolding mark_untrusted_observation
after_dispatch cx rq c (text answer) s =
    observed c answer s (mark_untrusted_observation cx.codec rq.run_id answer s.world.registry)
after_dispatch cx rq c tool_unknown s = (true, append c not_listed dispatched none s)
after_dispatch cx rq c arguments_invalid s =
    (true, append c (refusal "arguments" "invalid_tool_arguments") dispatched none s)
after_dispatch cx rq c side_effect_ambiguous s = (false, s)
after_dispatch cx rq c (policy_violation reason) s = (true, block_tool_call c "policy" reason s)
after_dispatch cx rq c (barrier_raised e) s = handled c s (cx.handling e)
after_dispatch cx rq c (handler_raised e) s = handled c s (cx.handling e)
after_dispatch cx rq c (retry_exhausted e) s = handled c s (cx.handling e)

unfoldable pub dispatch : RoundContext → RoundRequest → Call → RoundState → Step
unfolding after_dispatch invoke
dispatch cx rq c s =
    let (answer, w) =
      invoke cx.codec.tools cx.handlers cx.before_dispatch (invocation rq c) (cx.now c.id)
        s.world in
    after_dispatch cx rq c answer
      (record s { world = w; dispatches = invocation rq c ∷ s.dispatches })

abbrev pub refused : Option String → Bool
refused none = false
refused (some reason) = not (str_eq reason "")

abbrev pub reason_text : Option String → String
reason_text none = ""
reason_text (some reason) = reason

-- One call of the batch; `g` is the registry before the model is called.
unfoldable pub handle_call : RoundContext → RoundRequest → ToolRegistry → Call → RoundState → Step
unfolding dispatch binding_stands
handle_call cx rq g c s =
    if c.args_error
    then (true, block_tool_call c "object" "invalid_tool_arguments" s)
    else if is_control rq c
    then (true, hand_back c s)
    else if not (member c.name (allowed rq g))
    then (true, append c not_listed blocked_ (some "not_in_whitelist") s)
    else if refused c.binding_reason
    then (true, block_tool_call c "binding" (reason_text c.binding_reason) s)
    else if is_some rq.business_tool_guard && refused c.guard_reason
    then (true, block_tool_call c "scope" (reason_text c.guard_reason) s)
    else if not (binding_stands rq g s.world.registry c.name)
    then (true, block_tool_call c "binding" "replay_safety_binding_changed" s)
    else dispatch cx rq c s

abbrev pub next : (RoundState → Step) → Step → Step
next rest (true, s) = rest s
next rest (false, s) = (false, s)

unfoldable pub handle_calls :
    RoundContext → RoundRequest → ToolRegistry → List Call → RoundState → Step
handle_calls cx rq g [] s = (true, s)
handle_calls cx rq g (c ∷ cs) s = next (handle_calls cx rq g cs) (handle_call cx rq g c s)

unfoldable pub block_all : List Call → RoundState → RoundState
block_all [] s = s
block_all (c ∷ cs) s = block_all cs (block_tool_call c "control" "mixed_control_batch_rejected" s)

abbrev pub ended : Step → RoundEnd × RoundState
ended (true, s) = (finished, s)
ended (false, s) = (raised_, s)

-- After the barrier: the assistant message, and the calls.
unfoldable pub run_calls :
    RoundContext
    → RoundRequest
    → ToolRegistry
    → Message
    → List Call
    → RoundState
    → RoundEnd × RoundState
unfolding handle_calls block_all
run_calls cx rq g m cs s =
    let s' = record s { messages = s.messages ++ m ∷ [] } in
    if is_mixed rq cs then (finished, block_all cs s') else ended (handle_calls cx rq g cs s')

abbrev pub crossed :
    RoundContext
    → RoundRequest
    → ToolRegistry
    → Message
    → List Call
    → RoundState
    → Option Fault × World
    → RoundEnd × RoundState
crossed cx rq g m cs s (none, w) = run_calls cx rq g m cs (record s { world = w })
crossed cx rq g m cs s (some e, w) = (raised_, record s { world = w })

abbrev id_rejected : ToolCall → ToolCallOutcome
id_rejected c = record {
  call_id = text_id c.id;
  name = c.name;
  arguments = end;
  kind = blocked_;
  blocked_reason = some "duplicate_tool_call_id";
}

-- The calls of a batch before anything runs.
unfoldable pub batch :
    LoopCodec
    → RoundRequest
    → ToolRegistry
    → ToolRegistry
    → List Message
    → List ToolCall
    → List Call
unfolding parsed prepare successful_tool_results
batch cx rq g h messages calls =
    let cs = map (parsed cx) calls in
    map (prepare cx rq g h (successful_tool_results cx messages) (is_mixed rq cs)) cs

-- `run_tool_round`, from the answer of the model on; `g` is the registry before the model was called.
unfoldable pub run_tool_round :
    RoundContext
    → RoundRequest
    → ToolRegistry
    → Option String
    → List ToolCall
    → RoundState
    → RoundEnd × RoundState
unfolding batch run_calls ids_ok
run_tool_round cx rq g content [] s = (plain, s)
run_tool_round cx rq g content (c ∷ calls) s =
    let cs = batch cx.codec rq g s.world.registry s.messages (c ∷ calls) in
    let m = assistant content (c ∷ calls) in
    if not (ids_ok (c ∷ calls) [])
    then (rejected (map id_rejected (c ∷ calls)), s)
    else if dispatch_may_start rq (allowed rq g) cs
    then crossed cx rq g m cs s (cx.before_calls s.world)
    else run_calls cx rq g m cs s
