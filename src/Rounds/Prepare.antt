-- ===== src/Rounds/Prepare.antt =====
-- services/tool_loop.py: `run_tool_round` from the answer of the model to the barrier: the ids of a batch,
-- the arguments of its calls, the guard, and the bindings.
use study_loop.Base.{
  Bool, List, Option, String, [], false, if◌then◌else◌, is_none, length, ltb, none, not, some,
  str_eq, true, ◌&&◌, ◌==◌, ◌||◌, ◌∷◌,
}
use study_loop.Json.{Fields, Json, end, obj}
use study_loop.Receipts.Receipt.{ReceiptLease}
use study_loop.Rounds.Transcript.{LoopCodec, ToolCall, apply_argument_bindings}
use study_loop.Table.{Table, find}
use study_loop.Tools.Registry.{
  EffectMode, Tool, ToolArgumentBinding, ToolRegistry, idempotent, member, non_idempotent,
  non_replayable, read_only, unknown,
}

-- What the guard of the caller says of a call.
pub data GuardAnswer : Type 0 where
  pass : GuardAnswer
  refuses : String → GuardAnswer
  raises : GuardAnswer

-- The arguments of `run_tool_round` that decide on a call.
pub record RoundRequest : Type 0 where
  pub control_tools : List String
  pub business_tool_allowlist : Option (List String)
  pub business_tool_guard : Option (String → Fields → GuardAnswer)
  pub run_id : Option String
  pub user_id : Option String
  pub idempotency_key : Option String
  pub idempotency_lease : Option ReceiptLease

-- A call of the batch, with what is found out about it before anything runs.
pub record Call : Type 0 where
  pub id : String
  pub name : String
  pub args : Fields
  pub args_error : Bool
  pub guard_reason : Option String
  pub binding_reason : Option String

abbrev keys {ℓ} : {R : Type ℓ} → Table R → List String
keys [] = []
keys ((k, r) ∷ t) = k ∷ keys t

-- `allowed`; `g` is the registry before the model is called.
abbrev pub allowed : RoundRequest → ToolRegistry → List String
allowed rq g = elim (rq.business_tool_allowlist) [ none ↦ keys g.tools | some names ↦ names ]

-- The ids of a batch are texts, not empty, and differ.
abbrev pub text_id : Option String → String
text_id none = ""
text_id (some s) = s

unfoldable pub ids_ok : List ToolCall → List String → Bool
ids_ok [] seen = true
ids_ok (c ∷ cs) seen =
    not (str_eq (text_id c.id) "")
    && (not (member (text_id c.id) seen) && ids_ok cs (text_id c.id ∷ seen))

abbrev object_of : Option Json → Option Fields
object_of (some (obj fs)) = some fs
object_of _ = none

abbrev args_of : Option Fields → Fields
args_of none = end
args_of (some fs) = fs

-- A call of the batch with its arguments read.
unfoldable pub parsed : LoopCodec → ToolCall → Call
parsed cx c =
    let fs = object_of (cx.loads_text c.arguments) in
    record {
      id = text_id c.id;
      name = c.name;
      args = args_of fs;
      args_error = is_none fs;
      guard_reason = none;
      binding_reason = none;
    }

abbrev pub is_control : RoundRequest → Call → Bool
is_control rq c = member c.name rq.control_tools

abbrev same_mode : EffectMode → EffectMode → Bool
same_mode read_only read_only = true
same_mode idempotent idempotent = true
same_mode non_idempotent non_idempotent = true
same_mode unknown unknown = true
same_mode _ _ = false

-- `current` is the tool, the handler and the mode that the round has bound.
abbrev same_binding : Option Tool → Option Tool → Bool
same_binding (some bound) (some current) =
    bound.identity == current.identity
    && (bound.handler == current.handler
        && same_mode bound.metadata.effect_mode current.metadata.effect_mode)
same_binding _ _ = false

-- `replay_safe_bindings.get(name)`.
abbrev replay_safe : Option Tool → Option Tool
replay_safe none = none
replay_safe (some tool) = if non_replayable tool.metadata.effect_mode then none else some tool

-- Where the caller gives an allowlist, the binding still stands; `g` is the registry before the model is
-- called, and `h` the one now.
unfoldable pub binding_stands : RoundRequest → ToolRegistry → ToolRegistry → String → Bool
binding_stands rq g h name = elim (rq.business_tool_allowlist) [
  | none ↦ true
  | some names ↦
      if member name names
      then same_binding (replay_safe (find name g.tools)) (find name h.tools)
      else false
]

-- The checks that a call passes before its arguments are bound.
abbrev pub can_bind : RoundRequest → List String → Call → Bool
can_bind rq names c = not c.args_error && (not (is_control rq c) && member c.name names)

abbrev pub reason_of : GuardAnswer → Option String
reason_of pass = none
reason_of (refuses r) = some r
reason_of raises = some "business_tool_guard_error"

abbrev pub guarded : Option (String → Fields → GuardAnswer) → String → Fields → Option String
guarded none name args = none
guarded (some f) name args = reason_of (f name args)

abbrev pub bindings_of : Option Tool → List ToolArgumentBinding
bindings_of none = []
bindings_of (some tool) = tool.metadata.argument_bindings

abbrev pub rechecked : RoundRequest → Bool → Call → Fields × Bool → Call
rechecked rq reach c (args, bound) = record c {
  args = args;
  guard_reason = if reach && bound then guarded rq.business_tool_guard c.name args else none;
}

-- The guard on the arguments of the model, the bindings, and the guard on what they give.
unfoldable pub bind_call : LoopCodec → RoundRequest → ToolRegistry → Table Json → Bool → Call → Call
unfolding apply_argument_bindings
bind_call cx rq h results mixed c =
    elim (if mixed then none else guarded rq.business_tool_guard c.name c.args) [
      | some reason ↦ record c { guard_reason = some reason }
      | none ↦
          rechecked rq (not mixed) c
            (apply_argument_bindings cx (bindings_of (find c.name h.tools)) results c.args)
    ]

-- A call of the batch before anything runs. `mixed` is a batch of several calls with a control tool.
unfoldable pub prepare :
    LoopCodec → RoundRequest → ToolRegistry → ToolRegistry → Table Json → Bool → Call → Call
unfolding bind_call binding_stands
prepare cx rq g h results mixed c =
    if not (can_bind rq (allowed rq g) c)
    then c
    else if not (binding_stands rq g h c.name)
    then record c { binding_reason = some "replay_safety_binding_changed" }
    else bind_call cx rq h results mixed c

abbrev pub any_control : RoundRequest → List Call → Bool
any_control rq [] = false
any_control rq (c ∷ cs) = is_control rq c || any_control rq cs

abbrev pub is_mixed : RoundRequest → List Call → Bool
is_mixed rq cs = any_control rq cs && ltb 1 (length cs)

-- A call that may be dispatched.
abbrev pub may_start : RoundRequest → List String → Call → Bool
may_start rq names c = can_bind rq names c && (is_none c.guard_reason && is_none c.binding_reason)

abbrev any_start : RoundRequest → List String → List Call → Bool
any_start rq names [] = false
any_start rq names (c ∷ cs) = may_start rq names c || any_start rq names cs

-- `dispatch_may_start`.
abbrev pub dispatch_may_start : RoundRequest → List String → List Call → Bool
dispatch_may_start rq names cs = not (is_mixed rq cs) && any_start rq names cs
