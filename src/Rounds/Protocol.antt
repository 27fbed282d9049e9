-- ===== src/Rounds/Protocol.antt =====
-- services/tool_loop.py: the tool messages and the outcomes of a batch.
use mathlib.Core.List.{append_assoc, append-nil}
use study_loop.Base.{
  List, Option, String, [], ap, false, if◌then◌else◌, none, not, refl, some, sym, true, ◌&&◌, ◌++◌,
  ◌∙◌, ◌∷◌, ◌≡◌,
}
use study_loop.Rounds.Prepare.{Call, RoundRequest, is_control}
use study_loop.Rounds.Round.{
  Handling, Kind, RoundContext, RoundState, Step, ToolCallOutcome, after_dispatch, append,
  as_failure, as_policy, blocked_, dispatch, dispatched, handled, invocation,
  mark_untrusted_observation, observed, reraised,
}
use study_loop.Rounds.Transcript.{
  Content, Message, assistant, failure, not_listed, observation, other_message, refusal,
  tool_message,
}
use study_loop.Tools.Invoke.{
  Answer, arguments_invalid, barrier_raised, handler_raised, invoke, policy_violation,
  retry_exhausted, side_effect_ambiguous, text, tool_unknown,
}
use study_loop.Tools.Registry.{ToolRegistry}

-- The ids that tool messages answer, with the empty text for a message that answers none.
abbrev pub reply_ids : List Message → List String
reply_ids [] = []
reply_ids (tool_message (some id) content ∷ ms) = id ∷ reply_ids ms
reply_ids (_ ∷ ms) = "" ∷ reply_ids ms

abbrev pub outcome_ids : List ToolCallOutcome → List String
outcome_ids [] = []
outcome_ids (o ∷ os) = o.call_id ∷ outcome_ids os

-- A control tool on its own is answered by the caller.
abbrev pub answered_here : RoundRequest → Call → List String
answered_here rq c = if not c.args_error && is_control rq c then [] else c.id ∷ []

abbrev pub all_answered : RoundRequest → List Call → List String
all_answered rq [] = []
all_answered rq (c ∷ cs) = answered_here rq c ++ all_answered rq cs

abbrev pub call_ids : List Call → List String
call_ids [] = []
call_ids (c ∷ cs) = c.id ∷ call_ids cs

-- What a batch adds to the transcript and to the outcomes.
abbrev pub Adds : List String → List String → RoundState → RoundState → Type 0
Adds replies ids s s' =
    (ms : List Message) × (os : List ToolCallOutcome) × (s'.messages ≡ s.messages ++ ms)
    × (s'.outcomes ≡ s.outcomes ++ os)
    × (reply_ids ms ≡ replies)
    × (outcome_ids os ≡ ids)

reply_ids-append : (ms ns : List Message) → reply_ids (ms ++ ns) ≡ reply_ids ms ++ reply_ids ns
reply_ids-append [] ns = refl
reply_ids-append (tool_message (some id) content ∷ ms) ns =
    ap (λ xs. id ∷ xs) (reply_ids-append ms ns)
reply_ids-append (tool_message none content ∷ ms) ns = ap (λ xs. "" ∷ xs) (reply_ids-append ms ns)
reply_ids-append (assistant content calls ∷ ms) ns = ap (λ xs. "" ∷ xs) (reply_ids-append ms ns)
reply_ids-append (other_message ∷ ms) ns = ap (λ xs. "" ∷ xs) (reply_ids-append ms ns)

outcome_ids-append :
    (os ps : List ToolCallOutcome) → outcome_ids (os ++ ps) ≡ outcome_ids os ++ outcome_ids ps
outcome_ids-append [] ps = refl
outcome_ids-append (o ∷ os) ps = ap (λ xs. o.call_id ∷ xs) (outcome_ids-append os ps)

pub Adds-nothing : (s : RoundState) → Adds [] [] s s
Adds-nothing s = ([], [], sym (append-nil s.messages), sym (append-nil s.outcomes), refl, refl)

pub Adds-both :
    (xs ys is js : List String) (s t u : RoundState)
    → Adds xs is s t
    → Adds ys js t u
    → Adds (xs ++ ys) (is ++ js) s u
Adds-both xs ys is js s t u (ms, os, m, o, rx, ix) (ns, ps, n, p, ry, iy) = (
  ms ++ ns,
  os ++ ps,
  n ∙ ap (λ v. v ++ ns) m ∙ append_assoc s.messages ms ns,
  p ∙ ap (λ v. v ++ ps) o ∙ append_assoc s.outcomes os ps,
  reply_ids-append ms ns ∙ ap (λ v. v ++ reply_ids ns) rx ∙ ap (λ v. xs ++ v) ry,
  outcome_ids-append os ps ∙ ap (λ v. v ++ outcome_ids ps) ix ∙ ap (λ v. is ++ v) iy,
)

pub append-Adds :
    (c : Call) (content : Content) (kind : Kind) (reason : Option String) (s t : RoundState)
    → t.messages ≡ s.messages
    → t.outcomes ≡ s.outcomes
    → Adds (c.id ∷ []) (c.id ∷ []) s (append c content kind reason t)
append-Adds c content kind reason s t m o = (
  tool_message (some c.id) content ∷ [],
  record { call_id = c.id; name = c.name; arguments = c.args; kind = kind; blocked_reason = reason }
      ∷ [],
  ap (λ v. v ++ tool_message (some c.id) content ∷ []) m,
  ap
      (λ v.
        v
        ++ record {
          call_id = c.id;
          name = c.name;
          arguments = c.args;
          kind = kind;
          blocked_reason = reason;
        }
          ∷ [])
      o,
  refl,
  refl,
)

-- The call goes on with its reply and its outcome, or the round raises.
abbrev pub Replied : Call → RoundState → Step → Type 0
Replied c s (true, t) = Adds (c.id ∷ []) (c.id ∷ []) s t
Replied c s (false, t) = Unit

module _ (cx : RoundContext) (rq : RoundRequest) (g : ToolRegistry) where
  handled-Replied :
      (c : Call) (s t : RoundState) (h : Handling)
      → t.messages ≡ s.messages
      → t.outcomes ≡ s.outcomes
      → Replied c s (handled c t h)
  handled-Replied c s t reraised m o = tt
  handled-Replied c s t (as_policy reason) m o =
      append-Adds c (refusal "policy" reason) blocked_ (some reason) s t m o
  handled-Replied c s t (as_failure name) m o =
      append-Adds c (failure name) dispatched (some name) s t m o

  observed-Replied :
      (c : Call) (r : String) (s t : RoundState) (o : Option ToolRegistry)
      → t.messages ≡ s.messages
      → t.outcomes ≡ s.outcomes
      → Replied c s (observed c r t o)
  observed-Replied c r s t (some h) m o =
      append-Adds c (observation r) dispatched none s
        (record t { world = record (t.world) { registry = h } }) m o
  observed-Replied c r s t none m o =
      append-Adds c (failure "ValueError") dispatched (some "dispatch_exception: ValueError") s t m
        o

  after-Replied :
      (c : Call) (a : Answer) (s t : RoundState)
      → t.messages ≡ s.messages
      → t.outcomes ≡ s.outcomes
      → Replied c s (after_dispatch cx rq c a t)
  unfolding after_dispatch
  after-Replied c (text r) s t m o =
      observed-Replied c r s t (mark_untrusted_observation cx.codec rq.run_id r t.world.registry) m
        o
  after-Replied c tool_unknown s t m o = append-Adds c not_listed dispatched none s t m o
  after-Replied c arguments_invalid s t m o =
      append-Adds c (refusal "arguments" "invalid_tool_arguments") dispatched none s t m o
  after-Replied c side_effect_ambiguous s t m o = tt
  after-Replied c (policy_violation reason) s t m o =
      append-Adds c (refusal "policy" reason) blocked_ (some reason) s t m o
  after-Replied c (barrier_raised e) s t m o = handled-Replied c s t (cx.handling e) m o
  after-Replied c (handler_raised e) s t m o = handled-Replied c s t (cx.handling e) m o
  after-Replied c (retry_exhausted e) s t m o = handled-Replied c s t (cx.handling e) m o

  pub dispatch-Replied : (c : Call) (s : RoundState) → Replied c s (dispatch cx rq c s)
  unfolding dispatch
  dispatch-Replied c s =
      let (a, w) =
        invoke cx.codec.tools cx.handlers cx.before_dispatch (invocation rq c) (cx.now c.id)
          s.world in
      after-Replied c a s (record s { world = w; dispatches = invocation rq c ∷ s.dispatches }) refl
        refl
