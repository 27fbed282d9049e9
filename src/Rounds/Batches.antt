-- ===== src/Rounds/Batches.antt =====
-- services/tool_loop.py: the dispatches of a whole round.
use study_loop.Base.{
  Bool, Bool-cases, List, Option, String, [], ap, arith, false, inl, inr, length, map, none, refl,
  some, subst, suc, sym, true, ◌++◌, ◌∙◌, ◌∷◌, ◌≡◌,
}
use study_loop.Json.{Json}
use study_loop.Rounds.Guarded.{prepare-Passes}
use study_loop.Rounds.Prepare.{
  Call, RoundRequest, allowed, any_control, bind_call, dispatch_may_start, ids_ok, is_mixed, parsed,
  prepare,
}
use study_loop.Rounds.Round.{
  RoundContext, RoundState, Step, batch, block_all, block_tool_call, crossed, ended, finished,
  handle_call, handle_calls, next, run_calls, run_tool_round,
}
use study_loop.Rounds.Transcript.{Message, ToolCall, assistant, successful_tool_results}
use study_loop.Rounds.Vetted.{All, IsVetted, handle-vets}
use study_loop.Table.{Table}
use study_loop.Tools.Invoke.{World}
use study_loop.Tools.Registry.{ToolRegistry}
use study_loop.Tools.Retry.{Fault}

module _ (rq : RoundRequest) (g : ToolRegistry) (cx : RoundContext) where
  prepare-name :
      (h : ToolRegistry) (results : Table Json) (mixed : Bool) (c : Call)
      → (prepare cx.codec rq g h results mixed c).name ≡ c.name
  unfolding prepare bind_call
  prepare-name h results mixed c = ground arith

  any_control-prepare :
      (h : ToolRegistry) (results : Table Json) (mixed : Bool) (cs : List Call)
      → any_control rq (map (prepare cx.codec rq g h results mixed) cs) ≡ any_control rq cs
  any_control-prepare h results mixed [] = refl
  any_control-prepare h results mixed (c ∷ cs) =
      ground (arith, prepare-name h results mixed c, any_control-prepare h results mixed cs)

  length-prepare :
      (h : ToolRegistry) (results : Table Json) (mixed : Bool) (cs : List Call)
      → length (map (prepare cx.codec rq g h results mixed) cs) ≡ length cs
  length-prepare h results mixed [] = refl
  length-prepare h results mixed (c ∷ cs) = ap suc (length-prepare h results mixed cs)

  block_all-dispatches :
      (cs : List Call) (s : RoundState) → (block_all cs s).dispatches ≡ s.dispatches
  unfolding block_all
  block_all-dispatches [] s = refl
  block_all-dispatches (c ∷ cs) s =
      block_all-dispatches cs (block_tool_call c "control" "mixed_control_batch_rejected" s)

  next-vets :
      (rest : RoundState → Step)
      → ((s : RoundState)
          → All (IsVetted rq g) s.dispatches
          → All (IsVetted rq g) (rest s).1.dispatches)
      → (r : Step) → All (IsVetted rq g) r.1.dispatches
      → All (IsVetted rq g) (next rest r).1.dispatches
  next-vets rest keeps (true, s) before = keeps s before
  next-vets rest keeps (false, s) before = before

  calls-vets :
      (h : ToolRegistry) (results : Table Json) (cs : List Call) (s : RoundState)
      → All (IsVetted rq g) s.dispatches
      → All
          (IsVetted rq g)
          (handle_calls cx rq g (map (prepare cx.codec rq g h results false) cs) s).1.dispatches
  unfolding handle_calls
  calls-vets h results [] s before = before
  calls-vets h results (c ∷ cs) s before =
      let c' = prepare cx.codec rq g h results false c in
      next-vets (handle_calls cx rq g (map (prepare cx.codec rq g h results false) cs))
        (λ s' now. calls-vets h results cs s' now) (handle_call cx rq g c' s)
        (handle-vets rq g cx c' s (prepare-Passes cx.codec rq g h results c) before)

  ended-vets :
      (r : Step) → All (IsVetted rq g) r.1.dispatches → All (IsVetted rq g) (ended r).1.dispatches
  ended-vets (true, s) before = before
  ended-vets (false, s) before = before

  is_mixed-prepare :
      (h : ToolRegistry) (results : Table Json) (b : Bool) (cs : List Call)
      → is_mixed rq (map (prepare cx.codec rq g h results b) cs) ≡ is_mixed rq cs
  is_mixed-prepare h results b cs =
      ground (arith, any_control-prepare h results b cs, length-prepare h results b cs)

  -- The calls of a batch, prepared as it is mixed or not.
  prepared-vets :
      (h : ToolRegistry) (results : Table Json) (m : Message) (cs : List Call) (s : RoundState)
      (b : Bool)
      → is_mixed rq cs ≡ b
      → All (IsVetted rq g) s.dispatches
      → All
          (IsVetted rq g)
          (run_calls cx rq g m (map (prepare cx.codec rq g h results b) cs) s).1.dispatches
  prepared-vets h results m cs s true mixed before =
      let cs' = map (prepare cx.codec rq g h results true) cs in
      let s' = record s { messages = s.messages ++ m ∷ [] } in
      let same : run_calls cx rq g m cs' s ≡ (finished, block_all cs' s') =
        unfold run_calls in ground (arith, mixed, is_mixed-prepare h results true cs) in
      subst (λ qs. All (IsVetted rq g) qs)
        (sym (ap (λ y. y.1.dispatches) same ∙ block_all-dispatches cs' s')) before
  prepared-vets h results m cs s false mixed before =
      let cs' = map (prepare cx.codec rq g h results false) cs in
      let s' = record s { messages = s.messages ++ m ∷ [] } in
      let same : run_calls cx rq g m cs' s ≡ ended (handle_calls cx rq g cs' s') =
        unfold run_calls in ground (arith, mixed, is_mixed-prepare h results false cs) in
      subst (λ y. All (IsVetted rq g) y.1.dispatches) (sym same)
        (ended-vets (handle_calls cx rq g cs' s') (calls-vets h results cs s' before))

  crossed-vets :
      (m : Message) (cs : List Call) (s : RoundState) (b : Option Fault × World)
      → ((s : RoundState)
          → All (IsVetted rq g) s.dispatches
          → All (IsVetted rq g) (run_calls cx rq g m cs s).1.dispatches)
      → All (IsVetted rq g) s.dispatches
      → All (IsVetted rq g) (crossed cx rq g m cs s b).1.dispatches
  crossed-vets m cs s (none, w) keeps before = keeps (record s { world = w }) before
  crossed-vets m cs s (some e, w) keeps before = before

  pub round-vets :
      (content : Option String) (calls : List ToolCall) (s : RoundState)
      → All (IsVetted rq g) s.dispatches
      → All (IsVetted rq g) (run_tool_round cx rq g content calls s).1.dispatches
  round-vets content [] s before = unfold run_tool_round in before
  round-vets content (c ∷ calls) s before =
      let results = successful_tool_results cx.codec s.messages in
      let read = map (parsed cx.codec) (c ∷ calls) in
      let cs = batch cx.codec rq g s.world.registry s.messages (c ∷ calls) in
      let m = assistant content (c ∷ calls) in
      let keeps = λ (s' : RoundState). λ (now : All (IsVetted rq g) s'.dispatches).
        prepared-vets s.world.registry results m read s' (is_mixed rq read) refl now in
      elim (Bool-cases (ids_ok (c ∷ calls) [])) [
        | inr bad ↦
            let same : (run_tool_round cx rq g content (c ∷ calls) s).1 ≡ s =
              unfold run_tool_round in ground (arith, bad) in
            subst (λ y. All (IsVetted rq g) y.dispatches) (sym same) before
        | inl good ↦ elim (Bool-cases (dispatch_may_start rq (allowed rq g) cs)) [
          | inl may ↦
              let same : run_tool_round cx rq g content (c ∷ calls) s
                  ≡ crossed cx rq g m cs s (cx.before_calls s.world) =
                unfold run_tool_round in ground (arith, good, may) in
              subst (λ y. All (IsVetted rq g) y.1.dispatches) (sym same)
                (crossed-vets m cs s (cx.before_calls s.world) (unfold batch in keeps) before)
          | inr none_ ↦
              let same : run_tool_round cx rq g content (c ∷ calls) s ≡ run_calls cx rq g m cs s =
                unfold run_tool_round in ground (arith, good, none_) in
              subst (λ y. All (IsVetted rq g) y.1.dispatches) (sym same)
                (unfold batch in keeps s before)
        ]
      ]
