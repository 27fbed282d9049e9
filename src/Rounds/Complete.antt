-- ===== src/Rounds/Complete.antt =====
-- services/tool_loop.py: a round that ends, and what it has added.
use study_loop.Base.{List, String, [], if◌then◌else◌, ◌∷◌}
use study_loop.Json.{Json}
use study_loop.Rounds.Prepare.{Call, RoundRequest, is_mixed, text_id}
use study_loop.Rounds.Protocol.{Adds, all_answered, call_ids}
use study_loop.Rounds.Round.{RoundContext, RoundEnd, RoundState, finished}
use study_loop.Rounds.Transcript.{ToolCall}
use study_loop.Table.{Table}
use study_loop.Tools.Registry.{ToolRegistry}

abbrev pub ids_of : List ToolCall → List String
ids_of [] = []
ids_of (c ∷ cs) = text_id c.id ∷ ids_of cs

-- What a batch answers itself: everything, where it is mixed.
abbrev pub round_answers : RoundRequest → List Call → List String
round_answers rq cs = if is_mixed rq cs then call_ids cs else all_answered rq cs

module _ (cx : RoundContext) (rq : RoundRequest) (g : ToolRegistry) where
  abbrev EndsAnswered : List String → List String → RoundState → RoundEnd × RoundState → Type 0
  EndsAnswered replies ids s (finished, t) = Adds replies ids s t
  EndsAnswered replies ids s (e, t) = Unit
