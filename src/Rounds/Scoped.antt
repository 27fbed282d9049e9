-- ===== src/Rounds/Scoped.antt =====
-- services/tool_loop.py with services/tool_scope.py: the calls of a round under the scope of its request.
use study_loop.Base.{Bool, Option, String, none, some, true, ◌≡◌}
use study_loop.Json.{Fields, obj}
use study_loop.Rounds.Prepare.{GuardAnswer, pass, refuses}
use study_loop.Scope.{
  ScopeError, argument, document_scope_mismatch, document_scope_unbound, guard,
  invalid_tool_arguments, names, names_document, user_scope_mismatch,
}
use study_loop.Tools.Admission.{Invocation}

-- The texts of the guard that `build_business_tool_scope_guard` returns.
abbrev pub reason_of_scope : ScopeError → String
reason_of_scope invalid_tool_arguments = "invalid_tool_arguments"
reason_of_scope user_scope_mismatch = "user_scope_mismatch"
reason_of_scope document_scope_unbound = "document_scope_unbound"
reason_of_scope document_scope_mismatch = "document_scope_mismatch"

abbrev scope_answer : Option ScopeError → GuardAnswer
scope_answer none = pass
scope_answer (some e) = refuses (reason_of_scope e)

-- That guard, as the guard of a round.
abbrev pub scope_guard :
    (String → String) → String → Option String → Bool → String → Fields → GuardAnswer
scope_guard strip user_id document_id allow name args =
    scope_answer (guard strip user_id document_id allow (obj args))

-- What the scope of a request lets a call name.
abbrev pub InScope : String → Option String → Bool → Invocation → Type 0
InScope user_id document_id allow q =
    (names user_id (argument "user_id" q.arguments) ≡ true)
    × (names_document document_id allow (argument "document_id" q.arguments) ≡ true)
