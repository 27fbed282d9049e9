-- ===== src/Scope/Tests.antt =====
-- Tool calls of one request, in and out of its scope.
use study_loop.Base.{String, false, none, refl, some, true, ◌≡◌}
use study_loop.Json.{Fields, end, field, obj, str}
use study_loop.Scope.{
  argument, document_scope_unbound, guard, names, names_document, passed_in_scope,
  user_scope_mismatch,
}

abbrev unstripped : String → String
unstripped s = s

abbrev arguments : Fields
arguments = field "document_id" (str "sums") (field "user_id" (str "ada") end)

passes : guard unstripped "ada" (some "sums") false (obj arguments) ≡ none
unfolding guard
passes = refl

other_user : guard unstripped "bob" (some "sums") false (obj arguments) ≡ some user_scope_mismatch
unfolding guard
other_user = refl

unbound : guard unstripped "ada" none false (obj arguments) ≡ some document_scope_unbound
unfolding guard
unbound = refl

passed_in_scope_example :
    (names "ada" (argument "user_id" arguments) ≡ true)
    × (names_document (some "sums") false (argument "document_id" arguments) ≡ true)
passed_in_scope_example = passed_in_scope unstripped "ada" (some "sums") false arguments passes
