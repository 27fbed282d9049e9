-- ===== src/Scope.antt =====
-- services/tool_scope.py: the guard that binds the user and the document of a tool call, which a model
-- has chosen, to the request that the call serves. `strip` is Python's `str.strip`, a parameter.
pub mod Tests
use Prim.Native.Char.{code}
use Prim.Native.String.{count}
use study_loop.Base.{
  Bool, Option, String, arith, false, if◌then◌else◌, leb, ltb, none, not, refl, some, str_eq, true,
  ℕ, ◌&&◌, ◌==◌, ◌||◌, ◌∷◌, ◌≡◌,
}
use study_loop.Json.{Fields, Json, end, field, obj, str}

-- The texts that the guard answers with.
pub data ScopeError : Type 0 where
  invalid_tool_arguments user_scope_mismatch : ScopeError
  document_scope_unbound document_scope_mismatch : ScopeError

-- `arguments[key]`, with `none` where the key is not in the dict.
unfoldable pub argument : String → Fields → Option Json
argument k end = none
argument k (field j v fs) = if str_eq j k then some v else argument k fs

-- `any(ord(character) < 32 or ord(character) == 127 for character in value)`.
unfoldable pub has_control : String → Bool
has_control String.[] = false
has_control (String.◌∷◌ c s) = ltb (code c) 32 || code c == 127 || has_control s

-- `_valid_scope_value`.
unfoldable pub valid_scope_value : (String → String) → Json → ℕ → Bool
unfolding has_control
valid_scope_value strip (str s) max_length =
    not (str_eq (strip s) "") && (leb (count s) max_length && not (has_control s))
valid_scope_value strip _ max_length = false

abbrev pub is_str : String → Json → Bool
is_str t (str s) = str_eq s t
is_str t _ = false

unfoldable pub user_fault : (String → String) → String → Option Json → Option ScopeError
unfolding valid_scope_value
user_fault strip user_id none = none
user_fault strip user_id (some v) =
    if not (valid_scope_value strip v 128)
    then some invalid_tool_arguments
    else if not (is_str user_id v)
    then some user_scope_mismatch
    else none

abbrev pub bound_fault : Option String → Bool → Json → Option ScopeError
bound_fault none allow v = if allow then none else some document_scope_unbound
bound_fault (some d) allow v = if is_str d v then none else some document_scope_mismatch

unfoldable pub document_fault :
    (String → String) → Option String → Bool → Option Json → Option ScopeError
unfolding valid_scope_value
document_fault strip document_id allow none = none
document_fault strip document_id allow (some v) =
    if not (valid_scope_value strip v 512)
    then some invalid_tool_arguments
    else bound_fault document_id allow v

abbrev first_fault : Option ScopeError → Option ScopeError → Option ScopeError
first_fault (some e) f = some e
first_fault none f = f

-- The guard that `build_business_tool_scope_guard` returns; `none` lets the call pass.
unfoldable pub guard : (String → String) → String → Option String → Bool → Json → Option ScopeError
unfolding user_fault document_fault argument
guard strip user_id document_id allow (obj fs) =
    first_fault (user_fault strip user_id (argument "user_id" fs))
      (document_fault strip document_id allow (argument "document_id" fs))
guard strip user_id document_id allow _ = some invalid_tool_arguments

no_fault : (a b : Option ScopeError) → first_fault a b ≡ none → (a ≡ none) × (b ≡ none)
no_fault none b e = (refl, e)
no_fault (some x) b e = ground (arith, e)

-- An argument that the guard accepts for a user or a document.
abbrev pub names : String → Option Json → Bool
names t none = true
names t (some v) = is_str t v

abbrev pub names_document : Option String → Bool → Option Json → Bool
names_document document_id allow none = true
names_document none allow (some v) = allow
names_document (some d) allow (some v) = is_str d v

user-names :
    (strip : String → String) (user_id : String) (o : Option Json)
    → user_fault strip user_id o ≡ none
    → names user_id o ≡ true
unfolding user_fault
user-names strip user_id none e = refl
user-names strip user_id (some v) e = grind arith

document-names :
    (strip : String → String) (document_id : Option String) (allow : Bool) (o : Option Json)
    → document_fault strip document_id allow o ≡ none
    → names_document document_id allow o ≡ true
unfolding document_fault
document-names strip document_id allow none e = refl
document-names strip none allow (some v) e = grind arith
document-names strip (some d) allow (some v) e = grind arith

-- A call that the guard lets pass cannot leave the scope of its request: a user that its arguments
-- name is the request's, a document that they name is the one that the request is bound to, and an
-- unbound request names one only where its caller has opted in.
pub passed_in_scope :
    (strip : String → String) (user_id : String) (document_id : Option String) (allow : Bool)
    (fs : Fields)
    → guard strip user_id document_id allow (obj fs) ≡ none
    → (names user_id (argument "user_id" fs) ≡ true)
      × (names_document document_id allow (argument "document_id" fs) ≡ true)
unfolding guard
passed_in_scope strip user_id document_id allow fs e =
    let (user_, document_) = no_fault _ _ e in
    (
      user-names strip user_id (argument "user_id" fs) user_,
      document-names strip document_id allow (argument "document_id" fs) document_,
    )
