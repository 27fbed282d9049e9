-- ===== src/Rounds/Transcript.antt =====
-- services/tool_loop.py: the transcript of a run, the results that its tools have given, and the arguments
-- that are bound to them.
use Prim.Native.Char.{code}
use study_loop.Base.{
  Bool, List, Option, String, [], false, if◌then◌else◌, is_some, keep, none, not, some, str_eq,
  true, ◌&&◌, ◌==◌, ◌||◌, ◌∷◌,
}
use study_loop.Json.{Fields, Json, end, field, obj}
use study_loop.Scope.{argument}
use study_loop.Table.{Table, find, put, remove}
use study_loop.Tools.Registry.{ToolArgumentBinding, add, member}
use study_loop.Tools.Reservations.{ToolCodec, split_dots, walk}

-- A call as the model writes it; `id` is `none` where it is missing or no text, and `arguments` is the text
-- that json.loads reads.
pub record ToolCall : Type 0 where
  pub id : Option String
  pub name : String
  pub arguments : String

-- The content of a tool message. The objects that json.dumps writes here are constructors: an error with a
-- reason, an error alone, and an error with a type.
pub data Content : Type 0 where
  observation : String → Content
  refusal : String → String → Content
  not_listed : Content
  failure : String → Content
  no_text : Content

pub data Message : Type 0 where
  assistant : Option String → List ToolCall → Message
  tool_message : Option String → Content → Message
  other_message : Message

-- `loads_text` is `json.loads`.
pub record LoopCodec : Type 0 where
  pub tools : ToolCodec
  pub loads_text : String → Option Json

-- The dicts of `_successful_tool_results`.
pub record Lineage : Type 0 where
  pub call_tools : Table String
  pub invalid_call_ids : List String
  pub results : Table Json

abbrev remove_some : Option String → Table Json → Table Json
remove_some none t = t
remove_some (some name) t = if str_eq name "" then t else remove name t

unfoldable pub see_call : ToolCall → Lineage → Lineage
see_call c l = elim c.id [
  | none ↦ l
  | some id ↦
      if str_eq id "" || str_eq c.name ""
      then l
      else if is_some (find id l.call_tools) || member id l.invalid_call_ids
      then record {
        call_tools = remove id l.call_tools;
        invalid_call_ids = add id l.invalid_call_ids;
        results = remove c.name (remove_some (find id l.call_tools) l.results);
      }
      else record l { call_tools = put id c.name l.call_tools }
]

unfoldable pub see_calls : List ToolCall → Lineage → Lineage
unfolding see_call
see_calls [] l = l
see_calls (c ∷ cs) l = see_calls cs (see_call c l)

-- `isinstance(parsed, dict) and "error" in parsed`.
abbrev is_error : Json → Bool
is_error (obj fs) = is_some (argument "error" fs)
is_error _ = false

abbrev parsed_result : String → Option Json → Lineage → Lineage
parsed_result name none l = record l { results = remove name l.results }
parsed_result name (some j) l =
    if is_error j
    then record l { results = remove name l.results }
    else record l { results = put name j l.results }

unfoldable pub see_content : LoopCodec → String → Content → Lineage → Lineage
see_content cx name (observation s) l = parsed_result name (cx.loads_text s) l
see_content cx name _ l = record l { results = remove name l.results }

abbrev looked_up : Option String → Table String → Option String
looked_up none t = none
looked_up (some id) t = find id t

unfoldable pub see : LoopCodec → Message → Lineage → Lineage
unfolding see_calls see_content
see cx (assistant content calls) l = see_calls calls l
see cx (tool_message id content) l = elim (looked_up id l.call_tools) [
  | none ↦ l
  | some name ↦ if str_eq name "" then l else see_content cx name content l
]
see cx other_message l = l

unfoldable pub see_all : LoopCodec → List Message → Lineage → Lineage
unfolding see
see_all cx [] l = l
see_all cx (m ∷ ms) l = see_all cx ms (see cx m l)

-- `_successful_tool_results`.
unfoldable pub successful_tool_results : LoopCodec → List Message → Table Json
unfolding see_all
successful_tool_results cx ms =
    (see_all cx ms (record { call_tools = []; invalid_call_ids = []; results = [] })).results

abbrev without_root : String → String
without_root (String.◌∷◌ c (String.◌∷◌ d s)) =
    if code c == b'$' && code d == b'.' then s else String.◌∷◌ c (String.◌∷◌ d s)
without_root s = s

-- `_path_parts`.
unfoldable pub path_parts : String → List String
unfolding split_dots
path_parts path =
    if str_eq path "$" then [] else keep (λ s. not (str_eq s "")) (split_dots (without_root path))

unfoldable pub put_field : String → Json → Fields → Fields
put_field k v end = field k v end
put_field k v (field j w fs) =
    let rest = put_field k v fs in if str_eq j k then field j v fs else field j w rest

abbrev child : Option Json → Fields
child (some (obj fs)) = fs
child _ = end

-- `_path_set`, of a path with a first part.
unfoldable pub path_set : Fields → String → List String → Json → Fields
unfolding put_field argument
path_set fs k [] v = put_field k v fs
path_set fs k (p ∷ ps) v = put_field k (obj (path_set (child (argument k fs)) p ps v)) fs

unfoldable pub prefix_of : List String → List String → Bool
prefix_of [] ys = true
prefix_of (x ∷ xs) [] = false
prefix_of (x ∷ xs) (y ∷ ys) = str_eq x y && prefix_of xs ys

unfoldable pub overlaps : List String → List (List String) → Bool
unfolding prefix_of
overlaps p [] = false
overlaps p (b ∷ bs) = prefix_of b p || prefix_of p b || overlaps p bs

abbrev pub sourced : LoopCodec → String → Option Json → Option Json
sourced cx path none = none
sourced cx path (some j) = walk cx.tools (path_parts path) j

-- One binding: the arguments, and the paths that are bound.
abbrev pub bind_value :
    List String → Option Json → Fields × List (List String) → Fields × List (List String)
bind_value (p ∷ ps) (some v) (fs, bound) =
    if overlaps (p ∷ ps) bound then (fs, bound) else (path_set fs p ps v, (p ∷ ps) ∷ bound)
bind_value _ _ (fs, bound) = (fs, bound)

unfoldable pub apply_bindings :
    LoopCodec
    → List ToolArgumentBinding
    → Table Json
    → Fields × List (List String)
    → Fields × List (List String)
unfolding path_parts overlaps path_set walk
apply_bindings cx [] results state = state
apply_bindings cx (b ∷ bs) results state = apply_bindings cx bs results (
    bind_value (path_parts b.target_argument)
      (sourced cx b.source_path (find b.source_tool results)) state)

abbrev pub nonempty : List (List String) → Bool
nonempty [] = false
nonempty (x ∷ xs) = true

-- `_apply_argument_bindings`: the arguments, and whether one was bound.
unfoldable pub apply_argument_bindings :
    LoopCodec → List ToolArgumentBinding → Table Json → Fields → Fields × Bool
unfolding apply_bindings
apply_argument_bindings cx bs results args =
    let (fs, bound) = apply_bindings cx bs results (args, []) in (fs, nonempty bound)
