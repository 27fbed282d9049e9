-- ===== src/Tools/Reservations.antt =====
-- services/tool_registry.py: the digest that stands for the effect of a call within a run, and the policy
-- state that a paused run saves and restores.
use Prim.Native.Char.{Char, code}
use Prim.Native.String.{count, len}
use study_loop.Base.{
  Bool, List, Option, String, [], false, if◌then◌else◌, is_some, leb, length, ltb, none, not, some,
  str_eq, suc, true, zero, ℕ, ◌&&◌, ◌==◌, ◌||◌, ◌∷◌,
}
use study_loop.Json.{Fields, Items, Json, arr, bool, cons, end, field, nil, null, obj, str}
use study_loop.Scope.{argument}
use study_loop.Table.{find, put}
use study_loop.Tools.Registry.{
  Reservation, Tool, ToolMetadata, ToolRegistry, non_replayable, policy_max_reservations,
  policy_run_id_ok, policy_tool_name_max_bytes, reservations_of, reserved,
}

-- `digit_index` is `isdigit` and `int` of a text, which read the tables of Unicode; `digest` is the
-- SHA-256 of `json.dumps`, with `none` where that raises.
pub record ToolCodec : Type 0 where
  pub digit_index : String → Option ℕ
  pub digest : Json → Option String

abbrev prefix_first : Char → List String → List String
prefix_first c [] = String.◌∷◌ c String.[] ∷ []
prefix_first c (s ∷ ss) = String.◌∷◌ c s ∷ ss

-- `path.split(".")`.
unfoldable pub split_dots : String → List String
split_dots String.[] = "" ∷ []
split_dots (String.◌∷◌ c s) =
    let rest = split_dots s in if code c == b'.' then "" ∷ rest else prefix_first c rest

-- `xs[i]` of a list.
unfoldable pub item : Items → ℕ → Option Json
item nil i = none
item (cons x xs) zero = some x
item (cons x xs) (suc i) = item xs i

-- The loop of `_argument_path`, with `none` where it answers that nothing is there.
unfoldable pub walk : ToolCodec → List String → Json → Option Json
unfolding argument item
walk cx [] current = some current
walk cx (s ∷ ss) (obj fs) = elim (argument s fs) [ none ↦ none | some v ↦ walk cx ss v ]
walk cx (s ∷ ss) (arr xs) = elim (cx.digit_index s) [
  | none ↦ none
  | some i ↦ elim (item xs i) [ none ↦ none | some v ↦ walk cx ss v ]
]
walk cx (s ∷ ss) _ = none

-- `_argument_path`.
unfoldable pub argument_path : ToolCodec → Fields → String → Option Json
unfolding split_dots walk
argument_path cx arguments path =
    if str_eq path "" || str_eq path "$"
    then some (obj arguments)
    else walk cx (split_dots path) (obj arguments)

abbrev or_null : Option Json → Json
or_null none = null
or_null (some v) = v

-- `_semantic_arguments_payload`.
unfoldable path_entries : ToolCodec → Fields → List String → Items
unfolding argument_path
path_entries cx arguments [] = nil
path_entries cx arguments (p ∷ ps) =
    cons
      (obj (
        field "path" (str p) (
          field "present" (bool (is_some (argument_path cx arguments p)))
            (field "value" (or_null (argument_path cx arguments p)) end))))
      (path_entries cx arguments ps)

unfoldable pub semantic_arguments_payload : ToolCodec → Fields → List String → Json
unfolding path_entries
semantic_arguments_payload cx arguments [] = obj arguments
semantic_arguments_payload cx arguments (p ∷ ps) = arr (path_entries cx arguments (p ∷ ps))

-- What a normalizer must return.
abbrev object_or_list : Json → Bool
object_or_list (obj fs) = true
object_or_list (arr xs) = true
object_or_list _ = false

abbrev normalized : ToolCodec → ToolMetadata → Option (Fields → Option Json) → Fields → Option Json
normalized cx m (some f) arguments = f arguments
normalized cx m none arguments =
    some (semantic_arguments_payload cx arguments m.dedupe_argument_paths)

abbrev named : String → Option String → Option Reservation
named name none = none
named name (some d) = some (name, d)

abbrev digested : ToolCodec → String → Option Json → Option Reservation
digested cx name none = none
digested cx name (some payload) =
    if object_or_list payload then named name (cx.digest payload) else none

-- Whether a tool takes part in the deduplication.
abbrev pub dedupes : ToolMetadata → Bool
dedupes m = m.dedupe_within_run && non_replayable m.effect_mode

abbrev is_tool : Tool → Option Tool → Bool
is_tool tool none = false
is_tool tool (some current) = tool.identity == current.identity

-- `semantic_reservation` of a tool object, with `none` for ValueError.
unfoldable pub semantic_reservation : ToolCodec → Tool → Fields → ToolRegistry → Option Reservation
unfolding semantic_arguments_payload
semantic_reservation cx tool arguments g =
    if not (is_tool tool (find tool.name g.tools))
    then none
    else if not (dedupes tool.metadata)
    then none
    else digested cx tool.name
        (normalized cx tool.metadata tool.metadata.dedupe_normalizer arguments)

-- `restore_run_policy_state`, on a value of JSON; `none` is ValueError.
abbrev hex_code : ℕ → Bool
hex_code c = leb b'0' c && leb c b'9' || leb b'a' c && leb c b'f'

unfoldable all_hex : String → Bool
all_hex String.[] = true
all_hex (String.◌∷◌ c s) = hex_code (code c) && all_hex s

abbrev restorable : Option Tool → Bool
restorable none = false
restorable (some tool) = dedupes tool.metadata

unfoldable pub validated_entry : ToolRegistry → Json → Option Reservation
unfolding all_hex
validated_entry g (arr (cons (str name) (cons (str digest) nil))) =
    if not (str_eq name "")
      && (leb (len name) policy_tool_name_max_bytes
          && (restorable (find name g.tools) && (count digest == 64 && all_hex digest)))
    then some (name, digest)
    else none
validated_entry g _ = none

-- The loop over the entries, with those before it.
abbrev joined : Option Reservation → List Reservation → Option (List Reservation)
joined none seen = none
joined (some x) seen = if reserved x seen then none else some (x ∷ seen)

unfoldable pub validated_entries :
    ToolRegistry → Items → List Reservation → Option (List Reservation)
unfolding validated_entry
validated_entries g nil seen = some seen
validated_entries g (cons x xs) seen = elim (joined (validated_entry g x) seen) [
  | none ↦ none
  | some seen' ↦ validated_entries g xs seen'
]

-- `current | validated`.
unfoldable pub union : List Reservation → List Reservation → List Reservation
union current [] = current
union current (x ∷ xs) =
    let rest = union current xs in if reserved x current then rest else x ∷ rest

abbrev pub length_items : Items → ℕ
length_items nil = 0
length_items (cons x xs) = suc (length_items xs)

unfoldable pub restore_items : String → Items → ToolRegistry → Option ToolRegistry
unfolding validated_entries union reservations_of
restore_items run_id xs g =
    if ltb policy_max_reservations (length_items xs)
    then none
    else elim (validated_entries g xs []) [
      | none ↦ none
      | some validated ↦
          let all = union (reservations_of run_id g) validated in
          if ltb policy_max_reservations (length all)
          then none
          else some (record g { run_effect_digests = put run_id all g.run_effect_digests })
    ]

unfoldable pub restore_run_policy_state : String → Json → ToolRegistry → Option ToolRegistry
unfolding restore_items
restore_run_policy_state run_id (arr xs) g =
    if policy_run_id_ok run_id then restore_items run_id xs g else none
restore_run_policy_state run_id _ g = none
