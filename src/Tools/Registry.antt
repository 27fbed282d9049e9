-- ===== src/Tools/Registry.antt =====
-- services/tool_registry.py: tools with their metadata, the state of the registry, the audit log and the
-- policy state of a run.
-- A tool object is named by a number, `identity`, so that `is` compares these; so is a handler. The
-- ids, times and previews of an audit record are left out.
use Prim.Native.String.{len}
use study_loop.Base.{
  Bool, List, Option, String, [], false, if◌then◌else◌, leb, length, ltb, none, not, some, str_eq,
  true, ℕ, ◌&&◌, ◌++◌, ◌==◌, ◌||◌, ◌∷◌,
}
use study_loop.Json.{Fields, Json}
use study_loop.Table.{Table, find, put, remove}

pub data EffectMode : Type 0 where
  read_only idempotent non_idempotent unknown : EffectMode

-- `_NON_REPLAYABLE_EFFECTS`; `_REPLAY_SAFE_EFFECTS` is the rest.
abbrev pub non_replayable : EffectMode → Bool
non_replayable read_only = false
non_replayable idempotent = false
non_replayable non_idempotent = true
non_replayable unknown = true

pub record ToolArgumentBinding : Type 0 where
  pub source_tool : String
  pub source_path : String
  pub target_argument : String

-- `dedupe_normalizer` answers `none` where it raises.
pub record ToolMetadata : Type 0 where
  pub max_retries : ℕ
  pub effect_mode : EffectMode
  pub owner_argument : Option String
  pub dedupe_within_run : Bool
  pub dedupe_argument_paths : List String
  pub dedupe_normalizer : Option (Fields → Option Json)
  pub argument_bindings : List ToolArgumentBinding

-- `required`, `properties` and `closed` are of the parameter schema, and `binds` is whether the signature
-- of the handler takes the arguments.
pub record Tool : Type 0 where
  pub identity : ℕ
  pub name : String
  pub required : List String
  pub properties : List String
  pub closed : Bool
  pub binds : Fields → Bool
  pub handler : ℕ
  pub metadata : ToolMetadata

pub data Status : Type 0 where
  started ok_ error timeout cancelled_ ambiguous_ blocked : Status

pub record ToolCallRecord : Type 0 where
  pub tool_name : String
  pub arguments : Fields
  pub status : Status
  pub effect_mode : EffectMode
  pub run_id : Option String
  pub user_id : Option String
  pub error_message : Option String
  pub retry_attempts : ℕ

-- A reservation is the name of a tool and a digest.
abbrev pub Reservation : Type 0
Reservation = String × String

pub record ToolRegistry : Type 0 where
  pub tools : Table Tool
  pub audit_log : List ToolCallRecord
  pub run_effect_digests : Table (List Reservation)
  pub run_effect_attempts : List String
  pub run_untrusted_content : List String

-- `_AUDIT_MAX`, `_POLICY_MAX_RESERVATIONS` and `_POLICY_TOOL_NAME_MAX_BYTES`.
abbrev pub audit_max : ℕ
audit_max = 1000

abbrev pub policy_max_reservations : ℕ
policy_max_reservations = 256

abbrev pub policy_tool_name_max_bytes : ℕ
policy_tool_name_max_bytes = 128

-- Sets of texts.
abbrev pub member : String → List String → Bool
member s [] = false
member s (t ∷ ts) = str_eq t s || member s ts

abbrev pub add : String → List String → List String
add s ts = if member s ts then ts else s ∷ ts

abbrev pub discard : String → List String → List String
discard s [] = []
discard s (t ∷ ts) = let rest = discard s ts in if str_eq t s then rest else t ∷ rest

-- Sets of reservations.
abbrev pub same_reservation : Reservation → Reservation → Bool
same_reservation (n, d) (m, e) = str_eq n m && str_eq d e

unfoldable pub reserved : Reservation → List Reservation → Bool
reserved x [] = false
reserved x (y ∷ ys) = same_reservation y x || reserved x ys

unfoldable pub release_from : Reservation → List Reservation → List Reservation
release_from x [] = []
release_from x (y ∷ ys) =
    let rest = release_from x ys in if same_reservation y x then rest else y ∷ rest

-- `_run_effect_digests.get(run_id, set())`.
abbrev pub or_none : Option (List Reservation) → List Reservation
or_none none = []
or_none (some xs) = xs

unfoldable pub reservations_of : String → ToolRegistry → List Reservation
reservations_of run_id g = or_none (find run_id g.run_effect_digests)

-- `_record`: `pop(0)` drops the oldest.
abbrev drop_first : List ToolCallRecord → List ToolCallRecord
drop_first [] = []
drop_first (x ∷ xs) = xs

unfoldable pub write_record : ToolCallRecord → ToolRegistry → ToolRegistry
write_record r g =
    let log = g.audit_log ++ r ∷ [] in
    record g { audit_log = if ltb audit_max (length log) then drop_first log else log }

-- `register`, `unregister`, `get`.
unfoldable pub register : Tool → ToolRegistry → ToolRegistry
register tool g = record g { tools = put tool.name tool g.tools }

abbrev expected : Option ℕ → Tool → Bool
expected none current = true
expected (some identity) current = identity == current.identity

unfoldable pub unregister : String → Option ℕ → ToolRegistry → Bool × ToolRegistry
unregister name expected_tool g = elim (find name g.tools) [
  | none ↦ (false, g)
  | some current ↦
      if expected expected_tool current
      then (true, record g { tools = remove name g.tools })
      else (false, g)
]

-- `_validate_policy_run_id`.
abbrev pub policy_run_id_ok : String → Bool
policy_run_id_ok run_id = not (str_eq run_id "") && leb (len run_id) 256

-- `mark_run_untrusted_content`, with `none` where it raises.
unfoldable pub mark_run_untrusted_content : String → ToolRegistry → Option ToolRegistry
mark_run_untrusted_content run_id g =
    if policy_run_id_ok run_id
    then some (record g { run_untrusted_content = add run_id g.run_untrusted_content })
    else none

unfoldable pub clear_run_policy_state : String → ToolRegistry → ToolRegistry
clear_run_policy_state run_id g = record g {
  run_effect_digests = remove run_id g.run_effect_digests;
  run_effect_attempts = discard run_id g.run_effect_attempts;
  run_untrusted_content = discard run_id g.run_untrusted_content;
}

-- `_release_effect_digest`.
abbrev pub store_rest : String → List Reservation → ToolRegistry → ToolRegistry
store_rest run_id [] g = record g { run_effect_digests = remove run_id g.run_effect_digests }
store_rest run_id (x ∷ xs) g = record g {
  run_effect_digests = put run_id (x ∷ xs) g.run_effect_digests;
}

unfoldable pub release_effect_digest : String → Reservation → ToolRegistry → ToolRegistry
unfolding release_from
release_effect_digest run_id x g = elim (find run_id g.run_effect_digests) [
  | none ↦ g
  | some xs ↦ store_rest run_id (release_from x xs) g
]
