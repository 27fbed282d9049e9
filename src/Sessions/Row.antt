-- ===== src/Sessions/Row.antt =====
-- services/autonomous_sessions.py: the table of sessions, the outcome column and the results of the
-- store's calls.
use study_loop.Base.{
  Bool, Option, String, col_is, false, if◌then◌else◌, is_none, is_some, leb, ltb, max, none, not,
  refl, some, str_eq, true, ℕ, ◌&&◌, ◌+◌, ◌==◌, ◌||◌, ◌≡◌,
}
use study_loop.Json.{Fields, Json, JsonText, bool, dict_get, end, field, holds, num, obj, str}

-- The column `state`, whose CHECK clause allows these two.
pub data PhysicalState : Type 0 where
  paused in_flight : PhysicalState

pub record Session : Type 0 where
  pub payload_json : JsonText
  pub subject_id : Option String
  pub state : PhysicalState
  pub claim_token : Option String
  pub progress_started : Bool
  pub created_at : ℕ
  pub updated_at : ℕ
  pub expires_at : ℕ
  pub claimed_at : Option ℕ
  pub claim_expires_at : Option ℕ
  pub continue_fingerprint : Option String
  pub outcome_json : Option JsonText

-- The limits of the store, and how the database orders conversation ids.
pub record Settings : Type 0 where
  pub ttl_seconds : ℕ
  pub operation_lease_seconds : ℕ
  pub max_count : ℕ
  pub id_before : String → String → Bool

abbrev pub tombstone_token : String
tombstone_token = "__studyloop_outcome_tombstone__"

abbrev pub is_paused : PhysicalState → Bool
is_paused paused = true
is_paused in_flight = false

abbrev pub is_in_flight : PhysicalState → Bool
is_in_flight paused = false
is_in_flight in_flight = true

-- `column <= now` and `column > now` in SQL, where NULL is neither.
abbrev pub due : Option ℕ → ℕ → Bool
due none now = false
due (some e) now = leb e now

abbrev pub live : Option ℕ → ℕ → Bool
live none now = false
live (some e) now = ltb now e

-- `column = column` in SQL, where NULL equals nothing.
abbrev pub same_text : Option String → Option String → Bool
same_text none b = false
same_text a none = false
same_text (some s) (some t) = str_eq s t

-- The CHECK clause of the table.
abbrev pub row_check : Session → Bool
row_check r =
    is_paused r.state && (is_none r.claim_token && (is_none r.claimed_at && not r.progress_started))
    || is_in_flight r.state && (is_some r.claim_token && is_some r.claimed_at)

-- What `_decode_outcome` returns: "completed" with the response, or "ambiguous".
pub data Outcome : Type 0 where
  completed : Fields → Outcome
  ambiguous : Outcome

-- `value == 1`, which True is too.
abbrev is_one : Json → Bool
is_one (num n) = n == 1
is_one (bool b) = b
is_one _ = false

abbrev is_text : String → Json → Bool
is_text t (str s) = str_eq s t
is_text t _ = false

abbrev response_of : Json → Outcome
response_of (obj fs) = completed fs
response_of _ = ambiguous

decode_envelope : Json → Outcome
decode_envelope (obj fs) =
    if is_one (dict_get "schema_version" fs)
    then if is_text "completed" (dict_get "kind" fs)
      then response_of (dict_get "response" fs)
      else ambiguous
    else ambiguous
decode_envelope _ = ambiguous

unfoldable pub decode_outcome : JsonText → Outcome
unfolding decode_envelope dict_get
decode_outcome (holds j) = decode_envelope j
decode_outcome _ = ambiguous

-- The envelopes of `_serialize_completed_outcome` and `_ambiguous_outcome_json`, keys sorted.
abbrev pub completed_outcome_json : Fields → JsonText
completed_outcome_json response = holds (
    obj (
      field "kind" (str "completed")
        (field "response" (obj response) (field "schema_version" (num 1) end))))

abbrev pub ambiguous_outcome_json : JsonText
ambiguous_outcome_json = holds (
    obj (
      field "kind" (str "ambiguous")
        (field "reason" (str "stale_progress") (field "schema_version" (num 1) end))))

-- `_decode_outcome` reads back what the store writes.
pub decode-completed :
    (response : Fields) → decode_outcome (completed_outcome_json response) ≡ completed response
unfolding decode_outcome
decode-completed response = refl

pub decode-ambiguous : decode_outcome ambiguous_outcome_json ≡ ambiguous
unfolding decode_outcome
decode-ambiguous = refl

-- What `_visible_state` tells a client of a row.
pub data VisibleState : Type 0 where
  shown_paused shown_in_flight shown_completed shown_ambiguous : VisibleState

abbrev visible_outcome : Outcome → VisibleState
visible_outcome (completed response) = shown_completed
visible_outcome ambiguous = shown_ambiguous

abbrev visible_physical : PhysicalState → VisibleState
visible_physical paused = shown_paused
visible_physical in_flight = shown_in_flight

unfoldable pub visible_state : PhysicalState → Option JsonText → VisibleState
unfolding decode_outcome
visible_state state none = visible_physical state
visible_state state (some outcome) = visible_outcome (decode_outcome outcome)

-- A text that `_subject_from_payload` accepts as a user id.
abbrev subject_text : Json → Option String
subject_text (str s) = if str_eq s "" then none else some s
subject_text _ = none

unfoldable pub subject_from_payload : Json → Option String
unfolding dict_get
subject_from_payload (obj fs) = subject_text (dict_get "user_id" fs)
subject_from_payload _ = none

unfoldable pub subject_from_payload_json : JsonText → Option String
unfolding subject_from_payload
subject_from_payload_json (holds j) = subject_from_payload j
subject_from_payload_json _ = none

-- `_row_subject`: the column, or the payload of a row that was written before the column.
unfoldable pub row_subject : Session → Option String
unfolding subject_from_payload_json
row_subject r = elim r.subject_id [
  | none ↦ subject_from_payload_json r.payload_json
  | some s ↦ if str_eq s "" then none else some s
]

-- `_row_owned`; an owner of None is the process itself.
unfoldable pub row_owned : Option String → Session → Bool
unfolding row_subject
row_owned none r = true
row_owned (some owner) r = col_is (row_subject r) owner

abbrev pub claimed_expires_at : Settings → ℕ → ℕ
claimed_expires_at st now = now + max st.ttl_seconds st.operation_lease_seconds
