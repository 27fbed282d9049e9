-- ===== src/Tools/Tasks.antt =====
-- services/tool_registry.py: calls of `invoke` by several tasks of one event loop. A task runs without
-- interruption up to its barrier; there it waits, and other tasks run.
use study_loop.Base.{
  Bool, List, Option, String, [], col_is, false, if◌then◌else◌, none, not, some, str_eq, suc, true,
  zero, ℕ, ◌&&◌, ◌∷◌,
}
use study_loop.Json.{Json}
use study_loop.Tools.Admission.{Admission, Invocation, admit, admitted}
use study_loop.Tools.Invoke.{release}
use study_loop.Tools.Registry.{
  Reservation, Tool, ToolRegistry, clear_run_policy_state, mark_run_untrusted_content, register,
  same_reservation, unregister,
}
use study_loop.Tools.Reservations.{ToolCodec, restore_run_policy_state}

-- A call that waits for its barrier, or that has passed it.
pub record Task : Type 0 where
  pub run_id : Option String
  pub tool : Tool
  pub reservation : Option Reservation

pub record Pool : Type 0 where
  pub registry : ToolRegistry
  pub waiting : List Task
  pub passed : List Task

pub data Event : Type 0 where
  register_tool : Tool → Event
  unregister_tool : String → Option ℕ → Event
  call : Invocation → Event
  barrier_raises barrier_passes : ℕ → Event
  marked_untrusted : String → Event
  restored : String → Json → Event
  cleared : String → Event

unfoldable pub pick : ℕ → List Task → Option (Task × List Task)
pick n [] = none
pick zero (t ∷ ts) = some (t, ts)
pick (suc n) (t ∷ ts) = elim (pick n ts) [ none ↦ none | some (u, rest) ↦ some (u, t ∷ rest) ]

abbrev pub join : Invocation → Admission × ToolRegistry → Pool → Pool
join q (admitted tool x, g) p = record p {
  registry = g;
  waiting = record { run_id = q.run_id; tool = tool; reservation = x } ∷ p.waiting;
}
join q (_, g) p = record p { registry = g }

abbrev pub or_same : Option ToolRegistry → ToolRegistry → ToolRegistry
or_same none g = g
or_same (some g') g = g'

abbrev pub raise_in : Option (Task × List Task) → Pool → Pool
raise_in none p = p
raise_in (some (t, rest)) p = record p {
  registry = release t.run_id t.reservation p.registry;
  waiting = rest;
}

abbrev pub pass_in : Option (Task × List Task) → Pool → Pool
pass_in none p = p
pass_in (some (t, rest)) p = record p { waiting = rest; passed = t ∷ p.passed }

-- The part of a task up to its barrier, what follows the barrier, and the other calls of the registry.
-- A task that passes counts as started, also where its receipt refuses it after that; the set of
-- attempts is left out, since no admission reads it.
unfoldable pub step : ToolCodec → Pool → Event → Pool
unfolding pick
step cx p (register_tool tool) = record p { registry = register tool p.registry }
step cx p (unregister_tool name expected_tool) = record p {
  registry = (unregister name expected_tool p.registry).1;
}
step cx p (call q) = join q (admit cx q p.registry) p
step cx p (barrier_raises n) = raise_in (pick n p.waiting) p
step cx p (barrier_passes n) = pass_in (pick n p.waiting) p
step cx p (marked_untrusted run_id) = record p {
  registry = or_same (mark_run_untrusted_content run_id p.registry) p.registry;
}
step cx p (restored run_id saved) = record p {
  registry = or_same (restore_run_policy_state run_id saved p.registry) p.registry;
}
step cx p (cleared run_id) = record p { registry = clear_run_policy_state run_id p.registry }

unfoldable pub play : ToolCodec → Pool → List Event → Pool
play cx p [] = p
play cx p (e ∷ es) = play cx (step cx p e) es

-- The tasks of a run with a reservation.
abbrev pub has_reservation : Option Reservation → Reservation → Bool
has_reservation none x = false
has_reservation (some y) x = same_reservation y x

abbrev pub task_holds : String → Reservation → Task → Bool
task_holds run_id x t = col_is t.run_id run_id && has_reservation t.reservation x

unfoldable pub holders : String → Reservation → List Task → ℕ
holders run_id x [] = 0
holders run_id x (t ∷ ts) =
    if task_holds run_id x t then suc (holders run_id x ts) else holders run_id x ts

abbrev pub clears : String → Event → Bool
clears run_id (cleared r) = str_eq r run_id
clears run_id _ = false

unfoldable pub never_cleared : String → List Event → Bool
never_cleared run_id [] = true
never_cleared run_id (e ∷ es) = not (clears run_id e) && never_cleared run_id es
