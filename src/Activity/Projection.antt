-- ===== src/Activity/Projection.antt =====
-- internal/dshactivity/bridge.go: a snapshot in its normal form, and what the companion shows of it.
pub mod Order
pub mod Shape
use Prim.Native.String.{compare, ◌++◌}
use text.Mathlib.Text.{is_lt}
use dsh_work.Prelude.{
  ℕ, String, ◌==◌, Bool, true, false, not, ◌&&◌, ◌||◌, Option, none, some, List, [], ◌∷◌, ltb, eqb,
  if◌then◌else◌,
}
use dsh_work.Prelude.Int.{ℤ, less}
use dsh_work.Prelude.Sort.{sort_by}
use dsh_work.Activity.Session.{Interaction, Activity, clean, normalize_session}

pub record Snapshot : Type 0 where
  pub schema_version : ℤ
  pub generation : String
  pub revision : ℕ
  pub sessions : List Activity
  pub connected : Bool
  pub navigation_error : String

-- The rank of a session; the lowest is shown first.
unfoldable pub priority : String → ℕ
priority s =
    if s == "needs-input"
    then 0
    else if s == "blocked" || s == "error" || s == "max-tokens" || s == "interrupted"
    then 1
    else if s == "running"
    then 3
    else 4

-- The order of the sessions: `less` of `sort.SliceStable`.
unfoldable pub comes_before : Activity → Activity → Bool
comes_before a b =
    if not (eqb (priority a.state) (priority b.state))
    then ltb (priority a.state) (priority b.state)
    else if less a.updated_at b.updated_at || less b.updated_at a.updated_at
    then less b.updated_at a.updated_at
    else is_lt (compare a.session_id b.session_id)

-- `sort.SliceStable`
unfoldable pub sort_sessions : List Activity → List Activity
sort_sessions = sort_by comes_before

prepend : Option Activity → Option (List Activity) → Option (List Activity)
prepend (some a) (some rest) = some (a ∷ rest)
prepend _ _ = none

-- The loop of `normalize`, with the identifiers met so far.
unfoldable pub normalize_sessions : List String → List Activity → Option (List Activity)
unfolding prepend
normalize_sessions ids [] = some []
normalize_sessions ids (a ∷ rest) =
    prepend (normalize_session ids a) (normalize_sessions (a.session_id ∷ ids) rest)

with_sessions : Snapshot → Option (List Activity) → Option Snapshot
with_sessions s none = none
with_sessions s (some sessions) = some (record s {
  sessions = sort_sessions sessions;
  navigation_error = clean s.navigation_error 160;
})

unfoldable pub normalize : Snapshot → Option Snapshot
unfolding with_sessions
normalize s = with_sessions s (normalize_sessions [] s.sessions)

-- The kind and the key of an animation.
abbrev pub Intent : Type 0
Intent = String × String

pending_intent : Option Interaction → String → Option Intent
pending_intent none key = none
pending_intent (some it) key =
    if it.kind == "plan-review"
    then some ("task.reviewing", key ++ (":" ++ it.key))
    else some ("task.waiting", key ++ (":" ++ it.key))

running_intent : String → String → Intent
running_intent phase key =
    if phase == "thinking"
    then ("task.thinking", key ++ ":thinking")
    else if phase == "result"
    then ("task.result", key ++ ":result")
    else ("task.working", key)

ended_intent : Activity → String → Intent
ended_intent a key =
    if not (a.state == "running") && a.outcome == "completed" && a.live_completion
    then ("task.completed", key)
    else if a.outcome == "aborted"
    then ("task.cancelled", key)
    else ("host.ready", key)

module _ (format_int : ℤ → String) where
  session_key : Activity → String
  session_key a =
      a.session_id ++ (":" ++ (format_int a.turn ++ (":" ++ (a.state ++ (":" ++ a.outcome)))))

  session_intent : Activity → Option Intent
  unfolding session_key pending_intent running_intent ended_intent
  session_intent a =
      let key = session_key a in
      if a.state == "needs-input"
      then pending_intent a.interaction key
      else if a.state == "error"
      then some ("task.failed", key)
      else if a.state == "blocked"
      then some ("task.blocked", key)
      else if a.state == "max-tokens"
      then some ("task.limited", key)
      else if a.state == "interrupted"
      then some ("task.interrupted", key)
      else if a.state == "running"
      then some (running_intent a.work_phase key)
      else some (ended_intent a key)

  first_intent : List Activity → Option Intent
  unfolding session_intent
  first_intent [] = some ("host.ready", "idle")
  first_intent (a ∷ rest) = session_intent a

  -- `AnimationIntent`; there is nothing where it reads an interaction that is not there.
  unfoldable pub animation_intent : Snapshot → Option Intent
  unfolding first_intent
  animation_intent s =
      if not s.connected then some ("host.offline", "disconnected") else first_intent s.sessions
