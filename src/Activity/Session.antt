-- ===== src/Activity/Session.antt =====
-- internal/dshactivity/bridge.go: what is known of one session, and its normal form.
pub mod Clean
use Prim.Native.Char.{Char, code, len_utf8}
use Prim.Native.String
use dsh_work.Prelude.{
  ℕ, ◌+◌, String, ◌==◌, Bool, true, false, not, ◌&&◌, ◌||◌, Option, none, some, List, [], ◌∷◌, map,
  ltb, leb, length, if◌then◌else◌,
}
use dsh_work.Prelude.Int.{ℤ, negsuc, less, above_zero}
use dsh_work.Prelude.Space.{trim_space}
use dsh_work.Prelude.Words.{take_runes, rune_count}

pub record Interaction : Type 0 where
  pub key : String
  pub kind : String
  pub text : String
  pub count : ℤ

pub record Goal : Type 0 where
  pub phase : String
  pub objective : String
  pub reason : String
  pub rounds : ℤ
  pub max_rounds : ℤ

pub record Job : Type 0 where
  pub id : String
  pub label : String
  pub status : String
  pub detail : String

pub record Activity : Type 0 where
  pub work_phase : String
  pub tool_activity : String
  pub session_id : String
  pub parent_session_id : String
  pub title : String
  pub seq : ℤ
  pub turn : ℤ
  pub running : Bool
  pub outcome : String
  pub summary : String
  pub live_completion : Bool
  pub updated_at : ℤ
  pub interaction : Option Interaction
  pub goal : Option Goal
  pub queued : ℤ
  pub steering : ℤ
  pub jobs : List Job
  pub state : String

-- `unicode.IsControl`
is_control : ℕ → Bool
is_control c = ltb c 0x20 || leb 0x7f c && leb c 0x9f

-- Control characters become blanks.
blank_controls : String → String
unfolding is_control
blank_controls String.[] = ""
blank_controls (String.◌∷◌ c s) =
    let rest = blank_controls s in
    if is_control (code c) then String.◌∷◌ " " rest else String.◌∷◌ c rest

unfoldable pub clean : String → ℕ → String
unfolding blank_controls
clean s n =
    let r = trim_space (blank_controls s) in if ltb n (rune_count r) then take_runes n r else r

-- `len` of a string.
unfoldable pub byte_length : String → ℕ
byte_length String.[] = 0
byte_length (String.◌∷◌ c s) = len_utf8 c + byte_length s

pub one_of : List String → String → Bool
one_of [] s = false
one_of (t ∷ ts) s = s == t || one_of ts s

abbrev work_phases : List String
work_phases = "thinking" ∷ "working" ∷ "result" ∷ []

abbrev tool_activities : List String
tool_activities = "searching" ∷ "editing" ∷ "testing" ∷ "commanding" ∷ "using-tool" ∷ []

abbrev pub interaction_kinds : List String
interaction_kinds = "approval" ∷ "question" ∷ "plan-review" ∷ []

abbrev ended_badly : List String
ended_badly = "error" ∷ "blocked" ∷ "max-tokens" ∷ "interrupted" ∷ []

-- A name that is not known becomes the empty one.
known_or_blank : List String → String → String
unfolding one_of
known_or_blank names s = if one_of names s then s else ""

-- `min(max(n, 0), limit)`
clamped : ℤ → ℕ → ℤ
clamped n limit = if ltb limit (above_zero n) then ℤ.pos limit else ℤ.pos (above_zero n)

clean_interaction : Option Interaction → Option Interaction
unfolding one_of clamped
clean_interaction none = none
clean_interaction (some it) =
    if one_of interaction_kinds it.kind
    then some (record it {
      text = clean it.text 240;
      key = clean it.key 256;
      count = clamped it.count 100;
    })
    else none

clean_goal : Option Goal → Option Goal
clean_goal none = none
clean_goal (some g) = some (record g {
  objective = clean g.objective 240;
  reason = clean g.reason 240;
  phase = clean g.phase 32;
})

clean_job : Job → Job
clean_job j = record j {
  label = clean j.label 120;
  status = clean j.status 32;
  detail = clean j.detail 160;
}

clean_jobs : List Job → List Job
unfolding clean_job
clean_jobs [] = []
clean_jobs (j ∷ js) = clean_job j ∷ clean_jobs js

is_blocked : Option Goal → Bool
is_blocked none = false
is_blocked (some g) = g.phase == "blocked"

any_job : (Job → Bool) → List Job → Bool
any_job f [] = false
any_job f (j ∷ js) = f j || any_job f js

job_state : List Job → String
unfolding any_job
job_state js =
    if any_job (λ j. j.status == "failed") js
    then "error"
    else if any_job (λ j. j.status == "running" || j.status == "stopping") js
    then "running"
    else "idle"

-- The state once no interaction is pending.
undisturbed_state : Activity → String
unfolding is_blocked one_of job_state
undisturbed_state a =
    if is_blocked a.goal
    then "blocked"
    else if one_of ended_badly a.outcome && not a.running
    then a.outcome
    else if a.running
    then "running"
    else job_state a.jobs

unfoldable pub activity_state : Activity → String
unfolding undisturbed_state
activity_state a = elim a.interaction [ some it ↦ "needs-input" | none ↦ undisturbed_state a ]

-- The session with its texts cleaned and its numbers in range, the state still to be set.
pub cleaned : Activity → Activity
unfolding known_or_blank clamped clean_interaction clean_goal clean_jobs
cleaned a = record a {
  title = clean a.title 120;
  summary = clean a.summary 240;
  work_phase = known_or_blank work_phases a.work_phase;
  tool_activity = known_or_blank tool_activities a.tool_activity;
  parent_session_id = clean a.parent_session_id 256;
  queued = clamped a.queued 10000;
  steering = clamped a.steering 10000;
  interaction = clean_interaction a.interaction;
  goal = clean_goal a.goal;
  jobs = clean_jobs a.jobs;
}

pub settled : Activity → Activity
settled a = record a { state = activity_state a }

-- Whether the session is refused, given the identifiers of the sessions before it.
pub refuses : List String → Activity → Bool
unfolding one_of
refuses ids a =
    a.session_id == ""
    || ltb 256 (byte_length a.session_id)
    || one_of ids a.session_id
    || less a.seq (negsuc 0)
    || ltb 32 (length a.jobs)

-- One round of the loop of `normalize`.
unfoldable pub normalize_session : List String → Activity → Option Activity
unfolding refuses cleaned settled
normalize_session ids a = if refuses ids a then none else some (settled (cleaned a))
