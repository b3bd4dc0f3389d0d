-- ===== src/Activity/Session/Clean.antt =====
-- internal/dshactivity/bridge.go: a session in its normal form is within bounds.
use dsh_work.Prelude.{
  ℕ, zero, suc, ◌≤◌, String, ◌≡◌, ◌≢◌, refl, ◌⊎◌, inl, inr, Bool, true, false, Option, none, some,
  List, [], ◌∷◌, All, arith, length, eq_iff, Bool-cases, subst, if◌then◌else◌, not, ◌&&◌, ◌||◌,
  ◌==◌, ◌==◌, Option-cases,
}
use dsh_work.Prelude.Int.{ℤ, less, negsuc}
use dsh_work.Prelude.Space.{trim_space}
use dsh_work.Prelude.Words.{rune_count, take_runes}
use dsh_work.Activity.Session.{
  blank_controls, any_job, Activity, Interaction, Goal, Job, clean, byte_length, clamped,
  clean_interaction, clean_goal, clean_jobs, clean_job, cleaned, settled, refuses, one_of,
  activity_state, undisturbed_state, job_state, is_blocked, normalize_session, interaction_kinds,
  ended_badly,
}

rune_count-take_runes : (n : ℕ) (s : String) → rune_count (take_runes n s) ≤ n
unfolding rune_count take_runes
rune_count-take_runes zero s = omega arith
rune_count-take_runes (suc n) String.[] = omega arith
rune_count-take_runes (suc n) (String.◌∷◌ c s) = omega (arith, rune_count-take_runes n s)

pub rune_count-clean : (s : String) (n : ℕ) → rune_count (clean s n) ≤ n
unfolding clean
rune_count-clean s n = ground (arith, rune_count-take_runes n (trim_space (blank_controls s)))

-- A number between zero and the limit.
abbrev pub Within : ℕ → ℤ → Type 0
Within limit (ℤ.pos n) = n ≤ limit
Within limit (ℤ.negsuc n) = ⊥

Within-clamped : (z : ℤ) (limit : ℕ) → Within limit (clamped z limit)
unfolding clamped
Within-clamped z limit = ground arith

abbrev pub IsBoundedJob : Job → Type 0
IsBoundedJob j =
    (rune_count j.label ≤ 120) × (rune_count j.status ≤ 32) × (rune_count j.detail ≤ 160)

abbrev pub IsBoundedInteraction : Option Interaction → Type 0
IsBoundedInteraction none = Unit
IsBoundedInteraction (some it) =
    (one_of interaction_kinds it.kind ≡ true)
    × (rune_count it.text ≤ 240)
    × (rune_count it.key ≤ 256)
    × Within 100 it.count

abbrev pub IsBoundedGoal : Option Goal → Type 0
IsBoundedGoal none = Unit
IsBoundedGoal (some g) =
    (rune_count g.objective ≤ 240) × (rune_count g.reason ≤ 240) × (rune_count g.phase ≤ 32)

-- What a session holds that `normalize` has let through.
pub record IsBounded (a : Activity) : Type 0 where
  pub named : a.session_id ≢ ""
  pub short_id : byte_length a.session_id ≤ 256
  pub title : rune_count a.title ≤ 120
  pub summary : rune_count a.summary ≤ 240
  pub queued : Within 10000 a.queued
  pub steering : Within 10000 a.steering
  pub interaction : IsBoundedInteraction a.interaction
  pub goal : IsBoundedGoal a.goal
  pub job_count : length a.jobs ≤ 32
  pub jobs : All IsBoundedJob a.jobs
  pub state : a.state ≡ activity_state a

IsBoundedInteraction-clean_interaction :
    (o : Option Interaction) → IsBoundedInteraction (clean_interaction o)
unfolding clean_interaction
IsBoundedInteraction-clean_interaction none = tt
IsBoundedInteraction-clean_interaction (some it) =
    ground (
      arith,
      rune_count-clean it.text 240,
      rune_count-clean it.key 256,
      Within-clamped it.count 100,
    )

IsBoundedGoal-clean_goal : (o : Option Goal) → IsBoundedGoal (clean_goal o)
unfolding clean_goal
IsBoundedGoal-clean_goal none = tt
IsBoundedGoal-clean_goal (some g) =
    (rune_count-clean g.objective 240, rune_count-clean g.reason 240, rune_count-clean g.phase 32)

IsBoundedJob-clean_jobs : (js : List Job) → All IsBoundedJob (clean_jobs js)
unfolding clean_jobs clean_job
IsBoundedJob-clean_jobs [] = tt
IsBoundedJob-clean_jobs (j ∷ js) = (
  (rune_count-clean j.label 120, rune_count-clean j.status 32, rune_count-clean j.detail 160),
  IsBoundedJob-clean_jobs js,
)

length-clean_jobs : (js : List Job) → length (clean_jobs js) ≡ length js
unfolding clean_jobs
length-clean_jobs [] = refl
length-clean_jobs (j ∷ js) = omega (arith, length-clean_jobs js)

-- What the tests of a session leave.
pub record Passes (ids : List String) (a : Activity) : Type 0 where
  pub named : a.session_id ≢ ""
  pub short_id : byte_length a.session_id ≤ 256
  pub fresh : one_of ids a.session_id ≡ false
  pub in_order : less a.seq (negsuc 0) ≡ false
  pub few_jobs : length a.jobs ≤ 32

pub refuses-Passes : (ids : List String) (a : Activity) → refuses ids a ≡ false → Passes ids a
unfolding refuses
refuses-Passes ids a h = record {
  named = λ e. ground (arith, eq_iff a.session_id "");
  short_id = ground arith;
  fresh = ground arith;
  in_order = ground arith;
  few_jobs = ground arith;
}

activity_state-settled : (a : Activity) → (settled a).state ≡ activity_state (settled a)
unfolding settled activity_state undisturbed_state
activity_state-settled a = refl

pub IsBounded-normalize_session :
    (ids : List String) (a : Activity) → Passes ids a → IsBounded (settled (cleaned a))
unfolding cleaned settled
IsBounded-normalize_session ids a p = record {
  named = p.named;
  short_id = p.short_id;
  title = rune_count-clean a.title 120;
  summary = rune_count-clean a.summary 240;
  queued = Within-clamped a.queued 10000;
  steering = Within-clamped a.steering 10000;
  interaction = IsBoundedInteraction-clean_interaction a.interaction;
  goal = IsBoundedGoal-clean_goal a.goal;
  job_count = omega (arith, p.few_jobs, length-clean_jobs a.jobs);
  jobs = IsBoundedJob-clean_jobs a.jobs;
  state = activity_state-settled (cleaned a);
}

-- Only a session that has an interaction waits for an answer.
abbrev pub IsAnswerable : Activity → Type 0
IsAnswerable a =
    ((a.state == "needs-input") ≡ false) ⊎ ((it : Interaction) × (a.interaction ≡ some it))

abbrev Unlike : String → Type 0
Unlike s = (s == "needs-input") ≡ false

if_Unlike :
    (b : Bool) (x y : String) → (b ≡ true → Unlike x) → Unlike y → Unlike (if b then x else y)
if_Unlike true x y f k = f refl
if_Unlike false x y f k = k

false_is_not-true : {A : Type 0} → false ≡ true → A
false_is_not-true e = ground arith

ended_badly-Unlike : (o : String) (r : Bool) → (one_of ended_badly o && not r) ≡ true → Unlike o
unfolding one_of
ended_badly-Unlike o r k = elim (Bool-cases (o == "needs-input")) [
  | inr h ↦ h
  | inl h ↦
      false_is_not-true
        (subst (λ s. (one_of ended_badly s && not r) ≡ true) ((eq_iff o "needs-input").0 h) k)
]

job_state-Unlike : (js : List Job) → Unlike (job_state js)
unfolding job_state
job_state-Unlike js =
    if_Unlike (any_job (λ j. j.status == "failed") js) "error" _ (λ h. refl)
      (if_Unlike (any_job (λ j. j.status == "running" || j.status == "stopping") js) "running"
        "idle" (λ h. refl) refl)

undisturbed_state-Unlike : (a : Activity) → Unlike (undisturbed_state a)
unfolding undisturbed_state
undisturbed_state-Unlike a =
    if_Unlike (is_blocked a.goal) "blocked" _ (λ h. refl)
      (if_Unlike (one_of ended_badly a.outcome && not a.running) a.outcome _
        (ended_badly-Unlike a.outcome a.running)
        (if_Unlike a.running "running" (job_state a.jobs) (λ h. refl) (job_state-Unlike a.jobs)))

activity_state-undisturbed_state :
    (a : Activity) → a.interaction ≡ none → activity_state a ≡ undisturbed_state a
unfolding activity_state
activity_state-undisturbed_state a e = rw e refl

pub IsAnswerable-IsBounded : (a : Activity) → IsBounded a → IsAnswerable a
IsAnswerable-IsBounded a b = elim (Option-cases a.interaction) [
  | inl e ↦
      inl (rw b.state (rw (activity_state-undisturbed_state a e) (undisturbed_state-Unlike a)))
  | inr (it, e) ↦ inr (it, e)
]

-- The session in its normal form.
abbrev pub normal : Activity → Activity
normal a = settled (cleaned a)

pub normalize_session-cases :
    (ids : List String) (a : Activity)
    → (normalize_session ids a ≡ none)
      ⊎ (Passes ids a × (normalize_session ids a ≡ some (normal a)))
unfolding normalize_session
normalize_session-cases ids a = elim (Bool-cases (refuses ids a)) [
  | inl h ↦ inl (rw h refl)
  | inr h ↦ inr (refuses-Passes ids a h, rw h refl)
]
