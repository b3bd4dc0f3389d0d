-- ===== src/Activity/Projection/Shape.antt =====
-- internal/dshactivity/bridge.go: what `normalize` lets through, and in which order.
use mathlib.Core.List.{Perm}
use dsh_work.Prelude.{
  ap, String, ◌≡◌, refl, inl, inr, false, Option, none, some, List, [], ◌∷◌, map, All, subst,
  All-weaken, sym, Bool-cases, Bool, ◌==◌, true, ◌⊎◌, arith, if◌then◌else◌,
}
use dsh_work.Activity.Session.{Interaction, Activity, normalize_session, one_of}
use dsh_work.Activity.Session.Clean.{
  IsBounded, IsBounded-normalize_session, normal, normalize_session-cases, IsAnswerable,
  IsAnswerable-IsBounded,
}
use dsh_work.Activity.Projection.{
  Snapshot, normalize, normalize_sessions, prepend, with_sessions, Intent, animation_intent,
  first_intent, session_intent, pending_intent, ℤ, session_key,
}
use dsh_work.Activity.Projection.Order.{comes_before_asym, comes_before_trans}
use dsh_work.Activity.Projection.{comes_before, sort_sessions}
use dsh_work.Prelude.Sort.{Sorted, Sorted-sort_by, All-sort_by, sort_by-perm}

-- The identifiers differ from one another and from the given ones.
abbrev pub Distinct : List String → List Activity → Type 0
Distinct ids [] = Unit
Distinct ids (a ∷ rest) = (one_of ids a.session_id ≡ false) × Distinct (a.session_id ∷ ids) rest

record Through (ids : List String) (given taken : List Activity) : Type 0 where
  is_map : taken ≡ map normal given
  bounded : All IsBounded taken
  distinct : Distinct ids given

abbrev ThroughAll : List String → List Activity → Option (List Activity) → Type 0
ThroughAll ids given none = Unit
ThroughAll ids given (some taken) = Through ids given taken

prepend-none : (o : Option Activity) → prepend o none ≡ none
unfolding prepend
prepend-none none = refl
prepend-none (some a) = refl

ThroughAll-prepend :
    (ids : List String) (a : Activity) (rest : List Activity) (o : Option (List Activity))
    → ThroughAll (a.session_id ∷ ids) rest o
    → ThroughAll ids (a ∷ rest) (prepend (normalize_session ids a) o)
unfolding prepend
ThroughAll-prepend ids a rest none t = rw (prepend-none (normalize_session ids a)) tt
ThroughAll-prepend ids a rest (some taken) t = elim (normalize_session-cases ids a) [
  | inl e ↦ rw e tt
  | inr (p, e) ↦ rw e (record {
    is_map = ap (λ xs. normal a ∷ xs) t.is_map;
    bounded = (IsBounded-normalize_session ids a p, t.bounded);
    distinct = (p.fresh, t.distinct);
  })
]

normalize_sessions-ThroughAll :
    (ids : List String) (given : List Activity)
    → ThroughAll ids given (normalize_sessions ids given)
unfolding normalize_sessions
normalize_sessions-ThroughAll ids [] = record { is_map = refl; bounded = tt; distinct = tt }
normalize_sessions-ThroughAll ids (a ∷ rest) =
    ThroughAll-prepend ids a rest (normalize_sessions (a.session_id ∷ ids) rest)
      (normalize_sessions-ThroughAll (a.session_id ∷ ids) rest)

-- What `normalize` makes of a snapshot that it does not refuse.
pub record IsNormal (given taken : Snapshot) : Type 0 where
  pub same_generation : taken.generation ≡ given.generation
  pub sorted : Sorted comes_before taken.sessions
  pub bounded : All IsBounded taken.sessions
  pub distinct : Distinct [] given.sessions
  pub same_sessions : Perm taken.sessions (map normal given.sessions)

abbrev IsNormalIfTaken : Snapshot → Option Snapshot → Type 0
IsNormalIfTaken given none = Unit
IsNormalIfTaken given (some taken) = IsNormal given taken

with_sessions-IsNormal :
    (given : Snapshot) (o : Option (List Activity))
    → ThroughAll [] given.sessions o
    → IsNormalIfTaken given (with_sessions given o)
unfolding with_sessions sort_sessions
with_sessions-IsNormal given none t = tt
with_sessions-IsNormal given (some xs) t = record {
  same_generation = refl;
  sorted = Sorted-sort_by comes_before comes_before_asym comes_before_trans xs;
  bounded = All-sort_by comes_before IsBounded xs t.bounded;
  distinct = t.distinct;
  same_sessions = rw (sym t.is_map) (sort_by-perm comes_before xs);
}

pub normalize-IsNormal :
    (given taken : Snapshot) → normalize given ≡ some taken → IsNormal given taken
unfolding normalize
normalize-IsNormal given taken h = subst (IsNormalIfTaken given) h (
    with_sessions-IsNormal given (normalize_sessions [] given.sessions)
      (normalize_sessions-ThroughAll [] given.sessions))

pub normalize-IsAnswerable :
    (given taken : Snapshot) → normalize given ≡ some taken → All IsAnswerable taken.sessions
normalize-IsAnswerable given taken h =
    All-weaken IsAnswerable-IsBounded taken.sessions (normalize-IsNormal given taken h).bounded

abbrev IsShown : Option Intent → Type 0
IsShown o = (i : Intent) × (o ≡ some i)

IsShown-if :
    (t : Bool) (x y : Option Intent)
    → (t ≡ true → IsShown x)
    → IsShown y
    → IsShown (if t then x else y)
IsShown-if true x y f k = f refl
IsShown-if false x y f k = k

IsShown-pending_intent :
    (o : Option Interaction) (t : Bool) (key : String)
    → (t ≡ false) ⊎ ((it : Interaction) × (o ≡ some it))
    → t ≡ true
    → IsShown (pending_intent o key)
unfolding pending_intent
IsShown-pending_intent none t key (inl e) h = ground arith
IsShown-pending_intent none t key (inr e) h = ground arith
IsShown-pending_intent (some it) t key k h =
    IsShown-if (it.kind == "plan-review") _ _ (λ e. (_, refl)) (_, refl)

IsShown-session_intent :
    (f : ℤ → String) (a : Activity) → IsAnswerable a → IsShown (session_intent f a)
unfolding session_intent
IsShown-session_intent f a k =
    IsShown-if (a.state == "needs-input") _ _
      (IsShown-pending_intent a.interaction (a.state == "needs-input") (session_key f a) k)
      (IsShown-if (a.state == "error") _ _ (λ e. (_, refl))
        (IsShown-if (a.state == "blocked") _ _ (λ e. (_, refl))
          (IsShown-if (a.state == "max-tokens") _ _ (λ e. (_, refl))
            (IsShown-if (a.state == "interrupted") _ _ (λ e. (_, refl))
              (IsShown-if (a.state == "running") _ _ (λ e. (_, refl)) (_, refl))))))

IsShown-first_intent :
    (f : ℤ → String) (xs : List Activity) → All IsAnswerable xs → IsShown (first_intent f xs)
unfolding first_intent
IsShown-first_intent f [] k = (("host.ready", "idle"), refl)
IsShown-first_intent f (a ∷ rest) k = IsShown-session_intent f a k.0

pub animation_intent-IsAnswerable :
    (f : ℤ → String) (s : Snapshot)
    → All IsAnswerable s.sessions
    → (i : Intent) × (animation_intent f s ≡ some i)
unfolding animation_intent first_intent
animation_intent-IsAnswerable f s k = elim (Bool-cases s.connected) [
  | inr e ↦ rw e (("host.offline", "disconnected"), refl)
  | inl e ↦ rw e (IsShown-first_intent f s.sessions k)
]
