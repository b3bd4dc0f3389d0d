-- ===== src/Activity/Bridge/Begun.antt =====
-- internal/dshactivity/bridge.go: the generation of the bridge is the one that was begun last.
use dsh_work.Prelude.{
  String, ◌≡◌, refl, ap, ◌∙◌, ◌==◌, Bool, true, false, Option, none, some, List, [], ◌∷◌, arith,
  if◌then◌else◌,
}
use dsh_work.Activity.Projection.{Snapshot, normalize}
use dsh_work.Activity.Bridge.{
  Bridge, set_navigation, stop, begin, begin_drawn, start, disconnected, accept, accept_normal,
  receive, receive_checked, checked, opened, commit_navigation, report_session_opened,
  navigation_timed_out, close, Call, call, run, begins, starts, receives, disconnects, opens,
  reports, times_out, navigates, closes,
}

-- The generation that was begun last, with its token drawn; the given one if there is none.
unfoldable pub last_begun : String → List Call → String
last_begun g [] = g
last_begun g (begins generation (some token) ∷ cs) =
    last_begun (if generation == "" then g else generation) cs
last_begun g (c ∷ cs) = last_begun g cs

generation-begin :
    (b : Bridge) (g token : String)
    → (begin b g (some token)).0.generation ≡ (if g == "" then b.generation else g)
unfolding begin begin_drawn stop
generation-begin b g token = ground arith

generation-begin_failed : (b : Bridge) (g : String) → (begin b g none).0.generation ≡ b.generation
unfolding begin begin_drawn stop
generation-begin_failed b g = ground arith

-- A call keeps the generation.
generation-if :
    (t : Bool) (x y : Bridge) (g : String)
    → x.generation ≡ g
    → y.generation ≡ g
    → (if t then x else y).generation ≡ g
generation-if true x y g e f = e
generation-if false x y g e f = f

generation-disconnected :
    (b : Bridge) (captured : String) → (disconnected b captured).generation ≡ b.generation
unfolding disconnected
generation-disconnected b captured = generation-if _ b _ b.generation refl refl

generation-accept_normal :
    (b : Bridge) (captured : String) (o : Option Snapshot)
    → (accept_normal b captured o).generation ≡ b.generation
unfolding accept_normal
generation-accept_normal b captured none = generation-disconnected b captured
generation-accept_normal b captured (some s) = generation-if _ b _ b.generation refl refl

generation-receive_checked :
    (b : Bridge) (captured : String) (o : Option Snapshot)
    → (receive_checked b captured o).generation ≡ b.generation
unfolding receive_checked accept
generation-receive_checked b captured none = generation-disconnected b captured
generation-receive_checked b captured (some s) = generation-accept_normal b captured (normalize s)

generation-receive :
    (b : Bridge) (captured : String) (s : Snapshot)
    → (receive b captured s).generation ≡ b.generation
unfolding receive
generation-receive b captured s = generation-receive_checked b captured (checked s captured)

generation-opened :
    (b : Bridge) (window : Option String) (ended : Bool)
    → (opened b window ended).0.generation ≡ b.generation
unfolding opened commit_navigation
generation-opened b none ended = refl
generation-opened b (some window) ended = ground arith

pub generation-run :
    (b : Bridge) (cs : List Call) → (run b cs).generation ≡ last_begun b.generation cs
unfolding run last_begun call start set_navigation stop close report_session_opened
    navigation_timed_out
generation-run b [] = refl
generation-run b (begins g none ∷ cs) =
    generation-run (begin b g none).0 cs ∙ ap (λ h. last_begun h cs) (generation-begin_failed b g)
generation-run b (begins g (some token) ∷ cs) =
    generation-run (begin b g (some token)).0 cs
    ∙ ap (λ h. last_begun h cs) (generation-begin b g token)
generation-run b (starts origin ∷ cs) = generation-run (start b origin) cs
generation-run b (receives captured s ∷ cs) =
    generation-run (receive b captured s) cs
    ∙ ap (λ h. last_begun h cs) (generation-receive b captured s)
generation-run b (disconnects captured ∷ cs) =
    generation-run (disconnected b captured) cs
    ∙ ap (λ h. last_begun h cs) (generation-disconnected b captured)
generation-run b (opens window ended ∷ cs) =
    generation-run (opened b window ended).0 cs
    ∙ ap (λ h. last_begun h cs) (generation-opened b window ended)
generation-run b (reports id error ∷ cs) =
    generation-run (report_session_opened b id error) cs
    ∙ ap (λ h. last_begun h cs) (generation-if _ b _ b.generation refl refl)
generation-run b (times_out captured id ∷ cs) =
    generation-run (navigation_timed_out b captured id) cs
    ∙ ap (λ h. last_begun h cs) (generation-if _ b _ b.generation refl refl)
generation-run b (navigates given ∷ cs) = generation-run (set_navigation b given) cs
generation-run b (closes ∷ cs) = generation-run (close b) cs
