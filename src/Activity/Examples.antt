-- ===== src/Activity/Examples.antt =====
-- Instances of the theorems of internal/dshactivity at concrete inputs.
use dsh_work.Prelude.Words.{rune_count}
use dsh_work.Prelude.Sort.{sort_by}
use dsh_work.Activity.Frames.{
  closed, event, new_reader, read_frames, observe, frame_limit, snapshot_word, byte_count,
}
use dsh_work.Release.Text.{Text, same, is_empty, decimal}
use dsh_work.Prelude.{
  ◌≤◌, String, ◌≡◌, refl, true, false, Option, none, some, List, [], ◌∷◌, All, arith,
}
use dsh_work.Prelude.Int.{ℤ}
use dsh_work.Prelude.Space.{trim_space}
use dsh_work.Release.Text.{Text, same, is_empty, decimal}
use dsh_work.Activity.Session.{
  Activity, Interaction, clean, byte_length, activity_state, normalize_session,
}
use dsh_work.Activity.Projection.{
  priority, Snapshot, Intent, normalize, normalize_sessions, sort_sessions, animation_intent,
  comes_before,
}
use dsh_work.Activity.Projection.Shape.{IsNormal, normalize-IsNormal}
use dsh_work.Activity.Bridge.{
  Bridge, new_bridge, Call, run, begins, starts, receives, reports, report_session_opened,
  navigation_timed_out,
}
use dsh_work.Prelude.{All}
use dsh_work.Prelude.Sort.{Sorted}
use dsh_work.Activity.Session.Clean.{IsBounded}
use dsh_work.Activity.Bridge.Begun.{last_begun}
use dsh_work.Activity.Bridge.Shown.{Inv-run_new, animation_intent-run}
use dsh_work.Activity.Bridge.Navigation.{call-over}
use dsh_work.Activity.Frames.{
  event, closed, new_reader, read_frames, observe, frame_limit, snapshot_word, byte_count,
}
use dsh_work.Activity.Frames.Limit.{FitsLimit, read_frames-FitsLimit}
use dsh_work.Activity.Frames.Received.{encoded, event_size, read_frames-encoded}
use dsh_work.Activity.Frames.Ended.{observe-ended}

abbrev plain_session : String → String → Activity
plain_session id state = record {
  work_phase = "";
  tool_activity = "";
  session_id = id;
  parent_session_id = "";
  title = "title";
  seq = ℤ.pos 1;
  turn = ℤ.pos 2;
  running = false;
  outcome = "completed";
  summary = "";
  live_completion = false;
  updated_at = ℤ.pos 7;
  interaction = none;
  goal = none;
  queued = ℤ.pos 0;
  steering = ℤ.pos 0;
  jobs = [];
  state = state;
}

abbrev question : Interaction
question = record { key = "k"; kind = "question"; text = "text"; count = ℤ.pos 1 }

abbrev asking_session : String → Activity
asking_session state = record (plain_session "b" state) { interaction = some question }

abbrev snapshot_of : List Activity → Snapshot
snapshot_of sessions = record {
  schema_version = ℤ.pos 1;
  generation = "g";
  revision = 3;
  sessions = sessions;
  connected = false;
  navigation_error = "";
}

abbrev given : Snapshot
given = snapshot_of (plain_session "a" "" ∷ asking_session "" ∷ [])

abbrev taken : Snapshot
taken = snapshot_of (asking_session "needs-input" ∷ plain_session "a" "idle" ∷ [])

normalizes : normalize given ≡ some taken
unfolding sort_by normalize normalize_sessions normalize_session sort_sessions comes_before clean
    byte_length activity_state trim_space priority rune_count
normalizes = refl

normalize-IsNormal_example : IsNormal given taken
normalize-IsNormal_example = normalize-IsNormal given taken normalizes

abbrev calls : List Call
calls = begins "g" (some "token") ∷ starts "http://127.0.0.1:1" ∷ receives "g" given ∷ []

Inv-run_new_example :
    let s = (run new_bridge calls).state in
    (s.generation ≡ last_begun "" calls) × Sorted comes_before s.sessions × All IsBounded s.sessions
Inv-run_new_example = Inv-run_new calls

animation_intent-run_example :
    (i : Intent) × (animation_intent (λ n. "2") (run new_bridge calls).state ≡ some i)
animation_intent-run_example = animation_intent-run calls (λ n. "2")

abbrev navigating : Bridge
navigating = record new_bridge {
  navigation_sequence = 2;
  navigation_id = decimal 2;
  navigation_waits = true;
}

second_awaited : same (decimal 2) (decimal 1) ≡ false
unfolding same decimal
second_awaited = refl

abbrev closings : List Call
closings = reports (decimal 2) "" ∷ starts "http://127.0.0.1:2" ∷ []

call-over_example :
    (report_session_opened (run navigating closings) (decimal 1) "late" ≡ run navigating closings)
    × (navigation_timed_out (run navigating closings) "" (decimal 1) ≡ run navigating closings)
call-over_example = call-over 1 navigating closings "late" "" (omega arith) second_awaited

abbrev lines : List Text
lines = encoded snapshot_word ((b'{' ∷ []) ∷ (b'}' ∷ []) ∷ []) ((b':' ∷ []) ∷ [])

read_frames-FitsLimit_example : All FitsLimit (read_frames lines closed new_reader)
read_frames-FitsLimit_example = read_frames-FitsLimit lines closed

small : event_size snapshot_word ((b'{' ∷ []) ∷ (b'}' ∷ []) ∷ []) ≤ frame_limit
unfolding byte_count
small = omega arith

named : is_empty snapshot_word ≡ false
unfolding is_empty
named = refl

read_frames-encoded_example :
    read_frames lines closed new_reader
    ≡ event snapshot_word (b'{' ∷ b'\n' ∷ b'}' ∷ [])
      ∷ read_frames ((b':' ∷ []) ∷ []) closed new_reader
read_frames-encoded_example =
    read_frames-encoded snapshot_word ((b'{' ∷ []) ∷ (b'}' ∷ []) ∷ []) ((b':' ∷ []) ∷ []) closed
      small named

abbrev decode : Text → Option Snapshot
decode s = some given

abbrev began : Bridge
began = record new_bridge { generation = "g" }

observe-ended_example :
    ((observe decode lines closed "g" began).0.generation ≡ "g")
    × ((observe decode lines closed "g" began).0.state.connected ≡ false)
observe-ended_example = observe-ended decode "g" lines closed began refl
