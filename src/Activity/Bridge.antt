-- ===== src/Activity/Bridge.antt =====
-- internal/dshactivity/bridge.go: the bridge to one worker after another, its snapshot and the
-- navigation that it has asked for. A step is a section under the lock; what the goroutines of an
-- earlier worker or navigation still do are steps with the generation that they captured.
pub mod Begun
pub mod Shown
pub mod Navigation
pub mod Stale
use dsh_work.Prelude.{
  ℕ, zero, suc, ◌+◌, String, ◌==◌, Bool, true, false, not, ◌&&◌, ◌||◌, Option, none, some, List, [],
  ◌∷◌, ltb, length, if◌then◌else◌,
}
use dsh_work.Prelude.Int.{ℤ, pos, negsuc}
use dsh_work.Activity.Session.{Activity, clean}
use dsh_work.Activity.Projection.{Snapshot, normalize}
use dsh_work.Release.Text.{Text, same, is_empty, decimal}

-- `running` tells whether a run can be cancelled; `client` whether there is one.
pub record Bridge : Type 0 where
  pub generation : String
  pub token : String
  pub origin : String
  pub client : Bool
  pub running : Bool
  pub state : Snapshot
  pub can_navigate : Bool
  pub navigation_sequence : ℕ
  pub navigation_id : Text
  pub navigation_waits : Bool

no_snapshot : Snapshot
no_snapshot = record {
  schema_version = pos 0;
  generation = "";
  revision = 0;
  sessions = [];
  connected = false;
  navigation_error = "";
}

pub new_bridge : Bridge
unfolding no_snapshot
new_bridge = record {
  generation = "";
  token = "";
  origin = "";
  client = false;
  running = false;
  state = no_snapshot;
  can_navigate = false;
  navigation_sequence = 0;
  navigation_id = [];
  navigation_waits = false;
}

pub set_navigation : Bridge → Bool → Bridge
set_navigation b given = record b { can_navigate = given }

-- `stop`, less the wait for the run's goroutine.
stop : Bridge → Bridge
stop b = record b { running = false; navigation_waits = false; navigation_id = [] }

-- `Begin`, with the token that it draws; `none` if there is no randomness.
begin_drawn : Bridge → String → Option String → Bridge × Bool
begin_drawn b generation none = (b, false)
begin_drawn b generation (some token) = (
  record b {
    running = false;
    generation = generation;
    token = token;
    origin = "";
    client = false;
    state = record {
      schema_version = pos 1;
      generation = generation;
      revision = 0;
      sessions = [];
      connected = false;
      navigation_error = "";
    };
  },
  true,
)

pub begin : Bridge → String → Option String → Bridge × Bool
unfolding stop begin_drawn
begin b generation drawn =
    if generation == "" then (b, false) else begin_drawn (stop b) generation drawn

-- `Start` for an accepted address: the section under the lock.
pub start : Bridge → String → Bridge
unfolding stop
start b origin = record (stop b) { running = true; client = true; origin = origin }

pub disconnected : Bridge → String → Bridge
disconnected b captured =
    if not (b.generation == captured) || not b.state.connected
    then b
    else record b { state = record b.state { connected = false } }

accept_normal : Bridge → String → Option Snapshot → Bridge
accept_normal b captured none = disconnected b captured
accept_normal b captured (some s) = if not (b.generation == captured) then b else record b {
  state = record s { connected = true; navigation_error = b.state.navigation_error };
}

pub accept : Bridge → String → Snapshot → Bridge
unfolding accept_normal disconnected
accept b captured s = accept_normal b captured (normalize s)

is_one : ℤ → Bool
is_one (pos (suc n)) = elim n [ zero ↦ true | suc m ↦ false ]
is_one _ = false

-- `receiveActivity`: a decoded snapshot is accepted, or ends the stream.
pub checked : Snapshot → String → Option Snapshot
unfolding is_one
checked s captured =
    if not (is_one s.schema_version)
      || ltb 256 (length s.sessions)
      || not (s.generation == captured)
    then none
    else normalize s

receive_checked : Bridge → String → Option Snapshot → Bridge
receive_checked b captured none = disconnected b captured
receive_checked b captured (some s) = accept b captured s

pub receive : Bridge → String → Snapshot → Bridge
unfolding checked receive_checked
receive b captured s = receive_checked b captured (checked s captured)

pub data Refusal : Type 0 where
  unavailable no_navigation cancelled window_failed no_window : Refusal

has_session : String → List Activity → Bool
has_session id [] = false
has_session id (a ∷ rest) = a.session_id == id || has_session id rest

-- `Open` up to its call of the window's owner.
pub open_refused : Bridge → String → Bool → Option Refusal
unfolding has_session
open_refused b id ended =
    if not (b.client && b.state.connected) || not (has_session id b.state.sessions)
    then some unavailable
    else if not b.can_navigate
    then some no_navigation
    else if ended
    then some cancelled
    else none

-- `Open` after that call, which gives the window that it has opened.
pub commit_navigation : Bridge → Bridge
commit_navigation b = record b {
  navigation_sequence = b.navigation_sequence + 1;
  navigation_id = decimal (b.navigation_sequence + 1);
  navigation_waits = true;
  state = record b.state { navigation_error = "" };
}

pub opened : Bridge → Option String → Bool → Bridge × Option Refusal
unfolding commit_navigation
opened b none ended = (b, some window_failed)
opened b (some window) ended =
    if window == ""
    then (b, some no_window)
    else if ended
    then (b, some cancelled)
    else (commit_navigation b, none)

pub report_session_opened : Bridge → Text → String → Bridge
report_session_opened b id error =
    if is_empty id || not (same b.navigation_id id) then b else record b {
      navigation_waits = false;
      navigation_id = [];
      state = record b.state { navigation_error = clean error 160 };
    }

pub navigation_timed_out : Bridge → String → Text → Bridge
navigation_timed_out b captured id =
    if not (b.generation == captured) || not (same b.navigation_id id) then b else record b {
      navigation_id = [];
      navigation_waits = false;
      state = record b.state { navigation_error = "Conversation is unavailable" };
    }

pub close : Bridge → Bridge
unfolding stop
close b = stop b

pub data Call : Type 0 where
  begins : String → Option String → Call
  starts : String → Call
  receives : String → Snapshot → Call
  disconnects : String → Call
  opens : Option String → Bool → Call
  reports : Text → String → Call
  times_out : String → Text → Call
  navigates : Bool → Call
  closes : Call

pub call : Bridge → Call → Bridge
call b (begins generation drawn) = (begin b generation drawn).0
call b (starts origin) = start b origin
call b (receives captured s) = receive b captured s
call b (disconnects captured) = disconnected b captured
call b (opens window ended) = (opened b window ended).0
call b (reports id error) = report_session_opened b id error
call b (times_out captured id) = navigation_timed_out b captured id
call b (navigates given) = set_navigation b given
call b closes = close b

pub run : Bridge → List Call → Bridge
run b [] = b
run b (c ∷ cs) = run (call b c) cs
