-- ===== src/HostEvents.antt =====
-- internal/hostevents/hub.go: the topics, the staged commands and the subscribers of the hub.
-- A value or the data of a command stands as its encoded text; `none` is a value that json.Marshal
-- refuses. The clock is read once by a call and is its argument, in nanoseconds.
pub mod Invariant
pub mod Replay
pub mod Views
pub mod Staged
pub mod Commands
mod Examples
use dsh_work.Prelude.{
  ℕ, suc, ◌+◌, ◌/◌, String, ◌==◌, Bool, true, false, Option, none, some, List, [], ◌∷◌, ◌++◌, eqb,
  ltb, length, tail_or_nil, if◌then◌else◌,
}
use dsh_work.Prelude.Assoc.{Assoc, lookup, insert}

abbrev pub subscriber_buffer : ℕ
subscriber_buffer = 256

abbrev pub command_buffer : ℕ
command_buffer = 64

-- `Message`: a state update, or a command for a window; a command with no expiry has 0.
pub data Message : Type 0 where
  state : String → String → Message
  command : String → String → ℕ → String → Message

-- A subscriber that is still registered: its number and its queue, the oldest message first.
pub record Subscriber : Type 0 where
  pub number : ℕ
  pub queue : List Message

pub record Hub : Type 0 where
  pub topics : Assoc String
  pub topic_order : List String
  pub commands : List Message
  pub subscribers : List Subscriber
  pub next_id : ℕ

pub new_hub : Hub
new_hub = record { topics = []; topic_order = []; commands = []; subscribers = []; next_id = 0 }

-- `broadcastLocked`: a subscriber whose queue is full is dropped.
pub broadcast : Message → List Subscriber → List Subscriber
broadcast m [] = []
broadcast m (s ∷ rest) =
    let others = broadcast m rest in
    if ltb (length s.queue) subscriber_buffer
    then record s { queue = s.queue ++ m ∷ [] } ∷ others
    else others

-- Whether the topic holds this very value.
holds : Option String → String → Bool
holds none raw = false
holds (some previous) raw = previous == raw

-- A topic that is set for the first time goes to the end of the snapshot order.
order_after : Option String → String → List String → List String
order_after none topic order = order ++ topic ∷ []
order_after (some previous) topic order = order

store_topic : Hub → String → String → Hub
unfolding holds order_after
store_topic h topic raw = if holds (lookup topic h.topics) raw then h else record h {
  topics = insert topic raw h.topics;
  topic_order = order_after (lookup topic h.topics) topic h.topic_order;
  subscribers = broadcast (state topic raw) h.subscribers;
}

pub set_topic : Hub → String → Option String → Hub
unfolding store_topic
set_topic h topic none = h
set_topic h topic (some raw) = if topic == "" then h else store_topic h topic raw

-- `time.Time.UnixMilli` of an instant in nanoseconds.
pub unix_milli : ℕ → ℕ
unix_milli t = t / 1000000

is_empty : List Subscriber → Bool
is_empty [] = true
is_empty (s ∷ rest) = false

-- With the buffer full the oldest staged command makes room.
stage : Message → List Message → List Message
stage m staged =
    if eqb (length staged) command_buffer then tail_or_nil staged ++ m ∷ [] else staged ++ m ∷ []

pub send_command : Hub → ℕ → String → String → ℕ → Option String → Hub
unfolding unix_milli is_empty stage
send_command h now window name ttl none = h
send_command h now window name ttl (some raw) =
    let m = command window name (unix_milli (now + ttl)) raw in
    if name == ""
    then h
    else if is_empty h.subscribers
    then record h { commands = stage m h.commands }
    else record h { subscribers = broadcast m h.subscribers }

pub send_transient : Hub → String → String → Option String → Hub
unfolding is_empty
send_transient h window name none = h
send_transient h window name (some raw) =
    if name == ""
    then h
    else if is_empty h.subscribers
    then h
    else record h { subscribers = broadcast (command window name 0 raw) h.subscribers }

-- The snapshot; the order holds only topics that were set, and a missing one would read as "".
pub snapshot : List String → Assoc String → List Message
snapshot [] topics = []
snapshot (t ∷ order) topics =
    state t (elim (lookup t topics) [ none ↦ "" | some v ↦ v ]) ∷ snapshot order topics

expiry : Message → ℕ
expiry (state topic v) = 0
expiry (command window name at v) = at

pub unexpired : ℕ → List Message → List Message
unfolding expiry
unexpired now [] = []
unexpired now (m ∷ rest) =
    let others = unexpired now rest in if ltb now (expiry m) then m ∷ others else others

-- `Subscribe`: the hub, the number of the new subscriber and its initial messages.
pub subscribe : Hub → ℕ → Hub × ℕ × List Message
unfolding unix_milli
subscribe h now = (
  record h {
    commands = [];
    subscribers = h.subscribers ++ record { number = suc h.next_id; queue = [] } ∷ [];
    next_id = suc h.next_id;
  },
  suc h.next_id,
  snapshot h.topic_order h.topics ++ unexpired (unix_milli now) h.commands,
)

pub without : ℕ → List Subscriber → List Subscriber
without n [] = []
without n (s ∷ rest) = let others = without n rest in if eqb s.number n then others else s ∷ others

pub unsubscribe : Hub → ℕ → Hub
unfolding without
unsubscribe h n = record h { subscribers = without n h.subscribers }

pub find : ℕ → List Subscriber → Option (List Message)
find n [] = none
find n (s ∷ rest) = if eqb s.number n then some s.queue else find n rest

-- The messages that wait for a subscriber; `none` if it is not registered, or no longer.
pub pending : Hub → ℕ → Option (List Message)
unfolding find
pending h n = find n h.subscribers

pub pop : ℕ → List Subscriber → List Subscriber
pop n [] = []
pop n (s ∷ rest) =
    let others = pop n rest in
    if eqb s.number n then record s { queue = tail_or_nil s.queue } ∷ others else s ∷ others

-- The stream owner of a subscriber receives the oldest message of its channel.
pub receive : Hub → ℕ → Hub
unfolding pop
receive h n = record h { subscribers = pop n h.subscribers }

pub data Call : Type 0 where
  sets : String → Option String → Call
  sends : ℕ → String → String → ℕ → Option String → Call
  sends_transient : String → String → Option String → Call
  subscribes : ℕ → Call
  unsubscribes receives : ℕ → Call

pub call : Hub → Call → Hub
call h (sets t v) = set_topic h t v
call h (sends now w n ttl d) = send_command h now w n ttl d
call h (sends_transient w n d) = send_transient h w n d
call h (subscribes now) = (subscribe h now).0
call h (unsubscribes n) = unsubscribe h n
call h (receives n) = receive h n

pub run : Hub → List Call → Hub
run h [] = h
run h (c ∷ cs) = run (call h c) cs
