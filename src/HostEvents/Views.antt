-- ===== src/HostEvents/Views.antt =====
-- internal/hostevents/hub.go: a subscriber that reads its initial messages and then its queue
-- sees the topics of the hub.
use dsh_work.Prelude.{
  ℕ, ◌≤◌, String, ◌≡◌, refl, Option, none, some, List, [], ◌∷◌, if◌then◌else◌, arith, Bool-cases,
  inl, inr, Bool, ◌==◌, All, eq_iff, false, suc, sym, Option-cases, ◌||◌, eqb_iff,
}
use dsh_work.Prelude.Assoc.{Assoc, lookup, insert, lookup-insert}
use dsh_work.HostEvents.{
  Message, Hub, broadcast, find, Call, receives, call, pending, set_topic, receive, run,
  send_command, send_transient, sets, snapshot, subscribe, unexpired, unsubscribe, is_empty, sends,
  sends_transient, subscribes, unsubscribes, new_hub, unix_milli,
}
use dsh_work.HostEvents.Invariant.{Inv, keys, call-Inv, IsCommand, run-new_hub-Inv}
use dsh_work.HostEvents.Replay.{
  replay, SameTopics, Follows, client, client_run, find_beyond, find-broadcast, find-without,
  find-pop, find-add, replay-append, Follows-state, Follows-command, Follows-popped,
}

-- The state of the client of subscriber `n`: registered or dropped before now, and up to date.
abbrev pub UpToDate : ℕ → Hub → Assoc String → Type 0
UpToDate n h v = (n ≤ h.next_id) × Follows v (pending h n) h.topics

set_topic-UpToDate :
    (n : ℕ) (h : Hub) (v : Assoc String) (t : String) (d : Option String)
    → Inv h
    → UpToDate n h v
    → UpToDate n (set_topic h t d) v
unfolding set_topic pending
set_topic-UpToDate n h v t none i u = u
set_topic-UpToDate n h v t (some raw) i u = ground (
  arith,
  find-broadcast n (Message.state t raw) 0 h.next_id h.subscribers i.numbered,
  Follows-state t raw v (find n h.subscribers) h.topics u.1,
)

send-UpToDate :
    (n : ℕ) (h : Hub) (v : Assoc String) (w m d : String) (at : ℕ)
    → Inv h
    → UpToDate n h v
    → UpToDate n (record h { subscribers = broadcast (Message.command w m at d) h.subscribers }) v
unfolding pending
send-UpToDate n h v w m d at i u = (
  u.0,
  rw (find-broadcast n (Message.command w m at d) 0 h.next_id h.subscribers i.numbered)
      (Follows-command w m d at v (find n h.subscribers) h.topics u.1),
)

send_command-UpToDate :
    (n : ℕ) (h : Hub) (v : Assoc String) (now : ℕ) (w m : String) (ttl : ℕ) (d : Option String)
    → Inv h
    → UpToDate n h v
    → UpToDate n (send_command h now w m ttl d) v
unfolding send_command
send_command-UpToDate n h v now w m ttl none i u = u
send_command-UpToDate n h v now w m ttl (some raw) i u = elim (Bool-cases (m == "")) [
  | inl e ↦ rw e u
  | inr e ↦ rw e (elim (Bool-cases (is_empty h.subscribers)) [
    | inl f ↦ rw f (unfold pending in u)
    | inr f ↦ rw f (send-UpToDate n h v w m raw _ i u)
  ])
]

send_transient-UpToDate :
    (n : ℕ) (h : Hub) (v : Assoc String) (w m : String) (d : Option String)
    → Inv h
    → UpToDate n h v
    → UpToDate n (send_transient h w m d) v
unfolding send_transient
send_transient-UpToDate n h v w m none i u = u
send_transient-UpToDate n h v w m (some raw) i u = elim (Bool-cases (m == "")) [
  | inl e ↦ rw e u
  | inr e ↦ rw e (elim (Bool-cases (is_empty h.subscribers)) [
    | inl f ↦ rw f u
    | inr f ↦ rw f (send-UpToDate n h v w m raw 0 i u)
  ])
]

subscribe-UpToDate :
    (n : ℕ) (h : Hub) (v : Assoc String) (now : ℕ)
    → UpToDate n h v
    → UpToDate n (subscribe h now).0 v
unfolding subscribe pending find
subscribe-UpToDate n h v now u = (
  omega (arith, u.0),
  ground (
    arith,
    u.0,
    find-add n h.subscribers (record { number = suc h.next_id; queue = [] }),
    Option-cases (find n h.subscribers),
  ),
)

unsubscribe-UpToDate :
    (n : ℕ) (h : Hub) (v : Assoc String) (k : ℕ) → UpToDate n h v → UpToDate n (unsubscribe h k) v
unfolding unsubscribe pending
unsubscribe-UpToDate n h v k u = ground (arith, find-without n k h.subscribers, u)

receive-UpToDate :
    (n : ℕ) (h : Hub) (v : Assoc String) (k : ℕ)
    → UpToDate n h v
    → UpToDate n (receive h k) (client n h v (receives k))
unfolding receive pending client
receive-UpToDate n h v k u =
    ground
      (arith, find-pop n k h.subscribers, u, Follows-popped v (find n h.subscribers) h.topics u.1)

call-UpToDate :
    (n : ℕ) (h : Hub) (v : Assoc String) (c : Call)
    → Inv h
    → UpToDate n h v
    → UpToDate n (call h c) (client n h v c)
unfolding call client
call-UpToDate n h v (sets t d) i u = set_topic-UpToDate n h v t d i u
call-UpToDate n h v (sends now w m ttl d) i u = send_command-UpToDate n h v now w m ttl d i u
call-UpToDate n h v (sends_transient w m d) i u = send_transient-UpToDate n h v w m d i u
call-UpToDate n h v (subscribes now) i u = subscribe-UpToDate n h v now u
call-UpToDate n h v (unsubscribes k) i u = unsubscribe-UpToDate n h v k u
call-UpToDate n h v (receives k) i u = unfold client in receive-UpToDate n h v k u

client_run-UpToDate :
    (n : ℕ) (h : Hub) (v : Assoc String) (cs : List Call)
    → Inv h
    → UpToDate n h v
    → UpToDate n (run h cs) (client_run n h v cs)
unfolding run client_run
client_run-UpToDate n h v [] i u = u
client_run-UpToDate n h v (c ∷ cs) i u =
    client_run-UpToDate n (call h c) (client n h v c) cs (call-Inv h c i)
      (call-UpToDate n h v c i u)

-- Whether a key stands in a list.
abbrev member : String → List String → Bool
member t [] = false
member t (k ∷ ks) = k == t || member t ks

abbrev or_blank : Option String → String
or_blank none = ""
or_blank (some v) = v

replay-snapshot :
    (t : String) (order : List String) (topics v : Assoc String)
    → lookup t (replay v (snapshot order topics))
      ≡ (if member t order then some (or_blank (lookup t topics)) else lookup t v)
unfolding snapshot
replay-snapshot t [] topics v = refl
replay-snapshot t (k ∷ order) topics v =
    let raw : String = elim (lookup k topics) [ none ↦ "" | some w ↦ w ] in
    ground
      (arith, replay-snapshot t order topics (insert k raw v), lookup-insert k t raw v, eq_iff k t)

lookup-keys :
    (t : String) (m : Assoc String)
    → lookup t m ≡ (if member t (keys m) then some (or_blank (lookup t m)) else none)
unfolding lookup
lookup-keys t [] = refl
lookup-keys t ((k, w) ∷ m) = ground (arith, lookup-keys t m)

replay-unexpired :
    (now : ℕ) (v : Assoc String) (ms : List Message)
    → All IsCommand ms
    → replay v (unexpired now ms) ≡ v
unfolding unexpired
replay-unexpired now v [] c = refl
replay-unexpired now v (Message.state t raw ∷ ms) c = absurd c.0
replay-unexpired now v (Message.command w n at d ∷ ms) c =
    ground (arith, replay-unexpired now v ms c.1)

initial-SameTopics :
    (h : Hub) (now : ℕ) → Inv h → SameTopics (replay [] (subscribe h now).2) h.topics
unfolding subscribe lookup
initial-SameTopics h now i t =
    rw
      (
        replay-append [] (snapshot h.topic_order h.topics) (unexpired (unix_milli now) h.commands),
        replay-unexpired (unix_milli now) (replay [] (snapshot h.topic_order h.topics)) h.commands
            i.only_commands,
        replay-snapshot t h.topic_order h.topics [],
        ← i.ordered,
      )
      (sym (lookup-keys t h.topics))

subscribe-UpToDate_new :
    (h : Hub) (now : ℕ)
    → Inv h
    → UpToDate (subscribe h now).1 (subscribe h now).0 (replay [] (subscribe h now).2)
unfolding subscribe pending find
subscribe-UpToDate_new h now i = (
  omega arith,
  rw
      (
        find-add (suc h.next_id) h.subscribers (record { number = suc h.next_id; queue = [] }),
        find_beyond (suc h.next_id) 0 h.next_id h.subscribers i.numbered (omega arith),
        (eqb_iff (suc h.next_id) (suc h.next_id)).1 refl,
      )
      (initial-SameTopics h now i),
)

-- Take a hub after any calls, a subscriber that it then accepts, and any calls after that. If the
-- subscriber is still registered, then a client that learns the state messages among its initial
-- messages and among those that it has received, and then those that still wait in its queue,
-- holds for every topic the value that the hub holds, and no other topic.
pub client-SameTopics :
    (before after : List Call) (now : ℕ)
    → let h = run new_hub before in
      let n = (subscribe h now).1 in
      let h' = (subscribe h now).0 in
      let v = client_run n h' (replay [] (subscribe h now).2) after in
      Follows v (pending (run h' after) n) (run h' after).topics
unfolding subscribe call
client-SameTopics before after now =
    let h = run new_hub before in
    let i = run-new_hub-Inv before in
    (client_run-UpToDate (subscribe h now).1 (subscribe h now).0 (replay [] (subscribe h now).2)
      after (call-Inv h (subscribes now) i) (subscribe-UpToDate_new h now i)).1
