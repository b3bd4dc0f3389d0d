-- ===== src/HostEvents/Invariant.antt =====
-- The bounds of internal/hostevents/hub.go, and the numbers of its subscribers.
use dsh_work.Prelude.{
  ℕ, suc, ◌+◌, ◌≤◌, ◌<◌, String, eq_iff, ◌≡◌, refl, ◌⊎◌, inr, Option, none, some, List, [], ◌∷◌,
  ◌++◌, length, length-append, tail_or_nil, All, arith, All-append,
}
use dsh_work.Prelude.Assoc.{Assoc, lookup, insert}
use dsh_work.HostEvents.{
  Message, Subscriber, Hub, new_hub, broadcast, order_after, set_topic, send_command,
  send_transient, subscribe, unsubscribe, receive, without, pop, stage, Call, sets, sends,
  sends_transient, subscribes, unsubscribes, receives, call, run, subscriber_buffer, command_buffer,
  unix_milli,
}

-- The numbers rise along the list, above the first bound and up to the second.
abbrev pub Between : ℕ → ℕ → List Subscriber → Type 0
Between lo hi [] = lo ≤ hi
Between lo hi (s ∷ rest) = (lo < s.number) × Between s.number hi rest

abbrev pub FitsBuffer : Subscriber → Type 0
FitsBuffer s = length s.queue ≤ subscriber_buffer

abbrev pub keys {ℓ} : {V : Type ℓ} → Assoc V → List String
keys [] = []
keys ((k, v) ∷ m) = k ∷ keys m

abbrev pub IsCommand : Message → Type 0
IsCommand (Message.state t raw) = ⊥
IsCommand (Message.command w n at d) = Unit

pub record Inv (h : Hub) : Type 0 where
  pub ordered : keys h.topics ≡ h.topic_order
  pub numbered : Between 0 h.next_id h.subscribers
  pub buffered : All FitsBuffer h.subscribers
  pub staged : length h.commands ≤ command_buffer
  pub only_commands : All IsCommand h.commands
  pub not_both : (h.subscribers ≡ []) ⊎ (h.commands ≡ [])

Between-weaken :
    (lo lo' hi : ℕ) (xs : List Subscriber) → lo' ≤ lo → Between lo hi xs → Between lo' hi xs
Between-weaken lo lo' hi [] h b = omega arith
Between-weaken lo lo' hi (x ∷ xs) h b = (omega arith, b.1)

pub Between-broadcast :
    (m : Message) (lo hi : ℕ) (xs : List Subscriber)
    → Between lo hi xs
    → Between lo hi (broadcast m xs)
unfolding broadcast
Between-broadcast m lo hi [] b = b
Between-broadcast m lo hi (x ∷ xs) b =
    let rest = Between-broadcast m x.number hi xs b.1 in
    ground (arith, rest, Between-weaken x.number lo hi (broadcast m xs) (omega arith) rest)

Between-without :
    (n lo hi : ℕ) (xs : List Subscriber) → Between lo hi xs → Between lo hi (without n xs)
unfolding without
Between-without n lo hi [] b = b
Between-without n lo hi (x ∷ xs) b =
    let rest = Between-without n x.number hi xs b.1 in
    ground (arith, rest, Between-weaken x.number lo hi (without n xs) (omega arith) rest)

Between-pop : (n lo hi : ℕ) (xs : List Subscriber) → Between lo hi xs → Between lo hi (pop n xs)
unfolding pop
Between-pop n lo hi [] b = b
Between-pop n lo hi (x ∷ xs) b = ground (arith, Between-pop n x.number hi xs b.1)

Between-add :
    (lo hi : ℕ) (xs : List Subscriber) (s : Subscriber)
    → s.number ≡ suc hi
    → Between lo hi xs
    → Between lo (suc hi) (xs ++ s ∷ [])
Between-add lo hi [] s e b = omega arith
Between-add lo hi (x ∷ xs) s e b = (b.0, Between-add x.number hi xs s e b.1)

FitsBuffer-broadcast :
    (m : Message) (xs : List Subscriber) → All FitsBuffer xs → All FitsBuffer (broadcast m xs)
unfolding broadcast
FitsBuffer-broadcast m [] b = tt
FitsBuffer-broadcast m (x ∷ xs) b =
    ground (arith, FitsBuffer-broadcast m xs b.1, length-append x.queue (m ∷ []))

FitsBuffer-without :
    (n : ℕ) (xs : List Subscriber) → All FitsBuffer xs → All FitsBuffer (without n xs)
unfolding without
FitsBuffer-without n [] b = tt
FitsBuffer-without n (x ∷ xs) b = ground (arith, FitsBuffer-without n xs b.1)

length-tail_or_nil {ℓ} : {A : Type ℓ} (xs : List A) → length (tail_or_nil xs) ≤ length xs
length-tail_or_nil [] = omega arith
length-tail_or_nil (x ∷ xs) = omega arith

FitsBuffer-pop : (n : ℕ) (xs : List Subscriber) → All FitsBuffer xs → All FitsBuffer (pop n xs)
unfolding pop
FitsBuffer-pop n [] b = tt
FitsBuffer-pop n (x ∷ xs) b = ground (arith, FitsBuffer-pop n xs b.1, length-tail_or_nil x.queue)

FitsBuffer-add :
    (n : ℕ) (xs : List Subscriber)
    → All FitsBuffer xs
    → All FitsBuffer (xs ++ record { number = n; queue = [] } ∷ [])
FitsBuffer-add n [] b = (omega arith, tt)
FitsBuffer-add n (x ∷ xs) b = (b.0, FitsBuffer-add n xs b.1)

keys-insert :
    (k v : String) (m : Assoc String) → keys (insert k v m) ≡ order_after (lookup k m) k (keys m)
unfolding insert lookup order_after
keys-insert k v [] = refl
keys-insert k v ((j, w) ∷ m) = ground (arith, keys-insert k v m, eq_iff j k)

length-stage :
    (m : Message) (ms : List Message)
    → length ms ≤ command_buffer
    → length (stage m ms) ≤ command_buffer
unfolding stage
length-stage m [] h = omega arith
length-stage m (x ∷ ms) h = ground (arith, length-append ms (m ∷ []))

broadcast-nil : (m : Message) (xs : List Subscriber) → xs ≡ [] → broadcast m xs ≡ []
unfolding broadcast
broadcast-nil m [] e = refl
broadcast-nil m (x ∷ xs) e = cc

-- A message that is sent to the subscribers keeps the invariant.
broadcast-Inv :
    (h : Hub) (m : Message) → Inv h → Inv (record h { subscribers = broadcast m h.subscribers })
broadcast-Inv h m i = record {
  ordered = i.ordered;
  numbered = Between-broadcast m 0 h.next_id h.subscribers i.numbered;
  buffered = FitsBuffer-broadcast m h.subscribers i.buffered;
  staged = i.staged;
  only_commands = i.only_commands;
  not_both = ground (arith, i.not_both, broadcast-nil m h.subscribers);
}

IsCommand-stage :
    (m : Message) (ms : List Message) → IsCommand m → All IsCommand ms → All IsCommand (stage m ms)
unfolding stage
IsCommand-stage m [] c h = ground (arith, c)
IsCommand-stage m (x ∷ ms) c h = ground (arith, h, All-append IsCommand ms (m ∷ []) h.1 (c, tt))

set_topic-Inv : (h : Hub) (t : String) (v : Option String) → Inv h → Inv (set_topic h t v)
unfolding set_topic
set_topic-Inv h t none i = i
set_topic-Inv h t (some raw) i =
    ground (arith, keys-insert t raw h.topics, broadcast-Inv h (Message.state t raw) i)

send_command-Inv :
    (h : Hub) (now : ℕ) (w n : String) (ttl : ℕ) (d : Option String)
    → Inv h
    → Inv (send_command h now w n ttl d)
unfolding send_command
send_command-Inv h now w n ttl none i = i
send_command-Inv h now w n ttl (some raw) i =
    let m = Message.command w n (unix_milli (now + ttl)) raw in
    ground (
      arith,
      broadcast-Inv h m i,
      length-stage m h.commands i.staged,
      IsCommand-stage m h.commands tt i.only_commands,
    )

send_transient-Inv :
    (h : Hub) (w n : String) (d : Option String) → Inv h → Inv (send_transient h w n d)
unfolding send_transient
send_transient-Inv h w n none i = i
send_transient-Inv h w n (some raw) i =
    ground (arith, broadcast-Inv h (Message.command w n 0 raw) i)

subscribe-Inv : (h : Hub) (now : ℕ) → Inv h → Inv (subscribe h now).0
unfolding subscribe
subscribe-Inv h now i = record {
  ordered = i.ordered;
  numbered = Between-add 0 h.next_id h.subscribers _ refl i.numbered;
  buffered = FitsBuffer-add (suc h.next_id) h.subscribers i.buffered;
  staged = omega arith;
  only_commands = tt;
  not_both = inr refl;
}

without-nil : (n : ℕ) (xs : List Subscriber) → xs ≡ [] → without n xs ≡ []
unfolding without
without-nil n [] e = refl
without-nil n (x ∷ xs) e = cc

pop-nil : (n : ℕ) (xs : List Subscriber) → xs ≡ [] → pop n xs ≡ []
unfolding pop
pop-nil n [] e = refl
pop-nil n (x ∷ xs) e = cc

unsubscribe-Inv : (h : Hub) (n : ℕ) → Inv h → Inv (unsubscribe h n)
unfolding unsubscribe
unsubscribe-Inv h n i = record {
  ordered = i.ordered;
  numbered = Between-without n 0 h.next_id h.subscribers i.numbered;
  buffered = FitsBuffer-without n h.subscribers i.buffered;
  staged = i.staged;
  only_commands = i.only_commands;
  not_both = ground (arith, i.not_both, without-nil n h.subscribers);
}

receive-Inv : (h : Hub) (n : ℕ) → Inv h → Inv (receive h n)
unfolding receive
receive-Inv h n i = record {
  ordered = i.ordered;
  numbered = Between-pop n 0 h.next_id h.subscribers i.numbered;
  buffered = FitsBuffer-pop n h.subscribers i.buffered;
  staged = i.staged;
  only_commands = i.only_commands;
  not_both = ground (arith, i.not_both, pop-nil n h.subscribers);
}

-- Each call keeps the invariant.
pub call-Inv : (h : Hub) (c : Call) → Inv h → Inv (call h c)
unfolding call
call-Inv h (sets t v) i = set_topic-Inv h t v i
call-Inv h (sends now w n ttl d) i = send_command-Inv h now w n ttl d i
call-Inv h (sends_transient w n d) i = send_transient-Inv h w n d i
call-Inv h (subscribes now) i = subscribe-Inv h now i
call-Inv h (unsubscribes n) i = unsubscribe-Inv h n i
call-Inv h (receives n) i = receive-Inv h n i

pub run-Inv : (h : Hub) (cs : List Call) → Inv h → Inv (run h cs)
unfolding run
run-Inv h [] i = i
run-Inv h (c ∷ cs) i = run-Inv (call h c) cs (call-Inv h c i)

new_hub-Inv : Inv new_hub
unfolding new_hub
new_hub-Inv = ground arith

-- After any calls on a new hub: the snapshot order lists the topics that hold a value in the order
-- in which they were first set, the numbers of the subscribers rise and are at most the last one
-- drawn, no queue passes 256 messages, at most 64 messages are staged, all of them commands, and
-- none is staged while there is a subscriber.
pub run-new_hub-Inv : (cs : List Call) → Inv (run new_hub cs)
run-new_hub-Inv cs = run-Inv new_hub cs new_hub-Inv
