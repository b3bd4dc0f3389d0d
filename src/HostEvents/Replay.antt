-- ===== src/HostEvents/Replay.antt =====
-- internal/hostevents/hub.go: what a client makes of the messages of one queue.
use dsh_work.Prelude.{
  ℕ, ◌≤◌, ◌<◌, String, ◌≡◌, refl, Option, none, some, List, [], ◌∷◌, ◌++◌, eqb, ltb, length,
  tail_or_nil, if◌then◌else◌, arith, Bool-cases, inl, ◌∙◌, ap, inr, ◌==◌, sym,
}
use dsh_work.Prelude.Assoc.{Assoc, lookup, insert, lookup-insert}
use dsh_work.HostEvents.{
  Message, Subscriber, Hub, broadcast, without, pop, find, Call, receives, call, subscriber_buffer,
  pending,
}
use dsh_work.HostEvents.Invariant.{Between, Between-broadcast}

-- What a client makes of a message: a state update is remembered, a command is carried out.
abbrev pub learn : Assoc String → Message → Assoc String
learn v (Message.state t raw) = insert t raw v
learn v (Message.command w n at d) = v

abbrev pub replay : Assoc String → List Message → Assoc String
replay v [] = v
replay v (m ∷ ms) = replay (learn v m) ms

abbrev pub SameTopics : Assoc String → Assoc String → Type 0
SameTopics v w = (t : String) → lookup t v ≡ lookup t w

abbrev pub Follows : Assoc String → Option (List Message) → Assoc String → Type 0
Follows v none topics = Unit
Follows v (some queue) topics = SameTopics (replay v queue) topics

-- The client of subscriber `n` after a call: it learns what it receives.
abbrev pub received : Option (List Message) → Assoc String → Assoc String
received none v = v
received (some []) v = v
received (some (m ∷ ms)) v = learn v m

unfoldable pub client : ℕ → Hub → Assoc String → Call → Assoc String
client n h v (receives k) = if eqb k n then received (pending h n) v else v
client n h v _ = v

unfoldable pub client_run : ℕ → Hub → Assoc String → List Call → Assoc String
client_run n h v [] = v
client_run n h v (c ∷ cs) = client_run n (call h c) (client n h v c) cs

pub find_above : (n lo hi : ℕ) (xs : List Subscriber) → Between lo hi xs → n ≤ lo → find n xs ≡ none
unfolding find
find_above n lo hi [] b h = refl
find_above n lo hi (x ∷ xs) b h = ground (arith, find_above n x.number hi xs b.1)

pub find_beyond :
    (n lo hi : ℕ) (xs : List Subscriber) → Between lo hi xs → hi < n → find n xs ≡ none
unfolding find
find_beyond n lo hi [] b h = refl
find_beyond n lo hi (x ∷ xs) b h =
    ground (arith, find_beyond n x.number hi xs b.1, bound x.number hi xs b.1)
  where
    bound : (lo hi : ℕ) (xs : List Subscriber) → Between lo hi xs → lo ≤ hi
    bound lo hi [] b = b
    bound lo hi (y ∷ ys) b = omega (arith, bound y.number hi ys b.1)

-- What a message does to a queue that is looked up.
abbrev pub queued : Message → Option (List Message) → Option (List Message)
queued m none = none
queued m (some q) = if ltb (length q) subscriber_buffer then some (q ++ m ∷ []) else none

pub find-broadcast :
    (n : ℕ) (m : Message) (lo hi : ℕ) (xs : List Subscriber)
    → Between lo hi xs
    → find n (broadcast m xs) ≡ queued m (find n xs)
unfolding find broadcast
find-broadcast n m lo hi [] b = refl
find-broadcast n m lo hi (x ∷ xs) b = ground (
  arith,
  find-broadcast n m x.number hi xs b.1,
  find_above n x.number hi (broadcast m xs) (Between-broadcast m x.number hi xs b.1),
)

pub find-without :
    (n k : ℕ) (xs : List Subscriber) → find n (without k xs) ≡ (if eqb k n then none else find n xs)
unfolding find without
find-without n k [] = ground arith
find-without n k (x ∷ xs) = ground (arith, find-without n k xs)

abbrev pub popped : Option (List Message) → Option (List Message)
popped none = none
popped (some q) = some (tail_or_nil q)

pub find-pop :
    (n k : ℕ) (xs : List Subscriber)
    → find n (pop k xs) ≡ (if eqb k n then popped (find n xs) else find n xs)
unfolding find pop
find-pop n k [] = ground arith
find-pop n k (x ∷ xs) = ground (arith, find-pop n k xs)

pub find-add :
    (n : ℕ) (xs : List Subscriber) (s : Subscriber)
    → find n (xs ++ s ∷ []) ≡ elim (find n xs) [ none ↦ find n (s ∷ []) | some q ↦ some q ]
unfolding find
find-add n [] s = refl
find-add n (x ∷ xs) s = ground (arith, find-add n xs s)

pub replay-append :
    (v : Assoc String) (xs ys : List Message) → replay v (xs ++ ys) ≡ replay (replay v xs) ys
replay-append v [] ys = refl
replay-append v (x ∷ xs) ys = replay-append (learn v x) xs ys

pub SameTopics-insert :
    (t raw : String) (v w : Assoc String)
    → SameTopics v w
    → SameTopics (insert t raw v) (insert t raw w)
SameTopics-insert t raw v w h j =
    lookup-insert t j raw v
    ∙ ap (λ o. if t == j then some raw else o) (h j)
    ∙ sym (lookup-insert t j raw w)

pub Follows-state :
    (t raw : String) (v : Assoc String) (o : Option (List Message)) (topics : Assoc String)
    → Follows v o topics
    → Follows v (queued (Message.state t raw) o) (insert t raw topics)
Follows-state t raw v none topics f = tt
Follows-state t raw v (some q) topics f = elim (Bool-cases (ltb (length q) subscriber_buffer)) [
  | inl fits ↦
      rw (fits, replay-append v q (Message.state t raw ∷ []))
        (SameTopics-insert t raw (replay v q) topics f)
  | inr full ↦ rw full tt
]

pub Follows-command :
    (w n d : String) (at : ℕ) (v : Assoc String) (o : Option (List Message)) (topics : Assoc String)
    → Follows v o topics
    → Follows v (queued (Message.command w n at d) o) topics
Follows-command w n d at v none topics f = tt
Follows-command w n d at v (some q) topics f =
    elim (Bool-cases (ltb (length q) subscriber_buffer)) [
      | inl fits ↦ rw (fits, replay-append v q (Message.command w n at d ∷ [])) f
      | inr full ↦ rw full tt
    ]

pub Follows-popped :
    (v : Assoc String) (o : Option (List Message)) (topics : Assoc String)
    → Follows v o topics
    → Follows (received o v) (popped o) topics
Follows-popped v none topics f = f
Follows-popped v (some []) topics f = f
Follows-popped v (some (m ∷ ms)) topics f = f
