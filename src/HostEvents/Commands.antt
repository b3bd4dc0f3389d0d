-- ===== src/HostEvents/Commands.antt =====
-- internal/hostevents/hub.go: commands are delivered once, in order, and expire.
use dsh_work.Prelude.{
  sym, All, ◌≤◌, if◌then◌else◌, ℕ, suc, ◌+◌, ◌<◌, String, ◌==◌, eq_iff, ◌≡◌, ◌≢◌, refl, ◌∙◌, inl,
  inr, true, false, Option, none, some, List, [], ◌∷◌, ◌++◌, eqb, ltb, length, arith, tail_or_nil,
  zero, ◌-◌, Bool-cases, append-nil, length-append, append_assoc, ap, eq_refl,
}
use dsh_work.Prelude.Assoc.{lookup, lookup-insert}
use dsh_work.HostEvents.Invariant.{run-new_hub-Inv}
use dsh_work.Prelude.Assoc.{ne}
use dsh_work.HostEvents.{
  new_hub, run, Call, Message, Hub, set_topic, send_command, subscribe, stage, snapshot, unexpired,
  unix_milli, command_buffer, holds,
}
use dsh_work.HostEvents.Staged.{commands_of, Among, All-Among, All-run}

-- A command of a name that is sent with a time to live.
pub record Sent : Type 0 where
  pub at : ℕ
  pub window : String
  pub name : String
  pub ttl : ℕ
  pub payload : String

abbrev pub message_of : Sent → Message
message_of c = Message.command c.window c.name (unix_milli (c.at + c.ttl)) c.payload

unfoldable pub send_all : Hub → List Sent → Hub
send_all h [] = h
send_all h (c ∷ cs) = send_all (send_command h c.at c.window c.name c.ttl (some c.payload)) cs

-- Those with a name, in the order in which they are sent.
abbrev pub messages_of : List Sent → List Message
messages_of [] = []
messages_of (c ∷ cs) =
    let rest = messages_of cs in if c.name == "" then rest else message_of c ∷ rest

abbrev pub drop {ℓ} : {A : Type ℓ} → ℕ → List A → List A
drop zero xs = xs
drop (suc n) [] = []
drop (suc n) (x ∷ xs) = drop n xs

-- The last 64 of a list.
abbrev pub newest : List Message → List Message
newest ms = drop (length ms - command_buffer) ms

drop-tail :
    (n : ℕ) (m : Message) (xs : List Message)
    → n < length xs
    → tail_or_nil (drop n xs) ++ m ∷ [] ≡ drop (suc n) (xs ++ m ∷ [])
drop-tail zero m [] h = absurd (omega arith)
drop-tail zero m (x ∷ xs) h = refl
drop-tail (suc n) m [] h = absurd (omega arith)
drop-tail (suc n) m (x ∷ xs) h = drop-tail n m xs (omega arith)

length-drop : (n : ℕ) (xs : List Message) → length (drop n xs) ≡ length xs - n
length-drop zero xs = omega arith
length-drop (suc n) [] = omega arith
length-drop (suc n) (x ∷ xs) = omega (arith, length-drop n xs)

-- One more command is staged behind the newest ones, and pushes the oldest out if there are 64.
stage-newest : (m : Message) (xs : List Message) → stage m (newest xs) ≡ newest (xs ++ m ∷ [])
unfolding stage
stage-newest m xs = elim (Bool-cases (ltb (length xs) command_buffer)) [
  | inl few ↦
      let e : length xs - command_buffer ≡ 0 = ground arith in
      let e' : length (xs ++ m ∷ []) - command_buffer ≡ 0 =
        ground (arith, length-append xs (m ∷ [])) in
      let n : eqb (length xs) command_buffer ≡ false = ground arith in rw (e, e', n)
  | inr many ↦
      let k = length xs - command_buffer in
      let n : eqb (length (drop k xs)) command_buffer ≡ true = ground (arith, length-drop k xs) in
      let e : length (xs ++ m ∷ []) - command_buffer ≡ suc k =
        ground (arith, length-append xs (m ∷ [])) in
      rw (n, e) (drop-tail k m xs (ground arith))
]

-- With no subscriber a named command is staged.
staged_alone :
    (h : Hub) (c : Sent)
    → c.name ≢ ""
    → h.subscribers ≡ []
    → send_command h c.at c.window c.name c.ttl (some c.payload)
      ≡ record h { commands = stage (message_of c) h.commands }
unfolding send_command
staged_alone h c n s = ground (arith, eq_iff c.name "")

unnamed_ignored :
    (h : Hub) (c : Sent)
    → (c.name == "") ≡ true
    → send_command h c.at c.window c.name c.ttl (some c.payload) ≡ h
unfolding send_command
unnamed_ignored h c n = rw n refl

send_all-staged :
    (h : Hub) (c : Sent) (cs : List Sent)
    → c.name ≢ ""
    → h.subscribers ≡ []
    → send_all h (c ∷ cs) ≡ send_all (record h { commands = stage (message_of c) h.commands }) cs
unfolding send_all
send_all-staged h c cs n s = ap (λ g. send_all g cs) (staged_alone h c n s)

send_all-ignored :
    (h : Hub) (c : Sent) (cs : List Sent)
    → (c.name == "") ≡ true
    → send_all h (c ∷ cs) ≡ send_all h cs
unfolding send_all
send_all-ignored h c cs n = ap (λ g. send_all g cs) (unnamed_ignored h c n)

send_all_lem :
    (h : Hub) (ms : List Message) (cs : List Sent)
    → h.subscribers ≡ []
    → h.commands ≡ newest ms
    → ((send_all h cs).commands ≡ newest (ms ++ messages_of cs))
      × ((send_all h cs).topics ≡ h.topics)
      × ((send_all h cs).topic_order ≡ h.topic_order)
unfolding send_all
send_all_lem h ms [] s e = (rw append-nil e, refl, refl)
send_all_lem h ms (c ∷ cs) s e = elim (Bool-cases (c.name == "")) [
  | inl n ↦ rw (send_all-ignored h c cs n, n) (send_all_lem h ms cs s e)
  | inr n ↦
      rw
        (
          send_all-staged h c cs (ne c.name "" n) s,
          n,
          ← append_assoc ms (message_of c ∷ []) (messages_of cs),
        )
        (send_all_lem (record h { commands = stage (message_of c) h.commands })
          (ms ++ message_of c ∷ []) cs s
          (ap (stage (message_of c)) e ∙ stage-newest (message_of c) ms))
]

few-newest : (ms : List Message) → length ms ≤ command_buffer → newest ms ≡ ms
few-newest ms h =
    let e : length ms - command_buffer ≡ 0 = omega arith in ap (λ (n : ℕ). drop n ms) e

-- Commands that are sent while a hub, after any calls on a new one, has no subscriber reach the next
-- subscriber behind its snapshot: of the staged ones and the named ones behind them the newest 64, in
-- the order in which they were sent, less those whose expiry has come. They reach no later subscriber:
-- after any further calls, the next initial messages hold, behind the snapshot, only commands that
-- these calls have sent.
pub commands_once :
    (calls : List Call) (cs : List Sent) (now at : ℕ) (later : List Call)
    → (run new_hub calls).subscribers ≡ []
    → let h = run new_hub calls in
      let s = subscribe (send_all h cs) now in
      let g = run s.0 later in
      (s.2
        ≡ snapshot h.topic_order h.topics
          ++ unexpired (unix_milli now) (newest (h.commands ++ messages_of cs)))
      × ((subscribe g at).2
          ≡ snapshot g.topic_order g.topics ++ unexpired (unix_milli at) g.commands)
      × All (λ m. Among m (commands_of later)) g.commands
unfolding subscribe
commands_once calls cs now at later e =
    let h = run new_hub calls in
    let l =
      send_all_lem h h.commands cs e (sym (few-newest h.commands (run-new_hub-Inv calls).staged)) in
    (
      rw (l.0, l.1, l.2) refl,
      refl,
      All-run (λ m. Among m (commands_of later)) (subscribe (send_all h cs) now).0 later tt
          (All-Among (commands_of later)),
    )

-- A topic that is set to the value that it holds is suppressed: the hub stays as it was, so nothing
-- is sent to the subscribers.
pub set_topic_twice :
    (h : Hub) (t : String) (v : Option String) → set_topic (set_topic h t v) t v ≡ set_topic h t v
unfolding set_topic
set_topic_twice h t none = refl
set_topic_twice h t (some raw) = elim (Bool-cases (t == "")) [
  | inl e ↦ rw e
  | inr e ↦ elim (Bool-cases (holds (lookup t h.topics) raw)) [
    | inl same ↦ rw (e, same) (rw same)
    | inr new ↦ rw (e, new, lookup-insert t t raw h.topics, eq_refl t, eq_refl raw)
  ]
]
