-- ===== src/HostEvents/Staged.antt =====
-- internal/hostevents/hub.go: the commands that calls send are all that they leave staged.
use dsh_work.Prelude.{
  sym, All, All-weaken, ◌⊎◌, if◌then◌else◌, ℕ, ◌+◌, String, ◌==◌, ◌≡◌, refl, inl, inr, false,
  Option, none, some, List, [], ◌∷◌, ◌++◌, eqb, length, arith, tail_or_nil, Bool-cases, subst,
}
use dsh_work.HostEvents.{
  store_topic, is_empty, run, call, Call, sets, sends, sends_transient, subscribes, unsubscribes,
  receives, send_transient, unsubscribe, receive, Message, Hub, set_topic, send_command, subscribe,
  stage, unix_milli, command_buffer,
}

-- The commands with a name that calls send with an expiry.
abbrev pub commands_of : List Call → List Message
commands_of [] = []
commands_of (sends now window name ttl (some raw) ∷ cs) =
    let rest = commands_of cs in
    if name == "" then rest else Message.command window name (unix_milli (now + ttl)) raw ∷ rest
commands_of (c ∷ cs) = commands_of cs

abbrev pub Among : Message → List Message → Type 0
Among m [] = ⊥
Among m (x ∷ xs) = (m ≡ x) ⊎ Among m xs

pub All-Among : (xs : List Message) → All (λ m. Among m xs) xs
All-Among [] = tt
All-Among (x ∷ xs) = (inl refl, All-weaken (λ m a. inr a) xs (All-Among xs))

commands-set_topic :
    (h : Hub) (t : String) (v : Option String) → (set_topic h t v).commands ≡ h.commands
unfolding set_topic store_topic
commands-set_topic h t none = refl
commands-set_topic h t (some raw) = ground arith

commands-send_transient :
    (h : Hub) (w n : String) (d : Option String) → (send_transient h w n d).commands ≡ h.commands
unfolding send_transient is_empty
commands-send_transient h w n none = refl
commands-send_transient h w n (some raw) = ground arith

module _ (P : Message → Type 0) where
  All-end : (m : Message) (ms : List Message) → P m → All P ms → All P (ms ++ m ∷ [])
  All-end m [] p ps = (p, tt)
  All-end m (x ∷ xs) p (q, qs) = (q, All-end m xs p qs)

  All-tail : (ms : List Message) → All P ms → All P (tail_or_nil ms)
  All-tail [] ps = tt
  All-tail (x ∷ xs) (p, ps) = ps

  All-stage : (m : Message) (ms : List Message) → P m → All P ms → All P (stage m ms)
  unfolding stage
  All-stage m ms p ps = elim (Bool-cases (eqb (length ms) command_buffer)) [
    | inl e ↦ rw e (All-end m (tail_or_nil ms) p (All-tail ms ps))
    | inr e ↦ rw e (All-end m ms p ps)
  ]

  -- A named command is staged or broadcast.
  All-send :
      (h : Hub) (now : ℕ) (w n : String) (ttl : ℕ) (raw : String)
      → (n == "") ≡ false
      → All P h.commands
      → P (Message.command w n (unix_milli (now + ttl)) raw)
      → All P (send_command h now w n ttl (some raw)).commands
  unfolding send_command
  All-send h now w n ttl raw e ps p = elim (Bool-cases (is_empty h.subscribers)) [
    | inl s ↦ rw (e, s) (All-stage _ h.commands p ps)
    | inr s ↦ rw (e, s) ps
  ]

  pub All-run :
      (h : Hub) (cs : List Call)
      → All P h.commands
      → All P (commands_of cs)
      → All P (run h cs).commands
  unfolding run call subscribe unsubscribe receive
  All-run h [] ps qs = ps
  All-run h (sets t v ∷ cs) ps qs =
      All-run (set_topic h t v) cs (subst (All P) (sym (commands-set_topic h t v)) ps) qs
  All-run h (sends now w n ttl none ∷ cs) ps qs =
      All-run (send_command h now w n ttl none) cs (unfold send_command in ps) qs
  All-run h (sends now w n ttl (some raw) ∷ cs) ps qs = elim (Bool-cases (n == "")) [
    | inl e ↦
        All-run (send_command h now w n ttl (some raw)) cs (unfold send_command in rw e ps)
          (rw e at qs)
    | inr e ↦
        let r = (rw e at qs) in
        All-run (send_command h now w n ttl (some raw)) cs (All-send h now w n ttl raw e ps r.0) r.1
  ]
  All-run h (sends_transient w n d ∷ cs) ps qs =
      All-run (send_transient h w n d) cs (subst (All P) (sym (commands-send_transient h w n d)) ps)
        qs
  All-run h (subscribes now ∷ cs) ps qs = All-run (subscribe h now).0 cs tt qs
  All-run h (unsubscribes n ∷ cs) ps qs = All-run (unsubscribe h n) cs ps qs
  All-run h (receives n ∷ cs) ps qs = All-run (receive h n) cs ps qs
