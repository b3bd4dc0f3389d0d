-- ===== src/HostEvents/Examples.antt =====
-- Instances of the theorems of internal/hostevents at concrete inputs.
use dsh_work.Prelude.{◌≡◌, refl, some, List, [], ◌∷◌, ◌++◌}
use dsh_work.Prelude.Assoc.{lookup, insert}
use dsh_work.HostEvents.{
  Message, new_hub, set_topic, subscribe, pending, run, call, Call, sets, sends, subscribes,
  receives, snapshot, unexpired, send_command, broadcast,
}
use dsh_work.HostEvents.Invariant.{Inv, run-new_hub-Inv}
use dsh_work.HostEvents.Replay.{client_run, Follows, replay}
use dsh_work.HostEvents.Views.{client-SameTopics}
use dsh_work.HostEvents.Commands.{Sent, commands_once, send_all, newest, messages_of}
use dsh_work.HostEvents.Staged.{commands_of, Among}
use dsh_work.HostEvents.{unix_milli}
use dsh_work.Prelude.{All}

abbrev before : List Call
before = sets "theme" (some "1") ∷ sends 5 "shell" "open" 9000000 (some "{}") ∷ []

abbrev after : List Call
after = sets "theme" (some "2") ∷ receives 1 ∷ sets "locale" (some "3") ∷ subscribes 7 ∷ []

run-new_hub-Inv_example : Inv (run new_hub (before ++ after))
run-new_hub-Inv_example = run-new_hub-Inv (before ++ after)

client-SameTopics_example :
    let h' = (subscribe (run new_hub before) 6).0 in
    let n = (subscribe (run new_hub before) 6).1 in
    Follows
      (client_run n h' (replay [] (subscribe (run new_hub before) 6).2) after)
      (pending (run h' after) n)
      (run h' after).topics
client-SameTopics_example = client-SameTopics before after 6

abbrev first : Sent
first = record { at = 5; window = "shell"; name = "open"; ttl = 9000000; payload = "{}" }

abbrev second : Sent
second = record { at = 6; window = ""; name = "quit"; ttl = 0; payload = "{}" }

abbrev unnamed : Sent
unnamed = record { at = 6; window = ""; name = ""; ttl = 0; payload = "{}" }

abbrev sent : List Sent
sent = first ∷ unnamed ∷ second ∷ []

commands_once_example :
    let h = run new_hub before in
    let s = subscribe (send_all h sent) 7 in
    let g = run s.0 after in
    (s.2
      ≡ snapshot h.topic_order h.topics
        ++ unexpired (unix_milli 7) (newest (h.commands ++ messages_of sent)))
    × ((subscribe g 8).2 ≡ snapshot g.topic_order g.topics ++ unexpired (unix_milli 8) g.commands)
    × All (λ m. Among m (commands_of after)) g.commands
unfolding run call new_hub set_topic send_command lookup broadcast
commands_once_example = commands_once before sent 7 8 after refl

-- The command that was staged first comes behind the snapshot, and expires at 9 milliseconds.
initial_messages :
    (subscribe (run new_hub before) 6).2
    ≡ Message.state "theme" "1" ∷ Message.command "shell" "open" 9 "{}" ∷ []
unfolding subscribe run call new_hub set_topic send_command snapshot unexpired lookup insert
    broadcast
initial_messages = refl
