-- ===== src/Publisher/Callers/Examples.antt =====
-- Instances of the theorems on the callers of internal/desktopapp/trailing_publisher.go.
use dsh_work.Prelude.{ℕ, ◌≡◌, refl, some, none, List, [], ◌∷◌, true}
use dsh_work.Publisher.{Step, enqueues, drains, new_publisher, enqueue, drain_round}
use dsh_work.Publisher.Rate.{elapsed}
use dsh_work.Publisher.Callers.{new_served, serve, serve_all, drains_if_told, drain_by, goes_on}
use dsh_work.Publisher.Callers.Owned.{IsServed, serve_all-IsServed}
use dsh_work.Publisher.Callers.Delivery.{Delivers, waiting-Delivers}

abbrev some_steps : List (ℕ × Step ℕ)
some_steps = (1, enqueues 7 true) ∷ (1, drains) ∷ (2, enqueues 8 true) ∷ (3, enqueues 9 true) ∷ []

serve_all-IsServed_example :
    IsServed 100 (elapsed 100 none 5 some_steps) (serve_all 100 none new_served 5 some_steps)
serve_all-IsServed_example = serve_all-IsServed 100 none 5 some_steps

newest-waits : (serve_all 100 none new_served 5 some_steps).publisher.pending ≡ some 9
unfolding serve_all serve new_served drains_if_told drain_by goes_on enqueue drain_round
    new_publisher
newest-waits = refl

waiting-Delivers_example : Delivers 100 none (serve_all 100 none new_served 5 some_steps) 9
waiting-Delivers_example = waiting-Delivers 100 none 5 some_steps 9 newest-waits
