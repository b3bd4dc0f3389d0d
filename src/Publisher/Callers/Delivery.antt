-- ===== src/Publisher/Callers/Delivery.antt =====
-- internal/desktopapp/trailing_publisher.go: the timer delivers the value that waits, and the caller
-- that drains publishes it.
use dsh_work.Prelude.{
  ℕ, zero, suc, ◌+◌, ◌≡◌, refl, sym, subst, ap, ◌∙◌, Bool, not, true, false, Option, none, some,
  List, [], ◌∷◌, ◌++◌, eqb, arith, inl, inr, Bool-cases, length, append_assoc, append-nil,
}
use dsh_work.Publisher.{
  Publisher, enqueue_value, flush_pending, flush, publish_first, drain_round, Step, flushes, drains,
}
use dsh_work.Publisher.Rate.{TimerFits, Inv, elapsed}
use dsh_work.Publisher.Callers.{
  Served, new_served, drains_if_told, drain_by, goes_on, serve, serve_all,
}
use dsh_work.Publisher.Callers.Owned.{count, Fits, new_served-Inv}

module _ {T : Type 0} where
  -- So many rounds of draining.
  unfoldable pub rounds : ℕ → List (ℕ × Step T)
  rounds zero = []
  rounds (suc n) = (0, drains) ∷ rounds n

module _ {T : Type 0} (interval : ℕ) (merge : Option (T → T → T)) where
  -- The callback has put the value behind the others in the outbox and left nothing waiting, one
  -- caller drains, and its rounds publish the values in order.
  abbrev pub Delivered : Publisher T → T → ℕ → Served T → Type 0
  Delivered p v now s =
      (s.publisher.outbox ≡ p.outbox ++ v ∷ [])
      × (s.publisher.pending ≡ none)
      × (s.drainers ≡ 1)
      × ((serve_all interval merge s now (rounds (length (p.outbox ++ v ∷ [])))).publisher.published
          ≡ p.published ++ (p.outbox ++ v ∷ []))

  -- What becomes of a value that waits.
  abbrev pub Delivers : Served T → T → Type 0
  Delivers s v =
      (due : ℕ) × (id : ℕ) × (s.publisher.timer ≡ some (due, id))
      × (due ≡ s.publisher.last_published + interval)
      × ((now : ℕ) → Delivered s.publisher v now (serve interval merge s now (flushes id)))

  test_refl : (n : ℕ) → eqb n n ≡ true
  test_refl n = ground arith

  drain_by-next :
      (p : Publisher T) (v : T) (rest : List T)
      → p.closed ≡ false
      → p.outbox ≡ v ∷ rest
      → drain_by p 1 ≡ record {
        publisher = record p { outbox = rest; published = p.published ++ v ∷ [] };
        drainers = 1;
      }
  unfolding drain_by drain_round publish_first goes_on
  drain_by-next p v rest c e = simp (c, e) refl

  -- A draining caller publishes the outbox.
  drained-published :
      (p : Publisher T) (now : ℕ) (xs : List T)
      → p.closed ≡ false
      → p.outbox ≡ xs
      → (serve_all interval merge
          (record { publisher = p; drainers = 1 })
          now
          (rounds (length xs))).publisher.published
        ≡ p.published ++ xs
  unfolding serve_all serve rounds
  drained-published p now [] c e = sym (append-nil p.published)
  drained-published p now (v ∷ rest) c e =
      let q = record p { outbox = rest; published = p.published ++ v ∷ [] } in
      ap (λ s. (serve_all interval merge s (now + 0) (rounds (length rest))).publisher.published)
        (drain_by-next p v rest c e)
      ∙ (drained-published q (now + 0) rest c refl ∙ append_assoc p.published (v ∷ []) rest)

  flush-running :
      (p : Publisher T) (v : T) (now id : ℕ)
      → p.closed ≡ false
      → p.pending ≡ some v
      → id ≡ p.timer_id
      → flush p now id ≡ flush_pending p now (some v)
  unfolding flush
  flush-running p v now id c e n = simp (n, c, test_refl p.timer_id, e) refl

  -- Whether its caller or another one drains, there is one.
  drains_if_told-one :
      (q : Publisher T) (d : Bool) (n : ℕ)
      → n ≡ count d
      → drains_if_told (q, not d) n ≡ record { publisher = q; drainers = 1 }
  unfolding drains_if_told
  drains_if_told-one q true n e = ap (λ (m : ℕ). record { publisher = q; drainers = m }) e
  drains_if_told-one q false n e = ap (λ (m : ℕ). record { publisher = q; drainers = suc m }) e

  flushed-Delivered :
      (s : Served T) (v : T) (now id : ℕ)
      → Fits s
      → s.publisher.closed ≡ false
      → s.publisher.pending ≡ some v
      → id ≡ s.publisher.timer_id
      → Delivered s.publisher v now (serve interval merge s now (flushes id))
  unfolding serve flush_pending enqueue_value
  flushed-Delivered s v now id f c e n =
      let p = s.publisher in
      let q = (flush_pending p now (some v)).0 in
      let h =
        ap (λ r. drains_if_told r s.drainers) (flush-running p v now id c e n)
        ∙ drains_if_told-one q p.draining s.drainers f in
      subst (Delivered p v now) (sym h)
        (refl, refl, refl, drained-published q now (p.outbox ++ v ∷ []) c refl)

  timed-Delivers :
      (s : Served T) (v : T) (t : Option (ℕ × ℕ))
      → Fits s
      → s.publisher.timer ≡ t
      → s.publisher.closed ≡ false
      → s.publisher.pending ≡ some v
      → TimerFits interval s.publisher t
      → Delivers s v
  timed-Delivers s v none f e c h t = absurd (ground arith)
  timed-Delivers s v (some (due, id)) f e c h (d, n, q) =
      (due, id, e, d, λ now. flushed-Delivered s v now id f c h n)

  not-closed :
      (now : ℕ) (p : Publisher T) (v : T)
      → Inv interval now p
      → p.pending ≡ some v
      → p.closed ≡ false
  not-closed now p v i h = elim (Bool-cases p.closed) [
    | inl c ↦ absurd (ground (arith, i.shut c))
    | inr c ↦ c
  ]

  -- After any steps of a new publisher and of the callers that it tells to drain, a value that waits
  -- has a timer that is due one interval after the last publication, and the callback of this timer,
  -- whenever it comes next, puts the value behind the others in the outbox and leaves nothing waiting.
  -- Then there is one caller that drains, and after as many of its rounds as there are values in the
  -- outbox all of them are published, in order, this value last.
  pub waiting-Delivers :
      (now : ℕ) (steps : List (ℕ × Step T)) (v : T)
      → (serve_all interval merge new_served now steps).publisher.pending ≡ some v
      → Delivers (serve_all interval merge new_served now steps) v
  waiting-Delivers now steps v h =
      let s = serve_all interval merge new_served now steps in
      let (i, f) = new_served-Inv interval merge now steps in
      timed-Delivers s v s.publisher.timer f refl
        (not-closed (elapsed interval merge now steps) s.publisher v i h) h i.timed
