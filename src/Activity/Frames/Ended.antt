-- ===== src/Activity/Frames/Ended.antt =====
-- internal/dshactivity/bridge.go: what one connection to a worker does to the bridge.
use dsh_work.Prelude.{
  ◌≡◌, ◌≢◌, refl, ◌∙◌, ap, Bool, true, false, not, Option, none, some, List, [], ◌∷◌, ltb, String,
  Option-cases, if◌then◌else◌, inl, inr,
}
use dsh_work.Release.Text.{Text, same}
use dsh_work.Activity.Projection.{Snapshot}
use dsh_work.Activity.Bridge.{Bridge, checked, accept, disconnected}
use dsh_work.Activity.Frames.{
  Frame, event, ping, failed, Ending, new_reader, frame_limit, byte_count, read_frames,
  snapshot_word, Received, take_checked, take_decoded, take_frame, receive_frames, observe,
}
use dsh_work.Activity.Bridge.Stale.{
  disconnected-stale, accept-generation, accept-stale, disconnected-generation,
  disconnected-connected,
}

module _ (decode : Text → Option Snapshot) (captured : String) where
  -- What holds of a bridge and is kept by an accepted snapshot.
  Kept : (Bridge → Type 0) → Type 0
  Kept P = (b : Bridge) (s : Snapshot) → P b → P (accept b captured s)

  Onward : (Bridge → Type 0) → (Bridge → Bool → Received) → Type 0
  Onward P onward = (b : Bridge) (got : Bool) → P b → P (onward b got).0

  receive_if :
      (P : Bridge → Type 0) (t : Bool) (x y : Received) → P x.0 → P y.0 → P (if t then x else y).0
  receive_if P true x y i j = i
  receive_if P false x y i j = j

  receive_decoded :
      (P : Bridge → Type 0) (o : Option Snapshot) (b : Bridge) (got : Bool)
      (onward : Bridge → Bool → Received)
      → Kept P
      → Onward P onward
      → P b
      → P (take_decoded o captured b got onward).0
  unfolding take_decoded take_checked Kept Onward
  receive_decoded P none b got onward k f i = i
  receive_decoded P (some s) b got onward k f i = elim (Option-cases (checked s captured)) [
    | inl e ↦ rw e i
    | inr (t, e) ↦ rw e (f (accept b captured t) true (k b t i))
  ]

  receive_frames-Kept :
      (P : Bridge → Type 0) (fs : List Frame) (b : Bridge) (got : Bool)
      → Kept P
      → P b
      → P (receive_frames decode fs captured b got).0
  unfolding receive_frames take_frame Onward
  receive_frames-Kept P [] b got k i = i
  receive_frames-Kept P (ping ∷ fs) b got k i = receive_frames-Kept P fs b got k i
  receive_frames-Kept P (failed f ∷ fs) b got k i = i
  receive_frames-Kept P (event e payload ∷ fs) b got k i =
      receive_if P (not (same e snapshot_word)) _ _ (receive_frames-Kept P fs b got k i) (
        receive_if P (ltb frame_limit (byte_count payload)) _ _ i (
          receive_decoded P (decode payload) b got (receive_frames decode fs captured) k
            (λ c got' i'. receive_frames-Kept P fs c got' k i') i))

module _ (decode : Text → Option Snapshot) (captured : String) where
  -- A connection that was made for an earlier generation leaves the bridge as it is, whatever the
  -- worker sends and however its stream ends.
  pub observe-stale :
      (lines : List Text) (ending : Ending) (b : Bridge)
      → b.generation ≢ captured
      → (observe decode lines ending captured b).0 ≡ b
  unfolding observe Kept
  observe-stale lines ending b h =
      ap (λ c. disconnected c captured)
        (receive_frames-Kept decode captured (λ c. c ≡ b) (read_frames lines ending new_reader) b
          false (λ c s e. ap (λ d. accept d captured s) e ∙ accept-stale b captured s h) refl)
      ∙ disconnected-stale b captured h

  -- A connection that was made for the present generation leaves the bridge in that generation and
  -- disconnected, whatever the worker sends and however its stream ends.
  pub observe-ended :
      (lines : List Text) (ending : Ending) (b : Bridge)
      → b.generation ≡ captured
      → ((observe decode lines ending captured b).0.generation ≡ captured)
        × ((observe decode lines ending captured b).0.state.connected ≡ false)
  unfolding observe Kept
  observe-ended lines ending b h =
      let after =
        (receive_frames decode (read_frames lines ending new_reader) captured b false).0 in
      let present =
        receive_frames-Kept decode captured (λ c. c.generation ≡ captured)
          (read_frames lines ending new_reader) b false
          (λ c s e. accept-generation c captured s ∙ e) h in
      (
        disconnected-generation after captured ∙ present,
        disconnected-connected after captured present,
      )
