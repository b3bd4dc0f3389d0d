-- ===== src/Activity/Frames/Limit.antt =====
-- internal/dshactivity/bridge.go: no frame of a stream is above the limit.
use dsh_work.Prelude.{
  ℕ, ◌+◌, ◌≤◌, ◌≡◌, refl, Bool, true, false, not, ◌||◌, Option, none, some, List, [], ◌∷◌, ◌++◌,
  ltb, eqb, All, arith, Bool-cases, if◌then◌else◌, inl, inr,
}
use dsh_work.Release.Text.{Text, is_empty, cut, before, trim_prefix}
use dsh_work.Activity.Frames.{
  width, byte_count, Frame, event, ping, failed, Ending, broken, closed, cancelled, Reader,
  new_reader, trim_newline, frame_limit, field_of, take_field, at_blank, at_end, count, read_line,
  read_frames, is_comment, is_ping, same, event_word, data_word,
}

abbrev pub FitsLimit : Frame → Type 0
FitsLimit (event e payload) = (byte_count e ≤ frame_limit) × (byte_count payload ≤ frame_limit)
FitsLimit ping = Unit
FitsLimit (failed f) = Unit

pub byte_count-append : (s t : Text) → byte_count (s ++ t) ≡ byte_count s + byte_count t
unfolding byte_count
byte_count-append [] t = omega arith
byte_count-append (c ∷ s) t = omega (arith, byte_count-append s t)

byte_count-trim_newline : (s : Text) → byte_count (trim_newline s) ≤ byte_count s
unfolding byte_count trim_newline
byte_count-trim_newline [] = omega arith
byte_count-trim_newline (c ∷ []) = ground arith
byte_count-trim_newline (c ∷ d ∷ s) = omega (arith, byte_count-trim_newline (d ∷ s))

byte_count-trim_prefix : (b : ℕ) (s : Text) → byte_count (trim_prefix b s) ≤ byte_count s
unfolding byte_count trim_prefix
byte_count-trim_prefix b [] = omega arith
byte_count-trim_prefix b (c ∷ s) = ground arith

FitsText : ℕ → Option (Text × Text) → Type 0
FitsText n none = Unit
FitsText n (some (s, t)) = byte_count t ≤ n

FitsText-before :
    (c n : ℕ) (o : Option (Text × Text)) → FitsText n o → FitsText (width c + n) (before c o)
unfolding before FitsText
FitsText-before c n none h = tt
FitsText-before c n (some (s, t)) h = omega (arith, h)

FitsText-cut : (b : ℕ) (s : Text) → FitsText (byte_count s) (cut b s)
unfolding cut byte_count FitsText
FitsText-cut b [] = tt
FitsText-cut b (c ∷ s) = elim (Bool-cases (eqb c b)) [
  | inl h ↦ rw h (omega arith)
  | inr h ↦ rw h (FitsText-before c (byte_count s) (cut b s) (FitsText-cut b s))
]

byte_count-field_of :
    (line : Text) (o : Option (Text × Text))
    → FitsText (byte_count line) o
    → byte_count (field_of line o).1 ≤ byte_count line
unfolding field_of FitsText byte_count
byte_count-field_of line none h = omega arith
byte_count-field_of line (some (s, t)) h = omega (arith, byte_count-trim_prefix b' ' t, h)

-- What is gathered is no longer than the lines of the frame.
record IsCounted (r : Reader) : Type 0 where
  event_counted : byte_count r.event ≤ r.frame_bytes
  payload_counted : byte_count r.payload ≤ r.frame_bytes

-- A line has been counted and not yet been read.
record IsAhead (r : Reader) (line : Text) : Type 0 where
  event_ahead : byte_count r.event ≤ r.frame_bytes
  payload_ahead : byte_count r.payload + (byte_count line + 1) ≤ r.frame_bytes
  line_ahead : byte_count line + 1 ≤ r.frame_bytes

IsAhead-count : (r : Reader) (line : Text) → IsCounted r → IsAhead (count r line) line
unfolding count
IsAhead-count r line i = record {
  event_ahead = omega (arith, i.event_counted);
  payload_ahead = omega (arith, i.payload_counted);
  line_ahead = omega arith;
}

IsCounted-IsAhead : (r : Reader) (line : Text) → IsAhead r line → IsCounted r
IsCounted-IsAhead r line i = record {
  event_counted = i.event_ahead;
  payload_counted = omega (arith, i.payload_ahead);
}

IsCounted-if :
    (t : Bool) (x y : Reader) → IsCounted x → IsCounted y → IsCounted (if t then x else y)
IsCounted-if true x y i j = i
IsCounted-if false x y i j = j

byte_count-gathered :
    (s t : Text) → byte_count (s ++ (t ++ b'\n' ∷ [])) ≡ byte_count s + (byte_count t + 1)
unfolding byte_count
byte_count-gathered s t =
    rw (byte_count-append s (t ++ b'\n' ∷ []), byte_count-append t (b'\n' ∷ [])) refl

IsCounted-take_field :
    (r : Reader) (line field value : Text)
    → byte_count value ≤ byte_count line
    → IsAhead r line
    → IsCounted (take_field r (field, value))
unfolding take_field
IsCounted-take_field r line field value h i =
    IsCounted-if (same field event_word) _ _
      (record {
        event_counted = omega (arith, i.line_ahead);
        payload_counted = omega (arith, i.payload_ahead);
      })
      (IsCounted-if (same field data_word) _ _
        (record {
          event_counted = i.event_ahead;
          payload_counted = omega (arith, byte_count-gathered r.payload value, h, i.payload_ahead);
        })
        (IsCounted-IsAhead r line i))

-- The frames that follow are within the limit whatever is gathered till then.
abbrev Onward : (Reader → List Frame) → Type 0
Onward onward = (r : Reader) → IsCounted r → All FitsLimit (onward r)

FitsLimit-if :
    (t : Bool) (xs ys : List Frame)
    → (t ≡ true → All FitsLimit xs)
    → (t ≡ false → All FitsLimit ys)
    → All FitsLimit (if t then xs else ys)
FitsLimit-if true xs ys f g = f refl
FitsLimit-if false xs ys f g = g refl

FitsLimit-at_blank :
    (r : Reader) (rest : List Frame)
    → IsCounted r
    → r.frame_bytes ≤ frame_limit
    → All FitsLimit rest
    → All FitsLimit (at_blank r rest)
unfolding at_blank
FitsLimit-at_blank r rest i h k =
    FitsLimit-if (not (is_empty r.event) || not (is_empty r.payload)) _ _
      (λ e. (
        (
          omega (arith, i.event_counted),
          omega (arith, byte_count-trim_newline r.payload, i.payload_counted),
        ),
        k,
      ))
      (λ e. k)

IsCounted-new_reader : IsCounted new_reader
unfolding new_reader byte_count
IsCounted-new_reader = record { event_counted = omega arith; payload_counted = omega arith }

FitsLimit-read_line :
    (r : Reader) (line : Text) (onward : Reader → List Frame)
    → IsAhead r line
    → Onward onward
    → All FitsLimit (read_line r line onward)
unfolding read_line
FitsLimit-read_line r line onward i k =
    let c = IsCounted-IsAhead r line i in
    FitsLimit-if (ltb frame_limit r.frame_bytes) _ _ (λ e. (tt, tt))
      (λ e.
        FitsLimit-if (is_empty line) _ _
          (λ e'. FitsLimit-at_blank r _ c (ground arith) (k new_reader IsCounted-new_reader))
          (λ e'.
            FitsLimit-if (is_comment line) _ _
              (λ e''. FitsLimit-if (is_ping line) _ _ (λ p. (tt, k r c)) (λ p. k r c))
              (λ e''. k (take_field r (field_of line (cut b':' line))) (
                IsCounted-take_field r line _ _
                  (byte_count-field_of line (cut b':' line) (FitsText-cut b':' line)) i))))

FitsLimit-at_end : (ending : Ending) → All FitsLimit (at_end ending)
unfolding at_end
FitsLimit-at_end broken = (tt, tt)
FitsLimit-at_end closed = (tt, tt)
FitsLimit-at_end cancelled = tt

FitsLimit-read_frames : (lines : List Text) (ending : Ending) → Onward (read_frames lines ending)
unfolding read_frames
FitsLimit-read_frames [] ending r i = FitsLimit-at_end ending
FitsLimit-read_frames (line ∷ rest) ending r i =
    FitsLimit-read_line (count r line) line (read_frames rest ending) (IsAhead-count r line i)
      (FitsLimit-read_frames rest ending)

-- Whatever lines a worker sends, neither the name nor the payload of a frame is longer than the
-- limit, so that the length test of `receiveActivity` never refuses one.
pub read_frames-FitsLimit :
    (lines : List Text) (ending : Ending) → All FitsLimit (read_frames lines ending new_reader)
read_frames-FitsLimit lines ending =
    FitsLimit-read_frames lines ending new_reader IsCounted-new_reader
