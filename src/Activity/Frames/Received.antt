-- ===== src/Activity/Frames/Received.antt =====
-- internal/dshactivity/bridge.go: an event that is written line by line is read back, and what a
-- stream does to the bridge.
use dsh_work.Prelude.{
  ℕ, ◌+◌, ◌≤◌, ◌≡◌, refl, ◌∙◌, ap, false, List, [], ◌∷◌, ◌++◌, map, ltb, append_assoc, append-nil,
  arith,
}
use dsh_work.Release.Text.{Text, same, is_empty, cut, before, trim_prefix}
use dsh_work.Activity.Frames.{
  byte_count, Frame, event, Ending, Reader, new_reader, trim_newline, frame_limit, field_of,
  take_field, at_blank, count, read_line, read_frames, is_comment, event_word, data_word,
}

abbrev pub event_line : Text → Text
event_line e = event_word ++ b':' ∷ b' ' ∷ e

abbrev pub data_line : Text → Text
data_line d = data_word ++ b':' ∷ b' ' ∷ d

-- An event as a server writes it: its name, the lines of its payload, and a blank line.
abbrev pub encoded : Text → List Text → List Text → List Text
encoded e ds rest = event_line e ∷ (map data_line ds ++ [] ∷ rest)

-- The payload: the lines with a newline between two of them.
abbrev pub joined : List Text → Text
joined [] = []
joined (d ∷ ds) = elim ds [ [] ↦ d | d' ∷ ds' ↦ d ++ b'\n' ∷ joined ds ]

abbrev gathered : List Text → Text
gathered [] = []
gathered (d ∷ ds) = d ++ b'\n' ∷ gathered ds

abbrev pub data_size : List Text → ℕ
data_size [] = 0
data_size (d ∷ ds) = byte_count (data_line d) + 1 + data_size ds

-- The bytes of the event, a newline counted behind every line.
abbrev pub event_size : Text → List Text → ℕ
event_size e ds = byte_count (event_line e) + 1 + (data_size ds + 1)

trim_newline-cons :
    (c : ℕ) (s : Text) → is_empty s ≡ false → trim_newline (c ∷ s) ≡ c ∷ trim_newline s
unfolding trim_newline is_empty
trim_newline-cons c [] h = ground arith
trim_newline-cons c (d ∷ s) h = refl

not_above : (n : ℕ) → n ≤ frame_limit → ltb frame_limit n ≡ false
not_above n h = ground arith

read_data :
    (r : Reader) (d : Text) (onward : Reader → List Frame)
    → r.frame_bytes + (byte_count (data_line d) + 1) ≤ frame_limit
    → read_line (count r (data_line d)) (data_line d) onward
      ≡ onward (record r {
        payload = r.payload ++ (d ++ b'\n' ∷ []);
        frame_bytes = r.frame_bytes + (byte_count (data_line d) + 1);
      })
unfolding read_line count is_empty is_comment cut before field_of trim_prefix take_field same
read_data r d onward h = rw (not_above _ h) refl

read_event :
    (r : Reader) (e : Text) (onward : Reader → List Frame)
    → r.frame_bytes + (byte_count (event_line e) + 1) ≤ frame_limit
    → read_line (count r (event_line e)) (event_line e) onward
      ≡ onward
          (record r { event = e; frame_bytes = r.frame_bytes + (byte_count (event_line e) + 1) })
unfolding read_line count is_empty is_comment cut before field_of trim_prefix take_field same
read_event r e onward h = rw (not_above _ h) refl

is_empty-append : (s t : Text) (c : ℕ) → is_empty (s ++ c ∷ t) ≡ false
unfolding is_empty
is_empty-append [] t c = refl
is_empty-append (d ∷ s) t c = refl

trim_newline-append : (s t : Text) (c : ℕ) → trim_newline (s ++ c ∷ t) ≡ s ++ trim_newline (c ∷ t)
trim_newline-append [] t c = refl
trim_newline-append (d ∷ s) t c =
    trim_newline-cons d (s ++ c ∷ t) (is_empty-append s t c)
    ∙ ap (λ u. d ∷ u) (trim_newline-append s t c)

trim_newline-gathered : (ds : List Text) → trim_newline (gathered ds) ≡ joined ds
unfolding trim_newline
trim_newline-gathered [] = refl
trim_newline-gathered (d ∷ []) = trim_newline-append d [] b'\n' ∙ append-nil d
trim_newline-gathered (d ∷ d' ∷ ds) =
    trim_newline-append d (gathered (d' ∷ ds)) b'\n'
    ∙ ap (λ u. d ++ u)
        (trim_newline-cons b'\n' (gathered (d' ∷ ds)) (is_empty-append d' (gathered ds) b'\n')
          ∙ ap (λ u. b'\n' ∷ u) (trim_newline-gathered (d' ∷ ds)))

read_blank :
    (r : Reader) (onward : Reader → List Frame)
    → r.frame_bytes + 1 ≤ frame_limit
    → is_empty r.event ≡ false
    → read_line (count r []) [] onward ≡ event r.event (trim_newline r.payload) ∷ onward new_reader
unfolding read_line count is_empty at_blank byte_count
read_blank r onward h k = rw (not_above _ h) (rw k refl)

gather_one : (s d t : Text) → (s ++ (d ++ b'\n' ∷ [])) ++ t ≡ s ++ (d ++ b'\n' ∷ t)
gather_one s d t =
    append_assoc s (d ++ b'\n' ∷ []) t ∙ ap (λ u. s ++ u) (append_assoc d (b'\n' ∷ []) t)

-- The rounds for the lines of the payload.
read_lines :
    (ds rest : List Text) (ending : Ending) (r : Reader)
    → r.frame_bytes + (data_size ds + 1) ≤ frame_limit
    → is_empty r.event ≡ false
    → read_frames (map data_line ds ++ [] ∷ rest) ending r
      ≡ event r.event (trim_newline (r.payload ++ gathered ds)) ∷ read_frames rest ending new_reader
unfolding read_frames
read_lines [] rest ending r h k =
    rw (append-nil r.payload) (read_blank r (read_frames rest ending) h k)
read_lines (d ∷ ds) rest ending r h k =
    read_data r d (read_frames (map data_line ds ++ [] ∷ rest) ending) (omega (arith, h))
    ∙ (read_lines ds rest ending _ (omega (arith, h)) k
        ∙ ap (λ u. event r.event (trim_newline u) ∷ read_frames rest ending new_reader)
            (gather_one r.payload d (gathered ds)))

-- An event of at most the limit that is written line by line is read back: its name, and the lines of
-- its payload joined by newlines, whatever comes before the end of the stream behind it.
pub read_frames-encoded :
    (e : Text) (ds rest : List Text) (ending : Ending)
    → event_size e ds ≤ frame_limit
    → is_empty e ≡ false
    → read_frames (encoded e ds rest) ending new_reader
      ≡ event e (joined ds) ∷ read_frames rest ending new_reader
unfolding read_frames new_reader
read_frames-encoded e ds rest ending h k =
    read_event new_reader e (read_frames (map data_line ds ++ [] ∷ rest) ending) (omega (arith, h))
    ∙ (read_lines ds rest ending _ (omega (arith, h)) k
        ∙ ap (λ u. event e u ∷ read_frames rest ending new_reader) (trim_newline-gathered ds))
