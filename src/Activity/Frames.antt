-- ===== src/Activity/Frames.antt =====
-- internal/dshactivity/bridge.go: the event stream of a worker, from its lines to the bridge. A line
-- is what the scanner gives, and a text is the list of its code points.
pub mod Limit
pub mod Received
pub mod Ended
use dsh_work.Prelude.{
  ℕ, ◌+◌, ◌^◌, Bool, true, false, not, ◌&&◌, ◌||◌, Option, none, some, List, [], ◌∷◌, ◌++◌, String,
  ltb, eqb, if◌then◌else◌,
}
use dsh_work.Activity.Projection.{Snapshot}
use dsh_work.Activity.Bridge.{Bridge, checked, accept, disconnected}
use dsh_work.Release.Text.{Text, same, is_empty, cut, trim_prefix, trim_space}

abbrev pub frame_limit : ℕ
frame_limit = 2 ^ 20

-- The bytes of a code point.
pub width : ℕ → ℕ
width c = if ltb c 0x80 then 1 else if ltb c 0x800 then 2 else if ltb c 0x10000 then 3 else 4

-- `len`
unfoldable pub byte_count : Text → ℕ
unfolding width
byte_count [] = 0
byte_count (c ∷ s) = width c + byte_count s

pub data Failure : Type 0 where
  too_large read_failed end_of_stream : Failure

pub data Frame : Type 0 where
  event : Text → Text → Frame
  ping : Frame
  failed : Failure → Frame

-- How the scanner ends.
pub data Ending : Type 0 where
  broken closed cancelled : Ending

pub record Reader : Type 0 where
  pub event : Text
  pub payload : Text
  pub frame_bytes : ℕ

pub new_reader : Reader
new_reader = record { event = []; payload = []; frame_bytes = 0 }

-- `strings.TrimSuffix` of a newline.
pub trim_newline : Text → Text
trim_newline [] = []
trim_newline (c ∷ []) = if eqb c b'\n' then [] else c ∷ []
trim_newline (c ∷ d ∷ s) = c ∷ trim_newline (d ∷ s)

abbrev pub ping_word : Text
ping_word = b'p' ∷ b'i' ∷ b'n' ∷ b'g' ∷ []

abbrev pub event_word : Text
event_word = b'e' ∷ b'v' ∷ b'e' ∷ b'n' ∷ b't' ∷ []

abbrev pub data_word : Text
data_word = b'd' ∷ b'a' ∷ b't' ∷ b'a' ∷ []

abbrev pub snapshot_word : Text
snapshot_word = b's' ∷ b'n' ∷ b'a' ∷ b'p' ∷ b's' ∷ b'h' ∷ b'o' ∷ b't' ∷ []

pub is_comment : Text → Bool
is_comment [] = false
is_comment (c ∷ s) = eqb c b':'

-- The comment that keeps the connection alive; what is behind the colon is the tail of the line.
pub is_ping : Text → Bool
is_ping [] = false
is_ping (c ∷ s) = same (trim_space s) ping_word

-- The field and the value of a line.
pub field_of : Text → Option (Text × Text) → Text × Text
field_of line none = (line, [])
field_of line (some (field, value)) = (field, trim_prefix b' ' value)

pub take_field : Reader → Text × Text → Reader
take_field r (field, value) =
    if same field event_word
    then record r { event = value }
    else if same field data_word
    then record r { payload = r.payload ++ (value ++ b'\n' ∷ []) }
    else r

-- The frame at a blank line, in front of what follows.
pub at_blank : Reader → List Frame → List Frame
unfolding trim_newline
at_blank r rest =
    if not (is_empty r.event) || not (is_empty r.payload)
    then event r.event (trim_newline r.payload) ∷ rest
    else rest

pub at_end : Ending → List Frame
at_end broken = failed read_failed ∷ []
at_end closed = failed end_of_stream ∷ []
at_end cancelled = []

-- The line counted.
pub count : Reader → Text → Reader
unfolding byte_count
count r line = record r { frame_bytes = r.frame_bytes + (byte_count line + 1) }

-- One round of the loop, given the rounds after it.
pub read_line : Reader → Text → (Reader → List Frame) → List Frame
unfolding at_blank is_comment is_ping field_of take_field new_reader
read_line r line onward =
    if ltb frame_limit r.frame_bytes
    then failed too_large ∷ []
    else if is_empty line
    then at_blank r (onward new_reader)
    else if is_comment line
    then (if is_ping line then ping ∷ onward r else onward r)
    else onward (take_field r (field_of line (cut b':' line)))

-- `readActivityFrames`: the frames that it writes as long as they are taken.
pub read_frames : List Text → Ending → Reader → List Frame
unfolding count read_line at_end
read_frames [] ending r = at_end ending
read_frames (line ∷ rest) ending r = read_line (count r line) line (read_frames rest ending)

-- What the stream has done: the bridge, and whether a snapshot was taken.
abbrev pub Received : Type 0
Received = Bridge × Bool

-- A snapshot that is valid is accepted; an invalid one ends the stream.
pub take_checked : Option Snapshot → String → Bridge → Bool → (Bridge → Bool → Received) → Received
take_checked none captured b got onward = (b, got)
take_checked (some s) captured b got onward = onward (accept b captured s) true

pub take_decoded : Option Snapshot → String → Bridge → Bool → (Bridge → Bool → Received) → Received
unfolding take_checked
take_decoded none captured b got onward = (b, got)
take_decoded (some s) captured b got onward =
    take_checked (checked s captured) captured b got onward

module _ (decode : Text → Option Snapshot) where
  -- One round of the loop of `receiveActivity`.
  pub take_frame : Frame → String → Bridge → Bool → (Bridge → Bool → Received) → Received
  unfolding take_decoded byte_count
  take_frame ping captured b got onward = onward b got
  take_frame (failed f) captured b got onward = (b, got)
  take_frame (event e payload) captured b got onward =
      if not (same e snapshot_word)
      then onward b got
      else if ltb frame_limit (byte_count payload)
      then (b, got)
      else take_decoded (decode payload) captured b got onward

  -- `receiveActivity`; where the frames end, its context or the silence timer has stopped it.
  pub receive_frames : List Frame → String → Bridge → Bool → Received
  unfolding take_frame
  receive_frames [] captured b got = (b, got)
  receive_frames (f ∷ rest) captured b got =
      take_frame f captured b got (receive_frames rest captured)

  -- One connection of the goroutine of `Start`, from its response to its end.
  pub observe : List Text → Ending → String → Bridge → Received
  unfolding read_frames new_reader receive_frames
  observe lines ending captured b =
      let (after, got) = receive_frames (read_frames lines ending new_reader) captured b false in
      (disconnected after captured, got)
