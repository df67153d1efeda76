-- ===== src/Web/Sse.antt =====
-- apps/web/src/api/sse.ts: the event stream of the browser, cut into frames and read line by line.
pub mod Frames
pub mod Crlf
use finlytic_ecosystem.Prelude.{
  ℕ, zero, suc, Bool, true, false, not, ◌&&◌, ◌||◌, Option, none, some, List, [], ◌∷◌, ◌++◌,
  if◌then◌else◌, ◌==◌, length,
}
use finlytic_ecosystem.Prelude.Text.{Text, codes, text_eq, starts_with}
use finlytic_ecosystem.Prelude.Split.{split, parts_list, join}

pub record SseFrame : Type 0 where
  pub event : Option Text
  pub data_text : Option Text

abbrev put_before : ℕ → Option (Text × Text) → Option (Text × Text)
put_before a none = none
put_before a (some (frame, rest)) = some (a ∷ frame, rest)

-- Before and behind the first FRAME_SEPARATOR: `indexOf` and the two slices.
unfoldable pub cut : Text → Option (Text × Text)
cut [] = none
cut (a ∷ []) = none
cut (a ∷ b ∷ s) =
    let later = cut (b ∷ s) in if a == 10 && b == 10 then some ([], s) else put_before a later

abbrev add_frame : Text → List Text × Text → List Text × Text
add_frame frame found = (frame ∷ found.0, found.1)

-- The while loop: every round takes a separator off.
unfoldable pub frames_within : ℕ → Text → List Text × Text
frames_within zero rest = ([], rest)
frames_within (suc n) rest = elim (cut rest) [
  | none ↦ ([], rest)
  | some (frame, behind) ↦ add_frame frame (frames_within n behind)
]

unfoldable pub split_frames : Text → List Text × Text
split_frames buffer = frames_within (length buffer) buffer

-- `line.endsWith('\r') ? line.slice(0, -1) : line`
unfoldable pub without_cr : Text → Text
without_cr [] = []
without_cr (a ∷ []) = if a == 13 then [] else a ∷ []
without_cr (a ∷ b ∷ s) = a ∷ without_cr (b ∷ s)

-- `value.startsWith(' ') ? value.slice(1) : value`
abbrev pub without_space : Text → Text
without_space [] = []
without_space (a ∷ s) = if a == 32 then s else a ∷ s

abbrev is_skipped : Text → Bool
is_skipped [] = true
is_skipped (a ∷ s) = a == b':'

-- The parts behind the first colon, with the later colons put back.
abbrev pub value_of : List Text → Text
value_of rest = without_space (join b':' rest)

-- What a frame has given so far: the event, and the data lines.
abbrev pub Read : Type 0
Read = Option Text × List Text

abbrev pub set_field : Text → Text → Read → Read
set_field field value read =
    if text_eq field (codes "event")
    then (some value, read.1)
    else if text_eq field (codes "data")
    then (read.0, read.1 ++ (value ∷ []))
    else read

unfoldable pub read_line : Text → Read → Read
read_line line read =
    if is_skipped line
    then read
    else set_field (split b':' line).0 (value_of (split b':' line).1) read

unfoldable pub read_lines : List Text → Read → Read
read_lines [] read = read
read_lines (raw ∷ lines) read = read_lines lines (read_line (without_cr raw) read)

abbrev pub frame_of : Read → Option SseFrame
frame_of (event, []) = none
frame_of (event, d ∷ ds) = some (record { event = event; data_text = some (join 10 (d ∷ ds)) })

unfoldable pub parse_frame : Text → Option SseFrame
parse_frame frame = frame_of (read_lines (parts_list (split 10 frame)) (none, []))
