-- ===== src/Common/Text.antt =====
-- Go's functions on strings, by byte positions.
use Prim.Native.Nat.{ℕ, zero, suc, ◌-◌}
use Prim.Native.String.{String, len, slice}
use mathlib.Core.Bool.{Bool, ◌&&◌}
use mathlib.Core.List.{List, [], ◌∷◌}
use mathlib.Core.Option.{Option, none, some}
use text.Mathlib.Text.{◌==◌, starts_with, find?}
use ponko.Common.Tests.{if◌then◌else◌, leb}

-- strings.HasSuffix
unfoldable pub ends_with : String → String → Bool
ends_with s t = leb (len t) (len s) && slice s (len s - len t) (len s) == t

-- The text after the first line, or the whole text of one line.
unfoldable pub after_newline : String → String
after_newline s = elim (find? s "\n") [ none ↦ s | some i ↦ slice s (suc i) (len s) ]

-- Without the last k bytes.
abbrev pub drop_last : ℕ → String → String
drop_last k s = slice s 0 (len s - k)

unfoldable pub first_of : List String → String → Option String
first_of [] s = none
first_of (t ∷ ts) s = if starts_with s t then some t else first_of ts s

unfoldable pub last_of : List String → String → Option String
unfolding ends_with
last_of [] s = none
last_of (t ∷ ts) s = if ends_with s t then some t else last_of ts s

-- Each round takes one of the characters off, so as many rounds as bytes are enough.
unfoldable pub trim_left_rounds : ℕ → List String → String → String
unfolding first_of
trim_left_rounds zero cutset s = s
trim_left_rounds (suc n) cutset s = elim (first_of cutset s) [
  | none ↦ s
  | some t ↦ trim_left_rounds n cutset (slice s (len t) (len s))
]

unfoldable pub trim_right_rounds : ℕ → List String → String → String
unfolding last_of ends_with
trim_right_rounds zero cutset s = s
trim_right_rounds (suc n) cutset s = elim (last_of cutset s) [
  | none ↦ s
  | some t ↦ trim_right_rounds n cutset (drop_last (len t) s)
]

-- strings.TrimRight with a cutset of one character
unfoldable pub trim_right : String → String → String
unfolding trim_right_rounds last_of ends_with
trim_right s cut = trim_right_rounds (len s) (cut ∷ []) s

-- The characters with the property White_Space.
abbrev pub spaces : List String
spaces =
    "\t" ∷ "\n" ∷ "\u{b}" ∷ "\u{c}" ∷ "\r" ∷ " " ∷ "\u{85}" ∷ "\u{a0}" ∷ "\u{1680}" ∷ "\u{2000}"
    ∷ "\u{2001}" ∷ "\u{2002}" ∷ "\u{2003}" ∷ "\u{2004}" ∷ "\u{2005}" ∷ "\u{2006}" ∷ "\u{2007}"
    ∷ "\u{2008}" ∷ "\u{2009}" ∷ "\u{200a}" ∷ "\u{2028}" ∷ "\u{2029}" ∷ "\u{202f}" ∷ "\u{205f}"
    ∷ "\u{3000}" ∷ []

-- strings.TrimSpace
unfoldable pub trim_space : String → String
unfolding trim_left_rounds trim_right_rounds first_of last_of ends_with
trim_space s = let t = trim_left_rounds (len s) spaces s in trim_right_rounds (len t) spaces t
