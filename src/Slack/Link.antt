-- ===== src/Slack/Link.antt =====
-- internal/slack/url.go: the channel and the timestamp of a link to a thread. url.Parse is a parameter
-- that gives the host and the path.
use Prim.Native.String.{len, slice}
use ponko.Common.{
  ℕ, zero, suc, ◌-◌, String, List, [], ◌∷◌, Option, none, some, Bool, true, false, not, ◌==◌, ◌⧺◌,
  is_empty, leb, starts_with, ends_with, trim_right, first_of, find?, if◌then◌else◌,
}
use ponko.Effect.{errorf, Result, ok, err}

abbrev pub digits : List String
digits = "0" ∷ "1" ∷ "2" ∷ "3" ∷ "4" ∷ "5" ∷ "6" ∷ "7" ∷ "8" ∷ "9" ∷ []

-- Each round takes one digit off, so as many rounds as bytes are enough. unicode.IsDigit also takes
-- the digits of other scripts.
unfoldable pub all_digits : ℕ → String → Bool
unfolding first_of
all_digits zero s = is_empty s
all_digits (suc n) s =
    if is_empty s
    then true
    else elim (first_of digits s) [ none ↦ false | some d ↦ all_digits n (slice s (len d) (len s)) ]

-- strings.Trim(path, "/") from the left.
unfoldable pub trim_left_slash : ℕ → String → String
trim_left_slash zero s = s
trim_left_slash (suc n) s = if starts_with s "/" then trim_left_slash n (slice s 1 (len s)) else s

-- strings.Split(s, "/")
unfoldable pub split_rounds : ℕ → String → List String
split_rounds zero s = s ∷ []
split_rounds (suc n) s = elim (find? s "/") [
  | none ↦ s ∷ []
  | some i ↦ slice s 0 i ∷ split_rounds n (slice s (suc i) (len s))
]

unfoldable pub path_parts : String → List String
unfolding trim_left_slash trim_right split_rounds
path_parts path =
    let trimmed = trim_right (trim_left_slash (len path) path) "/" in
    split_rounds (len trimmed) trimmed

unfoldable pub with_decimal : String → String
with_decimal digits =
    slice digits 0 (len digits - 6) ⧺ "." ⧺ slice digits (len digits - 6) (len digits)

unfoldable pub parse_timestamp : String → String → Result (String × String)
unfolding all_digits with_decimal
parse_timestamp channel raw =
    if not (starts_with raw "p")
    then err (errorf ("timestamp must start with 'p': " ⧺ raw))
    else let rest = slice raw 1 (len raw) in
      if not (all_digits (len rest) rest)
      then err (errorf ("non-numeric timestamp: " ⧺ rest))
      else if leb (len rest) 6
      then err (errorf ("timestamp too short: " ⧺ rest))
      else ok (channel, with_decimal rest)

abbrev of_parts : String → List String → Result (String × String)
of_parts path (archives ∷ channel ∷ raw ∷ more) =
    if archives == "archives"
    then parse_timestamp channel raw
    else err (errorf ("unexpected path format: " ⧺ path))
of_parts path _ = err (errorf ("unexpected path format: " ⧺ path))

unfoldable pub parse_thread_url :
    (String → Option (String × String)) → String → Result (String × String)
unfolding parse_timestamp path_parts ends_with
parse_thread_url url_parse raw = go (url_parse raw)
  where
    go : Option (String × String) → Result (String × String)
    go none = err (errorf ("invalid URL: " ⧺ raw))
    go (some (host, path)) =
        if is_empty host
        then err (errorf ("invalid URL: " ⧺ raw))
        else if not (ends_with host ".slack.com")
        then err (errorf ("not a Slack URL: " ⧺ host))
        else of_parts path (path_parts path)
