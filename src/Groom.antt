-- ===== src/Groom.antt =====
-- internal/groom/state.go: what the grooming of an issue needs next. The reading of the files of
-- .context/groom-consume is left out; `roles` are the values of the map.
use ponko.Common.{
  String, List, [], ◌∷◌, Option, none, some, Bool, true, false, ◌||◌, not, ◌==◌, ℕ, if◌then◌else◌,
}

pub record Role : Type 0 where
  pub status : String

pub record IssueState : Type 0 where
  pub roles : List Role
  pub state : String
  pub repo : String
  pub title : String
  pub number : ℕ

unfoldable pub is_terminal : IssueState → Bool
is_terminal s = s.state == "groomed" || s.state == "blocked" || s.state == "has_gaps"

unfoldable pub all_done : List Role → Bool
all_done [] = true
all_done (r ∷ rs) =
    let rest = all_done rs in
    if r.status == "complete" || r.status == "skipped" then rest else false

abbrev no_roles : List Role → Bool
no_roles [] = true
no_roles (r ∷ rs) = false

unfoldable pub needs_synthesis : IssueState → Bool
unfolding all_done
needs_synthesis s =
    if not (s.state == "evaluating") || no_roles s.roles then false else all_done s.roles

unfoldable pub next_actionable_issue : List IssueState → Option IssueState
unfolding is_terminal
next_actionable_issue [] = none
next_actionable_issue (s ∷ ss) = if not (is_terminal s) then some s else next_actionable_issue ss

pub record BatchItem : Type 0 where
  pub repo : String
  pub consume_status : String
  pub issue : ℕ

pub record BatchCursor : Type 0 where
  pub project : String
  pub items : List BatchItem
  pub current_index : ℕ

unfoldable pub has_pending : List BatchItem → Bool
has_pending [] = false
has_pending (item ∷ items) = if item.consume_status == "pending" then true else has_pending items

unfoldable pub has_remaining_items : BatchCursor → Bool
unfolding has_pending
has_remaining_items b = has_pending b.items
