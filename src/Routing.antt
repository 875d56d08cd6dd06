-- ===== src/Routing.antt =====
-- internal/routing/router.go. The set of the labels is the list that it is made from.
pub mod First
use ponko.Common.{String, List, [], ◌∷◌, Bool, true, false, ◌&&◌, ◌||◌, ◌==◌, if◌then◌else◌}
use ponko.Config.{Rule}
use ponko.Effect.{Err, external, Result, ok, err}

abbrev pub no_match : Err
no_match = external "no matching routing rule"

unfoldable pub member : String → List String → Bool
member l [] = false
member l (x ∷ xs) = x == l || member l xs

unfoldable pub matches_all : List String → List String → Bool
unfolding member
matches_all [] set = true
matches_all (l ∷ required) set = member l set && matches_all required set

unfoldable pub match_rules : List Rule → List String → Result String
unfolding matches_all member
match_rules [] issue_labels = err no_match
match_rules (rule ∷ rules) issue_labels =
    if matches_all rule.labels issue_labels
    then ok rule.workflow
    else match_rules rules issue_labels
