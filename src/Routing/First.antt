-- ===== src/Routing/First.antt =====
-- Which rule the router takes.
use ponko.Common.{
  String, ◌≡◌, refl, ◌∙◌, ap, ◌↔◌, List, [], ◌∷◌, ◌++◌, Bool, true, false, ◌&&◌, ◌||◌, ◌==◌, eq_iff,
  eq_refl, arith, All, if◌then◌else◌,
}
use ponko.Config.{Rule}
use ponko.Effect.{ok}
use ponko.Routing.{member, matches_all, match_rules}

-- The label stands somewhere in the list.
abbrev pub IsLabel : String → List String → Type 0
IsLabel l set = (before : List String) × (after : List String) × (set ≡ before ++ l ∷ after)

abbrev pub Matches : List String → Rule → Type 0
Matches issue_labels rule = All (λ l. IsLabel l issue_labels) rule.labels

member-IsLabel : (l : String) (xs : List String) → member l xs ≡ true → IsLabel l xs
unfolding member
member-IsLabel l [] h = cc
member-IsLabel l (x ∷ xs) h = go (x == l) refl h (member-IsLabel l xs)
  where
    go :
        (b : Bool)
        → (x == l) ≡ b
        → (b || member l xs) ≡ true
        → (member l xs ≡ true → IsLabel l xs)
        → IsLabel l (x ∷ xs)
    go true e h rest = ([], xs, ap (λ y. y ∷ xs) ((eq_iff x l).0 e))
    go false e h rest =
        let (before, after, same) = rest h in (x ∷ before, after, ap (λ ys. x ∷ ys) same)

member-append : (l : String) (before after : List String) → member l (before ++ l ∷ after) ≡ true
unfolding member
member-append l [] after = ap (λ b. b || member l after) (eq_refl l)
member-append l (x ∷ xs) after = go (x == l) (member-append l xs after)
  where
    go : (b : Bool) {c : Bool} → c ≡ true → (b || c) ≡ true
    go true h = refl
    go false h = h

IsLabel-member : (l : String) (xs : List String) → IsLabel l xs → member l xs ≡ true
IsLabel-member l xs (before, after, same) = ap (member l) same ∙ member-append l before after

matches_all-All :
    (required set : List String)
    → matches_all required set ≡ true
    → All (λ l. IsLabel l set) required
unfolding matches_all
matches_all-All [] set h = tt
matches_all-All (l ∷ required) set h =
    go (member l set) refl (matches_all required set) refl h (matches_all-All required set)
  where
    go :
        (a : Bool)
        → member l set ≡ a
        → (b : Bool) → matches_all required set ≡ b
        → (a && b) ≡ true
        → (matches_all required set ≡ true → All (λ x. IsLabel x set) required)
        → IsLabel l set × All (λ x. IsLabel x set) required
    go true e true f h rest = (member-IsLabel l set e, rest f)
    go true e false f h rest = cc
    go false e b f h rest = cc

All-matches_all :
    (required set : List String)
    → All (λ l. IsLabel l set) required
    → matches_all required set ≡ true
unfolding matches_all
All-matches_all [] set a = refl
All-matches_all (l ∷ required) set (h, a) =
    ground (arith, IsLabel-member l set h, All-matches_all required set a)

not_Matches :
    (rule : Rule) (set : List String) → matches_all rule.labels set ≡ false → ¬ Matches set rule
not_Matches rule set e m = let t = All-matches_all rule.labels set m in cc

-- The first rule of the list that matches.
abbrev pub IsFirst : List Rule → List String → String → Type 0
IsFirst rules set workflow =
    (before : List Rule) × (rule : Rule) × (after : List Rule) × (rules ≡ before ++ rule ∷ after)
    × All (λ r. ¬ Matches set r) before
    × Matches set rule
    × (rule.workflow ≡ workflow)

match_rules_sound :
    (rules : List Rule) (set : List String) (workflow : String)
    → match_rules rules set ≡ ok workflow
    → IsFirst rules set workflow
unfolding match_rules
match_rules_sound [] set workflow h = cc
match_rules_sound (r ∷ rs) set workflow h =
    go (matches_all r.labels set) refl h (match_rules_sound rs set workflow)
  where
    go :
        (b : Bool)
        → matches_all r.labels set ≡ b
        → (if b then ok r.workflow else match_rules rs set) ≡ ok workflow
        → (match_rules rs set ≡ ok workflow → IsFirst rs set workflow)
        → IsFirst (r ∷ rs) set workflow
    go true e h rest = ([], r, rs, refl, tt, matches_all-All r.labels set e, cc)
    go false e h rest =
        let (before, rule, after, same, none_before, matches, name) = rest h in
        (
          r ∷ before,
          rule,
          after,
          ap (λ xs. r ∷ xs) same,
          (not_Matches r set e, none_before),
          matches,
          name,
        )

match_rules_complete :
    (before : List Rule) (rule : Rule) (after : List Rule) (set : List String)
    → All (λ r. ¬ Matches set r) before
    → Matches set rule
    → match_rules (before ++ rule ∷ after) set ≡ ok rule.workflow
unfolding match_rules
match_rules_complete [] rule after set n m =
    ap (λ b. if b then ok rule.workflow else match_rules after set)
      (All-matches_all rule.labels set m)
match_rules_complete (r ∷ before) rule after set (misses, n) m =
    go (matches_all r.labels set) refl (match_rules_complete before rule after set n m)
  where
    go :
        (b : Bool)
        → matches_all r.labels set ≡ b
        → match_rules (before ++ rule ∷ after) set ≡ ok rule.workflow
        → (if b then ok r.workflow else match_rules (before ++ rule ∷ after) set) ≡ ok rule.workflow
    go true e h = absurd (misses (matches_all-All r.labels set e))
    go false e h = h

-- Match names a workflow exactly when it is that of the first rule all of whose labels are labels of
-- the issue.
pub match_rules-IsFirst :
    (rules : List Rule) (issue_labels : List String) (workflow : String)
    → (match_rules rules issue_labels ≡ ok workflow) ↔ IsFirst rules issue_labels workflow
match_rules-IsFirst rules set workflow = (
  match_rules_sound rules set workflow,
  λ (before, rule, after, same, none_before, matches, name).
      ap (λ rs. match_rules rs set) same
      ∙ match_rules_complete before rule after set none_before matches
      ∙ ap ok name,
)
