-- ===== src/Intake/Verdict.antt =====
-- The verdict of an issue's discussion.
use ponko.Common.{
  ℕ, zero, suc, String, ◌≡◌, refl, List, [], ◌∷◌, true, false, get_elem?, take, length, ap, ◌∙◌,
  sym,
}
use ponko.Orchestrator.{Approval, waiting, approved, Label}
use ponko.Config.{Config}
use ponko.Intake.{carries, approval_label, command, or_else, command_at, scan_comments, judge}

module _ (trim_space : String → String) where
  -- The verdict after the comments are read in the order they were written: a command replaces the
  -- verdict before it, any other comment leaves it.
  abbrev pub after_comments : Approval → List String → Approval
  after_comments verdict [] = verdict
  after_comments verdict (c ∷ comments) =
      after_comments (or_else verdict (command trim_space c)) comments

  after_comments-take :
      (v : Approval) (n : ℕ) (cs : List String)
      → after_comments v (take (suc n) cs)
        ≡ or_else (after_comments v (take n cs)) (command_at trim_space (get_elem? cs n))
  after_comments-take v zero [] = refl
  after_comments-take v (suc n) [] = refl
  after_comments-take v zero (c ∷ cs) = refl
  after_comments-take v (suc n) (c ∷ cs) =
      after_comments-take (or_else v (command trim_space c)) n cs

  take-length : (cs : List String) → take (length cs) cs ≡ cs
  take-length [] = refl
  take-length (c ∷ cs) = ap (λ x. c ∷ x) (take-length cs)

  scan_comments-take :
      (n : ℕ) (cs : List String)
      → scan_comments trim_space n cs ≡ after_comments waiting (take n cs)
  unfolding scan_comments
  scan_comments-take zero cs = refl
  scan_comments-take (suc n) cs =
      ap (λ v. or_else v (command_at trim_space (get_elem? cs n))) (scan_comments-take n cs)
      ∙ sym (after_comments-take waiting n cs)

  -- An issue with the label of the gate is approved, whatever its comments say. Any other issue has
  -- the verdict of reading its comments in the order they were written, where a command replaces the
  -- verdict before it: the latest command counts, and without one the issue waits.
  pub judge-after_comments :
      (cfg : Config) (comments : List String) (labels : List Label)
      → (carries (approval_label cfg) labels ≡ true
          → judge trim_space cfg (comments, labels) ≡ approved)
        × (carries (approval_label cfg) labels ≡ false
            → judge trim_space cfg (comments, labels) ≡ after_comments waiting comments)
  unfolding judge
  judge-after_comments cfg comments labels = (
    λ labelled. rw labelled refl,
    λ plain. rw plain (
        scan_comments-take (length comments) comments
        ∙ ap (after_comments waiting) (take-length comments)),
  )
