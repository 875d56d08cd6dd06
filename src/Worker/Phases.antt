-- ===== src/Worker/Phases.antt =====
-- The order in which the phases of a workflow are worked through.
use ponko.Common.{
  ℕ, zero, suc, ◌≡◌, refl, ◌≢◌, List, [], ◌∷◌, some, false, All, subst, get_elem?, is_empty,
  eq_refl, eq-of_ne,
}
use ponko.Config.{Phase, Workflow}
use ponko.Worker.{phase_named, current_phase, phase_after, next_phase}

-- No phase has the name of a later one.
abbrev pub HasDistinctNames : List Phase → Type 0
HasDistinctNames [] = Unit
HasDistinctNames (p ∷ phases) = All (λ q. p.name ≢ q.name) phases × HasDistinctNames phases

All-get_elem? :
    (P : Phase → Type 0) (ps : List Phase) (i : ℕ) (p : Phase)
    → All P ps
    → get_elem? ps i ≡ some p
    → P p
All-get_elem? P [] i p a h = cc
All-get_elem? P (q ∷ ps) zero p (x, a) h = let same : q ≡ p = cc in subst P same x
All-get_elem? P (q ∷ ps) (suc i) p (x, a) h = All-get_elem? P ps i p a h

phase_named-get_elem? :
    (ps : List Phase) (i : ℕ) (p : Phase)
    → HasDistinctNames ps
    → get_elem? ps i ≡ some p
    → phase_named p.name ps ≡ some p
unfolding phase_named
phase_named-get_elem? [] i p d h = cc
phase_named-get_elem? (q ∷ ps) zero p d h = let same : q ≡ p = cc in rw (same, eq_refl p.name) refl
phase_named-get_elem? (q ∷ ps) (suc i) p (fresh, d) h =
    let ne = All-get_elem? (λ x. q.name ≢ x.name) ps i p fresh h in
    rw (eq-of_ne q.name p.name ne) (phase_named-get_elem? ps i p d h)

phase_after-get_elem? :
    (ps : List Phase) (i : ℕ) (p : Phase)
    → HasDistinctNames ps
    → get_elem? ps i ≡ some p
    → phase_after p.name ps ≡ get_elem? ps (suc i)
unfolding phase_after
phase_after-get_elem? [] i p d h = cc
phase_after-get_elem? (q ∷ []) zero p d h = refl
phase_after-get_elem? (q ∷ []) (suc i) p d h = cc
phase_after-get_elem? (q ∷ r ∷ ps) zero p d h =
    let same : q ≡ p = cc in rw (same, eq_refl p.name) refl
phase_after-get_elem? (q ∷ r ∷ ps) (suc i) p (fresh, d) h =
    let ne = All-get_elem? (λ x. q.name ≢ x.name) (r ∷ ps) i p fresh h in
    rw (eq-of_ne q.name p.name ne) (phase_after-get_elem? (r ∷ ps) i p d h)

-- In a workflow whose phases have distinct names, the name of the phase at a position, if it is not
-- empty, leads back to that phase, and the phase after it is the one at the next position, if there
-- is one.
pub next_phase-get_elem? :
    (wf : Workflow) (i : ℕ) (p : Phase)
    → HasDistinctNames wf.phases
    → is_empty p.name ≡ false
    → get_elem? wf.phases i ≡ some p
    → (current_phase wf p.name ≡ some p) × (next_phase wf p.name ≡ get_elem? wf.phases (suc i))
unfolding current_phase next_phase
next_phase-get_elem? wf i p distinct named h = (
  rw named (phase_named-get_elem? wf.phases i p distinct h),
  phase_after-get_elem? wf.phases i p distinct h,
)
