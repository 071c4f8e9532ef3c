-- ===== src/Slurm/State/Laws.antt =====
-- The tokens of Slurm's states, and their ranks (crates/beampipe-domain/src/slurm.rs).
use Prim.Native.Char.{Char}
use mathlib.Core.Path.{subst}
use beampipe_core_v.Common.{
  suc, ap, String, ◌≡◌, refl, sym, ◌⊎◌, inl, inr, ◌≤◌, ◌<◌, true, false, List, [], ◌∷◌, map, arith,
  leb, ltb, ◌==◌, by_test, if◌then◌else◌, Bool-cases,
}
use beampipe_core_v.Common.Text.{is_empty, trim, to_uppercase, starts_with}
use beampipe_core_v.Common.Lists.{length, All}
use beampipe_core_v.Slurm.State.{
  state_rank, is_one_of, failure_names, revocation_names, activity_names, hold_names,
  normalize_one_token, max_by_rank, highest, head_word, compound_parts, normalize_state,
}

-- The seven tokens.
abbrev pub tokens : List String
tokens = "UNKNOWN" ∷ "PENDING" ∷ "RUNNING" ∷ "COMPLETED" ∷ "CANCELLED" ∷ "TIMEOUT" ∷ "FAILED" ∷ []

abbrev pub OneOf : String → List String → Type 0
OneOf s [] = ⊥
OneOf s (name ∷ names) = (s ≡ name) ⊎ OneOf s names

abbrev pub IsToken : String → Type 0
IsToken s = OneOf s tokens

unknown-IsToken : IsToken "UNKNOWN"
unknown-IsToken = inl refl

pending-IsToken : IsToken "PENDING"
pending-IsToken = inr (inl refl)

running-IsToken : IsToken "RUNNING"
running-IsToken = inr (inr (inl refl))

completed-IsToken : IsToken "COMPLETED"
completed-IsToken = inr (inr (inr (inl refl)))

cancelled-IsToken : IsToken "CANCELLED"
cancelled-IsToken = inr (inr (inr (inr (inl refl))))

timeout-IsToken : IsToken "TIMEOUT"
timeout-IsToken = inr (inr (inr (inr (inr (inl refl)))))

failed-IsToken : IsToken "FAILED"
failed-IsToken = inr (inr (inr (inr (inr (inr (inl refl))))))

normalize_one_token-IsToken : (token : String) → IsToken (normalize_one_token token)
unfolding normalize_one_token
normalize_one_token-IsToken token =
    by_test IsToken (is_empty (trim token)) (λ _. unknown-IsToken)
      λ _.
        by_test IsToken (starts_with (trim token) "CANCELLED") (λ _. cancelled-IsToken)
          λ _.
            by_test IsToken (trim token == "COMPLETED") (λ _. completed-IsToken)
              λ _.
                by_test IsToken (trim token == "PENDING") (λ _. pending-IsToken)
                  λ _.
                    by_test IsToken (trim token == "RUNNING") (λ _. running-IsToken)
                      λ _.
                        by_test IsToken (is_one_of failure_names (trim token)) (λ _. failed-IsToken)
                          λ _.
                            by_test IsToken (trim token == "TIMEOUT") (λ _. timeout-IsToken)
                              λ _.
                                by_test IsToken (is_one_of revocation_names (trim token))
                                  (λ _. cancelled-IsToken)
                                  λ _.
                                    by_test IsToken (is_one_of activity_names (trim token))
                                      (λ _. running-IsToken)
                                      λ _.
                                        by_test IsToken (is_one_of hold_names (trim token))
                                          (λ _. pending-IsToken) λ _. unknown-IsToken

-- The maximum is one of the elements, and no element has a higher rank.
max_by_rank-OneOf : (best : String) (ts : List String) → OneOf (max_by_rank best ts) (best ∷ ts)
unfolding max_by_rank
max_by_rank-OneOf best [] = inl refl
max_by_rank-OneOf best (t ∷ ts) = ground (arith, max_by_rank-OneOf best ts, max_by_rank-OneOf t ts)

-- No element has a higher rank than `m`.
abbrev pub RankBelow : List String → String → Type 0
RankBelow ts m = All (λ t. state_rank t ≤ state_rank m) ts

max_by_rank_step :
    (best t : String) (ts : List String)
    → max_by_rank best (t ∷ ts)
      ≡ max_by_rank (if leb (state_rank best) (state_rank t) then t else best) ts
unfolding max_by_rank
max_by_rank_step best t ts = refl

RankBelow-max_by_rank :
    (best : String) (ts : List String) → RankBelow (best ∷ ts) (max_by_rank best ts)
RankBelow-max_by_rank best [] = unfold max_by_rank in (omega arith, tt)
RankBelow-max_by_rank best (t ∷ ts) = elim (Bool-cases (leb (state_rank best) (state_rank t))) [
  | inl e ↦
      let ih = RankBelow-max_by_rank t ts in
      let m : max_by_rank best (t ∷ ts) ≡ max_by_rank t ts = rw (max_by_rank_step, e) in
      subst (RankBelow (best ∷ t ∷ ts)) (sym m) (ground arith, ih)
  | inr e ↦
      let ih = RankBelow-max_by_rank best ts in
      let m : max_by_rank best (t ∷ ts) ≡ max_by_rank best ts = rw (max_by_rank_step, e) in
      subst (RankBelow (best ∷ t ∷ ts)) (sym m) (ih.0, (ground arith, ih.1))
]

OneOf-IsToken : (s : String) (ts : List String) → All IsToken ts → OneOf s ts → IsToken s
OneOf-IsToken s [] h m = absurd m
OneOf-IsToken s (t ∷ ts) h (inl e) = rw e h.0
OneOf-IsToken s (t ∷ ts) h (inr m) = OneOf-IsToken s ts h.1 m

tokens-IsToken : (ps : List String) → All IsToken (map normalize_one_token ps)
tokens-IsToken [] = tt
tokens-IsToken (p ∷ ps) = (normalize_one_token-IsToken p, tokens-IsToken ps)

highest-IsToken : (ps : List String) → IsToken (highest (map normalize_one_token ps))
unfolding highest
highest-IsToken [] = unknown-IsToken
highest-IsToken (p ∷ ps) =
    OneOf-IsToken _ (map normalize_one_token (p ∷ ps)) (tokens-IsToken (p ∷ ps))
      (max_by_rank-OneOf (normalize_one_token p) (map normalize_one_token ps))

-- The highest of some tokens is one of them, and none has a higher rank.
abbrev pub IsHighest : String → List String → Type 0
IsHighest s ts = OneOf s ts × RankBelow ts s

highest-IsHighest : (ts : List String) → 0 < length ts → IsHighest (highest ts) ts
unfolding highest
highest-IsHighest [] h = absurd (omega arith)
highest-IsHighest (t ∷ ts) h = (max_by_rank-OneOf t ts, RankBelow-max_by_rank t ts)

length-map : (ps : List String) → length (map normalize_one_token ps) ≡ length ps
length-map [] = refl
length-map (p ∷ ps) = ap suc (length-map ps)

empty_text : (s : String) → is_empty s ≡ true → s ≡ ""
empty_text String.[] h = refl
empty_text (String.◌∷◌ c s) h = cc

module _ (upper : Char → String) where
  -- Whatever Slurm reports, and whatever Unicode does to its case, the normal form is one of the
  -- seven tokens.
  pub normalize_state-IsToken : (raw : String) → IsToken (normalize_state upper raw)
  unfolding normalize_state
  normalize_state-IsToken raw =
      by_test IsToken (is_empty (trim raw)) (λ _. unknown-IsToken)
        λ _.
          by_test IsToken (ltb 1 (length (compound_parts (to_uppercase upper (trim raw)))))
            (λ _. highest-IsToken (compound_parts (to_uppercase upper (trim raw))))
            λ _. normalize_one_token-IsToken (head_word (to_uppercase upper (trim raw)))

  normalize_state_token : (s : String) → IsToken s → normalize_state upper s ≡ s
  unfolding normalize_state
  normalize_state_token s (inl e) = rw e refl
  normalize_state_token s (inr (inl e)) = rw e refl
  normalize_state_token s (inr (inr (inl e))) = rw e refl
  normalize_state_token s (inr (inr (inr (inl e)))) = rw e refl
  normalize_state_token s (inr (inr (inr (inr (inl e))))) = rw e refl
  normalize_state_token s (inr (inr (inr (inr (inr (inl e)))))) = rw e refl
  normalize_state_token s (inr (inr (inr (inr (inr (inr (inl e))))))) = rw e refl
  normalize_state_token s (inr (inr (inr (inr (inr (inr (inr e))))))) = absurd e

  -- The normal form of a normal form is itself.
  pub normalize_state_idem :
      (raw : String) → normalize_state upper (normalize_state upper raw) ≡ normalize_state upper raw
  normalize_state_idem raw = normalize_state_token _ (normalize_state-IsToken raw)

  not_empty_of_compound :
      (raw : String)
      → 1 < length (compound_parts (to_uppercase upper (trim raw)))
      → is_empty (trim raw) ≡ false
  unfolding compound_parts to_uppercase
  not_empty_of_compound raw h = elim (Bool-cases (is_empty (trim raw))) [
    | inl e ↦ absurd (let k : 2 ≤ 0 = rw (empty_text (trim raw) e) at h in omega arith)
    | inr e ↦ e
  ]

  -- A compound state of more than one part is decided by its parts: it is the token of one of them,
  -- and no part's token has a higher rank.
  pub normalize_state_compound :
      (raw : String)
      → 1 < length (compound_parts (to_uppercase upper (trim raw)))
      → IsHighest
          (normalize_state upper raw)
          (map normalize_one_token (compound_parts (to_uppercase upper (trim raw))))
  unfolding normalize_state
  normalize_state_compound raw h =
      let parts : List String = compound_parts (to_uppercase upper (trim raw)) in
      let many : ltb 1 (length parts) ≡ true = ground arith in
      rw (not_empty_of_compound raw h, many)
        (highest-IsHighest (map normalize_one_token parts) (omega (arith, length-map parts)))
