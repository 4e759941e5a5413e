-- ===== src/Eval/Regression/Differences.antt =====
-- The bad cases of two reports, and the verdict on them (internal/eval/report_service.go).
use opspilot_go_dev_kit.Prelude.{
  ℕ, ◌+◌, String, ◌≡◌, ◌≢◌, inl, inr, refl, ap, subst, Bool, true, false, ◌&&◌, ◌||◌, not, List, [],
  ◌∷◌, ◌++◌, Permᴰ, perm_refl, Result, Result-cases, ok, err, ◌==◌, if◌then◌else◌, eqb, keep,
  length, arith, All, All-imp, keep_passes, Bool-cases,
}
use opspilot_go_dev_kit.Prelude.Floats.{Float64, float_lt, float_le, negate}
use opspilot_go_dev_kit.Eval.Types.{EvalReport, BadCase, EvalError, message, wrapped}
use opspilot_go_dev_kit.Eval.Store.{Store}
use opspilot_go_dev_kit.Eval.Store.Reports.{get_eval_report}
use opspilot_go_dev_kit.Eval.Reports.{Numerics}
use opspilot_go_dev_kit.Eval.Judge.{score_zero}
use opspilot_go_dev_kit.Eval.Regression.{
  ◌−◌, RegressionThresholds, RegressionResult, has_case, diff_bad_cases, overlap_eval_bad_cases,
  exceeds, classify_regression, regression_between, detect_regression, verdict_regression,
  verdict_improvement, verdict_stable,
}

-- The bad cases of the target that are new, and those that are not.
diff-overlap :
    (reference target : List BadCase)
    → length (diff_bad_cases reference target) + overlap_eval_bad_cases reference target
      ≡ length target
unfolding diff_bad_cases overlap_eval_bad_cases keep
diff-overlap reference [] = omega arith
diff-overlap reference (bc ∷ target) =
    let ih = diff-overlap reference target in
    elim (Bool-cases (has_case reference bc)) [
      | inl e ↦ rw e (omega (arith, ih))
      | inr e ↦ rw e (omega (arith, ih))
    ]

-- A regression by the number of new bad cases, whatever the scores are.
exceeds-verdict :
    (delta : Float64) (n : ℕ) (t : RegressionThresholds)
    → exceeds n t.new_failed_cases_max ≡ true
    → classify_regression delta n t ≡ verdict_regression
unfolding classify_regression
exceeds-verdict delta n t h =
    by_count
      (float_lt score_zero t.score_drop_threshold && float_le delta (negate t.score_drop_threshold))
      _ h
  where
    by_count :
        (by_score : Bool) (y : String) {by_number : Bool} {x : String}
        → by_number ≡ true
        → (if by_score || by_number then x else y) ≡ x
    by_count true y e = refl
    by_count false y e = rw e

improvement-verdict :
    (delta : Float64) (n : ℕ) (t : RegressionThresholds)
    → classify_regression delta n t ≡ verdict_improvement
    → n ≡ 0
unfolding classify_regression
improvement-verdict delta n t h = eqb_zero n (
    only_improvement
      ((float_lt score_zero t.score_drop_threshold
          && float_le delta (negate t.score_drop_threshold))
        || exceeds n t.new_failed_cases_max)
      (float_lt t.score_drop_threshold delta) (eqb n 0) h)
  where
    eqb_zero : (n : ℕ) → eqb n 0 ≡ true → n ≡ 0
    eqb_zero n e = ground arith

    regression_ne : ◌≢◌ {A = String} verdict_regression verdict_improvement
    regression_ne e = cc

    stable_ne : ◌≢◌ {A = String} verdict_stable verdict_improvement
    stable_ne e = cc

    only_improvement :
        (worse better none_new : Bool)
        → (if worse
            then verdict_regression
            else if better && none_new
            then verdict_improvement
            else verdict_stable)
          ≡ verdict_improvement
        → none_new ≡ true
    only_improvement true better none_new e = absurd (regression_ne e)
    only_improvement false true true e = refl
    only_improvement false true false e = absurd (stable_ne e)
    only_improvement false false none_new e = absurd (stable_ne e)

-- What a result says of the two reports.
pub record Describes (numerics : Numerics) (baseline candidate : EvalReport)
    (t : RegressionThresholds) (r : RegressionResult) : Type 0 where
  pub new_split :
      Permᴰ
        (r.new_bad_cases ++ keep (has_case baseline.bad_cases) candidate.bad_cases)
        candidate.bad_cases
  pub resolved_split :
      Permᴰ
        (r.resolved_bad_cases ++ keep (has_case candidate.bad_cases) baseline.bad_cases)
        baseline.bad_cases
  pub new_ones : All (λ bc. has_case baseline.bad_cases bc ≡ false) r.new_bad_cases
  pub resolved_ones : All (λ bc. has_case candidate.bad_cases bc ≡ false) r.resolved_bad_cases
  pub new_count :
      length r.new_bad_cases + overlap_eval_bad_cases baseline.bad_cases candidate.bad_cases
      ≡ length candidate.bad_cases
  pub resolved_count :
      length r.resolved_bad_cases + overlap_eval_bad_cases candidate.bad_cases baseline.bad_cases
      ≡ length baseline.bad_cases
  pub too_many :
      exceeds (length r.new_bad_cases) t.new_failed_cases_max ≡ true
      → r.verdict ≡ verdict_regression
  pub improved : r.verdict ≡ verdict_improvement → length r.new_bad_cases ≡ 0
  pub passed_delta : r.passed_items_delta ≡ candidate.passed_items − baseline.passed_items
  pub failed_delta : r.failed_items_delta ≡ candidate.failed_items − baseline.failed_items
  pub score_delta :
      r.average_score_delta ≡ numerics.subtract candidate.average_score baseline.average_score

-- A list is made up of the elements that fail a test and those that pass it.
keep_split :
    (p : BadCase → Bool) (xs : List BadCase) → Permᴰ (keep (λ x. not (p x)) xs ++ keep p xs) xs
unfolding keep
keep_split p [] = Permᴰ.nil
keep_split p (x ∷ xs) = elim (Bool-cases (p x)) [
  | inl e ↦ rw e (
      Permᴰ.trans (perm-middle x (keep (λ x. not (p x)) xs) (keep p xs))
        (Permᴰ.cons refl (keep_split p xs)))
  | inr e ↦ rw e (Permᴰ.cons refl (keep_split p xs))
]
  where
    perm-middle : (x : BadCase) (xs ys : List BadCase) → Permᴰ (xs ++ x ∷ ys) (x ∷ (xs ++ ys))
    perm-middle x [] ys = perm_refl (x ∷ ys)
    perm-middle x (y ∷ xs) ys =
        Permᴰ.trans (Permᴰ.cons refl (perm-middle x xs ys)) (Permᴰ.swap refl refl)

not-true : (b : Bool) → not b ≡ true → b ≡ false
not-true b h = ground arith

diff_not_in :
    (reference target : List BadCase)
    → All (λ bc. has_case reference bc ≡ false) (diff_bad_cases reference target)
unfolding diff_bad_cases
diff_not_in reference target =
    All-imp (λ bc. not (has_case reference bc) ≡ true) (λ bc. has_case reference bc ≡ false) _
      (λ bc h. not-true (has_case reference bc) h)
      (keep_passes (λ bc. not (has_case reference bc)) target)

between-Describes :
    (numerics : Numerics) (b c : String) (t : RegressionThresholds)
    (baseline candidate : EvalReport)
    → Describes numerics baseline candidate t (regression_between numerics b c t baseline candidate)
unfolding regression_between
between-Describes numerics b c t baseline candidate =
    let news = diff_bad_cases baseline.bad_cases candidate.bad_cases in
    let delta = numerics.subtract candidate.average_score baseline.average_score in
    record {
      new_split = keep_split (has_case baseline.bad_cases) candidate.bad_cases;
      resolved_split = keep_split (has_case candidate.bad_cases) baseline.bad_cases;
      new_ones = diff_not_in baseline.bad_cases candidate.bad_cases;
      resolved_ones = diff_not_in candidate.bad_cases baseline.bad_cases;
      new_count = diff-overlap baseline.bad_cases candidate.bad_cases;
      resolved_count = diff-overlap candidate.bad_cases baseline.bad_cases;
      too_many = exceeds-verdict delta (length news) t;
      improved = improvement-verdict delta (length news) t;
      passed_delta = refl;
      failed_delta = refl;
      score_delta = refl;
    }

abbrev result_or : RegressionResult → Result EvalError RegressionResult → RegressionResult
result_or d (ok r) = r
result_or d (err _) = d

pub detect_regression-Describes :
    (numerics : Numerics) (b c : String) (t : RegressionThresholds) (s : Store)
    (r : RegressionResult)
    → detect_regression numerics b c t s ≡ ok r
    → (baseline : EvalReport) × (candidate : EvalReport) × (get_eval_report b s ≡ ok baseline)
      × (get_eval_report c s ≡ ok candidate)
      × Describes numerics baseline candidate t r
unfolding detect_regression
detect_regression-Describes numerics b c t s r e = elim (Bool-cases (b == "")) [
  | inl f ↦
      let impossible : err (message "baseline_report_id is required") ≡ ok r =
        (rw (detect_regression, f) at e) in
      absurd cc
  | inr f ↦ elim (Bool-cases (c == "")) [
    | inl g ↦
        let impossible : err (message "candidate_report_id is required") ≡ ok r =
          (rw (detect_regression, f, g) at e) in
        absurd cc
    | inr g ↦ elim (Result-cases (get_eval_report b s)) [
      | inr (x, h) ↦
          let impossible : err (wrapped "load baseline report" x) ≡ ok r =
            (rw (detect_regression, f, g, h) at e) in
          absurd cc
      | inl (baseline, h) ↦ elim (Result-cases (get_eval_report c s)) [
        | inr (x, k) ↦
            let impossible : err (wrapped "load candidate report" x) ≡ ok r =
              (rw (detect_regression, f, g, h, k) at e) in
            absurd cc
        | inl (candidate, k) ↦
            let between = regression_between numerics b c t baseline candidate in
            let made : ok between ≡ ok r = (rw (detect_regression, f, g, h, k) at e) in
            (
              baseline,
              candidate,
              h,
              k,
              subst (Describes numerics baseline candidate t) (ap (result_or between) made)
                  (between-Describes numerics b c t baseline candidate),
            )
      ]
    ]
  ]
]
