-- ===== src/Requirements/Quality.antt =====
-- The range of quality scores.
use kaats_v.Base.{ℕ, ◌≤◌, arith, String, true, false, Bool}
use kaats_v.Requirements.{
  TextMeasures, testability, measurable, Finding, title_finding, description_finding, unless,
  finding, compute_quality,
}

title_points : (n : ℕ) → (title_finding n).points ≤ 20
title_points n = ground arith

description_points : (n : ℕ) → (description_finding n).points ≤ 25
description_points n = ground arith

unless_points : (b : Bool) (f : Finding) → (unless b f).points ≤ f.points
unless_points true f = omega arith
unless_points false f = omega arith

module _ (text : TextMeasures) where
  -- A score lies between 35 and 100, whatever the texts are.
  pub compute_quality-range :
      (title description : String)
      → let score = (compute_quality text title description).score in (35 ≤ score) × (score ≤ 100)
  unfolding compute_quality
  compute_quality-range title description =
      let t = title_points (text.len title) in
      let d = description_points (text.len description) in
      let q = unless_points (text.is_testable description) (finding 15 testability) in
      let n = unless_points (text.has_digit description) (finding 5 measurable) in
      (omega (arith, t, d, q, n), omega arith)
