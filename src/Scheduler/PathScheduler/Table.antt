-- ===== src/Scheduler/PathScheduler/Table.antt =====
-- The weighted table of hyperagg/scheduler/path_scheduler.py against the list of alive paths.
use ratan_engine.Prelude.{
  ℕ, zero, suc, ◌≤◌, ◌<◌, ◌≡◌, refl, max, Bool, true, false, if◌then◌else◌, ◌==◌, Option, List, [],
  ◌∷◌, ◌++◌, map, All, arith, length, replicate, get_or, Bool-cases, inl, inr,
}
use ratan_engine.Prelude.Dict.{Dict, elem, elem-append}
use ratan_engine.Prelude.Floats.{FloatOps, FloatMath, float_le, float_sum}
use ratan_engine.Scheduler.Models.{PathState, PathPrediction}
use ratan_engine.Scheduler.Monitor.{PathMonitor, get_all_path_states}
use ratan_engine.Scheduler.Predictor.{PathPredictor}
use ratan_engine.Scheduler.PathScheduler.{
  PathScheduler, best_path_of, score_of, fill_table, rebuild_schedule_table, update_predictions,
  alive_of, predict_all,
}

abbrev pub AllIn : List ℕ → List ℕ → Type 0
AllIn xs ys = All (λ x. elem x ys ≡ true) xs

pub All-of-elem : (P : ℕ → Type 0) (xs : List ℕ) → ((k : ℕ) → elem k xs ≡ true → P k) → All P xs
unfolding elem
All-of-elem P [] h = tt
All-of-elem P (x ∷ xs) h =
    (h x (ground arith), All-of-elem P xs (λ k there. h k (ground (arith, there))))

pub All-get_or :
    (P : ℕ → Type 0) (xs : List ℕ) (i d : ℕ) → All P xs → i < length xs → P (get_or xs i d)
All-get_or P [] i d h lt = absurd (omega arith)
All-get_or P (x ∷ xs) zero d h lt = h.0
All-get_or P (x ∷ xs) (suc i) d h lt = All-get_or P xs i d h.1 (omega arith)

pub All-append {ℓ} :
    {A : Type ℓ} (P : A → Type 0) (xs ys : List A) → All P xs → All P ys → All P (xs ++ ys)
All-append P [] ys h h' = h'
All-append P (x ∷ xs) ys h h' = (h.0, All-append P xs ys h.1 h')

AllIn-weaken :
    (xs ys zs : List ℕ)
    → ((k : ℕ) → elem k ys ≡ true → elem k zs ≡ true)
    → AllIn xs ys
    → AllIn xs zs
AllIn-weaken [] ys zs f h = tt
AllIn-weaken (x ∷ xs) ys zs f h = (f x h.0, AllIn-weaken xs ys zs f h.1)

pub AllIn-self : (xs : List ℕ) → AllIn xs xs
AllIn-self xs = All-of-elem (λ x. elem x xs ≡ true) xs (λ k h. h)

All-replicate : (P : ℕ → Type 0) (n x : ℕ) → P x → All P (replicate n x)
All-replicate P zero x h = tt
All-replicate P (suc n) x h = (h, All-replicate P n x h)

elem-replicate : (n x : ℕ) → 1 ≤ n → elem x (replicate n x) ≡ true
unfolding elem
elem-replicate zero x h = absurd (omega arith)
elem-replicate (suc n) x h = ground arith

-- Whether a path has a state that is alive.
unfoldable pub is_alive_in : {Float : Type 0} → ℕ → Dict (PathState Float) → Bool
is_alive_in k [] = false
is_alive_in k ((j, s) ∷ states) =
    let rest = is_alive_in k states in if j == k then (if s.is_alive then true else rest) else rest

elem-alive_of :
    {Float : Type 0} (k : ℕ) (states : Dict (PathState Float))
    → elem k (alive_of states) ≡ is_alive_in k states
unfolding elem alive_of is_alive_in
elem-alive_of k [] = refl
elem-alive_of k ((j, s) ∷ states) = ground (arith, elem-alive_of k states)

-- The list of alive paths holds those whose state says so. The table holds the alive paths and no
-- other, and every path stands in it.
pub record IsReady {Float : Type 0} (s : PathScheduler Float) : Type 0 where
  pub only_alive : AllIn s.schedule_table s.alive_paths
  pub every_path : AllIn s.alive_paths s.schedule_table
  pub tracks : (k : ℕ) → elem k s.alive_paths ≡ is_alive_in k s.path_states

module _ {Float : Type 0} (fl : FloatOps Float) (fm : FloatMath Float) where
  fill_table-only :
      (states : Dict (PathState Float)) (total : Float) (alive xs : List ℕ)
      → AllIn xs alive
      → AllIn (fill_table fl fm states total xs) alive
  unfolding fill_table
  fill_table-only states total alive [] h = tt
  fill_table-only states total alive (x ∷ xs) h =
      let slots : ℕ =
        max 1 (fm.floor (fl.div (fl.mul (fl.of_ℕ 100) (score_of fl states x)) total)) in
      All-append (λ k. elem k alive ≡ true) (replicate slots x) (fill_table fl fm states total xs)
        (All-replicate (λ k. elem k alive ≡ true) slots x h.0)
        (fill_table-only states total alive xs h.1)

  fill_table-every :
      (states : Dict (PathState Float)) (total : Float) (xs : List ℕ)
      → AllIn xs (fill_table fl fm states total xs)
  unfolding fill_table
  fill_table-every states total [] = tt
  fill_table-every states total (x ∷ xs) =
      let slots : ℕ =
        max 1 (fm.floor (fl.div (fl.mul (fl.of_ℕ 100) (score_of fl states x)) total)) in
      let rest : List ℕ = fill_table fl fm states total xs in
      (
        ground
            (arith, elem-append x (replicate slots x) rest, elem-replicate slots x (omega arith)),
        AllIn-weaken xs rest (replicate slots x ++ rest)
            (λ k h. ground (arith, elem-append k (replicate slots x) rest, h))
            (fill_table-every states total xs),
      )

  rebuild_with-IsReady :
      (s : PathScheduler Float) (alive : List ℕ)
      → ((k : ℕ) → elem k alive ≡ is_alive_in k s.path_states)
      → let s' = rebuild_schedule_table fl fm (record s { alive_paths = alive }) in
        IsReady s' × (s'.path_states ≡ s.path_states)
  unfolding rebuild_schedule_table
  rebuild_with-IsReady s [] tracks =
      (record { only_alive = tt; every_path = tt; tracks = tracks }, refl)
  rebuild_with-IsReady s (x ∷ xs) tracks =
      let total : Float = float_sum fl (fl.of_ℕ 0) (map (score_of fl s.path_states) (x ∷ xs)) in
      elim (Bool-cases (float_le fl total (fl.of_ℕ 0))) [
        | inl zero_total ↦ rw zero_total (
          record {
            only_alive = AllIn-self (x ∷ xs);
            every_path = AllIn-self (x ∷ xs);
            tracks = tracks;
          },
          refl,
        )
        | inr positive ↦ rw positive (
          record {
            only_alive =
                fill_table-only s.path_states total (x ∷ xs) (x ∷ xs) (AllIn-self (x ∷ xs));
            every_path = fill_table-every s.path_states total (x ∷ xs);
            tracks = tracks;
          },
          refl,
        )
      ]

  pub update_predictions-IsReady :
      (scipy_cdf : Option (Float → Float → Float → Float)) (now : Float)
      (monitor : PathMonitor Float) (predictor : PathPredictor Float) (s : PathScheduler Float)
      → let (s', monitor', predictor') =
          update_predictions fl fm scipy_cdf now monitor predictor s in
        IsReady s' × (s'.path_states ≡ (get_all_path_states fl now monitor).0)
  unfolding update_predictions
  update_predictions-IsReady scipy_cdf now monitor predictor s =
      let states : Dict (PathState Float) = (get_all_path_states fl now monitor).0 in
      let predictions : Dict (PathPrediction Float) =
        (predict_all fl fm scipy_cdf states predictor).0 in
      let r =
        rebuild_with-IsReady
          (record s {
            path_states = states;
            predictions = predictions;
            best_path = best_path_of fl predictions (alive_of states);
          })
          (alive_of states) (λ k. elem-alive_of k states) in
      (
        record { only_alive = r.0.only_alive; every_path = r.0.every_path; tracks = r.0.tracks },
        r.1,
      )
