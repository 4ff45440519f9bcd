-- ===== src/Metrics/Accounting.antt =====
-- The byte counts of hyperagg/metrics/throughput_calculator.py over any run of sends.
use ratan_engine.Prelude.{
  ℕ, ◌+◌, ◌≡◌, refl, ap, ◌∙◌, max, Bool, true, false, not, ◌&&◌, List, [], ◌∷◌, ◌++◌, arith, All,
  if◌then◌else◌, Bool-cases, inl, inr,
}
use ratan_engine.Prelude.Floats.{FloatOps}
use ratan_engine.Scheduler.Bandwidth.{total_bytes, drop_before}
use ratan_engine.Metrics.{
  Throughput, ThroughputCalculator, record_sent, prune, compute, mbps_over, new_calculator,
}

-- A datagram on the wire.
pub record Send (Float : Type 0) : Type 0 where
  pub now : Float
  pub nbytes : ℕ
  pub is_fec_parity : Bool
  pub is_duplicate : Bool

module _ {Float : Type 0} where
  pub run : List (Send Float) → ThroughputCalculator Float → ThroughputCalculator Float
  run [] c = c
  run (s ∷ ss) c = run ss (record_sent s.now s.nbytes s.is_fec_parity s.is_duplicate c)

  -- The bytes of the datagrams that a test picks
  unfoldable pub bytes_where : (Send Float → Bool) → List (Send Float) → ℕ
  bytes_where p [] = 0
  bytes_where p (s ∷ ss) = (if p s then s.nbytes else 0) + bytes_where p ss

  -- Their samples
  unfoldable samples_where : (Send Float → Bool) → List (Send Float) → List (Float × ℕ)
  samples_where p [] = []
  samples_where p (s ∷ ss) =
      let rest = samples_where p ss in if p s then (s.now, s.nbytes) ∷ rest else rest

  append-if :
      (b : Bool) (xs ys : List (Float × ℕ)) (x : Float × ℕ)
      → (if b then xs ++ x ∷ [] else xs) ++ ys ≡ xs ++ (if b then x ∷ ys else ys)
  append-if true [] ys x = refl
  append-if true (y ∷ xs) ys x = ap (λ (l : List (Float × ℕ)). y ∷ l) (append-if true xs ys x)
  append-if false xs ys x = refl

  -- The samples are those of the sends, in turn, and the totals count their bytes.
  record Follows (c : ThroughputCalculator Float) (ss : List (Send Float))
      (c' : ThroughputCalculator Float) : Type 0 where
    pub sent_is : c'.sent_samples ≡ c.sent_samples ++ samples_where (λ s. true) ss
    pub fec_is :
        c'.fec_bytes_samples ≡ c.fec_bytes_samples ++ samples_where (λ s. s.is_fec_parity) ss
    pub dup_is :
        c'.dup_bytes_samples ≡ c.dup_bytes_samples ++ samples_where (λ s. s.is_duplicate) ss
    pub total_sent_is : c'.total_sent ≡ c.total_sent + bytes_where (λ s. true) ss
    pub total_fec_is : c'.total_fec ≡ c.total_fec + bytes_where (λ s. s.is_fec_parity) ss
    pub total_dup_is : c'.total_dup ≡ c.total_dup + bytes_where (λ s. s.is_duplicate) ss
    pub window_same : c'.window_sec ≡ c.window_sec

  append-none : (xs : List (Float × ℕ)) → xs ≡ xs ++ []
  append-none [] = refl
  append-none (x ∷ xs) = ap (λ (l : List (Float × ℕ)). x ∷ l) (append-none xs)

  run-Follows : (ss : List (Send Float)) (c : ThroughputCalculator Float) → Follows c ss (run ss c)
  unfolding run samples_where bytes_where record_sent
  run-Follows [] c = record {
    sent_is = append-none c.sent_samples;
    fec_is = append-none c.fec_bytes_samples;
    dup_is = append-none c.dup_bytes_samples;
    total_sent_is = omega arith;
    total_fec_is = omega arith;
    total_dup_is = omega arith;
    window_same = refl;
  }
  run-Follows (s ∷ ss) c =
      let x : Float × ℕ = (s.now, s.nbytes) in
      let ih = run-Follows ss (record_sent s.now s.nbytes s.is_fec_parity s.is_duplicate c) in
      record {
        sent_is = ih.sent_is ∙ append-if true c.sent_samples (samples_where (λ s. true) ss) x;
        fec_is =
            ih.fec_is
            ∙ append-if s.is_fec_parity c.fec_bytes_samples
                (samples_where (λ s. s.is_fec_parity) ss) x;
        dup_is =
            ih.dup_is
            ∙ append-if s.is_duplicate c.dup_bytes_samples (samples_where (λ s. s.is_duplicate) ss)
                x;
        total_sent_is = omega (arith, ih.total_sent_is);
        total_fec_is = ground (arith, ih.total_fec_is);
        total_dup_is = ground (arith, ih.total_dup_is);
        window_same = ih.window_same;
      }

  module _ (fl : FloatOps Float) where
    -- "Not before" is transitive, as it is for floats that are numbers.
    abbrev pub IsChain : Type 0
    IsChain = (x y z : Float) → fl.lt x y ≡ false → fl.lt y z ≡ false → fl.lt x z ≡ false

    -- The clock does not go back from one send to a later one.
    abbrev pub InOrder : List (Send Float) → Type 0
    InOrder [] = Unit
    InOrder (s ∷ ss) = All (λ t. fl.lt t.now s.now ≡ false) ss × InOrder ss

    abbrev pub is_recent : Float → Send Float → Bool
    is_recent cutoff s = not (fl.lt s.now cutoff)

    -- Everything from a recent send on is recent.
    all_recent :
        (chain : IsChain) (p : Send Float → Bool) (cutoff t : Float) (ss : List (Send Float))
        → fl.lt t cutoff ≡ false
        → All (λ s. fl.lt s.now t ≡ false) ss
        → total_bytes (samples_where p ss) ≡ bytes_where (λ s. p s && is_recent cutoff s) ss
    unfolding total_bytes samples_where bytes_where
    all_recent chain p cutoff t [] recent later = refl
    all_recent chain p cutoff t (s ∷ ss) recent later =
        let ih = all_recent chain p cutoff t ss recent later.1 in
        let now_recent : fl.lt s.now cutoff ≡ false = chain s.now t cutoff later.0 recent in
        elim (Bool-cases (p s)) [
          | inl picked ↦ rw (picked, now_recent) (omega (arith, ih))
          | inr passed ↦ rw (passed) (omega (arith, ih))
        ]

    total_bytes-drop_before :
        (chain : IsChain) (p : Send Float → Bool) (cutoff : Float) (ss : List (Send Float))
        → InOrder ss
        → total_bytes (drop_before fl cutoff (samples_where p ss))
          ≡ bytes_where (λ s. p s && is_recent cutoff s) ss
    unfolding total_bytes drop_before samples_where bytes_where
    total_bytes-drop_before chain p cutoff [] order = refl
    total_bytes-drop_before chain p cutoff (s ∷ ss) order =
        let ih = total_bytes-drop_before chain p cutoff ss order.1 in
        elim (Bool-cases (p s)) [
          | inl picked ↦ elim (Bool-cases (fl.lt s.now cutoff)) [
            | inl old ↦ rw (picked, old) (omega (arith, ih))
            | inr recent ↦
                rw (picked, recent)
                  (omega (arith, all_recent chain p cutoff s.now ss recent order.0))
          ]
          | inr passed ↦ rw (passed) (omega (arith, ih))
        ]

    -- What `compute` reports, and the lifetime totals after it: `sent`, `fec` and `dup` are the bytes
    -- of the window, the others those of all time.
    pub record Reports (window_sec : Float) (sent fec dup all_sent all_fec all_dup : ℕ)
        (r : Throughput fl × ThroughputCalculator Float) : Type 0 where
      pub raw_is : r.0.raw_mbps ≡ mbps_over fl window_sec sent
      pub fec_mbps_is : r.0.fec_mbps ≡ mbps_over fl window_sec fec
      pub dup_mbps_is : r.0.dup_mbps ≡ mbps_over fl window_sec dup
      pub ratio_is : r.0.fec_ratio ≡ fl.div (fl.of_ℕ fec) (fl.of_ℕ (max sent 1))
      pub total_sent_is : r.1.total_sent ≡ all_sent
      pub total_fec_is : r.1.total_fec ≡ all_fec
      pub total_dup_is : r.1.total_dup ≡ all_dup

    -- After any sends whose clock does not go back, `compute` reports the rates of the datagrams that
    -- are not older than the window, exactly: of all of them, of the parity datagrams and of the
    -- duplicates, and the share of parity; and the lifetime totals are the bytes of all datagrams ever
    -- sent, of the parity datagrams and of the duplicates.
    pub run-Reports :
        (window_sec now : Float) (ss : List (Send Float))
        → IsChain
        → InOrder ss
        → let recent = is_recent (fl.sub now window_sec) in
          Reports window_sec
            (bytes_where recent ss)
            (bytes_where (λ s. s.is_fec_parity && recent s) ss)
            (bytes_where (λ s. s.is_duplicate && recent s) ss)
            (bytes_where (λ s. true) ss)
            (bytes_where (λ s. s.is_fec_parity) ss)
            (bytes_where (λ s. s.is_duplicate) ss)
            (compute fl now (run ss (new_calculator fl window_sec)))
    unfolding compute prune
    run-Reports window_sec now ss chain order =
        let f = run-Follows ss (new_calculator fl window_sec) in
        let cutoff = fl.sub now window_sec in
        let sent = total_bytes-drop_before chain (λ s. true) cutoff ss order in
        let fec = total_bytes-drop_before chain (λ s. s.is_fec_parity) cutoff ss order in
        let dup = total_bytes-drop_before chain (λ s. s.is_duplicate) cutoff ss order in
        record {
          raw_is = rw (f.window_same, f.sent_is, sent) refl;
          fec_mbps_is = rw (f.window_same, f.fec_is, fec) refl;
          dup_mbps_is = rw (f.window_same, f.dup_is, dup) refl;
          ratio_is = rw (f.window_same, f.sent_is, f.fec_is, sent, fec) refl;
          total_sent_is = omega (arith, f.total_sent_is);
          total_fec_is = omega (arith, f.total_fec_is);
          total_dup_is = omega (arith, f.total_dup_is);
        }
