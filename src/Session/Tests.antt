-- ===== src/Session/Tests.antt =====
-- Runs of the session manager at concrete inputs.
use ratan_engine.Prelude.{ℕ, ◌≡◌, refl, none, some, [], ◌∷◌}
use ratan_engine.Session.{
  SessionState, SessionManager, text, active, resumed, holds, update_state, try_resume, read_back,
  number_keys, text_keys, last_samples,
}

abbrev saved : SessionState ℕ ℕ ℕ
saved = record {
  session_id = 77;
  global_seq = 5;
  path_seqs = [];
  fec_group_id = 0;
  scheduler_mode = 1;
  created_at = 3;
  last_saved_at = 4;
  path_rtt_history = [];
}

abbrev manager : SessionManager ℕ ℕ ℕ
manager = record { max_gap = 100; save_interval = 1; state = none; last_save = 0; status = active }

resume_too_far : (try_resume (holds (update_state 500 [] 3 none [] saved)) 399 manager).0 ≡ none
unfolding try_resume update_state
resume_too_far = refl

abbrev updated : SessionState ℕ ℕ ℕ
updated = record saved {
  global_seq = 401;
  fec_group_id = 3;
  path_seqs = (text 1, 90) ∷ [];
  path_rtt_history = (text 1, 30 ∷ []) ∷ [];
}

-- The keys come back as texts.
resume_in_reach :
    try_resume
      (holds (update_state 500 ((1, 90) ∷ []) 3 none ((1, 30 ∷ []) ∷ []) saved))
      400
      manager
    ≡ (some updated, record manager { state = some updated; status = resumed })
unfolding try_resume update_state read_back number_keys text_keys last_samples
resume_in_reach = refl
