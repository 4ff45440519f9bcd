-- ===== src/Session.antt =====
-- `SessionManager` of hyperagg/tunnel/session.py: the state of a tunnel that survives a loss of all
-- paths. The disk is outside: what a file holds, and whether a write succeeds, are arguments.
mod Tests
use ratan_engine.Prelude.{
  ℕ, ◌+◌, ◌-◌, Bool, true, false, Option, none, some, List, [], ◌∷◌, ltb, if◌then◌else◌, length,
  drop,
}
use ratan_engine.Prelude.Dict.{Dict}
use ratan_engine.Prelude.Floats.{FloatOps}

-- A key of a dict of the state: a number, or the text `str(n)` of one, which a key becomes in JSON.
pub data Key : Type 0 where
  number text : ℕ → Key

-- `int(k)`
abbrev pub int_of : Key → ℕ
int_of (number n) = n
int_of (text n) = n

abbrev pub Keyed : Type 0 → Type 0
Keyed V = List (Key × V)

module _ {V : Type 0} where
  -- A dict with numbers as keys, as a field of the state
  unfoldable pub number_keys : Dict V → Keyed V
  number_keys [] = []
  number_keys ((k, v) ∷ d) = (number k, v) ∷ number_keys d

  -- What a dict is after `json.dumps` and `json.loads`
  unfoldable pub text_keys : Keyed V → Keyed V
  text_keys [] = []
  text_keys ((k, v) ∷ d) = (text (int_of k), v) ∷ text_keys d

  -- `{int(k): v for k, v in d.items()}`
  unfoldable pub int_keys : Keyed V → Dict V
  int_keys [] = []
  int_keys ((k, v) ∷ d) = (int_of k, v) ∷ int_keys d

-- Identifiers and texts are types of their own. An empty `scheduler_mode` argument is `none`.
pub record SessionState (Float Ident Text : Type 0) : Type 0 where
  pub session_id : Ident
  pub global_seq : ℕ
  pub path_seqs : Keyed ℕ
  pub fec_group_id : ℕ
  pub scheduler_mode : Text
  pub created_at : Float
  pub last_saved_at : Float
  pub path_rtt_history : Keyed (List Float)

pub data Status : Type 0 where
  fresh active reconnecting resumed : Status

pub record SessionManager (Float Ident Text : Type 0) : Type 0 where
  pub max_gap : ℕ
  pub save_interval : Float
  pub state : Option (SessionState Float Ident Text)
  pub last_save : Float
  pub status : Status

-- What the file of a session holds: no file, one that cannot be read, or a state that was written.
pub data File (Float Ident Text : Type 0) : Type 0 where
  missing : File Float Ident Text
  broken : File Float Ident Text
  holds : SessionState Float Ident Text → File Float Ident Text

-- `{str(k): list(v)[-20:] for k, v in ...}`
unfoldable pub last_samples : {Float : Type 0} → Dict (List Float) → Keyed (List Float)
last_samples [] = []
last_samples ((path_id, samples) ∷ history) =
    (text path_id, drop (length samples - 20) samples) ∷ last_samples history

module _ {Float Ident Text : Type 0} where
  -- `__init__`
  abbrev pub new_manager : FloatOps Float → ℕ → Float → SessionManager Float Ident Text
  new_manager fl max_gap save_interval = record {
    max_gap = max_gap;
    save_interval = save_interval;
    state = none;
    last_save = fl.of_ℕ 0;
    status = fresh;
  }

  -- `_save`: the wall clock, whether the write succeeds, and the monotonic clock after it
  unfoldable pub save :
      (wall : Float)
      → Bool
      → (now : Float) → SessionManager Float Ident Text
      → SessionManager Float Ident Text
  save wall written now m = elim m.state [
    | none ↦ m
    | some s ↦ record m {
      state = some (record s { last_saved_at = wall });
      last_save = if written then now else m.last_save;
    }
  ]

  unfoldable pub create_session :
      FloatOps Float
      → Ident
      → Text
      → (created wall : Float) → Bool
      → (now : Float) → SessionManager Float Ident Text
      → SessionManager Float Ident Text
  create_session fl session_id ai created wall written now m = save wall written now (record m {
    state = some (record {
      session_id = session_id;
      global_seq = 0;
      path_seqs = [];
      fec_group_id = 0;
      scheduler_mode = ai;
      created_at = created;
      last_saved_at = fl.of_ℕ 0;
      path_rtt_history = [];
    });
    status = active;
  })

  -- The new fields; an argument that is empty leaves its field as it is.
  unfoldable pub update_state :
      ℕ
      → Dict ℕ
      → ℕ
      → Option Text
      → Dict (List Float)
      → SessionState Float Ident Text
      → SessionState Float Ident Text
  update_state global_seq path_seqs fec_group_id scheduler_mode path_rtt_history s = record s {
    global_seq = global_seq;
    path_seqs = elim path_seqs [ [] ↦ s.path_seqs | entry ∷ rest ↦ number_keys (entry ∷ rest) ];
    fec_group_id = fec_group_id;
    scheduler_mode = elim scheduler_mode [ none ↦ s.scheduler_mode | some mode ↦ mode ];
    path_rtt_history = elim path_rtt_history [
      | [] ↦ s.path_rtt_history
      | entry ∷ rest ↦ last_samples (entry ∷ rest)
    ];
  }

  unfoldable pub update :
      FloatOps Float
      → (now wall : Float) → Bool
      → (saved_at : Float) → ℕ
      → Dict ℕ
      → ℕ
      → Option Text
      → Dict (List Float)
      → SessionManager Float Ident Text
      → SessionManager Float Ident Text
  update fl now wall written saved_at global_seq path_seqs fec_group_id scheduler_mode history m =
      elim m.state [
        | none ↦ m
        | some s ↦
            let m' : SessionManager Float Ident Text = record m {
              state =
                  some (update_state global_seq path_seqs fec_group_id scheduler_mode history s);
            } in
            if fl.lt (fl.sub now m.last_save) m.save_interval
            then m'
            else save wall written saved_at m'
      ]

  -- `SessionState(**json.loads(...))` of what was written: the keys of the two dicts are texts then.
  unfoldable pub read_back : SessionState Float Ident Text → SessionState Float Ident Text
  read_back s = record s {
    path_seqs = text_keys s.path_seqs;
    path_rtt_history = text_keys s.path_rtt_history;
  }

  -- The gap may be negative, so it is compared as a sum.
  unfoldable pub try_resume :
      File Float Ident Text
      → ℕ
      → SessionManager Float Ident Text
      → Option (SessionState Float Ident Text) × SessionManager Float Ident Text
  try_resume missing last_global_seq m = (none, m)
  try_resume broken last_global_seq m = (none, m)
  try_resume (holds saved) last_global_seq m =
      let s : SessionState Float Ident Text = record (read_back saved) {
        global_seq = last_global_seq + 1;
      } in
      if ltb (last_global_seq + m.max_gap) saved.global_seq
      then (none, m)
      else (some s, record m { state = some s; status = resumed })

  unfoldable pub get_resume_data : SessionManager Float Ident Text → Option (Ident × ℕ)
  get_resume_data m = elim m.state [ none ↦ none | some s ↦ some (s.session_id, s.global_seq) ]

  abbrev pub set_status : Status → SessionManager Float Ident Text → SessionManager Float Ident Text
  set_status value m = record m { status = value }
