-- ===== src/Gate/Settings.antt =====
-- The settings of a run: reomp_config_init of src/reomp/reomp_config.cpp. What it calls of the C
-- library is a record of functions.
use re_omp_llvm.Common.{
  ℕ, ◌≡◌, Bool, true, false, ◌||◌, Option, none, some, List, [], ◌∷◌, ◌==◌, if◌then◌else◌,
}
use re_omp_llvm.Gate.Defs.{
  Mode, recording, replaying, disabled, no_such_mode, open_failed, Result, ok, err, ◌>>=◌,
}

-- A C string, as the codes of its characters.
abbrev pub Text : Type 0
Text = List ℕ

-- REOMP_ENV_NAME_*
pub data Variable : Type 0 where
  mode_name method_name multi_clock_name profile_name dir_name : Variable

-- What mkdir does: it makes the directory, or fails with EEXIST or for another reason.
pub data Mkdir : Type 0 where
  made exists refused : Mkdir

-- An `int` result is its 32-bit pattern; `is_there d` says that stat gives 0.
pub record Libc : Type 0 where
  pub getenv : Variable → Option Text
  pub strcmp : Text → Text → ℕ
  pub atoi : Text → ℕ
  pub is_there : Text → Bool
  pub mkdir : Text → Mkdir

-- reomp_config_t
pub record ReompConfig : Type 0 where
  pub mode : Mode
  pub method : ℕ
  pub profile_level : ℕ
  pub record_dir : Text
  pub multi_clock : ℕ

-- "record", "replay", "disable" and "."
abbrev pub record_word : Text
record_word = 114 ∷ 101 ∷ 99 ∷ 111 ∷ 114 ∷ 100 ∷ []

abbrev pub replay_word : Text
replay_word = 114 ∷ 101 ∷ 112 ∷ 108 ∷ 97 ∷ 121 ∷ []

abbrev pub disable_word : Text
disable_word = 100 ∷ 105 ∷ 115 ∷ 97 ∷ 98 ∷ 108 ∷ 101 ∷ []

abbrev pub here : Text
here = 46 ∷ []

module _ (libc : Libc) where
  -- `!strcmp(env, word) || atoi(env) == n`
  unfoldable pub says : Text → Text → ℕ → Bool
  says env word n = (libc.strcmp env word == 0) || (libc.atoi env == n)

  unfoldable pub get_mode : Option Text → Result Mode
  unfolding says
  get_mode none = ok disabled
  get_mode (some env) =
      if says env record_word 0
      then ok recording
      else if says env replay_word 1
      then ok replaying
      else if says env disable_word 2
      then ok disabled
      else err no_such_mode

  -- A variable that is not set counts as 0: the method REOMP_ENV_METHOD_CLOCK_CONCURRENT, one
  -- clock, and no profile.
  unfoldable pub get_number : Option Text → ℕ
  get_number none = 0
  get_number (some env) = libc.atoi env

  unfoldable pub get_dir : Option Text → Text
  get_dir none = here
  get_dir (some env) = env

  -- `true` if the directory was made
  unfoldable pub make_dir : Text → Result Bool
  make_dir dir =
      if libc.is_there dir
      then ok false
      else elim (libc.mkdir dir) [ made ↦ ok true | exists ↦ ok false | refused ↦ err open_failed ]

  -- reomp_config_init, with what it did about the directory
  unfoldable pub config_init : Result (ReompConfig × Bool)
  unfolding get_mode get_number get_dir make_dir
  config_init = do
    mode ← get_mode (libc.getenv mode_name)
    is_new ← make_dir (get_dir (libc.getenv dir_name))
    ok (
      record {
        mode = mode;
        method = get_number (libc.getenv method_name);
        profile_level = get_number (libc.getenv profile_name);
        record_dir = get_dir (libc.getenv dir_name);
        multi_clock = get_number (libc.getenv multi_clock_name);
      },
      is_new,
    )

-- The documented behaviour of strcmp, and of atoi on a text that starts with no number.
pub record Documented (libc : Libc) : Type 0 where
  pub equal_texts : (a b : Text) → libc.strcmp a b ≡ 0 → a ≡ b
  pub no_number :
      (libc.atoi record_word ≡ 0) × (libc.atoi replay_word ≡ 0) × (libc.atoi disable_word ≡ 0)

-- the mode of a number
abbrev pub mode_of : ℕ → Result Mode
mode_of n =
    if n == 0
    then ok recording
    else if n == 1
    then ok replaying
    else if n == 2
    then ok disabled
    else err no_such_mode
