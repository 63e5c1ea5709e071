-- ===== src/Launch/Environment.antt =====
-- Environments, which agent a command starts, and the variables of Copilot.
use Prim.Native.Char.{code}
use gatebroker.Prelude.{
  String, Bool, false, ◌||◌, ◌==◌, Option, none, some, List, [], ◌∷◌, str_eq, if◌then◌else◌,
}
use gatebroker.Text.{is_empty}
use gatebroker.Policy.{mem}

-- A copy of `os.environ`.
abbrev pub Environment : Type 0
Environment = String → Option String

abbrev pub set : String → String → Environment → Environment
set k v env name = if str_eq k name then some v else env name

unfoldable pub has_backslash : String → Bool
has_backslash String.[] = false
has_backslash (String.◌∷◌ c s) = (code c == 0x5C) || has_backslash s

-- `windows_name` and `posix_name` are `.name` of `PureWindowsPath` and `PurePosixPath`, `lower` is
-- the method of `str`.
pub record Paths : Type 0 where
  pub windows_name : String → String
  pub posix_name : String → String
  pub lower : String → String

abbrev pub executable : Paths → String → String
unfolding has_backslash
executable p raw = p.lower (if has_backslash raw then p.windows_name raw else p.posix_name raw)

abbrev pub starts_one_of : Paths → List String → List String → Bool
starts_one_of p names [] = false
starts_one_of p names (raw ∷ args) = mem (executable p raw) names

unfoldable pub is_copilot_command : Paths → List String → Bool
is_copilot_command p command = starts_one_of p ("copilot" ∷ "copilot.exe" ∷ []) command

unfoldable pub is_claude_command : Paths → List String → Bool
is_claude_command p command = starts_one_of p ("claude" ∷ "claude.exe" ∷ []) command

unfoldable pub is_codex_command : Paths → List String → Bool
is_codex_command p command = starts_one_of p ("codex" ∷ "codex.exe" ∷ []) command

-- `value or default`, where the empty text counts as none
abbrev pub text_or : Option String → String → String
text_or none default = default
text_or (some text) default = if is_empty text then default else text

-- `copilot_provider_environment`, as an update
abbrev pub copilot_provider_environment : String → String → String → Environment → Environment
copilot_provider_environment base_url token model env = set "COPILOT_MODEL" model (
    set "COPILOT_PROVIDER_API_KEY" token
      (set "COPILOT_PROVIDER_TYPE" "openai" (set "COPILOT_PROVIDER_BASE_URL" base_url env)))

-- `default_model` is the profile's first model.
unfoldable pub augment_copilot_environment :
    Paths → String → List String → String → String → Environment → Environment
unfolding is_copilot_command
augment_copilot_environment p default_model command base_url token env =
    if is_copilot_command p command
    then copilot_provider_environment base_url token (text_or (env "COPILOT_MODEL") default_model)
        env
    else env
