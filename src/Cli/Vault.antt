-- ===== src/Cli/Vault.antt =====
-- The operating system's credential store, as `keyring` gives it: every call may raise, before or
-- after it took effect, and the process may end there, since then no later call takes effect.
use gatebroker.Prelude.{
  ℕ, String, Bool, true, false, Option, none, some, List, [], ◌∷◌, ◌==◌, ◌&&◌, str_eq,
  if◌then◌else◌,
}
use gatebroker.Result.{Result, ok, err}

-- The accounts of the service: `CACHE_ACCOUNT`, `_WINDOWS_CACHE_CLEANUP_ACCOUNT`,
-- `PROFILE_INTEGRITY_ACCOUNT` and those of
-- `_cache_chunk_account`. The text of the last is the same for no two pairs of a generation of 32
-- digits and an index, and is none of the first three.
pub data Account : Type 0 where
  primary cleanup integrity : Account
  chunk : String → ℕ → Account

unfoldable pub same_account : Account → Account → Bool
same_account primary primary = true
same_account cleanup cleanup = true
same_account integrity integrity = true
same_account (chunk g i) (chunk h j) = str_eq g h && (i == j)
same_account a b = false

abbrev pub Store : Type 0
Store = Account → Option String

-- What becomes of a call: it succeeds, it raises and nothing has changed, or it raises after the
-- change.
pub data Outcome : Type 0 where
  success refused broken_off : Outcome

pub record Vault : Type 0 where
  pub store : Store
  pub outcomes : List Outcome

-- `KeyringError`, `OSError` or `ValueError`; `PasswordDeleteError`, which is a `KeyringError`; and
-- `ClickException`, by its message.
pub data Failure : Type 0 where
  keyring_error : Failure
  invalid_state cannot_save unavailable insecure : Failure
  invalid_agents cannot_save_agents : Failure

abbrev pub Action : Type 0 → Type 0
Action A = Vault → Result Failure A × Vault

abbrev pub pure : {A : Type 0} → A → Action A
pure a v = (ok a, v)

abbrev pub raise : {A : Type 0} → Failure → Action A
raise e v = (err e, v)

infixl 5 ◌>>=◌ ◌>>◌
abbrev pub then_do :
    {A B : Type 0} → Result Failure A × Vault → (A → Action B) → Result Failure B × Vault
then_do (ok a, v) f = f a v
then_do (err e, v) f = (err e, v)

abbrev pub ◌>>=◌ : {A B : Type 0} → Action A → (A → Action B) → Action B
◌>>=◌ m f v = then_do (m v) f

abbrev pub ◌>>◌ : {B : Type 0} → Action (Unit {0}) → Action B → Action B
m >> k = m >>= λ _. k

abbrev pub raise_if : Bool → Failure → Action (Unit {0})
raise_if true e = raise e
raise_if false e = pure tt

-- The next outcome; where the list ends, all calls succeed.
abbrev pub outcome : List Outcome → Outcome
outcome [] = success
outcome (o ∷ os) = o

abbrev pub later : List Outcome → List Outcome
later [] = []
later (o ∷ os) = os

abbrev pub update : Store → Account → Option String → Store
update s a x b = if same_account a b then x else s b

-- One call that changes `before` to `after`.
abbrev pub perform : Outcome → Store → Store → List Outcome → Result Failure (Unit {0}) × Vault
perform success before after os = (ok tt, record { store = after; outcomes = os })
perform refused before after os = (err keyring_error, record { store = before; outcomes = os })
perform broken_off before after os = (err keyring_error, record { store = after; outcomes = os })

abbrev pub reading : Outcome → Option String → Vault → Result Failure (Option String) × Vault
reading success x v = (ok x, v)
reading o x v = (err keyring_error, v)

unfoldable pub get_password : Account → Action (Option String)
get_password a v =
    reading (outcome v.outcomes) (v.store a) (record v { outcomes = later v.outcomes })

unfoldable pub set_password : Account → String → Action (Unit {0})
set_password a x v =
    perform (outcome v.outcomes) v.store (update v.store a (some x)) (later v.outcomes)

-- To delete what is not there raises `PasswordDeleteError`.
abbrev pub present : Option String → Bool
present none = false
present (some x) = true

unfoldable pub delete_password : Account → Action (Unit {0})
delete_password a v =
    if present (v.store a)
    then perform (outcome v.outcomes) v.store (update v.store a none) (later v.outcomes)
    else (err keyring_error, record v { outcomes = later v.outcomes })
