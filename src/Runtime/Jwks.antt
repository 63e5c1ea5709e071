-- ===== src/Runtime/Jwks.antt =====
-- `JwksVerifier`: the key snapshot that request threads and the refresh task share. What a thread
-- does while it holds the condition is one function; times are in nanoseconds.
pub mod Steps
use gatebroker.Prelude.{
  ℕ, suc, ◌≡◌, refl, ◌+◌, ◌*◌, String, Bool, true, false, not, ◌&&◌, Option, none, some, List, [],
  ◌∷◌, ltb, leb, str_eq, if◌then◌else◌,
}
use gatebroker.Text.{is_empty}

abbrev pub seconds : ℕ → ℕ
seconds n = n * 1000000000

abbrev pub jwks_stale : ℕ
jwks_stale = seconds 900

abbrev pub jwks_key_miss_refresh_cooldown : ℕ
jwks_key_miss_refresh_cooldown = seconds 60

-- `Key` is `jwt.PyJWK`.
module _ (Key : Type 0) where
  abbrev pub Snapshot : Type 0
  Snapshot = List (String × Key)

  -- `last_key_miss_refresh` is none for minus infinity.
  pub record Jwks : Type 0 where
    pub keys : Snapshot
    pub last_refresh : ℕ
    pub last_key_miss_refresh : Option ℕ
    pub refresh_in_progress : Bool

  abbrev pub new : Jwks
  new = record {
    keys = [];
    last_refresh = 0;
    last_key_miss_refresh = none;
    refresh_in_progress = false;
  }

  -- `keys.get(kid)`: in a dict that is built from pairs, the last one of a key counts.
  abbrev last_of : Option Key → Bool → Key → Option Key
  last_of (some later) same key = some later
  last_of none same key = if same then some key else none

  pub find : String → Snapshot → Option Key
  find kid [] = none
  find kid ((id, key) ∷ keys) = last_of (find kid keys) (str_eq id kid) key

  abbrev keep_named : Option String → Key → Snapshot → Snapshot
  keep_named none key rest = rest
  keep_named (some id) key rest = if is_empty id then rest else (id, key) ∷ rest

  unfoldable pub named : List (Option String × Key) → Snapshot
  named [] = []
  named ((id, key) ∷ keys) = keep_named id key (named keys)

  abbrev nonempty : Snapshot → Option Snapshot
  nonempty [] = none
  nonempty (k ∷ ks) = some (k ∷ ks)

  -- `_fetch_keys`, of what `get_signing_keys` returns; none is the `RuntimeError`.
  abbrev pub fetch_keys : Option (List (Option String × Key)) → Option Snapshot
  fetch_keys none = none
  fetch_keys (some signing_keys) = nonempty (named signing_keys)

  -- `_complete_refresh`
  abbrev pub complete_refresh : ℕ → Option Snapshot → Jwks → Jwks
  complete_refresh now none s = record s { refresh_in_progress = false }
  complete_refresh now (some keys) s = record s {
    keys = keys;
    last_refresh = now;
    refresh_in_progress = false;
  }

  -- What the first block of `_signing_key` decides: it returns a key or none, waits for the refresh
  -- in progress, or goes on to fetch.
  pub data Decision : Type 0 where
    found : Key → Decision
    wait unknown fetch : Decision

  -- `now - last < cooldown`
  abbrev pub is_cooling : ℕ → Option ℕ → Bool
  is_cooling now none = false
  is_cooling now (some last) = ltb now (last + jwks_key_miss_refresh_cooldown)

  pub missing : ℕ → Jwks → Decision × Jwks
  missing now s =
      if s.refresh_in_progress
      then (wait, s)
      else if is_cooling now s.last_key_miss_refresh
      then (unknown, s)
      else (fetch, record s { last_key_miss_refresh = some now; refresh_in_progress = true })

  abbrev or_missing : ℕ → Option Key → Jwks → Decision × Jwks
  or_missing now (some key) s = (found key, s)
  or_missing now none s = missing now s

  pub signing_key : ℕ → String → Jwks → Decision × Jwks
  unfolding missing find
  signing_key now kid s = or_missing now (find kid s.keys) s

  -- The first block of `refresh`: does it go on to fetch?
  unfoldable pub begin_refresh : Jwks → Bool × Jwks
  begin_refresh s =
      if s.refresh_in_progress then (false, s) else (true, record s { refresh_in_progress = true })

  abbrev has_keys : Snapshot → Bool
  has_keys [] = false
  has_keys (k ∷ ks) = true

  is_ready : ℕ → Jwks → Bool
  is_ready now s = has_keys s.keys && leb now (s.last_refresh + jwks_stale)

  -- A verifier that has no keys yet is not ready.
  is_ready-new : (now : ℕ) → is_ready now new ≡ false
  unfolding is_ready
  is_ready-new now = refl
