-- ===== src/BuildInfo.antt =====
-- src/gatebroker/build_info.py: the version that a build says it is.
use gatebroker.Prelude.{String, Bool, true, false, ◌≡◌, refl, Option, none, some, if◌then◌else◌}
use gatebroker.Text.{is_empty}
use gatebroker.Json.{Value, str, obj, end, field, get, is_str}

pub record BuildInfo : Type 0 where
  pub version : String
  pub build : String
  pub revision : String

abbrev pub not_available : String
not_available = "unavailable"

-- `version(_DISTRIBUTION_NAME)`, or `none` where the package is not found
unfoldable pub source_build_info : Option String → BuildInfo
source_build_info (some v) = record { version = v; build = "source"; revision = not_available }
source_build_info none = record {
  version = not_available;
  build = "source";
  revision = not_available;
}

-- A text that is not empty
abbrev pub full_text : Option Value → Option String
full_text (some (str s)) = if is_empty s then none else some s
full_text v = none

abbrev pub is_release : Option Value → Bool
is_release none = false
is_release (some v) = is_str "release" v

abbrev pub released : Option String → Option String → Option BuildInfo
released (some v) (some r) = some (record { version = v; build = "release"; revision = r })
released v r = none

-- The argument is the document, with `none` where it cannot be read.
unfoldable pub release_build_info : Option Value → Option BuildInfo
unfolding get
release_build_info (some (obj payload)) =
    if is_release (get "build" payload)
    then released (full_text (get "version" payload)) (full_text (get "revision" payload))
    else none
release_build_info v = none

-- `bundled` says whether the program runs from a bundle.
unfoldable pub build_info : Bool → Option Value → Option String → BuildInfo
unfolding release_build_info source_build_info
build_info false manifest installed = source_build_info installed
build_info true manifest installed = elim (release_build_info manifest) [
  | some release ↦ release
  | none ↦ record { version = not_available; build = not_available; revision = not_available }
]

release_build_info_test :
    release_build_info (
      some (
        obj (
          field "build"
            (str "release")
            (field "version" (str "1.2") (field "revision" (str "") end)))))
    ≡ none
unfolding release_build_info get
release_build_info_test = refl
