-- ===== src/Adapter/Profile.antt =====
-- `PersistedMetadataReplayProfile` and its resolution, of `crates/ganglion-openraft/src/lib.rs`.
-- `str::trim` is a parameter. The environment variable is an argument.
pub mod Parsing
pub mod Persisted
pub mod Opening
use ganglion.Prelude.{
  ℕ, ◌+◌, ◌-◌, ◌*◌, Option, some, none, Bool, true, false, List, [], ◌∷◌, ◌==◌, ◌&&◌, leb, eqb, map,
  if◌then◌else◌, u64_max, Result, ok, err,
}
use ganglion.Core.Model.{Str, str_eq}
use ganglion.Storage.FileLog.{MetadataLogError, FileMetadataReplayPolicy, strict, truncate_tail}
use ganglion.Adapter.Error.{
  OpenraftAdapterError, config, invalid_tail_limit, invalid_profile, unreadable_variable,
}

pub data PersistedMetadataReplayProfile : Type 0 where
  strict_profile default_profile : PersistedMetadataReplayProfile
  truncate_tail_profile : ℕ → PersistedMetadataReplayProfile

abbrev default_tail_replay_limit : ℕ
default_tail_replay_limit = 1

unfoldable pub to_replay_policy : PersistedMetadataReplayProfile → FileMetadataReplayPolicy
to_replay_policy strict_profile = strict
to_replay_policy default_profile = truncate_tail default_tail_replay_limit
to_replay_policy (truncate_tail_profile max_tail_lines) = truncate_tail max_tail_lines

unfoldable pub from_replay_policy : FileMetadataReplayPolicy → PersistedMetadataReplayProfile
from_replay_policy strict = strict_profile
from_replay_policy (truncate_tail max_tail_lines) =
    if eqb max_tail_lines default_tail_replay_limit
    then default_profile
    else truncate_tail_profile max_tail_lines

abbrev pub to_ascii_lowercase : Str → Str
to_ascii_lowercase s = map (λ c. if leb 65 c && leb c 90 then c + 32 else c) s

-- The digits of `parse::<usize>`, after those whose value is given.
unfoldable pub parse_digits : ℕ → Str → Option ℕ
parse_digits value [] = some value
parse_digits value (c ∷ cs) =
    let next = value * 10 + (c - 48) in
    let rest = parse_digits next cs in
    if leb 48 c && leb c 57 then if leb next u64_max then rest else none else none

-- `parse::<usize>`
unfoldable pub parse_usize : Str → Option ℕ
unfolding parse_digits
parse_usize [] = none
parse_usize (c ∷ []) = if eqb c 43 then none else parse_digits 0 (c ∷ [])
parse_usize (c ∷ d ∷ cs) = if eqb c 43 then parse_digits 0 (d ∷ cs) else parse_digits 0 (c ∷ d ∷ cs)

abbrev strip_prefix : Str → Str → Option Str
strip_prefix [] s = some s
strip_prefix (p ∷ ps) [] = none
strip_prefix (p ∷ ps) (c ∷ cs) = if eqb p c then strip_prefix ps cs else none

-- The bytes of `default`, `strict`, `resilient`, `tail:` and `truncate_tail:`.
abbrev default_word : Str
default_word = 100 ∷ 101 ∷ 102 ∷ 97 ∷ 117 ∷ 108 ∷ 116 ∷ []

abbrev strict_word : Str
strict_word = 115 ∷ 116 ∷ 114 ∷ 105 ∷ 99 ∷ 116 ∷ []

abbrev resilient_word : Str
resilient_word = 114 ∷ 101 ∷ 115 ∷ 105 ∷ 108 ∷ 105 ∷ 101 ∷ 110 ∷ 116 ∷ []

abbrev pub tail_prefix : Str
tail_prefix = 116 ∷ 97 ∷ 105 ∷ 108 ∷ 58 ∷ []

abbrev pub truncate_tail_prefix : Str
truncate_tail_prefix =
    116 ∷ 114 ∷ 117 ∷ 110 ∷ 99 ∷ 97 ∷ 116 ∷ 101 ∷ 95 ∷ 116 ∷ 97 ∷ 105 ∷ 108 ∷ 58 ∷ []

abbrev pub ProfileResult : Type 0
ProfileResult = Result (OpenraftAdapterError MetadataLogError) PersistedMetadataReplayProfile

unfoldable pub parse_tail_limit : Str → ProfileResult
unfolding parse_usize
parse_tail_limit suffix = elim (parse_usize suffix) [
  | none ↦ err (config (invalid_tail_limit suffix))
  | some max_tail_lines ↦ ok (truncate_tail_profile max_tail_lines)
]

-- `from_str` after the text is normalized.
unfoldable pub from_normalized : Str → Str → ProfileResult
unfolding parse_tail_limit
from_normalized raw normalized =
    if normalized == []
    then ok default_profile
    else if normalized == default_word
    then ok default_profile
    else if normalized == strict_word
    then ok strict_profile
    else if normalized == resilient_word
    then ok default_profile
    else elim (strip_prefix truncate_tail_prefix normalized) [
      | some suffix ↦ parse_tail_limit suffix
      | none ↦ elim (strip_prefix tail_prefix normalized) [
        | some suffix ↦ parse_tail_limit suffix
        | none ↦ elim (parse_usize normalized) [
          | none ↦ err (config (invalid_profile raw))
          | some max_tail_lines ↦ ok (truncate_tail_profile max_tail_lines)
        ]
      ]
    ]

pub data PersistedMetadataReplayProfileSource : Type 0 where
  default_source environment_source explicit_source : PersistedMetadataReplayProfileSource

pub record PersistedMetadataReplayProfileResolution : Type 0 where
  pub profile : PersistedMetadataReplayProfile
  pub source : PersistedMetadataReplayProfileSource

abbrev ResolutionResult : Type 0
ResolutionResult =
    Result (OpenraftAdapterError MetadataLogError) PersistedMetadataReplayProfileResolution

-- What `std::env::var` gives.
pub data EnvVar : Type 0 where
  present : Str → EnvVar
  not_present not_unicode : EnvVar

module _ (trim : Str → Str) where
  -- `PersistedMetadataReplayProfile::from_str`
  unfoldable pub from_str : Str → ProfileResult
  unfolding from_normalized
  from_str raw = from_normalized raw (to_ascii_lowercase (trim raw))

  abbrev parsed_from : Str → PersistedMetadataReplayProfileSource → ResolutionResult
  parsed_from raw source = elim (from_str raw) [
    | err e ↦ err e
    | ok profile ↦ ok (record { profile = profile; source = source })
  ]

  unfoldable pub from_env_or_default : EnvVar → ResolutionResult
  from_env_or_default (present raw) = parsed_from raw environment_source
  from_env_or_default not_present =
      ok (record { profile = default_profile; source = default_source })
  from_env_or_default not_unicode = err (config unreadable_variable)

  unfoldable pub from_explicit_or_env : Option Str → EnvVar → ResolutionResult
  unfolding from_env_or_default
  from_explicit_or_env (some raw) env = parsed_from raw explicit_source
  from_explicit_or_env none env = from_env_or_default env
