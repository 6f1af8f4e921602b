-- ===== src/Execution.antt =====
-- src/execution.rs: memory limits of an action, the marker token of its supervisor, and the
-- resource failures that the supervisor writes to the error stream.
pub mod Command
use quokka.Prelude.{
  Text, text, text_eq, text_eq_iff, text_eq_refl, strip_prefix, split_once, show_nat, Bool, true,
  false, not, ◌&&◌, ◌||◌, Option, none, some, ℕ, zero, suc, ◌+◌, ◌-◌, ◌*◌, ◌/◌, ◌%◌, ◌^◌, ◌≤◌, ◌<◌,
  max, min, ltb, leb, ◌==◌, if◌then◌else◌, ==_iff, Bool-cases, Option-cases, ◌≡◌, refl, sym, ap,
  ◌∙◌, ◌≢◌, ◌↔◌, ◌⊎◌, inl, inr, List, [], ◌∷◌, ◌++◌, map, Perm, arith, length, get_elem?, take,
  drop, replicate, any, filter, is_empty, All, flatten, Result, ok, err, ◌>>=◌, Key, Map, lookup,
  insert, remove, lookup-insert, lookup-insert_self, lookup-insert_ne, nat_key, text_key,
}
use quokka.Std.{le_bytes, from_utf8_lossy, lines, split_whitespace, parse_usize, starts_with}
use quokka.Outcome.{Duration}
use quokka.Prelude.{bit_xor}

pub data CgroupGranularity : Type 0 where
  logical_test action : CgroupGranularity

unfoldable pub is_logical_test : CgroupGranularity → Bool
is_logical_test logical_test = true
is_logical_test action = false

pub data CgroupMemoryMax : Type 0 where
  bytes : ℕ → CgroupMemoryMax  -- NonZeroU64
  unlimited : CgroupMemoryMax

-- `value.parse::<NonZeroU64>().ok()`
abbrev non_zero : Option ℕ → Option CgroupMemoryMax
non_zero none = none
non_zero (some zero) = none
non_zero (some (suc n)) = some (bytes (suc n))

unfoldable pub parse_memory_max : Text → Option CgroupMemoryMax
unfolding parse_usize
parse_memory_max value =
    if text_eq value (text "max") then some unlimited else non_zero (parse_usize value)

pub record CgroupMemoryMaxOverride : Type 0 where
  pub target : Text
  pub test : Text
  pub memory_max : CgroupMemoryMax

make_override : Text → Text → Option CgroupMemoryMax → Option CgroupMemoryMaxOverride
make_override target test none = none
make_override target test (some m) = some (record { target = target; test = test; memory_max = m })

parse_rest : Text → Option (Text × Text) → Option CgroupMemoryMaxOverride
unfolding make_override parse_memory_max
parse_rest target none = none
parse_rest target (some (test, memory_max)) =
    if is_empty target || is_empty test || any (λ c. c == b'|') memory_max
    then none
    else make_override target test (parse_memory_max memory_max)

parse_parts : Option (Text × Text) → Option CgroupMemoryMaxOverride
unfolding parse_rest split_once
parse_parts none = none
parse_parts (some (target, rest)) = parse_rest target (split_once rest b'|')

-- `CgroupMemoryMaxOverride::parse`, for `TARGET|TEST|MEMORY`.
unfoldable pub parse_override : Text → Option CgroupMemoryMaxOverride
unfolding parse_parts split_once
parse_override value = parse_parts (split_once value b'|')

applies : Text → List Text → CgroupMemoryMaxOverride → Bool
applies target tests candidate =
    text_eq candidate.target target && any (λ t. text_eq t candidate.test) tests

limit_of_matches :
    CgroupMemoryMax → List Text → List CgroupMemoryMaxOverride → Result Text CgroupMemoryMax
limit_of_matches default tests [] = ok default
limit_of_matches default tests (matched ∷ []) =
    if length tests == 1
    then ok matched.memory_max
    else err (text "a cgroup memory override requires a singleton test action")
limit_of_matches default tests (m ∷ (n ∷ ms)) =
    err (text "multiple cgroup memory overrides match one action")

unfoldable pub cgroup_memory_max_for_action :
    CgroupMemoryMax → List CgroupMemoryMaxOverride → Text → List Text → Result Text CgroupMemoryMax
unfolding applies limit_of_matches
cgroup_memory_max_for_action default overrides target tests =
    limit_of_matches default tests (filter (applies target tests) overrides)

-- One byte of FNV-1a over `u64`.
fnv1a_step : ℕ → ℕ → ℕ
fnv1a_step hash b = (bit_xor hash b * 0x100000001b3) % 2 ^ 64

unfoldable pub fnv1a_from : ℕ → Text → ℕ
unfolding fnv1a_step
fnv1a_from hash [] = hash
fnv1a_from hash (b ∷ bs) = fnv1a_from (fnv1a_step hash b) bs

abbrev pub fnv1a_basis : ℕ
fnv1a_basis = 0xcbf29ce484222325

hash_fields : ℕ → List Text → ℕ
unfolding fnv1a_from le_bytes
hash_fields hash [] = hash
hash_fields hash (field ∷ fields) =
    hash_fields (fnv1a_from (fnv1a_from hash (le_bytes 8 (length field))) field) fields

hex_digit : ℕ → ℕ
hex_digit d = if ltb d 10 then b'0' + d else b'a' + (d - 10)

-- `{hash:016x}`
hex_digits : ℕ → ℕ → Text
unfolding hex_digit
hex_digits zero n = []
hex_digits (suc k) n = hex_digits k (n / 16) ++ hex_digit (n % 16) ∷ []

-- `ResourceMarkerToken::from_stable_fields`
unfoldable pub from_stable_fields : Text → List Text → Text
unfolding hash_fields hex_digits
from_stable_fields domain fields = hex_digits 16 (hash_fields fnv1a_basis (domain ∷ fields))

pub data ResourceFailure : Type 0 where
  logical_timeout logical_oom : (index : ℕ) (details : Text) → ResourceFailure
  action_timeout action_oom setup malformed : (details : Text) → ResourceFailure

-- `find_map(|token| token.strip_prefix("index="))`
find_index : List Text → Option Text
find_index [] = none
find_index (t ∷ ts) =
    let rest = find_index ts in
    elim (strip_prefix t (text "index=")) [ none ↦ rest | some raw ↦ some raw ]

logical_at : Text → Bool → Option ℕ → ResourceFailure
logical_at details timeout none = malformed details
logical_at details timeout (some index) =
    if timeout then logical_timeout index details else logical_oom index details

parse_index : Option Text → Option ℕ
unfolding parse_usize
parse_index none = none
parse_index (some raw) = parse_usize raw

parse_logical_failure : Text → Text → Bool → ResourceFailure
unfolding find_index logical_at parse_index split_whitespace
parse_logical_failure rest line timeout =
    logical_at (text "quokka " ++ line) timeout (parse_index (find_index (split_whitespace rest)))

action_marker : Text → Option ResourceFailure
action_marker marker =
    let details = text "quokka " ++ marker in
    if starts_with marker (text "test action timeout: ")
    then some (action_timeout details)
    else if starts_with marker (text "test action cgroup OOM: ")
    then some (action_oom details)
    else if starts_with marker (text "cgroup setup failure: ")
    then some (setup details)
    else none

parse_marker : Text → Option ResourceFailure
unfolding parse_logical_failure action_marker starts_with
parse_marker marker = elim (strip_prefix marker (text "logical test timeout:")) [
  | some rest ↦ some (parse_logical_failure rest marker true)
  | none ↦ elim (strip_prefix marker (text "logical test cgroup OOM:")) [
    | some rest ↦ some (parse_logical_failure rest marker false)
    | none ↦ action_marker marker
  ]
]

marker_of : Option Text → Option ResourceFailure
unfolding parse_marker
marker_of none = none
marker_of (some marker) = parse_marker marker

cons_some : Option ResourceFailure → List ResourceFailure → List ResourceFailure
cons_some none fs = fs
cons_some (some f) fs = f ∷ fs

failures_of : Text → List Text → List ResourceFailure
unfolding marker_of cons_some
failures_of prefix [] = []
failures_of prefix (line ∷ ls) =
    cons_some (marker_of (strip_prefix line prefix)) (failures_of prefix ls)

unfoldable pub parse_resource_failures : Text → Text → List ResourceFailure
unfolding failures_of from_utf8_lossy lines
parse_resource_failures stderr token =
    failures_of (text "quokka resource " ++ (token ++ text " ")) (lines (from_utf8_lossy stderr))

abbrev saturate_u32 : ℕ → ℕ
saturate_u32 n = min n (2 ^ 32 - 1)

-- The largest `Duration`, in nanoseconds; its arithmetic saturates there.
abbrev max_duration : ℕ
max_duration = 2 ^ 64 * 1_000_000_000 - 1

unfoldable pub supervised_action_timeout : Duration → ℕ → Duration
supervised_action_timeout timeout logical_count =
    min (min (timeout * saturate_u32 logical_count) max_duration + 60_000_000_000) max_duration
