-- ===== src/Environment.antt =====
-- src/environment.rs: what a test needs of its host, merged from its labels.
pub mod Laws
use quokka.Prelude.{
  Text, text, text_eq, text_eq_iff, text_eq_refl, strip_prefix, split_once, show_nat, Bool, true,
  false, not, ◌&&◌, ◌||◌, Option, none, some, ℕ, zero, suc, ◌+◌, ◌-◌, ◌*◌, ◌/◌, ◌%◌, ◌^◌, ◌≤◌, ◌<◌,
  max, min, ltb, leb, ◌==◌, if◌then◌else◌, ==_iff, Bool-cases, Option-cases, ◌≡◌, refl, sym, ap,
  ◌∙◌, ◌≢◌, ◌↔◌, ◌⊎◌, inl, inr, List, [], ◌∷◌, ◌++◌, map, Perm, arith, length, get_elem?, take,
  drop, replicate, any, filter, is_empty, All, flatten, Result, ok, err, ◌>>=◌, Key, Map, lookup,
  insert, remove, lookup-insert, lookup-insert_self, lookup-insert_ne, nat_key, text_key,
}
use quokka.Labels.{label_suffix}
use quokka.Std.{text_lt}

pub data HostExclusivity : Type 0 where
  shared exclusive : HostExclusivity

pub record HardwareNeeds : Type 0 where
  pub requires_gpu : Bool
  pub requires_large_mem : Bool
  pub network_isolated : Bool
  pub listing_only : Bool
  pub local_debug : Bool

abbrev pub no_needs : HardwareNeeds
no_needs = record {
  requires_gpu = false;
  requires_large_mem = false;
  network_isolated = false;
  listing_only = false;
  local_debug = false;
}

pub data ConstraintConflictError : Type 0 where
  conflict : ConstraintConflictError

merged : HardwareNeeds → HardwareNeeds → HardwareNeeds
merged a b = record {
  requires_gpu = a.requires_gpu || b.requires_gpu;
  requires_large_mem = a.requires_large_mem || b.requires_large_mem;
  network_isolated = a.network_isolated || b.network_isolated;
  listing_only = a.listing_only || b.listing_only;
  local_debug = a.local_debug || b.local_debug;
}

unfoldable pub combine_hardware :
    HardwareNeeds → HardwareNeeds → Result ConstraintConflictError HardwareNeeds
unfolding merged
combine_hardware a b =
    let m = merged a b in if m.requires_gpu && m.requires_large_mem then err conflict else ok m

-- A `BTreeSet<String>` as its sorted elements.
set_insert : Text → List Text → List Text
set_insert r [] = r ∷ []
set_insert r (x ∷ xs) =
    if text_eq r x then x ∷ xs else if text_lt r x then r ∷ (x ∷ xs) else x ∷ set_insert r xs

set_extend : List Text → List Text → List Text
unfolding set_insert
set_extend s [] = s
set_extend s (r ∷ rs) = set_extend (set_insert r s) rs

pub record SchedulingProfile : Type 0 where
  pub hardware : HardwareNeeds
  pub exclusivity : HostExclusivity
  pub local_resources : List Text

abbrev pub default_profile : SchedulingProfile
default_profile = record { hardware = no_needs; exclusivity = shared; local_resources = [] }

exclusivity_with : HostExclusivity → HostExclusivity → HostExclusivity
exclusivity_with mine exclusive = exclusive
exclusivity_with mine shared = mine

unfoldable pub combine :
    SchedulingProfile → SchedulingProfile → Result ConstraintConflictError SchedulingProfile
unfolding combine_hardware exclusivity_with set_extend
combine p q = do
  hardware ← combine_hardware p.hardware q.hardware
  ok (record {
    hardware = hardware;
    exclusivity = exclusivity_with p.exclusivity q.exclusivity;
    local_resources = set_extend p.local_resources q.local_resources;
  })

single_resource : Option Text → SchedulingProfile
single_resource none = default_profile
single_resource (some r) = record default_profile { local_resources = r ∷ [] }

-- The `match suffix` of the loop: the profile of one label.
single : Text → SchedulingProfile
unfolding single_resource
single suffix =
    if text_eq suffix (text "gpu")
    then record default_profile { hardware = record no_needs { requires_gpu = true } }
    else if text_eq suffix (text "large-mem")
    then record default_profile { hardware = record no_needs { requires_large_mem = true } }
    else if text_eq suffix (text "network-private")
    then record default_profile { hardware = record no_needs { network_isolated = true } }
    else if text_eq suffix (text "exclusive") || text_eq suffix (text "serial_global_state")
    then record default_profile { exclusivity = exclusive }
    else single_resource (strip_prefix suffix (text "local-resource="))

profile_loop : SchedulingProfile → List Text → Result ConstraintConflictError SchedulingProfile
unfolding combine single
profile_loop profile [] = ok profile
profile_loop profile (l ∷ ls) =
    combine profile (single (label_suffix l)) >>= (λ p. profile_loop p ls)

unfoldable pub profile_from_labels : List Text → Result ConstraintConflictError SchedulingProfile
unfolding profile_loop
profile_from_labels labels = profile_loop default_profile labels
