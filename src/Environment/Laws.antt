-- ===== src/Environment/Laws.antt =====
-- A description of the profile of a target, label by label, beside the merging loop.
use quokka.Prelude.{
  Text, text, text_eq, text_eq_iff, strip_prefix, Bool, true, false, ◌&&◌, ◌||◌, Option, none, some,
  if◌then◌else◌, Bool-cases, ◌≡◌, refl, sym, ◌∙◌, inl, inr, List, [], ◌∷◌, arith, Result, ok, err,
  nat_key, text_key,
}
use quokka.Labels.{label_suffix, has_suffix}
use quokka.Environment.{
  HostExclusivity, shared, exclusive, no_needs, ConstraintConflictError, conflict,
  SchedulingProfile, default_profile, combine, single, profile_loop, profile_from_labels,
  set_insert, set_extend, merged, combine_hardware, exclusivity_with, single_resource,
}

-- The resources that labels name, added to a set in the order of the labels.
add_resource : Option Text → List Text → List Text
add_resource none s = s
add_resource (some r) s = set_insert r s

resources_from : List Text → List Text → List Text
unfolding add_resource
resources_from s [] = s
resources_from s (l ∷ ls) =
    resources_from (add_resource (strip_prefix (label_suffix l) (text "local-resource=")) s) ls

needs_exclusive : List Text → Bool
needs_exclusive labels =
    has_suffix (text "exclusive") labels || has_suffix (text "serial_global_state") labels

-- The description of the merge of `p` with the profiles of the labels.
pub described : SchedulingProfile → List Text → Result ConstraintConflictError SchedulingProfile
unfolding resources_from needs_exclusive
described p labels =
    let gpu = p.hardware.requires_gpu || has_suffix (text "gpu") labels in
    let large_mem = p.hardware.requires_large_mem || has_suffix (text "large-mem") labels in
    if gpu && large_mem
    then err conflict
    else ok (record {
      hardware = record {
        requires_gpu = gpu;
        requires_large_mem = large_mem;
        network_isolated =
            p.hardware.network_isolated || has_suffix (text "network-private") labels;
        listing_only = p.hardware.listing_only;
        local_debug = p.hardware.local_debug;
      };
      exclusivity = if needs_exclusive labels then exclusive else p.exclusivity;
      local_resources = resources_from p.local_resources labels;
    })

one_resource : Option Text → List Text
one_resource none = []
one_resource (some r) = r ∷ []

-- One label's profile, field by field.
single_described : Text → SchedulingProfile
unfolding one_resource
single_described s = record {
  hardware = record {
    requires_gpu = text_eq s (text "gpu");
    requires_large_mem = text_eq s (text "large-mem");
    network_isolated = text_eq s (text "network-private");
    listing_only = false;
    local_debug = false;
  };
  exclusivity =
      if text_eq s (text "exclusive") || text_eq s (text "serial_global_state")
      then exclusive
      else shared;
  local_resources = one_resource (strip_prefix s (text "local-resource="));
}

single_at :
    (s name : Text)
    → single name ≡ single_described name
    → text_eq s name ≡ true
    → single s ≡ single_described s
single_at s name h e = rw ((text_eq_iff s name).0 e) h

single_resource_lem :
    (o : Option Text)
    → single_resource o
      ≡ record { hardware = no_needs; exclusivity = shared; local_resources = one_resource o }
unfolding single_resource one_resource
single_resource_lem none = refl
single_resource_lem (some r) = refl

single_lem : (s : Text) → single s ≡ single_described s
unfolding single single_described
single_lem s = elim (Bool-cases (text_eq s (text "gpu"))) [
  | inl e ↦ single_at s (text "gpu") refl e
  | inr gpu ↦ elim (Bool-cases (text_eq s (text "large-mem"))) [
    | inl e ↦ single_at s (text "large-mem") refl e
    | inr mem ↦ elim (Bool-cases (text_eq s (text "network-private"))) [
      | inl e ↦ single_at s (text "network-private") refl e
      | inr net ↦ elim (Bool-cases (text_eq s (text "exclusive"))) [
        | inl e ↦ single_at s (text "exclusive") refl e
        | inr ex ↦ elim (Bool-cases (text_eq s (text "serial_global_state"))) [
          | inl e ↦ single_at s (text "serial_global_state") refl e
          | inr ser ↦ rw (gpu, mem, net, ex, ser) (single_resource_lem _)
        ]
      ]
    ]
  ]
]

or_assoc : (a b c : Bool) → ((a || b) || c) ≡ (a || (b || c))
or_assoc a b c = ground arith

or_false : (a : Bool) → (a || false) ≡ a
or_false a = ground arith

resources-step :
    (o : Option Text) (s : List Text) → set_extend s (one_resource o) ≡ add_resource o s
unfolding set_extend one_resource add_resource
resources-step none s = refl
resources-step (some r) s = refl

exclusivity-step :
    (e : HostExclusivity) (a b c d : Bool)
    → (if b || d then exclusive else exclusivity_with e (if a || c then exclusive else shared))
      ≡ (if (a || b) || (c || d) then exclusive else e)
unfolding exclusivity_with
exclusivity-step e a b c d = ground arith

-- `p` merged with the profile of a label that has the suffix `s`.
after : SchedulingProfile → Text → SchedulingProfile
unfolding merged exclusivity_with set_extend single_described
after p s = record {
  hardware = merged p.hardware (single_described s).hardware;
  exclusivity = exclusivity_with p.exclusivity (single_described s).exclusivity;
  local_resources = set_extend p.local_resources (single_described s).local_resources;
}

described-after :
    (p : SchedulingProfile) (l : Text) (ls : List Text)
    → described (after p (label_suffix l)) ls ≡ described p (l ∷ ls)
unfolding described after resources_from needs_exclusive merged single_described
described-after p l ls = simp (or_assoc, or_false, resources-step, exclusivity-step)

combine-single :
    (p : SchedulingProfile) (s : Text)
    → combine p (single s) ≡ (
        if (after p s).hardware.requires_gpu && (after p s).hardware.requires_large_mem
        then err conflict
        else ok (after p s))
unfolding combine after combine_hardware
combine-single p s =
    rw (single_lem s)
      (elim (Bool-cases
        ((after p s).hardware.requires_gpu && (after p s).hardware.requires_large_mem)) [
          | inl e ↦ rw e
          | inr e ↦ rw e
        ])

described_conflict :
    (p : SchedulingProfile) (labels : List Text)
    → (p.hardware.requires_gpu && p.hardware.requires_large_mem) ≡ true
    → described p labels ≡ err conflict
unfolding described
described_conflict p labels h = ground arith

profile_loop_lem :
    (p : SchedulingProfile) (labels : List Text)
    → (p.hardware.requires_gpu && p.hardware.requires_large_mem) ≡ false
    → profile_loop p labels ≡ described p labels
unfolding profile_loop described
profile_loop_lem p [] h = simp (or_false, h)
profile_loop_lem p (l ∷ ls) h =
    let q = after p (label_suffix l) in
    rw (combine-single p (label_suffix l))
      (elim (Bool-cases (q.hardware.requires_gpu && q.hardware.requires_large_mem)) [
        | inl e ↦ rw e (sym (described_conflict q ls e) ∙ described-after p l ls)
        | inr e ↦ rw e (profile_loop_lem q ls e ∙ described-after p l ls)
      ])

-- A label list asks for a profile exactly as this description says: it is refused exactly when one
-- label says `gpu` and one says `large-mem`; otherwise each hardware need is set exactly when some
-- label names it, the host is exclusive exactly when some label says `exclusive` or
-- `serial_global_state`, and the local resources are those of the `local-resource=` labels.
pub profile_from_labels_lem :
    (labels : List Text) → profile_from_labels labels ≡ described default_profile labels
unfolding profile_from_labels
profile_from_labels_lem labels = profile_loop_lem default_profile labels refl
