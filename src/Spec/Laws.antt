-- ===== src/Spec/Laws.antt =====
-- What of a spec survives its parse.
use quokka.Prelude.{
  Text, not, Option, none, some, ℕ, suc, ◌≡◌, refl, ap, ◌∙◌, List, [], ◌∷◌, map, Perm, Result, ok,
  err, nat_key, text_key,
}
use quokka.Prelude.{sort-perm, ℤ}
use mathlib.Core.Path.{subst}
use mathlib.Core.List.Perm
use quokka.Std.{text_lt}
use quokka.Spec.{
  CommandArg, TargetSpec, ConfiguredTarget, ExternalRunnerSpec, SpecError, value_of, cons_result,
  env_value, env_of, command_value, command_of, sort_env, assemble, with_handle, with_target,
  from_proto, target_display,
}

abbrev given : Text × CommandArg → Text × Option CommandArg
given (key, value) = (key, some value)

module _ {A : Type 0} where
  cons_result-ok :
      (a : A) (r : Result SpecError (List A)) (xs : List A)
      → cons_result a r ≡ ok xs
      → (ys : List A) × (r ≡ ok ys) × (xs ≡ a ∷ ys)
  unfolding cons_result
  cons_result-ok a (err e) xs h = absurd cc
  cons_result-ok a (ok ys) xs h = (ys, refl, cc)

command_of-some :
    (index : ℕ) (values : List (Option CommandArg)) (command : List CommandArg)
    → command_of index values ≡ ok command
    → map some command ≡ values
unfolding command_of command_value value_of
command_of-some index [] [] h = refl
command_of-some index [] (c ∷ command) h = absurd cc
command_of-some index (none ∷ values) command h = absurd cc
command_of-some index (some v ∷ values) command h =
    let (rest, r, e) = cons_result-ok v (command_of (suc index) values) command h in
    let there = command_of-some (suc index) values rest r in
    ap (map some) e ∙ ap (λ t. some v ∷ t) there

env_of-given :
    (values : List (Text × Option CommandArg)) (env : List (Text × CommandArg))
    → env_of values ≡ ok env
    → map given env ≡ values
unfolding env_of env_value value_of
env_of-given [] [] h = refl
env_of-given [] (c ∷ env) h = absurd cc
env_of-given ((key, none) ∷ values) env h = absurd cc
env_of-given ((key, some v) ∷ values) env h =
    let (rest, r, e) = cons_result-ok (key, v) (env_of values) env h in
    let there = env_of-given values rest r in ap (map given) e ∙ ap (λ t. (key, some v) ∷ t) there

ok_unique : {a b : TargetSpec} (r : Result SpecError TargetSpec) → r ≡ ok a → r ≡ ok b → a ≡ b
ok_unique r h k = cc

-- What the parsed target keeps of the spec.
pub record Echoes (spec : ExternalRunnerSpec) (t : TargetSpec) : Type 0 where
  pub command : map some t.command ≡ spec.command
  pub env : Perm (map given t.env) spec.env
  pub target :
      (c : ConfiguredTarget) × (spec.target ≡ some c)
      × (c.handle ≡ some t.handle)
      × (t.display ≡ target_display c)
  pub labels : t.labels ≡ spec.labels

assemble-Echoes :
    (spec : ExternalRunnerSpec) (c : ConfiguredTarget) (handle : ℤ) (t : TargetSpec)
    (env : Result SpecError (List (Text × CommandArg)))
    (command : Result SpecError (List CommandArg))
    → spec.target ≡ some c
    → c.handle ≡ some handle
    → env_of spec.env ≡ env
    → command_of 0 spec.command ≡ command
    → assemble spec c handle env command ≡ ok t
    → Echoes spec t
unfolding assemble sort_env
assemble-Echoes spec c handle t (err e) command ec eh he hc h = absurd cc
assemble-Echoes spec c handle t (ok env) (err e) ec eh he hc h = absurd cc
assemble-Echoes spec c handle t (ok env) (ok command) ec eh he hc h =
    subst (Echoes spec) (ok_unique (assemble spec c handle (ok env) (ok command)) refl h) (record {
      command = command_of-some 0 spec.command command hc;
      env =
          subst (Perm (map given (sort_env env))) (env_of-given spec.env env he)
            (Perm.map given (sort-perm (λ a b. not (text_lt b.0 a.0)) env));
      target = (c, ec, eh, refl);
      labels = refl;
    })

with_handle-Echoes :
    (spec : ExternalRunnerSpec) (c : ConfiguredTarget) (handle : Option ℤ) (t : TargetSpec)
    → spec.target ≡ some c
    → c.handle ≡ handle
    → with_handle spec c handle ≡ ok t
    → Echoes spec t
unfolding with_handle
with_handle-Echoes spec c none t ec eh h = absurd cc
with_handle-Echoes spec c (some handle) t ec eh h =
    assemble-Echoes spec c handle t (env_of spec.env) (command_of 0 spec.command) ec eh refl refl h

with_target-Echoes :
    (spec : ExternalRunnerSpec) (target : Option ConfiguredTarget) (t : TargetSpec)
    → spec.target ≡ target
    → with_target spec target ≡ ok t
    → Echoes spec t
unfolding with_target
with_target-Echoes spec none t ec h = absurd cc
with_target-Echoes spec (some c) t ec h = with_handle-Echoes spec c c.handle t ec refl h

-- A parsed target echoes its spec: its handle, its command in order and value by value, its labels,
-- and its environment with no variable lost, added or changed, only ordered.
pub from_proto-Echoes :
    (spec : ExternalRunnerSpec) (t : TargetSpec) → from_proto spec ≡ ok t → Echoes spec t
unfolding from_proto
from_proto-Echoes spec t h = with_target-Echoes spec spec.target t refl h
