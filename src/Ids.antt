-- ===== src/Ids.antt =====
-- src/ids.rs: the interner of test names. An identifier is its number; resolving one that was never
-- issued panics, which is `none`.
pub mod Laws
use quokka.Prelude.{
  Text, text, text_eq, text_eq_iff, text_eq_refl, strip_prefix, split_once, show_nat, Bool, true,
  false, not, ◌&&◌, ◌||◌, Option, none, some, ℕ, zero, suc, ◌+◌, ◌-◌, ◌*◌, ◌/◌, ◌%◌, ◌^◌, ◌≤◌, ◌<◌,
  max, min, ltb, leb, ◌==◌, if◌then◌else◌, ==_iff, Bool-cases, Option-cases, ◌≡◌, refl, sym, ap,
  ◌∙◌, ◌≢◌, ◌↔◌, ◌⊎◌, inl, inr, List, [], ◌∷◌, ◌++◌, map, Perm, arith, length, get_elem?, take,
  drop, replicate, any, filter, is_empty, All, flatten, Result, ok, err, ◌>>=◌, Key, Map, lookup,
  insert, remove, lookup-insert, lookup-insert_self, lookup-insert_ne, nat_key, text_key,
}

pub record TestNameInterner : Type 0 where
  pub names : List Text
  pub index : Map Text ℕ

abbrev pub empty : TestNameInterner
empty = record { names = []; index = [] }

intern_new : TestNameInterner → Text → Option ℕ → ℕ × TestNameInterner
intern_new i name (some id) = (id, i)
intern_new i name none =
    let id = length i.names % 2 ^ 32 in
    (id, record { names = i.names ++ name ∷ []; index = insert name id i.index })

unfoldable pub intern : TestNameInterner → Text → ℕ × TestNameInterner
unfolding intern_new
intern i name = intern_new i name (lookup name i.index)

unfoldable pub resolve : TestNameInterner → ℕ → Option Text
resolve i id = get_elem? i.names id
