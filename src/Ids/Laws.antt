-- ===== src/Ids/Laws.antt =====
-- What an interner gives back.
use quokka.Prelude.{
  Text, text_eq, text_eq_iff, Bool, true, false, Option, none, some, ℕ, zero, suc, ◌%◌, ◌^◌, ◌<◌,
  if◌then◌else◌, ◌≡◌, refl, sym, ap, ◌∙◌, List, [], ◌∷◌, ◌++◌, arith, length, get_elem?, All, Map,
  lookup, insert, nat_key, text_key,
}
use mathlib.Core.List.{append-nil}
use quokka.Ids.{TestNameInterner, intern, intern_new, resolve}

-- Each name of the index stands at its number.
abbrev pub IsConsistent : TestNameInterner → Type 0
IsConsistent i = All (λ e. get_elem? i.names e.1 ≡ some e.0) i.index

get_elem-append :
    {A : Type 0} (xs ys : List A) (n : ℕ) (a : A)
    → get_elem? xs n ≡ some a
    → get_elem? (xs ++ ys) n ≡ some a
get_elem-append [] ys n a h = absurd cc
get_elem-append (x ∷ xs) ys zero a h = h
get_elem-append (x ∷ xs) ys (suc n) a h = get_elem-append xs ys n a h

get_elem-last : {A : Type 0} (xs : List A) (a : A) → get_elem? (xs ++ a ∷ []) (length xs) ≡ some a
get_elem-last [] a = refl
get_elem-last (x ∷ xs) a = get_elem-last xs a

module _ (names : List Text) where
  if_stands :
      (b : Bool) (index : Map Text ℕ) (n name : Text) (k id : ℕ)
      → get_elem? names id ≡ some name
      → All (λ e. get_elem? names e.1 ≡ some e.0) ((n, k) ∷ index)
      → All (λ e. get_elem? names e.1 ≡ some e.0) (insert name id index)
      → All
          (λ e. get_elem? names e.1 ≡ some e.0)
          (if b then (name, id) ∷ index else (n, k) ∷ insert name id index)
  if_stands true index n name k id h all rest = (h, all.1)
  if_stands false index n name k id h all rest = (all.0, rest)

  abbrev Stands : Text × ℕ → Type 0
  Stands e = get_elem? names e.1 ≡ some e.0

  lookup-Stands :
      (index : Map Text ℕ) (name : Text) (id : ℕ)
      → All Stands index
      → lookup name index ≡ some id
      → get_elem? names id ≡ some name
  unfolding lookup
  lookup-Stands [] name id all h = absurd cc
  lookup-Stands ((n, k) ∷ index) name id all h =
      ground (arith, text_eq_iff n name, all.0, lookup-Stands index name id all.1)

  insert-Stands :
      (index : Map Text ℕ) (name : Text) (id : ℕ)
      → All Stands index
      → get_elem? names id ≡ some name
      → All Stands (insert name id index)
  unfolding insert
  insert-Stands [] name id all h = (h, tt)
  insert-Stands ((n, k) ∷ index) name id all h =
      if_stands (text_eq n name) index n name k id h all (insert-Stands index name id all.1 h)

All-grown :
    (names more : List Text) (index : Map Text ℕ)
    → All (Stands names) index
    → All (Stands (names ++ more)) index
All-grown names more [] h = tt
All-grown names more ((n, k) ∷ index) h =
    (get_elem-append names more k n h.0, All-grown names more index h.1)

-- What interning a name promises: its number resolves to it, the numbers given before stay, and the
-- interner stays consistent.
pub record Interns (i : TestNameInterner) (name : Text) : Type 0 where
  pub resolved : resolve (intern i name).1 (intern i name).0 ≡ some name
  pub kept : (more : List Text) × ((intern i name).1.names ≡ i.names ++ more)
  pub consistent : IsConsistent (intern i name).1

intern_new-Interns :
    (i : TestNameInterner) (name : Text) (known : Option ℕ)
    → lookup name i.index ≡ known
    → IsConsistent i
    → length i.names < 2 ^ 32
    → let (id, j) = intern_new i name known in
      (get_elem? j.names id ≡ some name)
      × ((more : List Text) × (j.names ≡ i.names ++ more))
      × IsConsistent j
unfolding intern_new
intern_new-Interns i name (some id) h c small =
    (lookup-Stands i.names i.index name id c h, ([], sym (append-nil i.names)), c)
intern_new-Interns i name none h c small =
    let id : ℕ = length i.names % 2 ^ 32 in
    let e : id ≡ length i.names = omega arith in
    let last : get_elem? (i.names ++ name ∷ []) id ≡ some name =
      ap (get_elem? (i.names ++ name ∷ [])) e ∙ get_elem-last i.names name in
    (
      last,
      (name ∷ [], refl),
      insert-Stands (i.names ++ name ∷ []) i.index name id (All-grown i.names (name ∷ []) i.index c)
          last,
    )

-- With fewer than 2^32 names, an interned name gets a number that resolves to it, every number given
-- before still resolves to its name, and the interner stays consistent.
pub intern-Interns :
    (i : TestNameInterner) (name : Text) → IsConsistent i → length i.names < 2 ^ 32 → Interns i name
unfolding intern resolve
intern-Interns i name c small =
    let (resolved, kept, consistent) =
      intern_new-Interns i name (lookup name i.index) refl c small in
    record { resolved = resolved; kept = kept; consistent = consistent }
