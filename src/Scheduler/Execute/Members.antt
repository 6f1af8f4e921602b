-- ===== src/Scheduler/Execute/Members.antt =====
-- The members that are kept from a batch and those that run alone (`isolate_failures`).
use quokka.Prelude.{
  Text, text_eq, text_eq_iff, text_eq_refl, Bool, true, not, ◌&&◌, Bool-cases, ◌≡◌, refl, sym, ◌∙◌,
  inl, inr, List, [], ◌∷◌, ◌++◌, Perm, arith, any, filter, All, nat_key, text_key,
}
use quokka.Prelude.{filter-append-reject-perm}

any-same-filter :
    (p : Text → Bool) (n : Text) (ns : List Text)
    → any (text_eq n) (filter p ns) ≡ (p n && any (text_eq n) ns)
any-same-filter p n [] = ground arith
any-same-filter p n (m ∷ ns) = elim (Bool-cases (text_eq n m)) [
  | inl e ↦
      let same = (text_eq_iff n m).0 e in
      rw (sym same) (elim (Bool-cases (p n)) [
        | inl f ↦ rw (f, text_eq_refl n)
        | inr f ↦ rw f (any-same-filter p n ns ∙ rw f)
      ])
  | inr e ↦ elim (Bool-cases (p m)) [
    | inl f ↦ rw (f, e) (any-same-filter p n ns)
    | inr f ↦ rw (f, e) (any-same-filter p n ns)
  ]
]

module _ {A : Type 0} where
  filter-cong : (p q : A → Bool) (xs : List A) → All (λ x. p x ≡ q x) xs → filter p xs ≡ filter q xs
  filter-cong p q [] h = refl
  filter-cong p q (x ∷ xs) h = rw (h.0, filter-cong p q xs h.1)

any-cons :
    (m : Text) (ms ns : List Text)
    → All (λ n. any (text_eq n) ms ≡ true) ns
    → All (λ n. any (text_eq n) (m ∷ ms) ≡ true) ns
any-cons m ms [] h = tt
any-cons m ms (n ∷ ns) h = (ground (arith, h.0), any-cons m ms ns h.1)

All-members : (ns : List Text) → All (λ n. any (text_eq n) ns ≡ true) ns
All-members [] = tt
All-members (n ∷ ns) = (rw (text_eq_refl n), any-cons n ns ns (All-members ns))

rejects :
    (p : Text → Bool) (ms ns : List Text)
    → All (λ n. any (text_eq n) ms ≡ true) ns
    → All (λ n. not (any (text_eq n) (filter p ms)) ≡ not (p n)) ns
rejects p ms [] h = tt
rejects p ms (n ∷ ns) h = (rw (any-same-filter p n ms) (ground (arith, h.0)), rejects p ms ns h.1)

-- Those that are none of the chosen ones, and the chosen ones, are all.
pub filter-rejected-perm :
    (p : Text → Bool) (ns : List Text)
    → Perm (filter (λ n. not (any (text_eq n) (filter p ns))) ns ++ filter p ns) ns
filter-rejected-perm p ns =
    rw (filter-cong _ (λ n. not (p n)) ns (rejects p ns ns (All-members ns)))
      (filter-append-reject-perm p ns)
