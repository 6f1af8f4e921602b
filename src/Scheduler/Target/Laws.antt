-- ===== src/Scheduler/Target/Laws.antt =====
-- The units of a target and what they owe.
use quokka.Prelude.{
  Text, ℕ, zero, suc, ◌≡◌, refl, sym, ap, ◌∙◌, List, [], ◌∷◌, ◌++◌, map, Perm, nat_key, text_key,
}
use mathlib.Core.List.Perm
use mathlib.Core.List.{append_assoc, append-nil, perm_middle}
use quokka.Batching.{TestSelection, all, explicit}
use quokka.Batching.Buckets.{members}
use quokka.Scheduler.Target.{
  Event, sent, reported_discovery, printed, indices, units_of, expected_members,
}
use quokka.Scheduler.Verdict.{ReporterMessage}

-- The messages of a target to the reporter, in order.
unfoldable pub messages : List Event → List ReporterMessage
messages [] = []
messages (sent m ∷ events) = m ∷ messages events
messages (reported_discovery handle suite names ∷ events) = messages events
messages (printed tests ∷ events) = messages events

pub messages-append : (xs ys : List Event) → messages (xs ++ ys) ≡ messages xs ++ messages ys
unfolding messages
messages-append [] ys = refl
messages-append (sent m ∷ xs) ys = ap (λ t. m ∷ t) (messages-append xs ys)
messages-append (reported_discovery handle suite names ∷ xs) ys = messages-append xs ys
messages-append (printed tests ∷ xs) ys = messages-append xs ys

-- The members of the units, each once for each unit.
unfoldable pub owed : List Text → List (TestSelection Text × ℕ) → List Text
owed kept [] = []
owed kept ((selection, i) ∷ units) = expected_members kept selection ++ owed kept units

-- A list `n` times over.
unfoldable pub times : ℕ → List Text → List Text
times zero xs = []
times (suc n) xs = xs ++ times n xs

owed-append :
    (kept : List Text) (xs ys : List (TestSelection Text × ℕ))
    → owed kept (xs ++ ys) ≡ owed kept xs ++ owed kept ys
unfolding owed
owed-append kept [] ys = refl
owed-append kept ((selection, i) ∷ xs) ys =
    ap (λ t. expected_members kept selection ++ t) (owed-append kept xs ys)
    ∙ sym (append_assoc (expected_members kept selection) (owed kept xs) (owed kept ys))

owed-indices :
    (kept : List Text) (batch : TestSelection Text) (i n : ℕ)
    → owed kept (map (λ j. (batch, j)) (indices i n)) ≡ times n (expected_members kept batch)
unfolding owed times indices
owed-indices kept batch i zero = refl
owed-indices kept batch i (suc n) =
    ap (λ t. expected_members kept batch ++ t) (owed-indices kept batch (suc i) n)

append_swap : (b c : List Text) → Perm (b ++ c) (c ++ b)
append_swap [] c = rw (append-nil c) Perm.rfl
append_swap (x ∷ b) c =
    Perm.trans (Perm.append_left (x ∷ []) (append_swap b c)) (Perm.symm (perm_middle c b))

-- The middle two of four lists change places.
swap_middle : (a b c d : List Text) → Perm ((a ++ b) ++ (c ++ d)) ((a ++ c) ++ (b ++ d))
swap_middle a b c d =
    let swap : Perm (a ++ ((b ++ c) ++ d)) (a ++ ((c ++ b) ++ d)) =
      Perm.append_left a (Perm.append_right d (append_swap b c)) in
    rw
      (
        append_assoc a b (c ++ d),
        append_assoc a c (b ++ d),
        sym (append_assoc b c d),
        sym (append_assoc c b d),
      )
      swap

times-append : (n : ℕ) (xs ys : List Text) → Perm (times n (xs ++ ys)) (times n xs ++ times n ys)
unfolding times
times-append zero xs ys = Perm.rfl
times-append (suc n) xs ys =
    Perm.trans (Perm.append_left (xs ++ ys) (times-append n xs ys))
      (swap_middle xs ys (times n xs) (times n ys))

pub times-nil : (n : ℕ) → times n [] ≡ []
unfolding times
times-nil zero = refl
times-nil (suc n) = times-nil n

-- The units of one batch and those of the others, as one list of names.
owed_batch :
    (kept : List Text) (repeats : ℕ) (batch : TestSelection Text)
    (batches : List (TestSelection Text))
    → owed kept (units_of repeats (batch ∷ batches))
      ≡ times repeats (expected_members kept batch) ++ owed kept (units_of repeats batches)
unfolding units_of
owed_batch kept repeats batch batches =
    owed-append kept (map (λ i. (batch, i)) (indices 0 repeats)) (units_of repeats batches)
    ∙ ap (λ t. t ++ owed kept (units_of repeats batches)) (owed-indices kept batch 0 repeats)

members-cons :
    (kept : List Text) (batch : TestSelection Text) (batches : List (TestSelection Text))
    → members kept (batch ∷ batches) ≡ expected_members kept batch ++ members kept batches
unfolding members expected_members
members-cons kept all batches = refl
members-cons kept (explicit group) batches = refl

-- The units owe each member of the batches as often as the target is repeated.
pub owed-units_of :
    (kept : List Text) (repeats : ℕ) (batches : List (TestSelection Text))
    → Perm (owed kept (units_of repeats batches)) (times repeats (members kept batches))
unfolding units_of members owed
owed-units_of kept repeats [] = rw (times-nil repeats) Perm.rfl
owed-units_of kept repeats (batch ∷ batches) =
    rw (owed_batch kept repeats batch batches, members-cons kept batch batches)
      (Perm.trans
        (Perm.append_left (times repeats (expected_members kept batch))
          (owed-units_of kept repeats batches))
        (Perm.symm (times-append repeats (expected_members kept batch) (members kept batches))))

pub times-perm : (n : ℕ) {xs ys : List Text} → Perm xs ys → Perm (times n xs) (times n ys)
unfolding times
times-perm zero p = Perm.rfl
times-perm (suc n) p = Perm.append p (times-perm n p)
