-- ===== src/Cli/Targets/Order.antt =====
-- The order of strings, and what sorting and deduplication leave: each name once.
use dev.Prelude.{
  Text, ◌≤◌, ◌<◌, ◌≡◌, ◌↔◌, refl, List, [], ◌∷◌, Bool, true, false, if◌then◌else◌, arith,
  Bool-cases, inl, inr, same, test,
}
use dev.Prelude.Counts.{count}
use dev.Graph.Sums.{Distinct}
use dev.Cli.Targets.{text_le, insert_sorted, sort, push_new, dedup, retain}

text_le_antisym : (a b : Text) → text_le a b ≡ true → text_le b a ≡ true → a ≡ b
unfolding text_le
text_le_antisym [] [] h k = refl
text_le_antisym [] (d ∷ b) h k = cc
text_le_antisym (c ∷ a) [] h k = cc
text_le_antisym (c ∷ a) (d ∷ b) h k = grind (arith, text_le_antisym a b)

text_le_total : (a b : Text) → text_le a b ≡ false → text_le b a ≡ true
unfolding text_le
text_le_total [] b h = cc
text_le_total (c ∷ a) [] h = refl
text_le_total (c ∷ a) (d ∷ b) h = ground (arith, text_le_total a b)

text_le_trans : (a b c : Text) → text_le a b ≡ true → text_le b c ≡ true → text_le a c ≡ true
unfolding text_le
text_le_trans [] b c h k = refl
text_le_trans (x ∷ a) [] c h k = cc
text_le_trans (x ∷ a) (y ∷ b) [] h k = cc
text_le_trans (x ∷ a) (y ∷ b) (z ∷ c) h k = ground (arith, text_le_trans a b c)

abbrev AllLe : Text → List Text → Type 0
AllLe x [] = Unit
AllLe x (y ∷ l) = (text_le x y ≡ true) × AllLe x l

abbrev Sorted : List Text → Type 0
Sorted [] = Unit
Sorted (x ∷ l) = AllLe x l × Sorted l

AllLe-trans : (x y : Text) (l : List Text) → text_le x y ≡ true → AllLe y l → AllLe x l
AllLe-trans x y [] h a = tt
AllLe-trans x y (z ∷ l) h a = (text_le_trans x y z h a.0, AllLe-trans x y l h a.1)

insert_sorted-AllLe :
    (z x : Text) (l : List Text) → text_le z x ≡ true → AllLe z l → AllLe z (insert_sorted x l)
unfolding insert_sorted
insert_sorted-AllLe z x [] h a = (h, tt)
insert_sorted-AllLe z x (y ∷ l) h a = elim (Bool-cases (text_le x y)) [
  | inl e ↦ rw e (h, a)
  | inr e ↦ rw e (a.0, insert_sorted-AllLe z x l h a.1)
]

insert_sorted-Sorted : (x : Text) (l : List Text) → Sorted l → Sorted (insert_sorted x l)
unfolding insert_sorted
insert_sorted-Sorted x [] s = (tt, tt)
insert_sorted-Sorted x (y ∷ l) s = elim (Bool-cases (text_le x y)) [
  | inl e ↦ rw e ((e, AllLe-trans x y l e s.0), s)
  | inr e ↦ rw e (insert_sorted-AllLe y x l (text_le_total x y e) s.0, insert_sorted-Sorted x l s.1)
]

sort-Sorted : (l : List Text) → Sorted (sort l)
unfolding sort
sort-Sorted [] = tt
sort-Sorted (x ∷ l) = insert_sorted-Sorted x (sort l) (sort-Sorted l)

count-insert_sorted : (v x : Text) (l : List Text) → count v (insert_sorted x l) ≡ count v (x ∷ l)
unfolding count insert_sorted
count-insert_sorted v x [] = refl
count-insert_sorted v x (y ∷ l) = ground (arith, count-insert_sorted v x l)

pub count-sort : (v : Text) (l : List Text) → count v (sort l) ≡ count v l
unfolding count sort
count-sort v [] = refl
count-sort v (x ∷ l) = ground (arith, count-insert_sorted v x (sort l), count-sort v l)

dedup-AllLe : (x : Text) (l : List Text) → AllLe x l → AllLe x (dedup l)
unfolding dedup
dedup-AllLe x [] a = tt
dedup-AllLe x (y ∷ l) a = go (dedup l) (dedup-AllLe x l a.1)
  where
    go : (m : List Text) → AllLe x m → AllLe x (push_new y m)
    go [] b = (a.0, tt)
    go (z ∷ m) b = elim (Bool-cases (test (same y z))) [ inl e ↦ rw e b | inr e ↦ rw e (a.0, b) ]

dedup-Sorted : (l : List Text) → Sorted l → Sorted (dedup l)
unfolding dedup
dedup-Sorted [] s = tt
dedup-Sorted (y ∷ l) s = go (dedup l) (dedup-Sorted l s.1) (dedup-AllLe y l s.0)
  where
    go : (m : List Text) → Sorted m → AllLe y m → Sorted (push_new y m)
    go [] t a = (tt, tt)
    go (z ∷ m) t a = elim (Bool-cases (test (same y z))) [ inl e ↦ rw e t | inr e ↦ rw e (a, t) ]

AllLe-count : (x v : Text) (l : List Text) → AllLe x l → 0 < count v l → text_le x v ≡ true
unfolding count
AllLe-count x v [] a h = absurd (omega arith)
AllLe-count x v (y ∷ l) a h = grind (arith, a, AllLe-count x v l a.1)

dedup-Distinct : (l : List Text) → Sorted l → Distinct (dedup l)
unfolding dedup count
dedup-Distinct [] s v = omega arith
dedup-Distinct (x ∷ l) s v =
    go (dedup l) (dedup-Sorted l s.1) (dedup-AllLe x l s.0) (dedup-Distinct l s.1 v)
  where
    go : (m : List Text) → Sorted m → AllLe x m → count v m ≤ 1 → count v (push_new x m) ≤ 1
    go [] t a n = ground arith
    go (z ∷ m) t a n = grind (arith, text_le_antisym x z a.0, AllLe-count z v m t.0)

count-dedup : (v : Text) (l : List Text) → (0 < count v (dedup l)) ↔ (0 < count v l)
unfolding dedup count
count-dedup v [] = ground arith
count-dedup v (x ∷ l) = go (dedup l) (count-dedup v l)
  where
    go :
        (m : List Text)
        → (0 < count v m) ↔ (0 < count v l)
        → (0 < count v (push_new x m)) ↔ (0 < count v (x ∷ l))
    go [] h = ground (arith, h)
    go (z ∷ m) h = ground (arith, h)

pub count-retain :
    (f : Text → Bool) (v : Text) (l : List Text)
    → count v (retain f l) ≡ (if f v then count v l else 0)
unfolding retain count
count-retain f v [] = ground arith
count-retain f v (x ∷ l) = grind (arith, count-retain f v l)

pub targets-Distinct : (f : Text → Bool) (l : List Text) → Distinct (retain f (dedup (sort l)))
targets-Distinct f l v =
    ground (arith, count-retain f v (dedup (sort l)), dedup-Distinct (sort l) (sort-Sorted l) v)

pub targets-count :
    (f : Text → Bool) (l : List Text) (v : Text)
    → (0 < count v (retain f (dedup (sort l)))) ↔ ((f v ≡ true) × (0 < count v l))
targets-count f l v =
    ground (arith, count-retain f v (dedup (sort l)), count-dedup v (sort l), count-sort v l)
