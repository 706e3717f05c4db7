-- ===== src/Graph/Release.antt =====
-- The inner loop over `dependents[node]`: it never panics, takes one off a counter for each entry,
-- and queues a service exactly when its counter reaches 0.
use dev.Prelude.{
  Text, same, ℕ, suc, ◌+◌, ◌-◌, ◌≤◌, ◌<◌, ◌≡◌, refl, some, List, [], ◌∷◌, ◌++◌, ite, true, arith,
  ltb, if◌then◌else◌,
}
use dev.Prelude.Counts.{count, count-append}
use dev.Error.{ok}
use dev.Map.{Map, get, insert, is_some}
use dev.Map.Laws.{get-insert}
use dev.Graph.{release}
use dev.Graph.Edges.{degree}

degree-insert :
    (k v : Text) (n : ℕ) (m : Map ℕ) → degree (insert k n m) v ≡ ite (same k v) n (degree m v)
degree-insert k v n m = ground (arith, get-insert k v n m)

has-insert :
    (k v : Text) (n : ℕ) (m : Map ℕ)
    → is_some (get v m) ≡ true
    → is_some (get v (insert k n m)) ≡ true
has-insert k v n m h = ground (arith, get-insert k v n m)

get-eq-some_of_degree :
    (m : Map ℕ) (v : Text) → 0 < degree m v → get v m ≡ some (suc (degree m v - 1))
get-eq-some_of_degree m v h = ground arith

pub record Released (ds : List Text) (m : Map ℕ) (next : List Text) : Type 0 where
  pub table : Map ℕ
  pub freed : List Text
  pub runs : release ds m next ≡ ok (table, freed)
  pub counted : (v : Text) → degree table v + count v ds ≡ degree m v
  pub busy : (v : Text) → 0 < degree table v → count v freed ≡ count v next
  pub absent : (v : Text) → count v ds ≡ 0 → count v freed ≡ count v next
  pub free : (v : Text) → degree table v ≡ 0 → 0 < count v ds → count v freed ≡ count v next + 1
  pub has : (v : Text) → is_some (get v m) ≡ true → is_some (get v table) ≡ true

pub release-Released :
    (ds : List Text) (m : Map ℕ) (next : List Text)
    → ((v : Text) → count v ds ≤ degree m v)
    → Released ds m next
unfolding release count
release-Released [] m next h = record {
  table = m;
  freed = next;
  runs = refl;
  counted = λ v. ground arith;
  busy = λ v _. refl;
  absent = λ v _. refl;
  free = λ v _ n. absurd (omega arith);
  has = λ v s. s;
}
release-Released (d ∷ ds) m next h =
    let left = degree m d - 1 in
    let m1 = insert d left m in
    let next1 : List Text = if ltb 0 left then next else next ++ d ∷ [] in
    let here : 0 < degree m d = ground (arith, h d) in
    let ih =
      release-Released ds m1 next1 (λ v. ground (arith, h v, h d, degree-insert d v left m)) in
    record {
      table = ih.table;
      freed = ih.freed;
      runs = ground (arith, ih.runs, get-eq-some_of_degree m d here);
      counted = λ v. ground (arith, ih.counted v, degree-insert d v left m);
      busy = λ v b. ground (
        arith,
        ih.busy v b,
        ih.counted v,
        ih.counted d,
        degree-insert d v left m,
        degree-insert d d left m,
        count-append v next (d ∷ []),
      );
      absent = λ v n.
          ground (arith, ih.absent v, degree-insert d v left m, count-append v next (d ∷ []));
      free = λ v z n. ground (
        arith,
        ih.free v,
        ih.absent v,
        ih.counted v,
        degree-insert d v left m,
        count-append v next (d ∷ []),
      );
      has = λ v s. ih.has v (has-insert d v left m s);
    }
