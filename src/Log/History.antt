-- ===== src/Log/History.antt =====
-- The history holds the latest lines.
use dev.Prelude.{
  ℕ, zero, suc, ◌-◌, ◌≤◌, ◌<◌, ◌≡◌, ◌∙◌, ap, sym, refl, arith, List, [], ◌∷◌, ◌++◌, leb, foldl,
  Bool-cases, inl, inr,
}
use mathlib.Core.List.{append_assoc, append-nil}
use dev.Prelude.Counts.{length, length-append}
use dev.Log.{LogLine, history_cap, pop_front, push_history}

unfoldable pub drop : ℕ → List LogLine → List LogLine
drop zero l = l
drop (suc n) [] = []
drop (suc n) (x ∷ l) = drop n l

-- The last `n` lines.
unfoldable pub latest : ℕ → List LogLine → List LogLine
latest n l = drop (length l - n) l

length-drop : (n : ℕ) (l : List LogLine) → length (drop n l) ≡ length l - n
unfolding drop
length-drop zero l = ground arith
length-drop (suc n) [] = ground arith
length-drop (suc n) (x ∷ l) = ground (arith, length-drop n l)

drop-append :
    (n : ℕ) (l : List LogLine) (e : LogLine)
    → n ≤ length l
    → drop n (l ++ e ∷ []) ≡ drop n l ++ e ∷ []
unfolding drop
drop-append zero l e h = refl
drop-append (suc n) [] e h = absurd (ground arith)
drop-append (suc n) (x ∷ l) e h = drop-append n l e (ground arith)

pop_front-drop : (n : ℕ) (l : List LogLine) → pop_front (drop n l) ≡ drop (suc n) l
unfolding drop
pop_front-drop zero [] = refl
pop_front-drop zero (x ∷ l) = refl
pop_front-drop (suc n) [] = refl
pop_front-drop (suc n) (x ∷ l) = pop_front-drop n l

push-latest :
    (a : List LogLine) (e : LogLine)
    → push_history (latest history_cap a) e ≡ latest history_cap (a ++ e ∷ [])
unfolding push_history latest
push-latest a e =
    let n = length-drop (length a - history_cap) a in
    let m = length-append a (e ∷ []) in
    elim (Bool-cases (leb history_cap (length (drop (length a - history_cap) a)))) [
      | inl h ↦
          let enough : history_cap ≤ length a = ground arith in
          let k : length (a ++ e ∷ []) - history_cap ≡ suc (length a - history_cap) =
            ground arith in
          rw (h, k, pop_front-drop (length a - history_cap) a)
            (sym (drop-append (suc (length a - history_cap)) a e (ground arith)))
      | inr h ↦
          let few : length a < history_cap = ground arith in
          let k : length (a ++ e ∷ []) - history_cap ≡ 0 = ground arith in
          let j : length a - history_cap ≡ 0 = ground arith in rw (h, k, j) (unfold drop in refl)
    ]

push_all-latest :
    (a b : List LogLine) → foldl push_history (latest history_cap a) b ≡ latest history_cap (a ++ b)
push_all-latest a [] = ap (latest history_cap) (sym (append-nil a))
push_all-latest a (e ∷ b) =
    ap (λ h. foldl push_history h b) (push-latest a e)
    ∙ push_all-latest (a ++ e ∷ []) b
    ∙ ap (latest history_cap) (append_assoc a (e ∷ []) b)

-- After any recordings in an empty history, by `push` or by the recorder, of which a line that is
-- pushed gets one each, it holds the latest 1000 recordings, in order.
pub push_history-latest :
    (recorded : List LogLine) → foldl push_history [] recorded ≡ latest 1000 recorded
unfolding latest drop
push_history-latest recorded = push_all-latest [] recorded
