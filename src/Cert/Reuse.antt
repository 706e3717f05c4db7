-- ===== src/Cert/Reuse.antt =====
-- A certificate that was made is found again.
use dev.Prelude.{
  Text, txt, ◌++◌, none, some, [], ◌∷◌, true, ◌&&◌, ◌≡◌, ◌≢◌, refl, subst, arith, inl, inr,
  Bool-cases, Option-cases,
}
use dev.Error.{Result, ok, err, panic}
use dev.Map.{Map, get, contains_key, insert, is_some}
use dev.Map.Laws.{get-insert}
use dev.Strings.{join_path}
use dev.Cert.{
  Faults, cert_dir, cert_path, key_path, load_cert, create_cert, has_cert, get_or_create_cert,
}

append-differs : (base a b : Text) → a ≢ b → (base ++ a) ≢ base ++ b
append-differs [] a b n e = n e
append-differs (c ∷ base) a b n e = append-differs base a b n cc

paths-differ : (project_dir : Text) → cert_path project_dir ≢ key_path project_dir
unfolding join_path
paths-differ project_dir =
    append-differs (cert_dir project_dir) (txt "/cert.pem") (txt "/key.pem") (λ e. cc)

-- The two files hold the pair.
record Holds (project_dir : Text) (s : Map Text) (pair : Text × Text) : Type 0 where
  cert : get (cert_path project_dir) s ≡ some pair.0
  key : get (key_path project_dir) s ≡ some pair.1

has_cert-Holds :
    (project_dir : Text) (s : Map Text)
    → has_cert project_dir s ≡ true
    → (pair : Text × Text) × Holds project_dir s pair
unfolding contains_key
has_cert-Holds project_dir s h = elim (Option-cases (get (cert_path project_dir) s)) [
  | inl e ↦ absurd (missing h e)
  | inr (c, e) ↦ elim (Option-cases (get (key_path project_dir) s)) [
    | inl f ↦ absurd (missing_key h f)
    | inr (k, f) ↦ ((c, k), record { cert = e; key = f })
  ]
]
  where
    missing :
        is_some (get (cert_path project_dir) s) && is_some (get (key_path project_dir) s) ≡ true
        → get (cert_path project_dir) s ≢ none
    missing a e = ground (arith, a, e)

    missing_key :
        is_some (get (cert_path project_dir) s) && is_some (get (key_path project_dir) s) ≡ true
        → get (key_path project_dir) s ≢ none
    missing_key a e = ground (arith, a, e)

Holds-has_cert :
    (project_dir : Text) (s : Map Text) (pair : Text × Text)
    → Holds project_dir s pair
    → has_cert project_dir s ≡ true
unfolding contains_key
Holds-has_cert project_dir s pair h = rw (h.cert, h.key) refl

Holds-load :
    (faults : Faults) (project_dir : Text) (s : Map Text) (pair : Text × Text)
    → ((path : Text) → faults.on_read path ≡ none)
    → Holds project_dir s pair
    → load_cert faults project_dir s ≡ (ok pair, s)
Holds-load faults project_dir s pair n h =
    rw (n (cert_path project_dir), h.cert, n (key_path project_dir), h.key) refl

-- A success leaves its pair in the two files.
abbrev LeavesPair : Text → Result (Text × Text) × Map Text → Type 0
LeavesPair project_dir (ok pair, s) = Holds project_dir s pair
LeavesPair project_dir (err e, s) = Unit
LeavesPair project_dir (panic p, s) = Unit

load-LeavesPair :
    (faults : Faults) (project_dir : Text) (s : Map Text) (pair : Text × Text)
    → Holds project_dir s pair
    → LeavesPair project_dir (load_cert faults project_dir s)
load-LeavesPair faults project_dir s pair h =
    elim (Option-cases (faults.on_read (cert_path project_dir))) [
      | inl n ↦ elim (Option-cases (faults.on_read (key_path project_dir))) [
        | inl m ↦ rw (n, h.cert, m, h.key) h
        | inr (e, m) ↦ rw (n, h.cert, m) tt
      ]
      | inr (e, n) ↦ rw n tt
    ]

insert-Holds :
    (project_dir : Text) (s : Map Text) (pair : Text × Text)
    → Holds project_dir
        (insert (key_path project_dir) pair.1 (insert (cert_path project_dir) pair.0 s))
        pair
insert-Holds project_dir s pair = record {
  cert = ground (
    arith,
    get-insert (key_path project_dir) (cert_path project_dir) pair.1
        (insert (cert_path project_dir) pair.0 s),
    get-insert (cert_path project_dir) (cert_path project_dir) pair.0 s,
    paths-differ project_dir,
  );
  key = ground (
    arith,
    get-insert (key_path project_dir) (key_path project_dir) pair.1
        (insert (cert_path project_dir) pair.0 s),
  );
}

create-LeavesPair :
    (faults : Faults) (generated : Result (Text × Text)) (project_dir : Text) (s : Map Text)
    → LeavesPair project_dir (create_cert faults generated project_dir s)
create-LeavesPair faults (err e) project_dir s = tt
create-LeavesPair faults (panic p) project_dir s = tt
create-LeavesPair faults (ok pair) project_dir s =
    elim (Option-cases (faults.on_create_dir (cert_dir project_dir))) [
      | inl d ↦ elim (Option-cases (faults.on_write (cert_path project_dir))) [
        | inl c ↦ elim (Option-cases (faults.on_write (key_path project_dir))) [
          | inl k ↦ rw (d, c, k) (insert-Holds project_dir s pair)
          | inr (e, k) ↦ rw (d, c, k) tt
        ]
        | inr (e, c) ↦ rw (d, c) tt
      ]
      | inr (e, d) ↦ rw d tt
    ]

get_or_create_cert-LeavesPair :
    (faults : Faults) (generated : Result (Text × Text)) (project_dir : Text) (s : Map Text)
    → LeavesPair project_dir (get_or_create_cert faults generated project_dir s)
unfolding get_or_create_cert
get_or_create_cert-LeavesPair faults generated project_dir s =
    elim (Bool-cases (has_cert project_dir s)) [
      | inl e ↦
          let (pair, h) = has_cert-Holds project_dir s e in
          rw e (load-LeavesPair faults project_dir s pair h)
      | inr e ↦ rw e (create-LeavesPair faults generated project_dir s)
    ]

-- A certificate that `get_or_create_cert` gave is the one that it gives again, where the files can be
-- read, whatever would be generated then, and the files stay.
pub get_or_create_cert-again :
    (faults faults' : Faults) (generated generated' : Result (Text × Text)) (project_dir : Text)
    (s s' : Map Text) (pair : Text × Text)
    → get_or_create_cert faults generated project_dir s ≡ (ok pair, s')
    → ((path : Text) → faults'.on_read path ≡ none)
    → get_or_create_cert faults' generated' project_dir s' ≡ (ok pair, s')
unfolding get_or_create_cert
get_or_create_cert-again faults faults' generated generated' project_dir s s' pair e n =
    let h =
      subst (LeavesPair project_dir) e
        (get_or_create_cert-LeavesPair faults generated project_dir s) in
    rw (Holds-has_cert project_dir s' pair h) (Holds-load faults' project_dir s' pair n h)
