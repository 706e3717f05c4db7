-- ===== src/Ui/Decode.antt =====
-- The names in the paths of the web page: what a client encodes is what is stopped.
use mathlib.Core.Option
use dev.Prelude.{
  Text, txt, ℕ, ◌+◌, ◌-◌, ◌*◌, ◌/◌, ◌%◌, ◌<◌, ◌≡◌, ◌∙◌, refl, ap, none, some, List, [], ◌∷◌, ◌++◌,
  Bool, true, false, same, ite, ◌==◌, ltb, if◌then◌else◌, arith, Bool-cases, inl, inr,
}
use dev.Strings.{strip_prefix}
use dev.Ipc.{bytes, utf8}
use dev.Error.{Result, ok, err, panic}
use dev.Map.{get}
use dev.Map.Laws.{get-modify}
use dev.State as Supervised
use dev.Supervisor.{Supervisor, ServiceHandle, Effect, dummy}
use dev.Supervisor.Stop.{halt, stop_service}
use dev.Supervisor.Stop.Laws.{HooksRun, stop_service-held, stop_service-ok}
use dev.Ui.{
  hex_value, hex_pair, combine, urldecode_bytes, urldecode, post, Ui, Backend, stopped, perform,
  post_route, handle, ok_response, text,
}

-- The digit of a client, in upper case
abbrev pub hex_upper : ℕ → ℕ
hex_upper d = if ltb d 10 then b'0' + d else b'A' + (d - 10)

-- What a client sends for a name: the bytes that it keeps, and `%XX` for the others.
unfoldable pub percent_encode : (ℕ → Bool) → Text → Text
percent_encode keep [] = []
percent_encode keep (c ∷ s) =
    let rest = percent_encode keep s in
    if keep c then c ∷ rest else b'%' ∷ hex_upper (c / 16) ∷ hex_upper (c % 16) ∷ rest

-- The text is ASCII.
unfoldable pub Ascii : Text → Type 0
Ascii [] = Unit
Ascii (c ∷ s) = (c < 128) × Ascii s

hex_value-hex_upper : (d : ℕ) → d < 16 → hex_value (hex_upper d) ≡ some d
hex_value-hex_upper d h = ground (arith, h)

hex_upper-sign : (d : ℕ) → (hex_upper d == b'+') ≡ false
hex_upper-sign d = ground arith

hex_pair-values :
    (a b x y : ℕ)
    → (a == b'+') ≡ false
    → hex_value a ≡ some x
    → hex_value b ≡ some y
    → hex_pair a b ≡ some (x * 16 + y)
hex_pair-values a b x y s h k =
    sign (a == b'+') s ∙ (ap (λ o. combine o (hex_value b)) h ∙ ap (combine (some x)) k)
  where
    sign :
        (plus : Bool)
        → plus ≡ false
        → (if plus then hex_value b else combine (hex_value a) (hex_value b))
          ≡ combine (hex_value a) (hex_value b)
    sign true e = cc
    sign false e = refl

hex_pair-hex_upper : (c : ℕ) → c < 128 → hex_pair (hex_upper (c / 16)) (hex_upper (c % 16)) ≡ some c
hex_pair-hex_upper c h =
    hex_pair-values (hex_upper (c / 16)) (hex_upper (c % 16)) (c / 16) (c % 16)
      (hex_upper-sign (c / 16)) (hex_value-hex_upper (c / 16) (omega (arith, h)))
      (hex_value-hex_upper (c % 16) (omega arith))
    ∙ ap some (omega arith)

kept : (c : ℕ) (s : List ℕ) → (c == b'%') ≡ false → urldecode_bytes (c ∷ s) ≡ c ∷ urldecode_bytes s
unfolding urldecode_bytes
kept c [] h = refl
kept c (a ∷ []) h = refl
kept c (a ∷ b ∷ s) h = rw h refl

not_kept : (keep : ℕ → Bool) (c : ℕ) → keep c ≡ true → keep b'%' ≡ false → (c == b'%') ≡ false
not_kept keep c e k = grind (arith, e, k)

encoded :
    (c : ℕ) (s : List ℕ)
    → c < 128
    → urldecode_bytes (b'%' ∷ hex_upper (c / 16) ∷ hex_upper (c % 16) ∷ s) ≡ c ∷ urldecode_bytes s
unfolding urldecode_bytes
encoded c s h =
    ap
      (λ o. elim o [
        | none ↦ b'%' ∷ urldecode_bytes (hex_upper (c / 16) ∷ hex_upper (c % 16) ∷ s)
        | some v ↦ v ∷ urldecode_bytes s
      ])
      (hex_pair-hex_upper c h)

urldecode_bytes-percent_encode :
    (keep : ℕ → Bool) (s : Text)
    → keep b'%' ≡ false
    → Ascii s
    → urldecode_bytes (percent_encode keep s) ≡ s
unfolding percent_encode Ascii
urldecode_bytes-percent_encode keep [] k a = unfold urldecode_bytes in refl
urldecode_bytes-percent_encode keep (c ∷ s) k a = elim (Bool-cases (keep c)) [
  | inl e ↦ rw e (
      kept c (percent_encode keep s) (not_kept keep c e k)
      ∙ ap (λ t. c ∷ t) (urldecode_bytes-percent_encode keep s k a.1))
  | inr e ↦ rw e (
      encoded c (percent_encode keep s) a.0
      ∙ ap (λ t. c ∷ t) (urldecode_bytes-percent_encode keep s k a.1))
]

bytes-Ascii : (s : Text) → Ascii s → bytes s ≡ s
unfolding bytes utf8 Ascii
bytes-Ascii [] a = refl
bytes-Ascii (c ∷ s) a = grind (arith, a.0, bytes-Ascii s a.1)

hex_upper-small : (d : ℕ) → d < 16 → hex_upper d < 128
hex_upper-small d h = ground (arith, h)

percent_encode-Ascii : (keep : ℕ → Bool) (s : Text) → Ascii s → Ascii (percent_encode keep s)
unfolding percent_encode Ascii
percent_encode-Ascii keep [] a = tt
percent_encode-Ascii keep (c ∷ s) a = elim (Bool-cases (keep c)) [
  | inl e ↦ rw e (a.0, percent_encode-Ascii keep s a.1)
  | inr e ↦ rw e (
    omega arith,
    (
      hex_upper-small (c / 16) (omega (arith, a.0)),
      (hex_upper-small (c % 16) (omega arith), percent_encode-Ascii keep s a.1),
    ),
  )
]

pub urldecode-percent_encode :
    (keep : ℕ → Bool) (s : Text)
    → keep b'%' ≡ false
    → Ascii s
    → urldecode (percent_encode keep s) ≡ s
unfolding urldecode
urldecode-percent_encode keep s k a =
    ap urldecode_bytes (bytes-Ascii (percent_encode keep s) (percent_encode-Ascii keep s a))
    ∙ urldecode_bytes-percent_encode keep s k a

-- The answer `{"ok":true}`, and the state of a stop that returned
stopped-ok :
    (Container Image : Type 0) (ui : Ui Container Image) (r : Result (Unit {0}) × Supervisor)
    → r.0 ≡ ok tt
    → stopped Container Image ui r ≡ (ok (ok_response Container Image), record ui { sup = r.1 })
stopped-ok Container Image ui (ok u, sup) h = refl
stopped-ok Container Image ui (err e, sup) h = absurd (ground arith)
stopped-ok Container Image ui (panic p, sup) h = absurd (ground arith)

-- A client that sends the bytes of an ASCII name, each as it is or as `%XX`, but the percent sign
-- only so, gets back what it encoded; and where a `true` can be spawned in the place of a child and
-- no `post_stop` hook is an empty command, its request to stop the name is answered with status 200
-- and `{"ok":true}`, the process of that service is taken out of its handle and its state is
-- `Stopped`, if it has one, and the other handles stay.
pub stop_request-percent_encode :
    (Container Image : Type 0) (b : Backend Container Image) (ui : Ui Container Image)
    (keep : ℕ → Bool) (name query : Text)
    → ((trace : List Effect) → b.daemon.os.spare trace ≡ true)
    → HooksRun ui.sup.config.service
    → keep b'%' ≡ false
    → Ascii name
    → (urldecode (percent_encode keep name) ≡ name)
      × ((handle Container Image b ui (record {
        method = post;
        path = txt "/api/stop/" ++ percent_encode keep name;
        query = query;
      })).0
          ≡ ok (record {
            status_code = 200;
            content_type = txt "application/json";
            body = text (txt "{\"ok\":true}");
          }))
      × ((j : Text)
          → get j
              (handle Container Image b ui (record {
                method = post;
                path = txt "/api/stop/" ++ percent_encode keep name;
                query = query;
              })).1.sup.handles
            ≡ ite
                (same name j)
                (Option.map
                  (λ (h : ServiceHandle). record h { child = dummy; state = Supervised.stopped })
                  (get name ui.sup.handles))
                (get j ui.sup.handles))
unfolding handle perform post_route strip_prefix
stop_request-percent_encode Container Image b ui keep name query spares runs k a =
    let r = stop_service b.daemon.os name ui.sup in
    rw
      (
        urldecode-percent_encode keep name k a,
        stopped-ok Container Image ui r (stop_service-ok b.daemon.os spares name ui.sup runs),
      )
      (
        refl,
        refl,
        λ j.
            ap (λ (w : Supervisor). get j w.handles)
              (stop_service-held b.daemon.os spares name ui.sup)
            ∙ get-modify name j halt ui.sup.handles,
      )
