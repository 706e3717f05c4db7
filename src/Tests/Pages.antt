-- ===== src/Tests/Pages.antt =====
-- The theorems of src/ui.rs and of the log files of src/log.rs at work.
use dev.Prelude.{
  Text, txt, ℕ, none, List, [], ◌∷◌, ◌++◌, Bool, true, not, same, ite, ◌||◌, ◌==◌, ◌≡◌, refl, arith,
}
use mathlib.Core.Option
use dev.Error.{ok}
use dev.Map.{get}
use dev.State as Supervised
use dev.Supervisor.{ServiceHandle, dummy}
use dev.Log.{LogLine}
use dev.Log.Files.{Io, Received, entry, lagged}
use dev.Ui.{urldecode, post, Ui, Backend, text, handle}
use dev.Ui.Decode.{percent_encode, Ascii, stop_request-percent_encode}
use dev.Tests.{web, shop-HooksRun, busy}
use dev.Tests.Clusters.{smooth, empty}
use dev.Tests.Commands.{daemon}

abbrev smooth_io : Io
smooth_io = record { writes = true; flushes = true; renames = true; reopens = true }

abbrev line : Text → LogLine
line s = record { service = web; line = s; color_idx = 0 }

abbrev received : List Received
received =
    entry (line (txt "listening")) smooth_io ∷ lagged ∷ entry (line (txt "bye")) smooth_io ∷ []

abbrev backend : Backend Text Text
backend = record { daemon = daemon; shell = smooth; container = λ _. none; image = λ _. none }

abbrev ui : Ui Text Text
ui = record { sup = busy; boxes = empty }

-- A client that encodes the percent sign and each `w`
abbrev keep : ℕ → Bool
keep c = not (c == b'%' || c == b'w')

web-Ascii : Ascii web
unfolding Ascii
web-Ascii = (omega arith, (omega arith, (omega arith, tt)))

stop_request-percent_encode_example :
    (urldecode (percent_encode keep web) ≡ web)
    × ((handle Text Text backend ui (record {
      method = post;
      path = txt "/api/stop/" ++ percent_encode keep web;
      query = [];
    })).0
        ≡ ok (record {
          status_code = 200;
          content_type = txt "application/json";
          body = text (txt "{\"ok\":true}");
        }))
    × ((j : Text)
        → get j
            (handle Text Text backend ui (record {
              method = post;
              path = txt "/api/stop/" ++ percent_encode keep web;
              query = [];
            })).1.sup.handles
          ≡ ite
              (same web j)
              (Option.map
                (λ (h : ServiceHandle). record h { child = dummy; state = Supervised.stopped })
                (get web busy.handles))
              (get j busy.handles))
stop_request-percent_encode_example =
    stop_request-percent_encode Text Text backend ui keep web [] (λ _. refl) shop-HooksRun refl
      web-Ascii
