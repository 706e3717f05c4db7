-- ===== src/Ui.antt =====
-- src/ui.rs: the handling of one request of the web page. JSON is written by a library, so a body is
-- the value that it stands for. The state is that of the supervisor and that of the calls of a3s-box;
-- a container and an image are of parameter types, since a library reads them.
pub mod Routes
pub mod Decode
use mathlib.Core.Option
use dev.Prelude.{
  Text, txt, ℕ, ◌+◌, ◌-◌, ◌*◌, Option, none, some, List, [], ◌∷◌, ◌++◌, Bool, true, false, ◌||◌,
  ◌&&◌, ◌==◌, leb, if◌then◌else◌, test, same,
}
use dev.Error.{Result, ok, err, panic}
use dev.Strings.{strip_prefix, split_at, has_char}
use dev.Strings.Decimal.{to_string, parse_u64, Parsed, parsed, failed}
use dev.Map.{is_some}
use dev.Ipc.{bytes}
use dev.Ipc.Server as Server
use dev.Log.{LogLine, recent}
use dev.Supervisor.{Supervisor}
use dev.Supervisor.Fleet.{restart_service}
use dev.Supervisor.Stop.{stop_service}
use dev.Supervisor.Status.{StatusRow, status_rows}
use dev.K8s.{Shell, Cluster, Deploy}
use dev.Watcher.{contains_text}
use dev.Box.{
  BoxNetwork, BoxVolume, BoxInfo, list_containers, list_images, list_networks, list_volumes,
  get_info, container_logs, stop_container, remove_container, remove_image, remove_network,
  remove_volume, pull_image,
}
use dev.Steps.{Steps}
unfoldable pub use dev.Ui.Routes.{
  hex_value, combine, hex_pair, urldecode_bytes, urldecode, find_param, services_of, is_path,
  parsed_or, tail_of, prefixed, get_route, post_route, delete_route, method_route, route,
}
pub use dev.Ui.Routes.{
  Method, Request, Route, page, status, missing, history, stream, restart, stop, box_containers,
  box_images, box_networks, box_volumes, box_info, box_logs, box_stop, box_remove, box_remove_image,
  box_remove_network, box_remove_volume, box_pull, get, post, delete, other,
}

module _ (Container Image : Type 0) where
  pub data Body : Type 0 where
    index_html : Body
    rows : List StatusRow → Body
    log_lines : List LogLine → Body
    -- the lines that follow, of one service or of all
    events : Option Text → Body
    text : Text → Body
    containers : List Container → Body
    images : List Image → Body
    networks : List BoxNetwork → Body
    volumes : List BoxVolume → Body
    info : BoxInfo → Body

  pub record Response : Type 0 where
    pub status_code : ℕ
    pub content_type : Text
    pub body : Body

  pub record Ui : Type 0 where
    pub sup : Supervisor
    pub boxes : Cluster

  abbrev pub json : Text
  json = txt "application/json"

  abbrev pub full_response : Text → Body → Response
  full_response content_type body = record {
    status_code = 200;
    content_type = content_type;
    body = body;
  }

  abbrev pub ok_response : Response
  ok_response = full_response json (text (txt "{\"ok\":true}"))

  -- `msg.replace('"', "'")`
  unfoldable pub single_quotes : Text → Text
  single_quotes [] = []
  single_quotes (c ∷ s) = (if c == b'"' then 39 else c) ∷ single_quotes s

  abbrev pub failure : Text → Response
  failure msg = record {
    status_code = 500;
    content_type = json;
    body = text (txt "{\"error\":\"" ++ (msg ++ txt "\"}"));
  }

  unfoldable pub error_response : Text → Response
  unfolding single_quotes
  error_response msg = failure (single_quotes msg)

  abbrev pub not_found : Response
  not_found = record { status_code = 404; content_type = []; body = text (txt "not found") }

  -- The daemon behind the page, the shell for a3s-box, and the parsers of its JSON
  pub record Backend : Type 0 where
    pub daemon : Server.Daemon
    pub shell : Shell
    pub container : Text → Option Container
    pub image : Text → Option Image

  abbrev pub Handled : Type 0
  Handled = Result Response × Ui

  -- A call of a3s-box, whose error is an answer
  abbrev pub box_answer {ℓ} : {A : Type ℓ} → (A → Response) → Ui → Result A × Cluster → Handled
  box_answer f ui (ok a, boxes) = (ok (f a), record ui { boxes = boxes })
  box_answer f ui (err e, boxes) =
      (ok (error_response (Server.display e)), record ui { boxes = boxes })
  box_answer f ui (panic p, boxes) = (panic p, record ui { boxes = boxes })

  abbrev pub box_call {ℓ} : {A : Type ℓ} → Ui → Deploy A → (A → Response) → Handled
  box_call ui call f = box_answer f ui (call ui.boxes)

  -- The pull runs on, and its result is dropped.
  abbrev pub pulled : Ui → Result (Unit {0}) × Cluster → Handled
  pulled ui (r, boxes) = (ok ok_response, record ui { boxes = boxes })

  abbrev pub restarted : Ui → Result (Unit {0}) × Supervisor → Handled
  restarted ui (ok u, sup) = (ok ok_response, record ui { sup = sup })
  restarted ui (err e, sup) = (ok (failure (Server.display e)), record ui { sup = sup })
  restarted ui (panic p, sup) = (panic p, record ui { sup = sup })

  abbrev pub stopped : Ui → Result (Unit {0}) × Supervisor → Handled
  stopped ui (ok u, sup) = (ok ok_response, record ui { sup = sup })
  stopped ui (err e, sup) = (err e, record ui { sup = sup })
  stopped ui (panic p, sup) = (panic p, record ui { sup = sup })

  unfoldable pub perform : Backend → Ui → Route → Handled
  perform b ui page = (ok (full_response (txt "text/html; charset=utf-8") index_html), ui)
  perform b ui status =
      (ok (full_response json (rows (status_rows (b.daemon.now ui.sup) ui.sup))), ui)
  perform b ui missing = (ok not_found, ui)
  perform b ui (history service) = (
    ok (full_response json (log_lines (recent b.daemon.log_history (services_of service) 200))),
    ui,
  )
  perform b ui (stream service) =
      (ok (full_response (txt "text/event-stream") (events service)), ui)
  perform b ui (restart name) = restarted ui (restart_service b.daemon.os name ui.sup)
  perform b ui (stop name) = stopped ui (stop_service b.daemon.os name ui.sup)
  perform b ui (box_containers all) =
      box_call ui (list_containers b.shell b.container all) (λ v. full_response json (containers v))
  perform b ui box_images =
      box_call ui (list_images b.shell b.image) (λ v. full_response json (images v))
  perform b ui box_networks =
      box_call ui (list_networks b.shell) (λ v. full_response json (networks v))
  perform b ui box_volumes =
      box_call ui (list_volumes b.shell) (λ v. full_response json (volumes v))
  perform b ui box_info = box_call ui (get_info b.shell) (λ v. full_response json (info v))
  perform b ui (box_logs id tail) =
      box_call ui (container_logs b.shell id tail)
        (λ v. full_response (txt "text/plain; charset=utf-8") (text v))
  perform b ui (box_stop id) = box_call ui (stop_container b.shell id) (λ _. ok_response)
  perform b ui (box_remove id) = box_call ui (remove_container b.shell id) (λ _. ok_response)
  perform b ui (box_remove_image r) = box_call ui (remove_image b.shell r) (λ _. ok_response)
  perform b ui (box_remove_network n) = box_call ui (remove_network b.shell n) (λ _. ok_response)
  perform b ui (box_remove_volume n) = box_call ui (remove_volume b.shell n) (λ _. ok_response)
  perform b ui (box_pull r) = pulled ui (pull_image b.shell r ui.boxes)

  unfoldable pub handle : Backend → Ui → Request → Handled
  unfolding perform
  handle b ui req = perform b ui (route req)
