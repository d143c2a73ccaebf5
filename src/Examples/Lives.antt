-- ===== src/Examples/Lives.antt =====
-- Connections, sessions and clients on concrete states.
use occase.Base.{◌≡◌, ◌≤◌, refl, true, false, List, [], ◌∷◌, pos, Str, codes, arith, length}
use occase.Examples.Toy.{toy, write}
use occase.Examples.Nodes.{cfg, online, idle, published, published-IsRepresentable}
use occase.Exec.{ok}
use occase.Acceptor
use occase.Acceptor.{Acceptor, closed_acceptor}
use occase.Acceptor.Accepting
use occase.Acceptor.Accepting.{Accepting, Steps-Accepting}
use occase.Http.{Request, Response, post, process_request}
use occase.Http.Answers.{process_request_answers}
use occase.Http.Connection.{accepted, Connection, Completion, detected, request, done, error, serve}
use occase.Http.Connection.Ends.{left, connection_ends}
use occase.Session.{Session, fresh, enqueue}
use occase.Session.Queue
use occase.Session.Drain.{Drained, queue_drains}
use occase.Notifier.{NtfConfig}
use occase.Notifier.Push
use occase.Notifier.Push.Exchange.{Exchanged, push_exchange}
use occase.Worker.State.{World, hgetall, send_redis}
use occase.Worker.Api.{publish_json}
use occase.Worker.Db.{on_hvals}
use occase.Worker.Loading.{Stored, Loaded, hvals_loads}
use occase.Worker.Loading

-- An acceptor that listens, gets a peer and is shut down.
abbrev accepts : List Accepting.Event
accepts =
    Accepting.ends Acceptor.operation_aborted
    ∷ Accepting.shuts
    ∷ Accepting.ends Acceptor.peer
    ∷ Accepting.runs Acceptor.listens
    ∷ []

abbrev down : Acceptor
down = record { is_open = true; cancelled = true; waiting = 0; detected = 1 }

accepts-Steps : Accepting.Steps closed_acceptor accepts down
unfolding Acceptor.run Acceptor.on_accept Acceptor.shutdown Acceptor.do_accept
accepts-Steps =
    Accepting.next
      (Accepting.next
        (Accepting.next (Accepting.next Accepting.here (Accepting.opening Acceptor.listens refl))
          (Accepting.accepting Acceptor.peer (λ e. cc) (λ e. omega (arith, e))))
        Accepting.shutting)
      (Accepting.aborting refl (λ e. omega (arith, e)))

Steps-Accepting_example : Accepting accepts down
Steps-Accepting_example = Steps-Accepting accepts down accepts-Steps

abbrev asked : Request
asked = record { method = post; target = codes "/get-user-id"; body = [] }

process_request_answers_example :
    (r : Response) × (v : World toy) × (process_request toy cfg (pos 0) asked online ≡ (ok r, v))
    × (r.content_length ≡ length r.body)
    × (r.allow_origin ≡ codes "*")
process_request_answers_example = process_request_answers toy cfg (pos 0) asked online

-- A TLS connection with one request.
abbrev completions : List Completion
completions = detected true ∷ done ∷ request false asked ∷ done ∷ error ∷ []

connection_ends_example :
    (d : Connection) × (v : World toy) × (serve cfg toy (pos 0) completions accepted online
      ≡ (ok d, v))
    × (length d.sent ≤ 1)
    × (left d.phase ≤ 0)
connection_ends_example = connection_ends toy cfg (pos 0) completions online

abbrev two : Session
two = enqueue (codes "two") true (enqueue (codes "one") false fresh)

abbrev sends : List Queue.Event
sends = Queue.sent (codes "two") true ∷ Queue.sent (codes "one") false ∷ []

two_open : two.closing ≡ false
unfolding enqueue
two_open = refl

queue_drains_example : (t : Session) × Drained sends (length two.msg_queue) t
queue_drains_example =
    queue_drains sends two
      (Queue.next (Queue.next Queue.here (Queue.sends (codes "one") false))
        (Queue.sends (codes "two") true))
      tt two_open

abbrev service : NtfConfig
service = record {
  fcm_port = codes "443";
  fcm_host = codes "fcm";
  fcm_target = codes "/fcm/send";
  fcm_server_token = codes "key=x";
  version = pos 11;
}

abbrev succeeded : Str → Push.Completion
succeeded body = record { failed = false; answer = body }

abbrev push_run : List Push.Completion
push_run =
    succeeded []
    ∷ succeeded []
    ∷ succeeded []
    ∷ succeeded (codes "sent")
    ∷ record { failed = true; answer = [] }
    ∷ []

push_exchange_example :
    Exchanged 5 push_run
      (Push.make_request (codes "beast") service (codes "note") ∷ [])
      (codes "sent" ∷ [])
      (Push.serve push_run (Push.run (codes "beast") service true (codes "note") Push.new_push))
push_exchange_example = push_exchange (codes "beast") service true (codes "note") push_run

-- The post of "alice" and a text that is not JSON.
abbrev stored : List Str
stored = write (publish_json toy cfg published) ∷ (9 ∷ []) ∷ []

stored-Stored : Stored toy cfg stored (published ∷ [])
stored-Stored = Loading.written published-IsRepresentable refl (Loading.unreadable refl Loading.end)

hvals_loads_example :
    (v : World toy) × (on_hvals toy cfg stored idle
      ≡ (ok tt, send_redis (hgetall (codes "post_visualizations") ∷ []) v))
    × Loaded cfg (published ∷ []) idle v
hvals_loads_example = hvals_loads cfg stored (published ∷ []) idle stored-Stored
