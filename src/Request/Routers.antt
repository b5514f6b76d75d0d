-- ===== src/Request/Routers.antt =====
-- Routing policies as the request service uses them.
use production_stack.Base.Names.{String, Option, ap}
use production_stack.Base.Float.{Float}
use production_stack.Base.Dict.{Dict}
use production_stack.Base.Json.{Fields}
use production_stack.Stats.Monitor.Report.{RequestStats}
use production_stack.Routing.RoundRobin
use production_stack.Routing.RoundRobin.Cache.{Inv}
use production_stack.Routing.RoundRobin.Fairness.{route_request-safe}
use production_stack.Routing.Session
use production_stack.Routing.Session.{Headers, route_request-mem}
use production_stack.Routing.HashRing.{HashRing}
use production_stack.Routing.Priority.{or_value_error}
use production_stack.Request.Failover.{Router}
use production_stack.Request.Failover.Attempts.{RouterLaws}

abbrev pub round_robin : Router
round_robin = record { State = RoundRobin.RoundRobinRouter; route = RoundRobin.route_request }

abbrev pub round_robin_laws : RouterLaws round_robin
round_robin_laws = record { Valid = Inv; route-mem = route_request-safe }

module _ (float : Float) (ring : HashRing) where
  -- One request's use of the session router: the figures, the headers and the body stay the same.
  abbrev pub session :
      Option String → Dict String (RequestStats float.F) → Headers → Fields → Router
  session session_key stats headers body = record {
    State = ring.Ring;
    route = λ r endpoints.
        let (answer, r') =
          Session.route_request float ring session_key r endpoints stats headers body in
        (or_value_error answer, r');
  }

  abbrev pub session_laws :
      (session_key : Option String) (stats : Dict String (RequestStats float.F)) (headers : Headers)
      (body : Fields)
      → RouterLaws (session session_key stats headers body)
  session_laws session_key stats headers body = record {
    Valid = λ r. Unit;
    route-mem = λ r e es v.
        let (u, p, q, _) = route_request-mem float ring session_key r e es stats headers body in
        (u, ap or_value_error p, q, tt);
  }
