-- ===== src/Examples/Sleeps.antt =====
-- An example on a request to sleep.
use production_stack.Base.Names.{String, none, List, [], ◌∷◌}
use production_stack.Base.Dict.{Dict}
use production_stack.Base.Json.{null}
use production_stack.Base.Outcome.{return}
use production_stack.Endpoint.{EndpointInfo}
use production_stack.Request.Sleep.{Call, Answer, answered, route_sleep_wakeup_request}
use production_stack.Request.Sleep.Target.{Targeted, route_sleep_wakeup_request-Targeted}
use production_stack.Examples.Data.{engine}

abbrev query : Dict String String
query = ("id", "b") ∷ ("level", "2") ∷ []

abbrev engines : List EndpointInfo
engines = engine "a" ∷ engine "b" ∷ []

abbrev obeys : Call → Answer
obeys call = answered 200 (return null)

route_sleep_wakeup_request-Targeted_example :
    Targeted obeys "/sleep" query engines none
      (route_sleep_wakeup_request obeys (λ l. return tt) "/sleep" query none engines)
route_sleep_wakeup_request-Targeted_example =
    route_sleep_wakeup_request-Targeted obeys "/sleep" query engines (λ l. return tt) none
