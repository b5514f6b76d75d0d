-- ===== src/Endpoint.antt =====
-- `ModelInfo` and `EndpointInfo` of src/vllm_router/service_discovery.py.
pub mod Models
pub mod Order
use production_stack.Base.Text.{str_leb}
use production_stack.Base.Names.{ℕ, String, Bool, Option, List, map}
use production_stack.Base.Eq.{string_eq}
use production_stack.Base.Dict.{Dict}

-- `extra_fields` is passed through to the client and read by nothing: it is left out.
pub record ModelInfo : Type 0 where
  pub id : String
  pub object : String
  pub created : ℕ
  pub owned_by : String
  pub root : Option String
  pub parent : Option String
  pub is_adapter : Bool

pub record EndpointInfo : Type 0 where
  pub url : String
  pub model_names : List String
  pub id : String
  pub added_timestamp : ℕ
  pub model_label : Option String
  pub sleep : Bool
  pub healthy : Bool
  pub pod_name : Option String
  pub service_name : Option String
  pub namespace : Option String
  pub model_info : Dict String ModelInfo

-- [e.url for e in endpoints]
abbrev pub urls : List EndpointInfo → List String
urls = map (λ e. e.url)

-- key=lambda e: e.url
abbrev pub url_leb : EndpointInfo → EndpointInfo → Bool
url_leb a b = str_leb a.url b.url
