-- ===== src/Routing/PrefixAware.antt =====
-- `PrefixAwareRouter` of src/vllm_router/routers/routing_logic.py.
pub mod Affinity
use Prim.Native.Char.{code}
use production_stack.Base.Text.{join}
use production_stack.Base.Names.{
  ℕ, String, Bool, true, false, Option, none, some, List, [], ◌∷◌, ◌++◌,
}
use production_stack.Base.Tests.{ltb, if◌then◌else◌}
use production_stack.Base.Eq.{◌==◌, string_eq}
use production_stack.Base.Lists.{dedup}
use production_stack.Base.Float.{Float}
use production_stack.Base.Dict.{Dict}
use production_stack.Base.Json
use production_stack.Base.Json.{
  Json, Items, Fields, null, bool, int, str, arr, obj, lookup, mentions, truthy,
}
use production_stack.Base.Outcome.{
  Outcome, return, raise, ◌>>=◌, key_error, index_error, attribute_error, other_error,
}
use production_stack.Endpoint.{EndpointInfo, urls}
use production_stack.Stats.Monitor.Report.{RequestStats}
use production_stack.Routing.Qps.{qps_routing}
use production_stack.Prefix.HashTrie.{HashTrie, insert, longest_prefix_match}

-- The characters of a text, by their code points.
abbrev pub code_points : String → List ℕ
code_points String.[] = []
code_points (String.◌∷◌ c t) = code c ∷ code_points t

-- d.get(k, "")
abbrev pub or_empty : Option Json → Json
or_empty none = str ""
or_empty (some v) = v

-- Only texts can be joined.
abbrev text_of : Json → Outcome String
text_of (str t) = return t
text_of _ = raise (other_error "TypeError")

unfoldable pub texts_of : List Json → Outcome (List String)
texts_of [] = return []
texts_of (v ∷ vs) = text_of v >>= λ t. texts_of vs >>= λ ts. return (t ∷ ts)

abbrev is_text : Option Json → Bool
is_text (some (str t)) = t == "text"
is_text _ = false

-- The texts of the parts of a multimodal message. `join` runs through all the parts before it looks
-- at what it joins, so a part that is no object is met first.
unfoldable pub text_parts : Items → Outcome (List Json)
text_parts Items.nil = return []
text_parts (Items.cons (obj part) rest) = text_parts rest >>= λ others.
    return (if is_text (lookup part "type") then or_empty (lookup part "text") ∷ others else others)
text_parts (Items.cons _ rest) = raise attribute_error

-- What a message's content adds: `None` nothing, a list its texts, and another value itself.
unfoldable pub content_parts : Json → Outcome (List Json)
unfolding text_parts texts_of
content_parts (arr parts) = text_parts parts >>= texts_of >>= λ ts. return (str (join " " ts) ∷ [])
content_parts null = return []
content_parts v = return (v ∷ [])

unfoldable pub prompt_parts : Items → Outcome (List Json)
unfolding content_parts
prompt_parts Items.nil = return []
prompt_parts (Items.cons (obj message) rest) =
    content_parts (or_empty (lookup message "content")) >>= λ part.
    prompt_parts rest >>= λ others. return (part ++ others)
prompt_parts (Items.cons _ rest) = raise attribute_error

-- The prompt of the chat messages. What is iterated must be a list: of a text or an object the
-- items are texts, which have no `get`.
unfoldable pub messages_prompt : Json → Outcome String
unfolding prompt_parts texts_of
messages_prompt (arr messages) = prompt_parts messages >>= texts_of >>= λ ts. return (join "\n" ts)
messages_prompt (str _) = raise attribute_error
messages_prompt (obj _) = raise attribute_error
messages_prompt _ = raise (other_error "TypeError")

-- The characters that the trie reads. Of a list or an object there are none if it is empty, and its
-- parts have no hash otherwise.
abbrev pub characters : Json → Outcome (List ℕ)
characters (str t) = return (code_points t)
characters (arr Items.nil) = return []
characters (obj Fields.end) = return []
characters _ = raise (other_error "TypeError")

abbrev field_prompt : Option Json → Outcome (List ℕ)
field_prompt none = raise key_error
field_prompt (some v) = characters v

abbrev chat_prompt : Json → Outcome (List ℕ)
unfolding messages_prompt
chat_prompt v = if truthy v then (messages_prompt v >>= λ t. return (code_points t)) else return []

unfoldable pub prompt : Fields → Outcome (List ℕ)
unfolding messages_prompt
prompt request_json =
    if mentions request_json "messages"
    then chat_prompt (or_empty (lookup request_json "messages"))
    else field_prompt (lookup request_json "prompt")

pub record PrefixAwareRouter : Type 0 where
  pub hashtrie : HashTrie
  pub prefix_min_match_length : ℕ

-- `hash` is that of the trie, and `choice` is what `random.choice` takes of a list.
module _ (float : Float) (hash : List ℕ → ℕ) (choice : List String → Option String) where
  open float use {F}

  abbrev pub with_insert : PrefixAwareRouter → List ℕ → String → PrefixAwareRouter
  with_insert r text url = record r { hashtrie = insert hash r.hashtrie text url }

  -- The route by the least request rate, which has none among no endpoints.
  abbrev pub record_fallback :
      PrefixAwareRouter → List ℕ → Option String → Outcome (Option String) × PrefixAwareRouter
  record_fallback r text none = (return none, r)
  record_fallback r text (some url) = (return (some url), with_insert r text url)

  abbrev pub record_choice :
      PrefixAwareRouter → List ℕ → Option String → Outcome (Option String) × PrefixAwareRouter
  record_choice r text none = (raise index_error, r)
  record_choice r text (some url) = (return (some url), with_insert r text url)

  unfoldable pub route_prompt :
      PrefixAwareRouter
      → List ℕ
      → List EndpointInfo
      → Dict String (RequestStats F)
      → Outcome (Option String) × PrefixAwareRouter
  unfolding dedup
  route_prompt r text endpoints request_stats =
      let found = longest_prefix_match hash r.hashtrie text (dedup (urls endpoints)) in
      if ltb found.0 r.prefix_min_match_length
      then record_fallback r text (qps_routing float endpoints request_stats)
      else record_choice r text (choice found.1)

  abbrev pub with_prompt :
      PrefixAwareRouter
      → Outcome (List ℕ)
      → (List ℕ → Outcome (Option String) × PrefixAwareRouter)
      → Outcome (Option String) × PrefixAwareRouter
  with_prompt r (raise e) use_text = (raise e, r)
  with_prompt r (return text) use_text = use_text text

  unfoldable pub route_request :
      PrefixAwareRouter
      → List EndpointInfo
      → Dict String (RequestStats F)
      → Fields
      → Outcome (Option String) × PrefixAwareRouter
  unfolding prompt route_prompt
  route_request r endpoints request_stats request_json =
      with_prompt r (prompt request_json) (λ text. route_prompt r text endpoints request_stats)
