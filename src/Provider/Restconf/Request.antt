-- ===== src/Provider/Restconf/Request.antt =====
-- internal/provider/restconf/restconf.go: `New`, `doRequest`, and the type assertions on decoded values.
-- What the network answers, `encoding/json`, and `fmt` on a value are parameters.
use gcisco_exporter.Base.{
  ℕ, String, Option, none, some, List, ◌⊎◌, inl, inr, nat_eq, ◌||◌, if◌then◌else◌,
}
use gcisco_exporter.Int.{ℤ, pos, negsuc}
use gcisco_exporter.Error.{Error}
use gcisco_exporter.Strings.{chars}
use gcisco_exporter.Float.{Float64, value}
use gcisco_exporter.Config.{Device, Credential}
use gcisco_exporter.Provider.Json.Value.{Json, Fields, number, text, array, object, items, find}

-- what a request gives: an error of `http.NewRequestWithContext`, one of `p.client.Do`, or a status and a
-- body
pub data Reply : Type 0 where
  refused : Error → Reply
  failed : Error → Reply
  responded : ℕ → String → Reply

pub record Http (F : Type 0) : Type 0 where
  -- a GET of `path` under `https://host:port/restconf/data`, with basic authentication, at an instant
  pub get : ℕ → String → ℤ → Credential → String → Reply
  -- `json.NewDecoder(resp.Body).Decode`
  pub decode : String → Error ⊎ Fields F
  -- the error for a status other than 200: the path, the status and the body
  pub status_error : String → ℕ → String → Error
  -- `fmt.Errorf` around an error of the request, and of the decoder
  pub request_error : String → Error → Error
  pub decode_error : String → Error → Error
  -- `fmt.Sprintf("%v", v)`, and `fmt.Sprintf("%s(%d)", name, pid)`
  pub show_value : Json F → String
  pub show_process : String → ℤ → String
  -- `int(v)`
  pub int_of : F → ℤ

unfoldable pub restconf_port : ℤ → ℤ
restconf_port (pos n) = if nat_eq n 0 || nat_eq n 22 then pos 443 else pos n
restconf_port (negsuc n) = negsuc n

module _ {F : Type 0} where
  unfoldable pub read_body : Http F → String → Error ⊎ Fields F → Error ⊎ Fields F
  read_body http path (inl err) = inl (http.decode_error path err)
  read_body http path (inr fields) = inr fields

  unfoldable pub read_reply : Http F → String → Reply → Error ⊎ Fields F
  unfolding read_body
  read_reply http path (refused err) = inl err
  read_reply http path (failed err) = inl (http.request_error path err)
  read_reply http path (responded status body) =
      if nat_eq status 200
      then read_body http path (http.decode body)
      else inl (http.status_error path status body)

  unfoldable pub do_request : Http F → ℕ → Device → Credential → String → Error ⊎ Fields F
  unfolding read_reply restconf_port
  do_request http t d cred path =
      read_reply http path (http.get t d.host (restconf_port d.port) cred path)

  -- `v.(map[string]interface{})`, `v.([]interface{})` and `v.(string)`, where the assertion holds
  unfoldable pub as_object : Option (Json F) → Option (Fields F)
  as_object (some (object fields)) = some fields
  as_object other = none

  unfoldable pub as_list : Option (Json F) → Option (List (Json F))
  unfolding items
  as_list (some (array vs)) = some (items vs)
  as_list other = none

  unfoldable pub as_string : Option (Json F) → Option String
  as_string (some (text s)) = some s
  as_string other = none

  unfoldable pub object_at : String → Fields F → Option (Fields F)
  object_at key fields = as_object (find key fields)

  unfoldable pub list_at : String → Fields F → Option (List (Json F))
  list_at key fields = as_list (find key fields)

  unfoldable pub string_at : String → Fields F → Option String
  string_at key fields = as_string (find key fields)

-- `name, _ := m[key].(string)`, or an assignment only where the assertion holds
unfoldable pub or_else : {A : Type 0} → A → Option A → A
or_else a none = a
or_else a (some b) = b

module _ {F : Type 0} ⦃fl : Float64 F⦄ where
  -- `if v, ok := m[key].(string); ok { x, _ = ParseFloat(v) } else if v, ok := m[key].(float64); ok { x = v }`
  unfoldable pub number_from : F → Option (Json F) → F
  unfolding value
  number_from held (some (text s)) = value (chars s)
  number_from held (some (number n)) = n
  number_from held other = held

  -- `if v, ok := m[key].(float64); ok { x = v }`
  unfoldable pub float_from : F → Option (Json F) → F
  float_from held (some (number n)) = n
  float_from held other = held
