-- ===== src/Proxy/Records.antt =====
-- claude_tap/proxy.py: `_build_record` and `_build_ws_record`. `text_of` gives a header's name as
-- the key of an object: Python has one type of strings, the model has texts of codes and native
-- strings. The timestamp is given as text.
use claude_tap.Base.{
  ℕ, Text, String, Bool, true, false, Option, none, some, List, [], ◌∷◌, codes, if◌then◌else◌,
  is_nil, map, Dict,
}
use claude_tap.Json.{Json, pos, null, num, str, arr, obj, Fields, end, field, set, of_list}
use claude_tap.Sse.Sharing.{Event}
use claude_tap.Proxy.Headers.{filter_headers}
use claude_tap.Proxy.Websocket.{
  reconstruct_ws_request_body, reconstruct_ws_response_body, parse_ws_messages, ws_events_of,
}

-- What is known of a call besides its bodies.
pub record Call : Type 0 where
  pub timestamp : Text
  pub request_id : Text
  pub turn : ℕ
  pub duration_ms : ℕ
  pub method : Text
  pub path_qs : Text
  pub headers : List (Text × Text)
  pub upstream_base_url : Text

-- One more field unless the value is empty.
abbrev pub set_unless : Bool → String → Json → Fields → Fields
unfolding set
set_unless b k v fs = if b then fs else set k v fs

abbrev pub event_json : Event → Json
event_json e = obj (field "event" (str e.name) (field "data" e.payload end))

module _ (text_of : Text → String) where
  abbrev pub headers_json : Dict Text → Fields
  headers_json [] = end
  headers_json ((k, v) ∷ headers) = field (text_of k) (str v) (headers_json headers)

  abbrev pub request_json : Call → (method : Text) → Json → Fields
  unfolding filter_headers
  request_json c method body = field "method" (str method) (
      field "path" (str c.path_qs) (
        field "headers" (obj (headers_json (filter_headers true c.headers)))
          (field "body" body end)))

  abbrev pub head_json : Call → Fields → Fields
  head_json c rest = field "timestamp" (str c.timestamp) (
      field "request_id" (str c.request_id)
        (field "turn" (num (pos c.turn)) (field "duration_ms" (num (pos c.duration_ms)) rest)))

  unfoldable pub build_record :
      Call
      → (request_body : Json) → (status : ℕ) → List (Text × Text)
      → (response_body : Json) → List Event
      → Fields
  unfolding set_unless request_json filter_headers of_list
  build_record c request_body status headers response_body events =
      let response = field "status" (num (pos status)) (
        field "headers" (obj (headers_json (filter_headers false headers)))
          (field "body" response_body end)) in
      set_unless (is_nil c.upstream_base_url) "upstream_base_url" (str c.upstream_base_url) (
        head_json c (
          field "request" (obj (request_json c c.method request_body)) (
            field "response"
              (obj (
                set_unless (is_nil events) "sse_events" (arr (of_list (map event_json events)))
                  response))
              end)))

  abbrev pub body_json : Option Fields → Json
  body_json none = null
  body_json (some fs) = obj fs

  -- `error` is the text of the exception, empty where there is none.
  unfoldable pub build_ws_record :
      (item_key : Json → Text)
      → (loads : Text → Option Json) → Call
      → (client_messages server_messages : List Text) → (error : Text) → Fields
  unfolding set_unless request_json of_list reconstruct_ws_request_body reconstruct_ws_response_body
      parse_ws_messages ws_events_of
  build_ws_record item_key loads c client_messages server_messages error =
      let req_body = reconstruct_ws_request_body item_key loads client_messages in
      let ws_events = ws_events_of loads server_messages in
      let resp_body = reconstruct_ws_response_body ws_events in
      let req_events = parse_ws_messages loads client_messages in
      let status = if is_nil error then 101 else 502 in
      let response =
        field "status" (num (pos status))
          (field "headers" (obj end) (field "body" (body_json resp_body) end)) in
      set_unless (is_nil c.upstream_base_url) "upstream_base_url" (str c.upstream_base_url) (
        head_json c (
          field "transport" (str (codes "websocket")) (
            field "request"
              (obj (
                set_unless (is_nil req_events) "ws_events" (arr (of_list req_events))
                  (request_json c (codes "WEBSOCKET") (body_json req_body))))
              (field "response"
                (obj (
                  set_unless (is_nil error) "error" (str error)
                    (set_unless (is_nil ws_events) "ws_events" (arr (of_list ws_events)) response)))
                end))))
