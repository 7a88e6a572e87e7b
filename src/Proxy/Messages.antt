-- ===== src/Proxy/Messages.antt =====
-- claude_tap/proxy.py: what the handler takes and gives. `World` has what is not this program's: the
-- upstream's answer, the decompression, and the libraries' parsing. A reply that is `cut_short` has begun
-- and does not end.
use claude_tap.Base.{ℕ, Text, String, Bool, Option, List, Dict}
use claude_tap.Json.{Json}
use claude_tap.Session.Index.{Clock}
use claude_tap.Session.Dispatcher.{Dispatcher}
use claude_tap.Upstream.Config.{ConfigStore}
use claude_tap.Upstream.Gateway.{GatewayStore}

-- `ctx["upstream"]`, or the static target and prefix.
pub data Upstream : Type 0 where
  fixed : (target_url strip_path_prefix : Text) → Upstream
  config : ConfigStore → Upstream
  gateway : GatewayStore → Upstream

pub record Request : Type 0 where
  pub method : Text
  pub path : Text
  pub path_qs : Text
  pub headers : List (Text × Text)
  pub body : List ℕ

-- What is sent upstream, and what comes back: the body in the chunks in which it arrives.
pub record Sent : Type 0 where
  pub method : Text
  pub url : Text
  pub headers : Dict Text
  pub body : List ℕ

pub record Answer : Type 0 where
  pub status : ℕ
  pub headers : List (Text × Text)
  pub chunks : List (List ℕ)

-- What comes of a request upstream: an exception, a reply, or a reply whose body breaks off with an
-- exception, which may be a ConnectionError.
pub data Fetched : Type 0 where
  unanswered : Fetched
  whole : Answer → Fetched
  broken : (connection_error : Bool) → Answer → Fetched

pub record World : Type 0 where
  pub loads : Text → Option Json
  pub loads_bytes : List ℕ → Option Json
  pub decode : List ℕ → Text
  pub sha256 : Text → Text
  pub text_of : Text → String
  pub on_disk : Text → List Json
  pub decompress : (encoding : Text) → List ℕ → Option (List ℕ)
  pub answer : Sent → Fetched

-- The times of a run, and its id.
pub record Moment : Type 0 where
  pub clock : Clock
  pub timestamp : Text
  pub request_id : Text
  pub duration_ms : ℕ

pub data Reply : Type 0 where
  reply : (status : ℕ) → List (Text × Text) → List ℕ → Reply
  cut_short : (status : ℕ) → List (Text × Text) → List ℕ → Reply
  failed : Reply

pub record Result : Type 0 where
  pub response : Reply
  pub sent : Option Sent
  pub dispatcher : Dispatcher
