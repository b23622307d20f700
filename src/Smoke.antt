-- ===== src/Smoke.antt =====
-- docs/validation/docker-smoke.py: the acceptance of the built image, and the functions that the
-- benchmark takes from it. Processes, the network, the clock and the parser of JSON are the host's.
pub mod Answer
pub mod Metadata
pub mod Service
pub mod Acceptance
pub mod Inventory
pub mod Threads
pub mod Main
pub mod Loaded
pub mod Stopped
pub mod Accepted
pub mod Cleanup
pub mod Secret
pub mod Waiting
pub mod Agents
pub mod Closeness
pub mod Passing
pub mod Tests
mod Trials
use laya_rs.Base.{ℕ, Option, List, String}
use laya_rs.Base.Json.{Json}
use laya_rs.Base.Raises.{Raises, Exception}

pub record Request : Type 0 where
  pub url : String
  pub body : Option String
  pub headers : List (String × String)

-- What `urlopen` gives: a response, an HTTPError, which is a response too, or another exception. Reading
-- and decoding the body may raise.
pub data Reply : Type 0 where
  response : ℕ → Raises String → Reply
  http_error : ℕ → Raises String → Reply
  unanswered : Exception → Reply

-- A process that has ended.
pub record Process : Type 0 where
  pub returncode : ℕ
  pub stdout : String
  pub stderr : String

-- `W` is the state of everything outside the program. `process` takes the arguments and the variables
-- that are added to the environment, and raises when its time is over.
pub record Host (W : Type 0) : Type 0 where
  pub urlopen : Request → W → Reply × W
  pub process : List String → List (String × String) → W → Raises Process × W
  pub clock : W → ℕ × W
  pub sleep : ℕ → W → W
  pub loads : String → Raises Json
  pub read_text : String → Raises String
  -- `str` of a value that is no text
  pub show : Json → String
  pub api_token : String
  -- how many units of a number make one
  pub unit : ℕ
