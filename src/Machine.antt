-- ===== src/Machine.antt =====
-- What the tools run on: other programs, the terminal, files and sockets are a `Host`, whose
-- answers may depend on everything that was done before. A tool is an `Action`: it reads and
-- writes its environment variables, adds to the log of what it did, and may raise.

pub mod Monad
pub mod Adds
pub mod Ends
pub mod Extends
pub mod Performs
pub mod Returns
use microstack.Json.{Json}
use microstack.Base.{ℕ, String, Bool, Option, List, ◌∷◌}
use microstack.Base.Dict.{Dict}

-- What a tool does to the outside, one event for each time. `posted` has the host that is asked,
-- the fingerprint that its certificate must have, the path and the body.
pub data Event : Type 0 where
  command : List String → Event
  prompted : String → Event
  connected : String → String → Event
  read wrote : String → Event
  executed_sql : String → Event
  fetched : String → String → Event
  posted : Json → Json → String → String → Event
  slept : Event

-- Newest first.
abbrev pub History : Type 0
History = List Event

-- The exceptions that leave a tool; `still_waiting` stands for a loop that polls on.
pub data Error : Type 0 where
  called_process_error : ℕ → Error
  invalid_question invalid_answer : Error
  index_error : String → Error
  attribute_error type_error key_error value_error : String → Error
  file_not_found_error : String → Error
  json_decode_error : String → Error
  unauthorized_request_error : String → Error
  argument_type_error : String → Error
  exception : String → Error
  system_exit : ℕ → Error
  still_waiting : Error

-- `status` and `output` are those of a command that is run after a history, `answer` is the line
-- that the user types at a prompt, `is_open` whether a port accepts a connection, `content` the
-- text of a file that is there, and `sql_fails` whether the database refuses a statement or its
-- connection. `dial`, `fetch_fails` and `write_fails` are the exceptions of `connect_ex` on an
-- address and a port, of a download of a URL, and of the writing of a file. `repr` is Python's
-- `str` of a list or a dict, `reads_int` whether its `int` reads a text, and `loads` is
-- `json.loads`, `none` where it raises. `patience` is the number of rounds for which a loop that
-- polls is followed.
pub record Host : Type 0 where
  pub status : History → List String → ℕ
  pub output : History → List String → String
  pub answer : History → String → String
  pub is_open : History → String → String → Bool
  pub content : History → String → Option String
  pub sql_fails : History → String → Bool
  pub dial : History → String → String → Option Error
  pub fetch_fails : History → String → Option Error
  pub write_fails : History → String → Option Error
  pub reads_int : String → Bool
  pub loads : String → Option Json
  pub repr : Json → String
  pub patience : ℕ

pub record World : Type 0 where
  pub log : History
  pub env : Dict String

-- The world after an event.
abbrev pub after_event : Event → World → World
after_event e w = record w { log = e ∷ w.log }
