-- ===== src/Tests.antt =====
-- Hosts and worlds for runs of the tools on concrete inputs.
pub mod Questions
pub mod Clusters
pub mod Inits
pub mod Joins
pub mod Nodes
pub mod Scripts
pub mod Launches
pub mod Services
pub mod Synced
pub mod Runs
pub mod Command
pub mod Stored
pub mod Healthy
pub mod Admissions
use microstack.Base.{String, ◌==◌, true, false, not, ◌&&◌, none, [], every, codes, leb}
use microstack.Machine.{Host, World}

abbrev pub new_world : World
new_world = record { log = []; env = [] }

-- Every command succeeds and prints the same text, and the user types the same line.
abbrev pub calm : String → String → Host
calm output answer = record {
  status = λ _ _. 0;
  output = λ _ _. output;
  answer = λ _ _. answer;
  is_open = λ _ _ _. true;
  content = λ _ _. none;
  sql_fails = λ _ _. false;
  dial = λ _ _ _. none;
  fetch_fails = λ _ _. none;
  write_fails = λ _ _. none;
  reads_int = λ text. every (λ c. leb 48 c && leb c 57) (codes text) && not (text == "");
  loads = λ _. none;
  repr = λ _. "{}";
  patience = 3;
}
