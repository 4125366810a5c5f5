-- ===== src/Broker/Lane.antt =====
-- internal/broker/lane.go: the lanes, and the lane that an operation's name selects.
use rdev.Base.{String, Bool, true, false, ◌||◌, same, if◌then◌else◌}

pub data Lane : Type 0 where
  control exec bulk : Lane

pub Lane-discrete : Discrete Lane
Lane-discrete = hlevel

-- `Lane` is a string in the source, and only these three have a queue.
abbrev pub same_lane : Lane → Lane → Bool
same_lane control control = true
same_lane exec exec = true
same_lane bulk bulk = true
same_lane _ _ = false

abbrev pub is_control : Lane → Bool
is_control control = true
is_control exec = false
is_control bulk = false

unfoldable pub lane_for_operation : String → Lane
lane_for_operation op =
    if same op "exec" || same op "job_start" || same op "job_wait"
    then exec
    else if same op "sync.push"
        || same op "sync.pull"
        || same op "write"
        || same op "write_file"
        || same op "read_file"
        || same op "edit_file"
        || same op "edit_rollback"
    then bulk
    else control

-- A map keyed by lane, `map[Lane]A`, with an entry for each lane.
pub record Lanes (A : Type 0) : Type 0 where
  pub of_control : A
  pub of_exec : A
  pub of_bulk : A

module _ {A : Type 0} where
  abbrev pub at : Lanes A → Lane → A
  at m control = m.of_control
  at m exec = m.of_exec
  at m bulk = m.of_bulk

  abbrev pub put : Lanes A → Lane → A → Lanes A
  put m control a = record m { of_control = a }
  put m exec a = record m { of_exec = a }
  put m bulk a = record m { of_bulk = a }

  abbrev pub lanes_of : A → Lanes A
  lanes_of a = record { of_control = a; of_exec = a; of_bulk = a }
