-- ===== src/Tasks/Manager/Ops.antt =====
-- agent/tasks/manager.py: calls of the methods that change the manager, one after the other.
use agent_life_space.Prelude.{String, Option, List, [], ◌∷◌}
use agent_life_space.Prelude.Float.{Float}
use agent_life_space.Json.{Fields}
use agent_life_space.Tasks.Manager.{
  Manager, NewTask, create_task, start_task, complete_task, fail_task, cancel_task,
}

-- An id that `create_task` draws, or is called with, may be anything.
pub data Op (F : Type 0) : Type 0 where
  create_op : String → String → NewTask F → Op F
  start_op : String → String → Op F
  complete_op : String → String → Option (Fields F) → Op F
  fail_op : String → String → String → Op F
  cancel_op : String → String → Op F

module _ (ops : Float) where
  open ops use {Num}

  unfoldable pub perform : Op Num → Manager Num → Manager Num
  perform (create_op id now n) s = (create_task ops id now n s).1
  perform (start_op now id) s = (start_task now id s).1
  perform (complete_op now id result) s = (complete_task now id result s).1
  perform (fail_op now id error) s = (fail_task now id error s).1
  perform (cancel_op now id) s = (cancel_task now id s).1

  unfoldable pub perform_all : List (Op Num) → Manager Num → Manager Num
  perform_all [] s = s
  perform_all (op ∷ rest) s = perform_all rest (perform op s)
