-- ===== src/Tasks/Manager/Restart.antt =====
-- agent/tasks/manager.py: `initialize` reads back what the table keeps.
use agent_life_space.Prelude.{
  String, false, ◌≡◌, refl, ◌∙◌, Option, none, some, List, [], ◌∷◌, arith, Dict, lookup, insert,
  keys, values, Distinct, AllIn, lookup-insert, elem, eq_of_==, ==_refl,
}
use agent_life_space.Prelude.Float.{Float}
use agent_life_space.Prelude.Result.{ok}
use agent_life_space.Json.{Fields}
use agent_life_space.Tasks.Task.{Task}
use agent_life_space.Tasks.Task.Codec.{Task-from_dict-to_dict}
use agent_life_space.Tasks.Manager.{Manager, load_rows, initialize}
use agent_life_space.Tasks.Manager.Ops.{Op, perform_all}
use agent_life_space.Tasks.Manager.Mirror.{dump, IsAtId, IsMirrored, run-IsMirrored}

module _ {F : Type 0} where
  -- Entering the dumped tasks one after the other.
  entered : Dict (Task F) → Dict (Task F) → Dict (Task F)
  entered [] tasks = tasks
  entered ((k, t) ∷ d) tasks = entered d (insert t.id t tasks)

  load_rows-dump :
      (half : F) (d tasks : Dict (Task F))
      → load_rows half (values (dump d)) tasks ≡ ok (entered d tasks)
  unfolding load_rows dump entered
  load_rows-dump half [] tasks = refl
  load_rows-dump half ((k, t) ∷ d) tasks =
      rw (Task-from_dict-to_dict F half t) (load_rows-dump half d (insert t.id t tasks))

  lookup-absent : (k : String) (d : Dict (Task F)) → elem k (keys d) ≡ false → lookup k d ≡ none
  unfolding lookup elem
  lookup-absent k [] h = refl
  lookup-absent k ((j, t) ∷ d) h = ground (arith, lookup-absent k d, eq_of_== j k, ==_refl k)

  lookup-entered :
      (k : String) (d tasks : Dict (Task F))
      → Distinct (keys d)
      → AllIn IsAtId d
      → lookup k (entered d tasks) ≡ elim (lookup k d) [ none ↦ lookup k tasks | some t ↦ some t ]
  unfolding entered lookup elem
  lookup-entered k [] tasks once own = refl
  lookup-entered k ((j, t) ∷ d) tasks once own = ground (
    arith,
    lookup-entered k d (insert t.id t tasks) once.1 own.1,
    lookup-insert t.id k t tasks,
    lookup-absent k d,
    own.0,
    eq_of_== j k,
    eq_of_== t.id k,
    ==_refl k,
  )

  -- A manager without tasks.
  abbrev pub fresh : Option (Dict (Fields F)) → Manager F
  fresh db = record { tasks = []; db = db }

  fresh-IsMirrored : IsMirrored (fresh (some []))
  unfolding dump
  fresh-IsMirrored = record {
    held = [];
    written = refl;
    same = λ k. refl;
    each_once = tt;
    at_its_id = tt;
  }

  initialize-dump :
      (half : F) (s : Manager F) (m : IsMirrored s)
      → (initialize half (dump m.held) (fresh none)
          ≡ ok (record { tasks = entered m.held []; db = some (dump m.held) }))
        × ((k : String) → lookup k (entered m.held []) ≡ lookup k s.tasks)
  unfolding initialize lookup
  initialize-dump half s m = (
    rw load_rows-dump,
    λ k. lookup-entered k m.held [] m.each_once m.at_its_id ∙ ground arith ∙ m.same k,
  )

module _ (ops : Float) where
  open ops use {Num}

  -- A manager that was initialized from an empty table has, after any sequence of calls, a table
  -- from which another one that starts reads the same task under every id.
  pub initialize-perform_all :
      (half : Num) (os : List (Op Num))
      → let s = perform_all ops os (fresh (some [])) in
        (rows : Dict (Fields Num)) × (s' : Manager Num) × (s.db ≡ some rows)
        × (initialize half rows (fresh none) ≡ ok s')
        × ((k : String) → lookup k s'.tasks ≡ lookup k s.tasks)
  initialize-perform_all half os =
      let m = run-IsMirrored ops os (fresh (some [])) fresh-IsMirrored in
      let read = initialize-dump half _ m in
      (
        dump m.held,
        record { tasks = entered m.held []; db = some (dump m.held) },
        m.written,
        read.0,
        read.1,
      )
