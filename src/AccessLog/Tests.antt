-- ===== src/AccessLog/Tests.antt =====
-- The access log of http.hpp at a small run.
use multi_threaded_proxy_ser.Base.{◌≡◌, refl, List, [], ◌∷◌, ◌++◌, some, codes, arith}
use multi_threaded_proxy_ser.AccessLog.{AccessLog, initial, flush}
use multi_threaded_proxy_ser.AccessLog.Buffer.{
  Holds, IsBounded, LogCall, writes, flushes, run, lines_of, flush-run, run-IsBounded,
}

-- A log whose file has a line already.
abbrev opened : AccessLog
opened = record initial { file = some (codes "old\n") }

abbrev calls : List LogCall
calls = writes (codes "a") ∷ flushes ∷ writes (codes "b") ∷ []

opened-Holds : Holds opened (codes "old\n")
opened-Holds = record { written = codes "old\n"; is_file = refl; content = refl }

flush-run_example :
    ((flush (run opened calls)).file ≡ some (codes "old\n" ++ lines_of calls))
    × ((flush (run opened calls)).buf ≡ [])
flush-run_example = flush-run calls opened (codes "old\n") opened-Holds

run-IsBounded_example : IsBounded (run opened calls)
run-IsBounded_example = run-IsBounded calls opened (omega arith, λ e. refl)
