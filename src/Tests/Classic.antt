-- ===== src/Tests/Classic.antt =====
-- The theorems on src/rdma_hooks.c at concrete processes.
use rdma_intercept_ldperload.Base.{
  ◌≤◌, ◌≡◌, ◌↔◌, refl, arith, true, false, none, some, List, [], ◌∷◌, replicate,
}
use rdma_intercept_ldperload.Shm.{
  SharedMemoryData, ShmHandle, init_segment, write_slot, process_usage, max_processes,
}
use rdma_intercept_ldperload.Hooks.{rc}
use rdma_intercept_ldperload.Hooks.Checks.{type_allowed}
use rdma_intercept_ldperload.Classic.{ClassicProcess, Answers, is_on}
use rdma_intercept_ldperload.Classic.Qp.{InitAttr, ibv_create_qp}
use rdma_intercept_ldperload.Classic.Mr.{ibv_reg_mr}
use rdma_intercept_ldperload.Classic.Laws
use rdma_intercept_ldperload.Classic.Laws.{
  Admits, create_qp-Admits, ClassicEvent, creates, destroys, IsWithin, run-IsWithin_limit,
}
use rdma_intercept_ldperload.Classic.Unmetered.{
  MrEvent, registers, deregisters, run, reg_mr-run, create_all, IsCrowded, create_qp-create_all,
}
use rdma_intercept_ldperload.Tests.{busy_table, table}
use rdma_intercept_ldperload.Tests.Hooks.{core}

abbrev busy_handle : ShmHandle
busy_handle = record { shm_fd = some 3; shm_data_ptr = some busy_table }

abbrev process : ClassicProcess
process = record { pid = 100; core = core; ebpf_initialized = false; shm = busy_handle }

abbrev answers : Answers
answers = record { ebpf = none; memory_limit = λ n. false; now_ns = 5 }

abbrev attr : InitAttr
attr = record { qp_type = rc; max_send_wr = 16; max_recv_wr = 16 }

create_qp-Admits_example :
    ((ibv_create_qp answers (some (some 9)) attr process).0.called ≡ true)
    ↔ Admits answers attr process
unfolding is_on
create_qp-Admits_example = create_qp-Admits answers (some 9) attr process refl refl

process-IsWithin : IsWithin process 7 busy_table 0
unfolding is_on process_usage write_slot init_segment
process-IsWithin = record {
  enabled = refl;
  controlled = refl;
  limit = refl;
  word = omega arith;
  real_pid = refl;
  mapped = refl;
  same_length = refl;
  present = refl;
  published = omega arith;
  within = omega arith;
}

abbrev events : List (Answers × ClassicEvent)
events =
    (answers, creates attr (some 9)) ∷ (answers, destroys 0) ∷ (answers, creates attr none) ∷ []

run-IsWithin_limit_example : (Laws.run events process).core.qp_count ≤ 7
run-IsWithin_limit_example = run-IsWithin_limit events process 7 busy_table 0 process-IsWithin

abbrev regions : List (Answers × MrEvent)
regions =
    (answers, registers (some 9) 900000)
    ∷ (answers, registers (some 8) 900000)
    ∷ (answers, deregisters 0 (some 900000))
    ∷ []

reg_mr-run_example :
    (ibv_reg_mr answers (some (some 7)) 900000 (run regions process)).0.called ≡ true
unfolding is_on process_usage write_slot init_segment
reg_mr-run_example =
    reg_mr-run regions answers (some 7) 900000 process busy_table refl refl refl (ground arith)
      (ground arith) refl

-- A segment whose every entry belongs to process 7.
abbrev crowded : SharedMemoryData
crowded = record table { process_pids = replicate max_processes 7 }

abbrev crowded_process : ClassicProcess
crowded_process = record process { shm = record { shm_fd = some 3; shm_data_ptr = some crowded } }

process-IsCrowded : IsCrowded attr crowded_process crowded
unfolding is_on init_segment type_allowed
process-IsCrowded = record {
  enabled = refl;
  mapped = refl;
  real_pid = refl;
  no_entry = refl;
  no_room = refl;
  kind = refl;
  process_limit = omega arith;
  global_limit = omega arith;
  send_room = omega arith;
  recv_room = omega arith;
}

create_qp-create_all_example :
    (ibv_create_qp answers
      (some (some 9))
      attr
      (create_all ((answers, some 1) ∷ (answers, some 2) ∷ []) attr crowded_process)).0.called
    ≡ true
create_qp-create_all_example =
    create_qp-create_all ((answers, some 1) ∷ (answers, some 2) ∷ []) answers (some 9) attr
      crowded_process crowded process-IsCrowded
