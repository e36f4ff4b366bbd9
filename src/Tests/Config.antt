-- ===== src/Tests/Config.antt =====
-- The theorems on src/config.c at a concrete environment and file.
use rdma_intercept_ldperload.Base.{
  ◌≡◌, ◌++◌, refl, arith, Option, none, some, List, [], ◌∷◌, if◌then◌else◌,
}
use rdma_intercept_ldperload.Text.{Bytes, codes, same_text}
use rdma_intercept_ldperload.Config.Entries.{parse_config_line}
use rdma_intercept_ldperload.Config.Load.{rdma_intercept_load_config}
use rdma_intercept_ldperload.Config.Lines.{file_text}
use rdma_intercept_ldperload.Config.Sane.{IsSane}
use rdma_intercept_ldperload.Config.Laws.{load_config-IsSane}
use rdma_intercept_ldperload.Config.Priority.{
  limit_line, parse_config_line-limit_line, load_config-file_last,
}
use rdma_intercept_ldperload.Tests.Hooks.{config, core}

-- The environment limits the queue pairs of all processes to 5.
abbrev getenv : Bytes → Option Bytes
unfolding same_text
getenv name =
    if same_text name (codes "RDMA_INTERCEPT_MAX_GLOBAL_QP") then some (codes "5") else none

abbrev earlier_lines : List Bytes
earlier_lines = limit_line (codes "max_global_qp") 7 ∷ codes "# a note" ∷ []

-- Every path opens a file that limits them to 7, says something else, and then limits them to 64.
abbrev open_file : Bytes → Option Bytes
open_file path = some (file_text earlier_lines (limit_line (codes "max_global_qp") 64 ++ (10 ∷ [])))

config-IsSane : IsSane config
config-IsSane = record {
  qp = (omega arith, omega arith);
  send_wr = (omega arith, omega arith);
  recv_wr = (omega arith, omega arith);
  global_qp = (omega arith, omega arith);
  mr = (omega arith, omega arith);
  memory = (omega arith, omega arith);
  path = omega arith;
}

load_config-IsSane_example : IsSane (rdma_intercept_load_config getenv open_file none core).config
load_config-IsSane_example = load_config-IsSane getenv open_file none core config-IsSane

parse_config_line-limit_line_example :
    (parse_config_line (limit_line (codes "max_qp_per_process") 64) config
      ≡ some (record config { max_qp_per_process = 64 }))
    × (parse_config_line (limit_line (codes "max_send_wr_limit") 64) config
        ≡ some (record config { max_send_wr_limit = 64 }))
    × (parse_config_line (limit_line (codes "max_recv_wr_limit") 64) config
        ≡ some (record config { max_recv_wr_limit = 64 }))
    × (parse_config_line (limit_line (codes "max_global_qp") 64) config
        ≡ some (record config { max_global_qp = 64 }))
parse_config_line-limit_line_example =
    parse_config_line-limit_line 64 config (omega arith) (omega arith)

load_config-file_last_example :
    (rdma_intercept_load_config getenv open_file (some []) core).config.max_global_qp ≡ 64
load_config-file_last_example =
    load_config-file_last getenv open_file [] earlier_lines 64 core refl (omega arith) (omega arith)
