-- ===== src/Config/Priority.antt =====
-- src/config.c: a limit written as a line of the file is read back, and which source has the last word.
use rdma_intercept_ldperload.Base.{
  ℕ, zero, suc, ◌^◌, ◌≤◌, ◌<◌, ◌≡◌, ◌∙◌, refl, Bool, true, false, not, ◌&&◌, Option, some, List, [],
  ◌∷◌, ◌++◌, ◌==◌, length, arith,
}
use rdma_intercept_ldperload.Text.{Bytes, codes, is_space, skip_spaces, read_digits, same_case}
use rdma_intercept_ldperload.Text.Decimal.{print_unsigned, strtol-print_unsigned}
use rdma_intercept_ldperload.Text.Visible.{
  all_visible, visible-print_unsigned, visible-append, length-print_unsigned,
}
use rdma_intercept_ldperload.Hooks.{InterceptConfig, InterceptState}
use rdma_intercept_ldperload.Config.{parse_limit, trim_whitespace, trim_end}
use rdma_intercept_ldperload.Config.Entries.{
  find_entry, config_table, parse_assignment, parse_config_line, split_equals, starts_comment,
  parse_max_global_qp, parse_max_qp_per_process, parse_max_send_wr_limit, parse_max_recv_wr_limit,
}
use rdma_intercept_ldperload.Config.Load.{
  load_config_from_env, parse_lines, cut_line, fgets_all, config_content,
  rdma_intercept_load_config,
}
use rdma_intercept_ldperload.Config.Lines.{file_text, parse_lines-file_text}

trim_end-visible : (s : Bytes) → all_visible s ≡ true → trim_end is_space s ≡ s
unfolding trim_end all_visible
trim_end-visible [] h = refl
trim_end-visible (c ∷ []) h = ground arith
trim_end-visible (c ∷ d ∷ s) h = rw (trim_end-visible (d ∷ s) (ground arith)) refl

trim-visible : (s : Bytes) → all_visible s ≡ true → trim_whitespace s ≡ s
unfolding trim_whitespace all_visible skip_spaces
trim-visible [] h = ground arith
trim-visible (c ∷ s) h = ground (arith, trim_end-visible (c ∷ s) h)

cut-visible : (s t : Bytes) → all_visible s ≡ true → cut_line (s ++ (10 ∷ t)) ≡ s
unfolding cut_line all_visible
cut-visible [] t h = refl
cut-visible (c ∷ s) t h = ground (arith, cut-visible s t)

parse_limit-print_unsigned :
    (n : ℕ) → 1 ≤ n → n < 2 ^ 32 → parse_limit (print_unsigned n []) ≡ some n
unfolding parse_limit read_digits
parse_limit-print_unsigned n low high =
    ground (arith, strtol-print_unsigned n [] (omega arith) refl)

parse_config_line-visible :
    (c : ℕ) (s : Bytes) (config : InterceptConfig)
    → all_visible (c ∷ s) ≡ true
    → starts_comment c ≡ false
    → parse_config_line (c ∷ s) config ≡ parse_assignment (c ∷ s) config
unfolding parse_config_line
parse_config_line-visible c s config h plain =
    rw (parse_config_line, trim-visible (c ∷ s) h, plain) refl

parse_assignment-split :
    (line key value : Bytes) (config : InterceptConfig)
    → split_equals line ≡ some (key, value)
    → all_visible key ≡ true
    → all_visible value ≡ true
    → parse_assignment line config ≡ find_entry config_table key value config
unfolding parse_assignment
parse_assignment-split line key value config e hk hv =
    rw (parse_assignment, e, trim-visible key hk, trim-visible value hv) refl

lacks_equals : Bytes → Bool
lacks_equals [] = true
lacks_equals (c ∷ s) = not (c == 61) && lacks_equals s

split_equals-append :
    (key value : Bytes)
    → lacks_equals key ≡ true
    → split_equals (key ++ (61 ∷ value)) ≡ some (key, value)
unfolding split_equals lacks_equals
split_equals-append [] value h = refl
split_equals-append (c ∷ key) value h = ground (arith, split_equals-append key value)

-- A line of a key, `=` and a value, all of visible bytes, goes to the entry of its key.
parse_config_line-entry :
    (c : ℕ) (key value : Bytes) (config : InterceptConfig)
    → starts_comment c ≡ false
    → all_visible (c ∷ key) ≡ true
    → lacks_equals (c ∷ key) ≡ true
    → all_visible value ≡ true
    → parse_config_line ((c ∷ key) ++ (61 ∷ value)) config
      ≡ find_entry config_table (c ∷ key) value config
unfolding all_visible
parse_config_line-entry c key value config plain hk lacks hv =
    parse_config_line-visible c (key ++ (61 ∷ value)) config
      (visible-append (c ∷ key) (61 ∷ value) hk hv) plain
    ∙ parse_assignment-split ((c ∷ key) ++ (61 ∷ value)) (c ∷ key) value config
        (split_equals-append (c ∷ key) value lacks) hk hv

-- `key=n` in decimal.
abbrev pub limit_line : Bytes → ℕ → Bytes
limit_line key n = key ++ (61 ∷ print_unsigned n [])

-- A positive 32-bit limit written in decimal behind one of the four keys for limits is read back into
-- the field of that key, and nothing else of the configuration changes.
pub parse_config_line-limit_line :
    (n : ℕ) (config : InterceptConfig)
    → 1 ≤ n
    → n < 2 ^ 32
    → (parse_config_line (limit_line (codes "max_qp_per_process") n) config
        ≡ some (record config { max_qp_per_process = n }))
      × (parse_config_line (limit_line (codes "max_send_wr_limit") n) config
          ≡ some (record config { max_send_wr_limit = n }))
      × (parse_config_line (limit_line (codes "max_recv_wr_limit") n) config
          ≡ some (record config { max_recv_wr_limit = n }))
      × (parse_config_line (limit_line (codes "max_global_qp") n) config
          ≡ some (record config { max_global_qp = n }))
unfolding find_entry config_table same_case all_visible lacks_equals parse_max_global_qp
    parse_max_qp_per_process parse_max_send_wr_limit parse_max_recv_wr_limit
parse_config_line-limit_line n config low high =
    let value = print_unsigned n [] in
    let seen = visible-print_unsigned n in
    let read = parse_limit-print_unsigned n low high in
    (
      parse_config_line-entry 109 (codes "ax_qp_per_process") value config refl refl refl seen
          ∙ rw read refl,
      parse_config_line-entry 109 (codes "ax_send_wr_limit") value config refl refl refl seen
          ∙ rw read refl,
      parse_config_line-entry 109 (codes "ax_recv_wr_limit") value config refl refl refl seen
          ∙ rw read refl,
      parse_config_line-entry 109 (codes "ax_global_qp") value config refl refl refl seen
          ∙ rw read refl,
    )

fgets_all-line :
    (size room : ℕ) (s : Bytes)
    → all_visible s ≡ true
    → length s ≤ room
    → fgets_all size room (s ++ (10 ∷ [])) ≡ (s ++ (10 ∷ [])) ∷ []
unfolding fgets_all all_visible
fgets_all-line size zero [] h short = refl
fgets_all-line size (suc room) [] h short = refl
fgets_all-line size zero (c ∷ s) h short = absurd (omega arith)
fgets_all-line size (suc room) (c ∷ s) h short = ground (arith, fgets_all-line size room s)

parse_lines-limit_line :
    (n : ℕ) (config : InterceptConfig)
    → 1 ≤ n
    → n < 2 ^ 32
    → (parse_lines
        (fgets_all 1022 1022 (limit_line (codes "max_global_qp") n ++ (10 ∷ [])))
        config).max_global_qp
      ≡ n
unfolding parse_lines all_visible
parse_lines-limit_line n config low high =
    let line = limit_line (codes "max_global_qp") n in
    let seen : all_visible line ≡ true = visible-print_unsigned n in
    let short : length line ≤ 1022 = ground (arith, length-print_unsigned n []) in
    rw
      (
        fgets_all-line 1022 1022 line seen short,
        parse_lines,
        cut-visible line [] seen,
        (parse_config_line-limit_line n config low high).3,
      )
      refl

-- A file whose last line sets `max_global_qp` to a positive 32-bit number, behind any other lines, has
-- the last word: the limit in force is the file's, whatever the environment and the other lines say.
pub load_config-file_last :
    (getenv open_file : Bytes → Option Bytes) (path : Bytes) (lines : List Bytes) (n : ℕ)
    (state : InterceptState)
    → open_file path ≡ some (file_text lines (limit_line (codes "max_global_qp") n ++ (10 ∷ [])))
    → 1 ≤ n
    → n < 2 ^ 32
    → (rdma_intercept_load_config getenv open_file (some path) state).config.max_global_qp ≡ n
unfolding rdma_intercept_load_config config_content
load_config-file_last getenv open_file path lines n state e low high =
    let last = limit_line (codes "max_global_qp") n ++ (10 ∷ []) in
    let (c, same) = parse_lines-file_text lines last (load_config_from_env getenv state.config) in
    rw (rdma_intercept_load_config, e, same) (parse_lines-limit_line n c low high)
