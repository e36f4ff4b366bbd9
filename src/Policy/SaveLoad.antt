-- ===== src/Policy/SaveLoad.antt =====
-- src/dynamic_policy_manager.c: what a policy file that was saved gives when it is loaded.
use rdma_intercept_ldperload.Base.{
  ℕ, zero, suc, ◌+◌, ◌*◌, ◌/◌, ◌%◌, ◌^◌, ◌≤◌, ◌<◌, ◌≡◌, refl, sym, ap, Bool, true, false, not, ◌&&◌,
  some, [], ◌∷◌, ◌++◌, ◌==◌, length, if◌then◌else◌, arith,
}
use rdma_intercept_ldperload.Text.{Bytes, codes, skip_spaces, read_digits, same_text}
use rdma_intercept_ldperload.Text.Decimal.{
  put_digits, print_unsigned, scan_unsigned, scan_unsigned-print_unsigned,
}
use rdma_intercept_ldperload.Text.Visible.{
  all_visible, visible-print_unsigned, length-print_unsigned,
}
use rdma_intercept_ldperload.Shm.{success}
use rdma_intercept_ldperload.Config.Load.{fgets_all}
use rdma_intercept_ldperload.Policy.{PolicyConfig, PolicyState}
use rdma_intercept_ldperload.Policy.Files.{
  text_of, read_word, is_empty, is_skipped, scan_pair, with_max_per_process, with_max_global,
  with_max_memory, put_key, load_line, load_lines, load_config, entry_line, saved_text, save_config,
}

put_digits-append :
    (rounds n : ℕ) (s t : Bytes) → put_digits rounds n (s ++ t) ≡ put_digits rounds n s ++ t
unfolding put_digits
put_digits-append zero n s t = refl
put_digits-append (suc rounds) n s t =
    ground (arith, put_digits-append rounds (n / 10) ((48 + n % 10) ∷ s) t)

lacks_newline : Bytes → Bool
lacks_newline [] = true
lacks_newline (c ∷ s) = not (c == 10) && lacks_newline s

visible-lacks_newline : (s : Bytes) → all_visible s ≡ true → lacks_newline s ≡ true
unfolding all_visible lacks_newline
visible-lacks_newline [] h = refl
visible-lacks_newline (c ∷ s) h = ground (arith, visible-lacks_newline s)

-- A line that fits the buffer is read whole, and the next one starts behind it.
fgets_all-append :
    (size room : ℕ) (s t : Bytes)
    → lacks_newline s ≡ true
    → length s ≤ room
    → fgets_all size room (s ++ (10 ∷ t)) ≡ (s ++ (10 ∷ [])) ∷ fgets_all size size t
unfolding fgets_all lacks_newline
fgets_all-append size zero [] t h short = refl
fgets_all-append size (suc room) [] t h short = refl
fgets_all-append size zero (c ∷ s) t h short = absurd (omega arith)
fgets_all-append size (suc room) (c ∷ s) t h short = ground (arith, fgets_all-append size room s t)

text_of-visible : (s : Bytes) → all_visible s ≡ true → text_of (s ++ (10 ∷ [])) ≡ s ++ (10 ∷ [])
unfolding text_of all_visible
text_of-visible [] h = refl
text_of-visible (c ∷ s) h = ground (arith, text_of-visible s)

-- The number of a line, with the space before it and the newline after it.
scan_unsigned-line :
    (n : ℕ) → n < 2 ^ 32 → scan_unsigned (32 ∷ text_of (print_unsigned n [] ++ (10 ∷ []))) ≡ some n
unfolding scan_unsigned skip_spaces print_unsigned read_digits
scan_unsigned-line n word =
    rw
      (
        text_of-visible (print_unsigned n []) (visible-print_unsigned n),
        sym (put_digits-append 20 n [] (10 ∷ [])),
      )
      (scan_unsigned-print_unsigned n (10 ∷ []) (omega arith) refl)

scan_pair-read :
    (s key rest : Bytes) (n : ℕ)
    → read_word 63 (skip_spaces s) ≡ (key, rest)
    → is_empty key ≡ false
    → scan_unsigned rest ≡ some n
    → n < 2 ^ 32
    → scan_pair s ≡ some (key, n)
unfolding scan_pair
scan_pair-read s key rest n read full scan word =
    let small : n % 2 ^ 32 ≡ n = omega arith in
    let first : (read_word 63 (skip_spaces s)).0 ≡ key = ap (λ p. p.0) read in
    rw (scan_pair, read, full, scan, small, first) refl

-- A line of a key and a 32-bit number goes to the field of the key.
load_line-entry :
    (line key : Bytes) (n : ℕ) (c : PolicyConfig)
    → is_skipped line ≡ false
    → is_empty key ≡ false
    → read_word 63 (skip_spaces (text_of line))
      ≡ (key, 32 ∷ text_of (print_unsigned n [] ++ (10 ∷ [])))
    → n < 2 ^ 32
    → load_line line c ≡ put_key key n c
unfolding load_line
load_line-entry line key n c plain full read word =
    rw
      (
        load_line,
        plain,
        scan_pair-read (text_of line) key _ n read full (scan_unsigned-line n word) word,
      )
      refl

-- A line of a key and a number, in front of the rest of the file.
load_lines-entry :
    (key : Bytes) (n : ℕ) (t : Bytes) (c : PolicyConfig)
    → is_skipped (entry_line key n ++ (10 ∷ [])) ≡ false
    → is_empty key ≡ false
    → read_word 63 (skip_spaces (text_of (entry_line key n ++ (10 ∷ []))))
      ≡ (key, 32 ∷ text_of (print_unsigned n [] ++ (10 ∷ [])))
    → lacks_newline (entry_line key n) ≡ true
    → length (entry_line key n) ≤ 254
    → n < 2 ^ 32
    → load_lines (fgets_all 254 254 (entry_line key n ++ (10 ∷ t))) c
      ≡ load_lines (fgets_all 254 254 t) (put_key key n c)
unfolding load_lines
load_lines-entry key n t c plain full read lacks short word =
    rw
      (
        fgets_all-append 254 254 (entry_line key n) t lacks short,
        load_lines,
        load_line-entry (entry_line key n ++ (10 ∷ [])) key n c plain full read word,
      )
      refl

print_unsigned-lacks_newline : (n : ℕ) → lacks_newline (print_unsigned n []) ≡ true
print_unsigned-lacks_newline n =
    visible-lacks_newline (print_unsigned n []) (visible-print_unsigned n)

print_unsigned-short : (n : ℕ) → length (print_unsigned n []) ≤ 20
print_unsigned-short n = length-print_unsigned n []

load_lines-max_qp_per_process :
    (n : ℕ) (t : Bytes) (c : PolicyConfig)
    → n < 2 ^ 32
    → load_lines (fgets_all 254 254 (entry_line (codes "max_qp_per_process") n ++ (10 ∷ t))) c
      ≡ load_lines
          (fgets_all 254 254 t)
          (record c { qp_policy = with_max_per_process n c.qp_policy })
unfolding read_word text_of skip_spaces lacks_newline put_key same_text
load_lines-max_qp_per_process n t c word =
    load_lines-entry (codes "max_qp_per_process") n t c refl refl refl
      (print_unsigned-lacks_newline n) (ground (arith, print_unsigned-short n)) word

load_lines-max_global_qp :
    (n : ℕ) (t : Bytes) (c : PolicyConfig)
    → n < 2 ^ 32
    → load_lines (fgets_all 254 254 (entry_line (codes "max_global_qp") n ++ (10 ∷ t))) c
      ≡ load_lines (fgets_all 254 254 t) (record c { qp_policy = with_max_global n c.qp_policy })
unfolding read_word text_of skip_spaces lacks_newline put_key same_text
load_lines-max_global_qp n t c word =
    load_lines-entry (codes "max_global_qp") n t c refl refl refl (print_unsigned-lacks_newline n)
      (ground (arith, print_unsigned-short n)) word

load_lines-max_mr_per_process :
    (n : ℕ) (t : Bytes) (c : PolicyConfig)
    → n < 2 ^ 32
    → load_lines (fgets_all 254 254 (entry_line (codes "max_mr_per_process") n ++ (10 ∷ t))) c
      ≡ load_lines
          (fgets_all 254 254 t)
          (record c { mr_policy = with_max_per_process n c.mr_policy })
unfolding read_word text_of skip_spaces lacks_newline put_key same_text
load_lines-max_mr_per_process n t c word =
    load_lines-entry (codes "max_mr_per_process") n t c refl refl refl
      (print_unsigned-lacks_newline n) (ground (arith, print_unsigned-short n)) word

load_lines-max_global_mr :
    (n : ℕ) (t : Bytes) (c : PolicyConfig)
    → n < 2 ^ 32
    → load_lines (fgets_all 254 254 (entry_line (codes "max_global_mr") n ++ (10 ∷ t))) c
      ≡ load_lines (fgets_all 254 254 t) (record c { mr_policy = with_max_global n c.mr_policy })
unfolding read_word text_of skip_spaces lacks_newline put_key same_text
load_lines-max_global_mr n t c word =
    load_lines-entry (codes "max_global_mr") n t c refl refl refl (print_unsigned-lacks_newline n)
      (ground (arith, print_unsigned-short n)) word

load_lines-max_memory_mb :
    (n : ℕ) (t : Bytes) (c : PolicyConfig)
    → n < 2 ^ 32
    → load_lines (fgets_all 254 254 (entry_line (codes "max_memory_mb") n ++ (10 ∷ t))) c
      ≡ load_lines
          (fgets_all 254 254 t)
          (record c { memory_policy = with_max_memory (n * (1024 * 1024)) c.memory_policy })
unfolding read_word text_of skip_spaces lacks_newline put_key same_text
load_lines-max_memory_mb n t c word =
    load_lines-entry (codes "max_memory_mb") n t c refl refl refl (print_unsigned-lacks_newline n)
      (ground (arith, print_unsigned-short n)) word

load_lines-auto_adjust :
    (n : ℕ) (t : Bytes) (c : PolicyConfig)
    → n < 2 ^ 32
    → load_lines (fgets_all 254 254 (entry_line (codes "auto_adjust") n ++ (10 ∷ t))) c
      ≡ load_lines (fgets_all 254 254 t) (record c { auto_adjust = not (n == 0) })
unfolding read_word text_of skip_spaces lacks_newline put_key same_text
load_lines-auto_adjust n t c word =
    load_lines-entry (codes "auto_adjust") n t c refl refl refl (print_unsigned-lacks_newline n)
      (ground (arith, print_unsigned-short n)) word

load_lines-adjust_interval :
    (n : ℕ) (t : Bytes) (c : PolicyConfig)
    → n < 2 ^ 32
    → load_lines (fgets_all 254 254 (entry_line (codes "adjust_interval") n ++ (10 ∷ t))) c
      ≡ load_lines (fgets_all 254 254 t) (record c { adjust_interval = n })
unfolding read_word text_of skip_spaces lacks_newline put_key same_text
load_lines-adjust_interval n t c word =
    load_lines-entry (codes "adjust_interval") n t c refl refl refl (print_unsigned-lacks_newline n)
      (ground (arith, print_unsigned-short n)) word

load_lines-header :
    (t : Bytes) (c : PolicyConfig)
    → load_lines (fgets_all 254 254 (codes "# RDMA Dynamic Policy Configuration" ++ (10 ∷ t))) c
      ≡ load_lines (fgets_all 254 254 t) c
unfolding load_lines load_line lacks_newline
load_lines-header t c =
    rw
      (
        fgets_all-append 254 254 (codes "# RDMA Dynamic Policy Configuration") t refl (omega arith),
        load_lines,
        load_line,
      )
      refl

-- The fields that are written are what C holds: the counts and the interval 32-bit words, the memory
-- limit so many MiB.
pub record FitsFile (c : PolicyConfig) : Type 0 where
  pub qp_process : c.qp_policy.limit.max_per_process < 2 ^ 32
  pub qp_global : c.qp_policy.limit.max_global < 2 ^ 32
  pub mr_process : c.mr_policy.limit.max_per_process < 2 ^ 32
  pub mr_global : c.mr_policy.limit.max_global < 2 ^ 32
  pub memory : c.memory_policy.limit.max_memory < 2 ^ 52
  pub interval : c.adjust_interval < 2 ^ 32

-- The policy that stands, with the fields of a file that was saved from another one; memory is
-- rounded down to MiB.
abbrev pub restored : PolicyConfig → PolicyConfig → PolicyConfig
restored saved c = record c {
  qp_policy =
      with_max_global saved.qp_policy.limit.max_global
        (with_max_per_process saved.qp_policy.limit.max_per_process c.qp_policy);
  mr_policy =
      with_max_global saved.mr_policy.limit.max_global
        (with_max_per_process saved.mr_policy.limit.max_per_process c.mr_policy);
  memory_policy =
      with_max_memory (saved.memory_policy.limit.max_memory / (1024 * 1024) * (1024 * 1024))
        c.memory_policy;
  auto_adjust = saved.auto_adjust;
  adjust_interval = saved.adjust_interval;
}

flag-word : (b : Bool) → (if b then 1 else 0) < 2 ^ 32
flag-word true = omega arith
flag-word false = omega arith

flag-restored : (b : Bool) → not ((if b then 1 else 0) == 0) ≡ b
flag-restored true = refl
flag-restored false = refl

-- A policy that is saved to a file and loaded in any process gives that process the limits of queue
-- pairs and regions, the memory limit rounded down to MiB, the switch and the interval of the one that
-- saved, and changes nothing else of its state, where the counts are 32-bit words and the memory limit
-- is below 2^52 bytes.
pub save_config-load_config :
    (s t : PolicyState)
    → FitsFile s.config
    → load_config (save_config true s).1 t
      ≡ (success, record t { config = restored s.config t.config })
unfolding load_config save_config
save_config-load_config s t fits =
    let c = s.config in
    let megabytes : c.memory_policy.limit.max_memory / (1024 * 1024) < 2 ^ 32 =
      ground (arith, fits.memory) in
    rw
      (
        load_config,
        save_config,
        saved_text,
        load_lines-header,
        load_lines-max_qp_per_process c.qp_policy.limit.max_per_process _ _ fits.qp_process,
        load_lines-max_global_qp c.qp_policy.limit.max_global _ _ fits.qp_global,
        load_lines-max_mr_per_process c.mr_policy.limit.max_per_process _ _ fits.mr_process,
        load_lines-max_global_mr c.mr_policy.limit.max_global _ _ fits.mr_global,
        load_lines-max_memory_mb _ _ _ megabytes,
        load_lines-auto_adjust _ _ _ (flag-word c.auto_adjust),
        load_lines-adjust_interval c.adjust_interval _ _ fits.interval,
        flag-restored,
      )
      refl
