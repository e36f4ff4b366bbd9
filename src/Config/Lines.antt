-- ===== src/Config/Lines.antt =====
-- The lines of a file as the loop of src/config.c over `fgets` takes them.
use rdma_intercept_ldperload.Base.{
  ℕ, zero, suc, ◌≡◌, refl, ap, ◌∙◌, List, [], ◌∷◌, ◌++◌, ◌==◌, Bool-cases, inl, inr,
}
use rdma_intercept_ldperload.Text.{Bytes}
use rdma_intercept_ldperload.Hooks.{InterceptConfig}
use rdma_intercept_ldperload.Config.Load.{extend, fgets_all, parse_lines}

-- A list with a first element.
record HasHead {ℓ} {A : Type ℓ} (xs : List A) : Type ℓ where
  head : A
  tail : List A
  split : xs ≡ head ∷ tail

extend-HasHead : (c : ℕ) (chunks : List Bytes) → HasHead (extend c chunks)
extend-HasHead c [] = record { head = c ∷ []; tail = []; split = refl }
extend-HasHead c (chunk ∷ chunks) = record { head = c ∷ chunk; tail = chunks; split = refl }

fgets_all-HasHead : (size room c : ℕ) (s : Bytes) → HasHead (fgets_all size room (c ∷ s))
unfolding fgets_all
fgets_all-HasHead size zero c s = record { head = c ∷ []; tail = _; split = refl }
fgets_all-HasHead size (suc room) c s = elim (Bool-cases (c == 10)) [
  | inl e ↦ rw e (record { head = c ∷ []; tail = _; split = refl })
  | inr n ↦ rw n (extend-HasHead c (fgets_all size room s))
]

-- There is a chunk where there is a newline to come.
fgets_all-line_HasHead :
    (size room : ℕ) (s t : Bytes) → HasHead (fgets_all size room (s ++ (10 ∷ t)))
fgets_all-line_HasHead size room [] t = fgets_all-HasHead size room 10 t
fgets_all-line_HasHead size room (c ∷ s) t = fgets_all-HasHead size room c (s ++ (10 ∷ t))

extend-append : (c : ℕ) (xs ys : List Bytes) → HasHead xs → extend c (xs ++ ys) ≡ extend c xs ++ ys
extend-append c xs ys h = rw h.split refl

-- Whatever precedes a newline, the chunks start anew behind it.
fgets_all-newline :
    (size room : ℕ) (s t : Bytes)
    → fgets_all size room (s ++ (10 ∷ t))
      ≡ fgets_all size room (s ++ (10 ∷ [])) ++ fgets_all size size t
unfolding fgets_all
fgets_all-newline size zero [] t = refl
fgets_all-newline size (suc room) [] t = refl
fgets_all-newline size zero (c ∷ s) t = ap (λ xs. (c ∷ []) ∷ xs) (fgets_all-newline size size s t)
fgets_all-newline size (suc room) (c ∷ s) t = elim (Bool-cases (c == 10)) [
  | inl e ↦ rw e (ap (λ xs. (c ∷ []) ∷ xs) (fgets_all-newline size size s t))
  | inr n ↦ rw n (
      ap (extend c) (fgets_all-newline size room s t)
      ∙ extend-append c (fgets_all size room (s ++ (10 ∷ []))) (fgets_all size size t)
          (fgets_all-line_HasHead size room s []))
]

pub parse_lines-append :
    (xs ys : List Bytes) (config : InterceptConfig)
    → parse_lines (xs ++ ys) config ≡ parse_lines ys (parse_lines xs config)
unfolding parse_lines
parse_lines-append [] ys config = refl
parse_lines-append (line ∷ xs) ys config = parse_lines-append xs ys _

-- Lines, each with its newline; a line of more than the buffer's size comes in several chunks.
abbrev pub file_text : List Bytes → Bytes → Bytes
file_text [] rest = rest
file_text (line ∷ lines) rest = line ++ (10 ∷ file_text lines rest)

-- What the lines of a file have made of a configuration when the rest of the file is read.
pub parse_lines-file_text :
    (lines : List Bytes) (rest : Bytes) (config : InterceptConfig)
    → (c : InterceptConfig) × (parse_lines (fgets_all 1022 1022 (file_text lines rest)) config
        ≡ parse_lines (fgets_all 1022 1022 rest) c)
parse_lines-file_text [] rest config = (config, refl)
parse_lines-file_text (line ∷ lines) rest config =
    let first = fgets_all 1022 1022 (line ++ (10 ∷ [])) in
    let (c, same) = parse_lines-file_text lines rest (parse_lines first config) in
    (
      c,
      ap (λ chunks. parse_lines chunks config)
            (fgets_all-newline 1022 1022 line (file_text lines rest))
          ∙ parse_lines-append first (fgets_all 1022 1022 (file_text lines rest)) config
          ∙ same,
    )
